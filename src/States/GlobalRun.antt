-- ===== src/States/GlobalRun.antt =====
-- The Global Run states of src/domain-states.js.
use codex_threadhub.Base.{ℕ, String, ◌≡◌, refl, Bool, not, List, [], ◌∷◌, some, keep, Result}
use codex_threadhub.States.Machine.{
  Machine, Options, StateError, get_elem?, has, same, move, transition,
}

pub data GlobalRunStatus : Type 0 where
  accepted resolving_context planning preparing running waiting completed failed : GlobalRunStatus
  cancelled attention_required : GlobalRunStatus

abbrev pub global_run_statuses : List GlobalRunStatus
global_run_statuses =
    accepted ∷ resolving_context ∷ planning ∷ preparing ∷ running ∷ waiting ∷ completed ∷ failed
    ∷ cancelled ∷ attention_required ∷ []

abbrev pub global_run_spelling : GlobalRunStatus → String
global_run_spelling accepted = "accepted"
global_run_spelling resolving_context = "resolving_context"
global_run_spelling planning = "planning"
global_run_spelling preparing = "preparing"
global_run_spelling running = "running"
global_run_spelling waiting = "waiting"
global_run_spelling completed = "completed"
global_run_spelling failed = "failed"
global_run_spelling cancelled = "cancelled"
global_run_spelling attention_required = "attention_required"

abbrev pub global_run_code : GlobalRunStatus → ℕ
global_run_code accepted = 0
global_run_code resolving_context = 1
global_run_code planning = 2
global_run_code preparing = 3
global_run_code running = 4
global_run_code waiting = 5
global_run_code completed = 6
global_run_code failed = 7
global_run_code cancelled = 8
global_run_code attention_required = 9

abbrev pub global_run_moves : GlobalRunStatus → List GlobalRunStatus
global_run_moves accepted = resolving_context ∷ failed ∷ cancelled ∷ []
global_run_moves resolving_context = planning ∷ failed ∷ attention_required ∷ cancelled ∷ []
global_run_moves planning = preparing ∷ failed ∷ attention_required ∷ cancelled ∷ []
global_run_moves preparing = running ∷ failed ∷ attention_required ∷ cancelled ∷ []
global_run_moves running = waiting ∷ completed ∷ failed ∷ attention_required ∷ cancelled ∷ []
global_run_moves waiting = running ∷ failed ∷ attention_required ∷ cancelled ∷ []
global_run_moves _ = []

pub global_run_listed :
    (s : GlobalRunStatus) → get_elem? global_run_statuses (global_run_code s) ≡ some s
global_run_listed accepted = refl
global_run_listed _ = refl

abbrev pub global_run_machine : Machine GlobalRunStatus
global_run_machine = record {
  entity = "GlobalRun";
  label = "Global Run";
  statuses = global_run_statuses;
  spelling = global_run_spelling;
  code = global_run_code;
  moves = global_run_moves;
  listed = global_run_listed;
}

abbrev pub terminal_global_runs : List GlobalRunStatus
terminal_global_runs = completed ∷ failed ∷ cancelled ∷ attention_required ∷ []

abbrev pub is_global_run : GlobalRunStatus → GlobalRunStatus → Bool
is_global_run = same global_run_machine

abbrev pub global_run_in : List GlobalRunStatus → GlobalRunStatus → Bool
global_run_in = has global_run_machine

abbrev pub is_terminal_global_run : GlobalRunStatus → Bool
is_terminal_global_run = global_run_in terminal_global_runs

-- `GLOBAL_RUN_STATUSES` less the terminal ones.
abbrev pub active_global_runs : List GlobalRunStatus
active_global_runs = keep (λ s. not (is_terminal_global_run s)) global_run_statuses

unfoldable pub transition_global_run : String → String → Options → Result StateError GlobalRunStatus
unfolding transition
transition_global_run = transition global_run_machine

unfoldable pub move_global_run :
    GlobalRunStatus → GlobalRunStatus → Options → Result StateError GlobalRunStatus
unfolding move
move_global_run = move global_run_machine
