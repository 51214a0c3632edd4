-- ===== src/States/Run.antt =====
-- The Run states of src/domain-states.js.
use codex_threadhub.Base.{
  ℕ, String, ◌≡◌, refl, Bool, not, ◌&&◌, List, [], ◌∷◌, if◌then◌else◌, some, keep, Result, ok,
  ◌>>=◌,
}
use codex_threadhub.States.Machine.{
  Machine, Options, StateError, get_elem?, has, same, assert_known, move,
}

pub data RunStatus : Type 0 where
  draft accepted planning preparing agents_prepared awaiting_user_start running : RunStatus
  completed failed cancelled : RunStatus

abbrev pub run_statuses : List RunStatus
run_statuses =
    draft ∷ accepted ∷ planning ∷ preparing ∷ agents_prepared ∷ awaiting_user_start ∷ running
    ∷ completed ∷ failed ∷ cancelled ∷ []

abbrev pub run_spelling : RunStatus → String
run_spelling draft = "draft"
run_spelling accepted = "accepted"
run_spelling planning = "planning"
run_spelling preparing = "preparing"
run_spelling agents_prepared = "agents_prepared"
run_spelling awaiting_user_start = "awaiting_user_start"
run_spelling running = "running"
run_spelling completed = "completed"
run_spelling failed = "failed"
run_spelling cancelled = "cancelled"

abbrev pub run_code : RunStatus → ℕ
run_code draft = 0
run_code accepted = 1
run_code planning = 2
run_code preparing = 3
run_code agents_prepared = 4
run_code awaiting_user_start = 5
run_code running = 6
run_code completed = 7
run_code failed = 8
run_code cancelled = 9

abbrev pub run_moves : RunStatus → List RunStatus
run_moves draft = accepted ∷ planning ∷ preparing ∷ running ∷ failed ∷ cancelled ∷ []
run_moves accepted = planning ∷ failed ∷ cancelled ∷ []
run_moves planning = preparing ∷ failed ∷ cancelled ∷ []
run_moves preparing = agents_prepared ∷ awaiting_user_start ∷ running ∷ failed ∷ cancelled ∷ []
run_moves agents_prepared = running ∷ failed ∷ cancelled ∷ []
run_moves awaiting_user_start = preparing ∷ running ∷ failed ∷ cancelled ∷ []
run_moves running = completed ∷ failed ∷ cancelled ∷ []
run_moves _ = []

pub run_listed : (s : RunStatus) → get_elem? run_statuses (run_code s) ≡ some s
run_listed draft = refl
run_listed _ = refl

abbrev pub run_machine : Machine RunStatus
run_machine = record {
  entity = "Run";
  label = "Run";
  statuses = run_statuses;
  spelling = run_spelling;
  code = run_code;
  moves = run_moves;
  listed = run_listed;
}

abbrev pub terminal_runs : List RunStatus
terminal_runs = completed ∷ failed ∷ cancelled ∷ []

abbrev pub is_run : RunStatus → RunStatus → Bool
is_run = same run_machine

abbrev pub run_in : List RunStatus → RunStatus → Bool
run_in = has run_machine

abbrev pub is_terminal_run : RunStatus → Bool
is_terminal_run = run_in terminal_runs

abbrev pub active_runs : List RunStatus
active_runs = keep (λ s. not (is_terminal_run s) && not (is_run s draft)) run_statuses

-- `transitionRun` behind its two assertions.
unfoldable pub move_run : RunStatus → RunStatus → Options → Result StateError RunStatus
unfolding move
move_run from to options =
    if is_run from to
    then ok to
    else if options.allow_repair && is_terminal_run from && is_run to running
    then ok to
    else move run_machine from to options

unfoldable pub transition_run : String → String → Options → Result StateError RunStatus
unfolding move_run assert_known
transition_run from to options = do
  f ← assert_known run_machine from
  t ← assert_known run_machine to
  move_run f t options
