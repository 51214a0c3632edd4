-- ===== src/States/Dispatch.antt =====
-- The TurnDispatch states of src/domain-states.js.
use codex_threadhub.Base.{
  ℕ, String, ◌≡◌, refl, Bool, not, ◌&&◌, List, [], ◌∷◌, if◌then◌else◌, some, keep, Result, ok,
}
use codex_threadhub.States.Machine.{Machine, Options, StateError, get_elem?, has, same, move}

pub data DispatchStatus : Type 0 where
  prepared thread_acquiring thread_created turn_submitting turn_running : DispatchStatus
  cancelling completed failed interrupted cancelled recovery_attention : DispatchStatus

abbrev pub dispatch_statuses : List DispatchStatus
dispatch_statuses =
    prepared ∷ thread_acquiring ∷ thread_created ∷ turn_submitting ∷ turn_running ∷ cancelling
    ∷ completed ∷ failed ∷ interrupted ∷ cancelled ∷ recovery_attention ∷ []

abbrev pub dispatch_spelling : DispatchStatus → String
dispatch_spelling prepared = "prepared"
dispatch_spelling thread_acquiring = "thread_acquiring"
dispatch_spelling thread_created = "thread_created"
dispatch_spelling turn_submitting = "turn_submitting"
dispatch_spelling turn_running = "turn_running"
dispatch_spelling cancelling = "cancelling"
dispatch_spelling completed = "completed"
dispatch_spelling failed = "failed"
dispatch_spelling interrupted = "interrupted"
dispatch_spelling cancelled = "cancelled"
dispatch_spelling recovery_attention = "recovery_attention"

abbrev pub dispatch_code : DispatchStatus → ℕ
dispatch_code prepared = 0
dispatch_code thread_acquiring = 1
dispatch_code thread_created = 2
dispatch_code turn_submitting = 3
dispatch_code turn_running = 4
dispatch_code cancelling = 5
dispatch_code completed = 6
dispatch_code failed = 7
dispatch_code interrupted = 8
dispatch_code cancelled = 9
dispatch_code recovery_attention = 10

abbrev pub dispatch_moves : DispatchStatus → List DispatchStatus
dispatch_moves prepared =
    thread_acquiring ∷ cancelling ∷ failed ∷ cancelled ∷ recovery_attention ∷ []
dispatch_moves thread_acquiring =
    thread_created ∷ cancelling ∷ failed ∷ cancelled ∷ recovery_attention ∷ []
dispatch_moves thread_created =
    turn_submitting ∷ cancelling ∷ failed ∷ cancelled ∷ recovery_attention ∷ []
dispatch_moves turn_submitting =
    turn_running ∷ completed ∷ failed ∷ interrupted ∷ cancelling ∷ cancelled ∷ recovery_attention
    ∷ []
dispatch_moves turn_running =
    completed ∷ failed ∷ interrupted ∷ cancelling ∷ recovery_attention ∷ []
dispatch_moves cancelling = completed ∷ failed ∷ interrupted ∷ cancelled ∷ recovery_attention ∷ []
dispatch_moves _ = []

pub dispatch_listed : (s : DispatchStatus) → get_elem? dispatch_statuses (dispatch_code s) ≡ some s
dispatch_listed prepared = refl
dispatch_listed _ = refl

abbrev pub dispatch_machine : Machine DispatchStatus
dispatch_machine = record {
  entity = "TurnDispatch";
  label = "TurnDispatch";
  statuses = dispatch_statuses;
  spelling = dispatch_spelling;
  code = dispatch_code;
  moves = dispatch_moves;
  listed = dispatch_listed;
}

abbrev pub terminal_dispatches : List DispatchStatus
terminal_dispatches = completed ∷ failed ∷ interrupted ∷ cancelled ∷ recovery_attention ∷ []

abbrev pub is_dispatch : DispatchStatus → DispatchStatus → Bool
is_dispatch = same dispatch_machine

abbrev pub dispatch_in : List DispatchStatus → DispatchStatus → Bool
dispatch_in = has dispatch_machine

abbrev pub is_terminal_dispatch : DispatchStatus → Bool
is_terminal_dispatch = dispatch_in terminal_dispatches

abbrev pub active_dispatches : List DispatchStatus
active_dispatches = keep (λ s. not (is_terminal_dispatch s)) dispatch_statuses

abbrev pub observed_terminals : List DispatchStatus
observed_terminals = completed ∷ failed ∷ interrupted ∷ []

-- `transitionTurnDispatch` on known statuses.
unfoldable pub move_dispatch :
    DispatchStatus → DispatchStatus → Options → Result StateError DispatchStatus
unfolding move
move_dispatch from to options =
    if is_dispatch from recovery_attention
      && options.observed_terminal
      && dispatch_in observed_terminals to
    then ok to
    else move dispatch_machine from to options
