-- ===== src/States/Task.antt =====
-- The Task states of src/domain-states.js.
use codex_threadhub.Base.{
  ℕ, String, ◌≡◌, refl, Bool, ◌&&◌, List, [], ◌∷◌, ◌++◌, if◌then◌else◌, some, Result, ok, ◌>>=◌,
}
use codex_threadhub.States.Machine.{
  Machine, Options, StateError, get_elem?, has, same, assert_known, move,
}

pub data TaskStatus : Type 0 where
  staged blocked queued waiting_for_lease retry_waiting running approval_waiting : TaskStatus
  agent_done validating integration_pending upgrade_pending recovery_attention : TaskStatus
  completed completed_with_warnings skipped rejected validation_failed failed : TaskStatus
  canceled interrupted blocked_by_policy integration_blocked : TaskStatus

-- `TASK_STATUSES`, in its order.
abbrev pub task_statuses : List TaskStatus
task_statuses =
    staged ∷ blocked ∷ queued ∷ waiting_for_lease ∷ retry_waiting ∷ running ∷ approval_waiting
    ∷ agent_done ∷ validating ∷ integration_pending ∷ upgrade_pending ∷ recovery_attention
    ∷ completed ∷ completed_with_warnings ∷ skipped ∷ rejected ∷ validation_failed ∷ failed
    ∷ canceled ∷ interrupted ∷ blocked_by_policy ∷ integration_blocked ∷ []

abbrev pub task_spelling : TaskStatus → String
task_spelling staged = "staged"
task_spelling blocked = "blocked"
task_spelling queued = "queued"
task_spelling waiting_for_lease = "waiting_for_lease"
task_spelling retry_waiting = "retry_waiting"
task_spelling running = "running"
task_spelling approval_waiting = "approval_waiting"
task_spelling agent_done = "agent_done"
task_spelling validating = "validating"
task_spelling integration_pending = "integration_pending"
task_spelling upgrade_pending = "upgrade_pending"
task_spelling recovery_attention = "recovery_attention"
task_spelling completed = "completed"
task_spelling completed_with_warnings = "completed_with_warnings"
task_spelling skipped = "skipped"
task_spelling rejected = "rejected"
task_spelling validation_failed = "validation_failed"
task_spelling failed = "failed"
task_spelling canceled = "canceled"
task_spelling interrupted = "interrupted"
task_spelling blocked_by_policy = "blocked_by_policy"
task_spelling integration_blocked = "integration_blocked"

abbrev pub task_code : TaskStatus → ℕ
task_code staged = 0
task_code blocked = 1
task_code queued = 2
task_code waiting_for_lease = 3
task_code retry_waiting = 4
task_code running = 5
task_code approval_waiting = 6
task_code agent_done = 7
task_code validating = 8
task_code integration_pending = 9
task_code upgrade_pending = 10
task_code recovery_attention = 11
task_code completed = 12
task_code completed_with_warnings = 13
task_code skipped = 14
task_code rejected = 15
task_code validation_failed = 16
task_code failed = 17
task_code canceled = 18
task_code interrupted = 19
task_code blocked_by_policy = 20
task_code integration_blocked = 21

-- `EXECUTION_TERMINALS`.
abbrev pub execution_terminals : List TaskStatus
execution_terminals =
    completed ∷ completed_with_warnings ∷ rejected ∷ validation_failed ∷ failed ∷ canceled
    ∷ interrupted ∷ blocked_by_policy ∷ integration_blocked ∷ recovery_attention ∷ []

-- `TASK_TRANSITIONS`.
abbrev pub task_moves : TaskStatus → List TaskStatus
task_moves staged = blocked ∷ queued ∷ canceled ∷ failed ∷ blocked_by_policy ∷ []
task_moves blocked =
    queued ∷ skipped ∷ failed ∷ canceled ∷ blocked_by_policy ∷ recovery_attention ∷ []
task_moves queued = running ∷ failed ∷ canceled ∷ blocked_by_policy ∷ recovery_attention ∷ []
task_moves waiting_for_lease = running ∷ failed ∷ canceled ∷ recovery_attention ∷ []
task_moves retry_waiting = running ∷ failed ∷ canceled ∷ recovery_attention ∷ []
task_moves running =
    approval_waiting ∷ agent_done ∷ integration_pending ∷ retry_waiting ∷ waiting_for_lease
    ∷ execution_terminals
task_moves approval_waiting =
    running ∷ agent_done ∷ integration_pending ∷ retry_waiting ∷ execution_terminals
task_moves agent_done = validating ∷ retry_waiting ∷ execution_terminals
task_moves validating = integration_pending ∷ retry_waiting ∷ execution_terminals
task_moves integration_pending = execution_terminals
task_moves upgrade_pending = queued ∷ running ∷ failed ∷ canceled ∷ recovery_attention ∷ []
task_moves recovery_attention = canceled ∷ []
task_moves _ = []

pub task_listed : (s : TaskStatus) → get_elem? task_statuses (task_code s) ≡ some s
task_listed staged = refl
task_listed _ = refl

abbrev pub task_machine : Machine TaskStatus
task_machine = record {
  entity = "Task";
  label = "Task";
  statuses = task_statuses;
  spelling = task_spelling;
  code = task_code;
  moves = task_moves;
  listed = task_listed;
}

abbrev pub successful_tasks : List TaskStatus
successful_tasks = completed ∷ completed_with_warnings ∷ skipped ∷ []

abbrev pub terminal_tasks : List TaskStatus
terminal_tasks =
    successful_tasks
    ++ rejected ∷ validation_failed ∷ failed ∷ canceled ∷ interrupted ∷ blocked_by_policy
      ∷ integration_blocked ∷ recovery_attention ∷ []

abbrev pub failed_tasks : List TaskStatus
failed_tasks =
    rejected ∷ validation_failed ∷ failed ∷ interrupted ∷ blocked_by_policy ∷ integration_blocked
    ∷ recovery_attention ∷ []

abbrev pub active_tasks : List TaskStatus
active_tasks =
    running ∷ approval_waiting ∷ agent_done ∷ validating ∷ integration_pending ∷ upgrade_pending
    ∷ []

abbrev pub waiting_tasks : List TaskStatus
waiting_tasks = staged ∷ blocked ∷ queued ∷ retry_waiting ∷ waiting_for_lease ∷ []

abbrev pub repairable_tasks : List TaskStatus
repairable_tasks =
    rejected ∷ validation_failed ∷ failed ∷ interrupted ∷ canceled ∷ blocked_by_policy
    ∷ integration_blocked ∷ recovery_attention ∷ []

abbrev pub attention_tasks : List TaskStatus
attention_tasks = recovery_attention ∷ blocked_by_policy ∷ integration_blocked ∷ []

abbrev pub retryable_tasks : List TaskStatus
retryable_tasks = retry_waiting ∷ waiting_for_lease ∷ []

-- `status === …` and `SET.has(status)`.
abbrev pub is_task : TaskStatus → TaskStatus → Bool
is_task = same task_machine

abbrev pub task_in : List TaskStatus → TaskStatus → Bool
task_in = has task_machine

abbrev pub is_terminal_task : TaskStatus → Bool
is_terminal_task = task_in terminal_tasks

-- `transitionTask` behind its two assertions.
unfoldable pub move_task : TaskStatus → TaskStatus → Options → Result StateError TaskStatus
unfolding move
move_task from to options =
    if is_task from to
    then ok to
    else if options.allow_repair && task_in repairable_tasks from && is_task to blocked
    then ok to
    else move task_machine from to options

unfoldable pub transition_task : String → String → Options → Result StateError TaskStatus
unfolding move_task assert_known
transition_task from to options = do
  f ← assert_known task_machine from
  t ← assert_known task_machine to
  move_task f t options
