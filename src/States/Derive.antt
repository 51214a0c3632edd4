-- ===== src/States/Derive.antt =====
-- `deriveRunStatus` and `deriveGlobalRunStatus` of src/domain-states.js.
use codex_threadhub.Base.{
  String, Bool, true, false, not, ◌&&◌, Option, none, some, List, [], ◌∷◌, if◌then◌else◌, ◌=s=◌,
  any, all, keep,
}
use codex_threadhub.States.Task.{
  TaskStatus, canceled, failed_tasks, is_task, task_in, is_terminal_task,
}
use codex_threadhub.States.Run.{RunStatus, completed, failed, cancelled, is_run, is_terminal_run}
use codex_threadhub.States.GlobalRun.{GlobalRunStatus}

-- The status of a Run from those of its tasks; `none` is JavaScript's null.
unfoldable pub derive_run_status : List TaskStatus → Option RunStatus
derive_run_status [] = none
derive_run_status (t ∷ ts) =
    if not (all is_terminal_task (t ∷ ts))
    then none
    else if any (task_in failed_tasks) (t ∷ ts)
    then some failed
    else if any (λ s. is_task s canceled) (t ∷ ts)
    then some cancelled
    else some completed

-- A Project Run as a member of a Global Run; a property left out is `none`.
pub record Membership : Type 0 where
  pub status : RunStatus
  pub attention_required : Bool
  pub required : Option Bool
  pub membership : Option String

abbrev is_false : Option Bool → Bool
is_false (some false) = true
is_false _ = false

abbrev is_optional : Option String → Bool
is_optional none = false
is_optional (some m) = m =s= "optional"

-- `membership.required !== false && membership.membership !== "optional"`.
abbrev pub is_required : Membership → Bool
is_required m = not (is_false m.required) && not (is_optional m.membership)

unfoldable pub derive_global_run_status : List Membership → Bool → Option GlobalRunStatus
derive_global_run_status [] cancellation_requested = none
derive_global_run_status (m ∷ ms) cancellation_requested =
    if not (all (λ x. is_terminal_run x.status) (m ∷ ms))
    then none
    else if cancellation_requested
    then some GlobalRunStatus.cancelled
    else if any (λ x. x.attention_required) (m ∷ ms)
    then some GlobalRunStatus.attention_required
    else if any (λ x. not (is_run x.status completed)) (keep is_required (m ∷ ms))
    then some GlobalRunStatus.failed
    else some GlobalRunStatus.completed
