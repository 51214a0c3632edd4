-- ===== src/Progress.antt =====
-- workProgress of src/work-status.js: the counts that a user is shown of a Run.
pub mod Totals
pub mod Tests
use codex_threadhub.Base.{ℕ, suc, List, [], ◌∷◌, length, if◌then◌else◌}
use codex_threadhub.States.Task.{
  TaskStatus, completed, completed_with_warnings, skipped, rejected, validation_failed, failed,
  canceled, interrupted, blocked_by_policy, integration_blocked, approval_waiting,
  recovery_attention, is_task, task_in, is_terminal_task, active_tasks, waiting_tasks,
}

pub record Counts : Type 0 where
  pub finished : ℕ
  pub succeeded : ℕ
  pub warnings : ℕ
  pub rejected : ℕ
  pub failed : ℕ
  pub cancelled : ℕ
  pub skipped : ℕ
  pub attention : ℕ
  pub active : ℕ
  pub waiting : ℕ
  pub unknown : ℕ

abbrev pub zeros : Counts
zeros = record {
  finished = 0;
  succeeded = 0;
  warnings = 0;
  rejected = 0;
  failed = 0;
  cancelled = 0;
  skipped = 0;
  attention = 0;
  active = 0;
  waiting = 0;
  unknown = 0;
}

-- The body of the loop.
unfoldable pub count_status : TaskStatus → Counts → Counts
count_status s counts =
    let p =
      if is_terminal_task s then record counts { finished = suc counts.finished } else counts in
    if task_in (completed ∷ completed_with_warnings ∷ []) s
    then if is_task s completed_with_warnings
      then record p { succeeded = suc p.succeeded; warnings = suc p.warnings }
      else record p { succeeded = suc p.succeeded }
    else if task_in (TaskStatus.rejected ∷ validation_failed ∷ []) s
    then record p { rejected = suc p.rejected }
    else if task_in (TaskStatus.failed ∷ interrupted ∷ []) s
    then record p { failed = suc p.failed }
    else if is_task s canceled
    then record p { cancelled = suc p.cancelled }
    else if is_task s TaskStatus.skipped
    then record p { skipped = suc p.skipped }
    else if task_in
        (approval_waiting ∷ recovery_attention ∷ blocked_by_policy ∷ integration_blocked ∷ []) s
    then record p { attention = suc p.attention }
    else if task_in active_tasks s
    then record p { active = suc p.active }
    else if task_in waiting_tasks s
    then record p { waiting = suc p.waiting }
    else record p { unknown = suc p.unknown }

unfoldable pub count_each : List TaskStatus → Counts → Counts
unfolding count_status
count_each [] counts = counts
count_each (s ∷ ss) counts = count_each ss (count_status s counts)

-- The counts of the tasks, with `total`.
unfoldable pub work_progress : List TaskStatus → ℕ × Counts
unfolding count_each
work_progress statuses = (length statuses, count_each statuses zeros)
