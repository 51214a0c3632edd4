-- ===== src/States/Transitions.antt =====
-- What the transition tables of src/domain-states.js permit.
use codex_threadhub.Base.{◌≡◌, refl, true, false, ◌⊎◌, ◌≢◌, [], ◌∷◌, arith, ok}
use codex_threadhub.States.Machine.{Options, no_options, move}
use codex_threadhub.States.Task.{TaskStatus, task_in, is_terminal_task, move_task}
use codex_threadhub.States.Run.{RunStatus, is_terminal_run, move_run}
use codex_threadhub.States.GlobalRun.{GlobalRunStatus, is_terminal_global_run, move_global_run}
use codex_threadhub.States.Dispatch.{DispatchStatus, is_terminal_dispatch, move_dispatch}

-- A task that is not terminal can always be canceled.
pub move_task-canceled :
    (s : TaskStatus)
    → is_terminal_task s ≡ false
    → move_task s TaskStatus.canceled no_options ≡ ok TaskStatus.canceled
unfolding move_task move
move_task-canceled TaskStatus.staged h = refl
move_task-canceled s h = ground arith

-- A Run that is not terminal can always be cancelled.
pub move_run-cancelled :
    (s : RunStatus)
    → is_terminal_run s ≡ false
    → move_run s RunStatus.cancelled no_options ≡ ok RunStatus.cancelled
unfolding move_run move
move_run-cancelled s h = ground arith

-- A Global Run that is not terminal can always be cancelled.
pub move_global_run-cancelled :
    (s : GlobalRunStatus)
    → is_terminal_global_run s ≡ false
    → move_global_run s GlobalRunStatus.cancelled no_options ≡ ok GlobalRunStatus.cancelled
unfolding move_global_run move
move_global_run-cancelled s h = ground arith

-- A turn dispatch that is not terminal can always start to cancel.
pub move_dispatch-cancelling :
    (s : DispatchStatus)
    → is_terminal_dispatch s ≡ false
    → move_dispatch s DispatchStatus.cancelling no_options ≡ ok DispatchStatus.cancelling
unfolding move_dispatch move
move_dispatch-cancelling s h = ground arith

-- Unless the caller asks to synchronise, a terminal task stays as it is, is canceled from
-- `recovery_attention`, or is repaired to `blocked`.
pub terminal_task_stays :
    (s t u : TaskStatus) (o : Options)
    → is_terminal_task s ≡ true
    → o.allow_sync ≡ false
    → move_task s t o ≡ ok u
    → (t ≡ s)
      ⊎ (s ≡ TaskStatus.recovery_attention) × (t ≡ TaskStatus.canceled)
      ⊎ (o.allow_repair ≡ true) × (t ≡ TaskStatus.blocked)
unfolding move_task move
terminal_task_stays TaskStatus.staged t u o h n e = cc
terminal_task_stays s t u o h n e = ground arith

-- Only a task that executes can succeed: from any other status, `completed` and
-- `completed_with_warnings` are refused.
pub success_needs_execution :
    (s t u : TaskStatus)
    → task_in (TaskStatus.completed ∷ TaskStatus.completed_with_warnings ∷ []) t ≡ true
    → s ≢ t
    → move_task s t no_options ≡ ok u
    → task_in
        (TaskStatus.running ∷ TaskStatus.approval_waiting ∷ TaskStatus.agent_done
          ∷ TaskStatus.validating ∷ TaskStatus.integration_pending ∷ [])
        s
      ≡ true
unfolding move_task move
success_needs_execution TaskStatus.staged t u h n e = ground arith
success_needs_execution s t u h n e = ground arith

-- The statuses that a task reaches by permitted transitions.
pub data TaskSteps : TaskStatus → TaskStatus → Type 0 where
  here : {s : TaskStatus} → TaskSteps s s
  step : {s t u : TaskStatus} → move_task s t no_options ≡ ok t → TaskSteps t u → TaskSteps s u

-- Every task that is not terminal has a path of permitted transitions to `completed`.
pub task_can_complete :
    (s : TaskStatus) → is_terminal_task s ≡ false → TaskSteps s TaskStatus.completed
unfolding move_task move
task_can_complete TaskStatus.staged h =
    step {t = TaskStatus.queued} refl (step {t = TaskStatus.running} refl (step refl here))
task_can_complete TaskStatus.blocked h =
    step {t = TaskStatus.queued} refl (step {t = TaskStatus.running} refl (step refl here))
task_can_complete TaskStatus.queued h = step {t = TaskStatus.running} refl (step refl here)
task_can_complete TaskStatus.waiting_for_lease h =
    step {t = TaskStatus.running} refl (step refl here)
task_can_complete TaskStatus.retry_waiting h = step {t = TaskStatus.running} refl (step refl here)
task_can_complete TaskStatus.upgrade_pending h = step {t = TaskStatus.running} refl (step refl here)
task_can_complete TaskStatus.running h = step refl here
task_can_complete TaskStatus.approval_waiting h = step refl here
task_can_complete TaskStatus.agent_done h = step refl here
task_can_complete TaskStatus.validating h = step refl here
task_can_complete TaskStatus.integration_pending h = step refl here
task_can_complete s h = cc
