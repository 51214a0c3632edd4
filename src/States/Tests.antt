-- ===== src/States/Tests.antt =====
-- Runs of the state machines, and instances of their theorems.
use codex_threadhub.Base.{◌≡◌, refl, false, none, some, List, [], ◌∷◌, ok, err}
use codex_threadhub.States.Machine.{no_options, transition_invalid, state_invalid}
use codex_threadhub.States.Task.{TaskStatus, transition_task}
use codex_threadhub.States.Run.{RunStatus}
use codex_threadhub.States.GlobalRun.{GlobalRunStatus}
use codex_threadhub.States.Derive.{derive_run_status, Membership, derive_global_run_status}

unknown_status : transition_task "running" "done" no_options ≡ err (state_invalid "Task" "done")
unfolding transition_task
unknown_status = refl

spelled : transition_task "queued" "running" no_options ≡ ok TaskStatus.running
unfolding transition_task
spelled = refl

refused :
    transition_task "completed" "running" no_options
    ≡ err (transition_invalid "Task" "completed" "running")
unfolding transition_task
refused = refl

abbrev done_tasks : List TaskStatus
done_tasks = TaskStatus.completed ∷ TaskStatus.skipped ∷ []

completed_run : derive_run_status done_tasks ≡ some RunStatus.completed
unfolding derive_run_status
completed_run = refl

abbrev mixed_tasks : List TaskStatus
mixed_tasks = TaskStatus.completed ∷ TaskStatus.canceled ∷ []

abbrev backend : Membership
backend = record {
  status = RunStatus.completed;
  attention_required = false;
  required = none;
  membership = none;
}

abbrev optional_docs : Membership
optional_docs = record {
  status = RunStatus.failed;
  attention_required = false;
  required = none;
  membership = some "optional";
}

optional_failure :
    derive_global_run_status (backend ∷ optional_docs ∷ []) false ≡ some GlobalRunStatus.completed
unfolding derive_global_run_status
optional_failure = refl
