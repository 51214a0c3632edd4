-- ===== src/Tasks/Complete.antt =====
-- `completeClaim` and `finishTurnClaim` of src/registry.js: the ends of a claim that do not fail.
use Prim.Native.String
use codex_threadhub.Base.{
  ℕ, ◌+◌, String, Bool, not, Option, none, some, [], ◌∷◌, or_else, or_option, if◌then◌else◌, Result,
  ok, err,
}
use codex_threadhub.States.Task.{TaskStatus, task_in, task_spelling}
use codex_threadhub.Registry.{Task, Registry}
use codex_threadhub.Tasks.Claim.{update_tasks, log_if, owned_in, in_turn, bindable}

-- `task.${status}`.
abbrev pub task_event : TaskStatus → String
task_event s = String.◌++◌ "task." (task_spelling s)

abbrev ended_with : TaskStatus → String
ended_with s = String.◌++◌ "Agent turn ended with status: " (task_spelling s)

-- The columns that every end of a claim clears.
abbrev pub released : ℕ → Task → Task
released now t = record t {
  worker_id = none;
  claim_token = none;
  heartbeat_at = none;
  updated_at = now;
  version = t.version + 1;
}

abbrev pub completed_row : Option String → Option String → ℕ → Task → Task
completed_row output turn now t =
    let u = released now t in
    record u {
      status = TaskStatus.completed;
      output = output;
      turn_id = or_option turn t.turn_id;
      completed_at = some now;
    }

unfoldable pub complete_claim :
    String → String → String → Option String → Option String → ℕ → Registry → Registry × Option Task
complete_claim id worker token output turn now r =
    log_if id "task.completed"
      (update_tasks (owned_in bindable id worker token) (completed_row output turn now) r)

pub record TurnEnd : Type 0 where
  pub status : TaskStatus
  pub output : Option String
  pub error : Option String
  pub turn_id : Option String

abbrev pub ended_row : TurnEnd → ℕ → Task → Task
ended_row e now t =
    let u = released now t in
    record u {
      status = e.status;
      output = e.output;
      error = some (or_else e.error (ended_with e.status));
      turn_id = or_option e.turn_id t.turn_id;
      completed_at = some now;
    }

abbrev pub ends_badly : TaskStatus → Bool
ends_badly s = task_in (TaskStatus.failed ∷ TaskStatus.interrupted ∷ []) s

-- The TypeError of a status that no turn ends with.
unfoldable pub finish_turn_claim :
    String → String → String → TurnEnd → ℕ → Registry → Result String (Registry × Option Task)
finish_turn_claim id worker token e now r =
    if not (ends_badly e.status)
    then err (task_spelling e.status)
    else ok (
        log_if id (task_event e.status)
          (update_tasks (owned_in in_turn id worker token) (ended_row e now) r))
