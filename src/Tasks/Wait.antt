-- ===== src/Tasks/Wait.antt =====
-- The methods of src/registry.js by which a task waits: for a lease, for a retry, or for good.
use codex_threadhub.Base.{
  ℕ, ◌+◌, ◌-◌, String, Bool, false, not, ◌&&◌, Option, none, some, [], ◌∷◌, ◌++◌, leb, ◌==◌, ◌=s=◌,
  or_else, or_option, if◌then◌else◌, Result, ok, err, ◌>>=◌,
}
use codex_threadhub.Base.Table.{update_where}
use codex_threadhub.States.Machine.{StateError, no_options}
use codex_threadhub.States.Task.{TaskStatus, task_in, is_task, move_task, task_spelling}
use codex_threadhub.Retry.{Failure, RetryDecision, decide_task_retry}
use codex_threadhub.Registry.{FailureRecord, Validation, Task, Registry, get_task, record_event}
use codex_threadhub.Tasks.Guards.{claimable}
use codex_threadhub.Tasks.Claim.{update_tasks, log_if, owned_in}
use codex_threadhub.Tasks.Complete.{released, task_event}
use codex_threadhub.Tasks.Finish.{
  FailureOptions, finish_failure_claim, remaining_of, budget_of, safety_of, backoff,
}

abbrev pub waiting_since : Option Task → ℕ → ℕ
waiting_since none now = now
waiting_since (some t) now = or_else t.metadata.waiting_since now

-- Thirty minutes, unless the task's execution says otherwise.
abbrev pub wait_limit : Option Task → ℕ
wait_limit none = 1800000
wait_limit (some t) = or_else t.metadata.timeout_ms 1800000

abbrev pub wait_expired : Failure
wait_expired = record {
  type = some "configuration";
  category = some "configuration";
  stage = none;
  code = some "ROUTING_WAIT_EXPIRED";
  cause = some "Worker acquisition deadline expired";
  message = none;
  retryable = false;
  next_action = some "repair_routing";
  at = none;
}

abbrev pub wait_options : FailureOptions
wait_options = record {
  terminal_status = some TaskStatus.recovery_attention;
  feedback = none;
  output = none;
  turn_id = none;
}

abbrev pub waiting_row : ℕ → ℕ → ℕ → Task → Task
waiting_row since delay now t =
    let u = released now t in
    let m = t.metadata in
    record u {
      status = TaskStatus.waiting_for_lease;
      metadata = record m { waiting_since = some since };
      attempt = t.attempt - 1;
      next_retry_at = some (now + delay);
    }

unfoldable pub wait_claim_for_lease :
    (Validation → String) → String → String → String → ℕ → ℕ → Registry → Registry × Option Task
unfolding finish_failure_claim
wait_claim_for_lease hash id worker token delay now r =
    let since = waiting_since (get_task id r) now in
    if leb (wait_limit (get_task id r)) (now - since)
    then finish_failure_claim hash id worker token wait_expired wait_options now r
    else update_tasks (owned_in (TaskStatus.running ∷ []) id worker token)
        (waiting_row since delay now) r

-- The result of a transition that `updateTask` asserts.
abbrev pub checked : Result StateError TaskStatus → Result (Option StateError) (Unit {0})
checked (ok s) = ok tt
checked (err e) = err (some e)

abbrev pub updated_row : TaskStatus → (Task → Task) → ℕ → Task → Task
updated_row status change now t =
    let u = change t in record u { status = status; updated_at = now; version = t.version + 1 }

abbrev pub with_event : Bool → String → TaskStatus → Registry → Registry
with_event same id status r = if same then r else record_event "task" id (task_event status) r

abbrev pub update_found :
    String
    → TaskStatus
    → (Task → Task)
    → ℕ
    → Registry
    → Option Task
    → Result (Option StateError) (Registry × Task)
update_found id status change now r none = err none
update_found id status change now r (some t) =
    checked (move_task t.status status no_options) >>= λ _.
    let row = updated_row status change now t in
    ok (
      with_event (is_task t.status status) id status
          (record r { tasks = update_where (λ x. x.id =s= id) (λ _. row) r.tasks }),
      row,
    )

-- `updateTask` with a new status: the transition is checked, the columns that `change` sets are
-- written, and the event is recorded only if the status is another. The assignment to a project and
-- the time of the agent's last task are left out.
unfoldable pub update_task :
    String
    → TaskStatus
    → (Task → Task)
    → ℕ
    → Registry
    → Result (Option StateError) (Registry × Task)
unfolding move_task
update_task id status change now r = update_found id status change now r (get_task id r)

abbrev retry_record : Failure → Bool → RetryDecision → FailureRecord
retry_record f retryable d = record {
  failure = f;
  cause = f.cause;
  retryable = retryable;
  next_action = f.next_action;
  at = f.at;
  execution_fingerprint = none;
  budget = none;
  retry_safety = some (safety_of d);
  analysis = none;
}

abbrev retry_error : Failure → String
retry_error f = or_else (or_option f.cause f.message) "[object Object]"

abbrev refused_row : Failure → RetryDecision → ℕ → Task → Task
refused_row failure d now x =
    let m = x.metadata in
    record x {
      error = some (retry_error failure);
      completed_at = some now;
      worker_id = none;
      heartbeat_at = none;
      metadata = record m { failure = some (retry_record failure false d) };
    }

abbrev scheduled_row : Failure → RetryDecision → ℕ → Task → Task
scheduled_row failure d now x =
    let m = x.metadata in
    record x {
      error = some (retry_error failure);
      next_retry_at = some (now + backoff x);
      worker_id = none;
      heartbeat_at = none;
      metadata = record m { failure = some (retry_record failure failure.retryable d) };
    }

unfoldable pub schedule_retry :
    String → Failure → ℕ → Registry → Result (Option StateError) (Registry × Task)
unfolding update_task
schedule_retry id failure now r = elim (get_task id r) [
  | none ↦ err none
  | some t ↦
      let d = decide_task_retry failure (remaining_of t) false false in
      if d.retry
      then update_task id TaskStatus.retry_waiting (scheduled_row failure d now) now r
      else update_task id TaskStatus.failed (refused_row failure d now) now r
]

-- `rejectTaskBeforeClaim` compares the version that it read, so that a claim in between wins.
abbrev reject_found :
    String → TaskStatus → FailureRecord → ℕ → Registry → Option Task → Registry × Option Task
reject_found id status rec now r none = (r, none)
reject_found id status rec now r (some task) =
    let m = task.metadata in
    log_if id (task_event status) (
      update_tasks (λ t. t.id =s= id && (task_in claimable t.status && t.version == task.version))
        (λ t.
          let u = released now t in
          record u {
            status = status;
            error = rec.cause;
            completed_at = some now;
            agent_id = none;
            source_thread_id = none;
            turn_id = none;
            next_retry_at = none;
            metadata = record m {
              failure = some rec;
              failure_history = task.metadata.failure_history ++ rec ∷ [];
            };
          })
        r)

abbrev rejection_record : Failure → ℕ → Task → FailureRecord
rejection_record f now t = record {
  failure = f;
  cause = some (or_else (or_option f.cause f.message) "Invalid execution contract");
  retryable = false;
  next_action = some (or_else f.next_action "repair_contract");
  at = some (or_else f.at now);
  execution_fingerprint =
      or_option t.metadata.execution_contract_fingerprint t.metadata.nested_contract_fingerprint;
  budget = some (budget_of t);
  retry_safety = none;
  analysis = none;
}

-- The TypeError of a status that no task is rejected with.
unfoldable pub reject_task_before_claim :
    String → Failure → Option TaskStatus → ℕ → Registry → Result String (Registry × Option Task)
reject_task_before_claim id failure terminal now r = elim (get_task id r) [
  | none ↦ ok (r, none)
  | some t ↦
      let status = or_else terminal TaskStatus.failed in
      if not (task_in (TaskStatus.failed ∷ TaskStatus.blocked_by_policy ∷ []) status)
      then err (task_spelling status)
      else ok (reject_found id status (rejection_record failure now t) now r (some t))
]
