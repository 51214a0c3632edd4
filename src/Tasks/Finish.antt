-- ===== src/Tasks/Finish.antt =====
-- The methods that end a claim in src/registry.js.
use codex_threadhub.Base.{
  ℕ, ◌+◌, ◌-◌, ◌*◌, ◌^◌, String, Bool, false, not, ◌&&◌, ◌||◌, Option, none, some, List, [], ◌∷◌,
  ◌++◌, find, any, ◌==◌, ◌=s=◌, is_some, or_else, or_option, if◌then◌else◌,
}
use codex_threadhub.States.Task.{TaskStatus}
use codex_threadhub.Retry.{Failure, RetryDecision, decide_task_retry, is_text}
use codex_threadhub.Registry.{
  Budget, RetrySafety, FailureRecord, Validation, Rework, Task, Registry,
}
use codex_threadhub.Tasks.Claim.{update_tasks, log_if, owns, owned_in, executing}
use codex_threadhub.Tasks.Complete.{task_event, released}

-- The options of `finishFailureClaim`; without a terminal status it is `failed`.
pub record FailureOptions : Type 0 where
  pub terminal_status : Option TaskStatus
  pub feedback : Option Validation
  pub output : Option String
  pub turn_id : Option String

abbrev pub includes : List String → String → Bool
includes xs x = any (λ y. y =s= x) xs

-- `[...new Set(xs)]`, over the members seen so far.
unfoldable pub distinct : List String → List String → List String
distinct seen [] = []
distinct seen (x ∷ xs) =
    let skip = distinct seen xs in
    let take = x ∷ distinct (x ∷ seen) xs in if includes seen x then skip else take

abbrev hashes_of : Option Rework → List String
hashes_of none = []
hashes_of (some w) = w.feedback_hashes

abbrev revision_of : Option Rework → ℕ
revision_of none = 0
revision_of (some w) = w.feedback_revision

abbrev last : List FailureRecord → Option FailureRecord
last [] = none
last (x ∷ []) = some x
last (x ∷ y ∷ xs) = last (y ∷ xs)

abbrev repeats : Option String → Option FailureRecord → Bool
repeats none p = false
repeats (some f) none = false
repeats (some f) (some p) = not (f =s= "") && is_text p.execution_fingerprint f

abbrev pub no_current : Rework → Rework
no_current w = record w { current = none }

abbrev pub drop_current : Option Rework → Option Rework
drop_current none = none
drop_current (some w) = some (no_current w)

abbrev pub remaining_of : Task → ℕ
remaining_of t = t.max_attempts - t.attempt

abbrev pub budget_of : Task → Budget
budget_of t = record { used = t.attempt; max = t.max_attempts; remaining = remaining_of t }

abbrev pub safety_of : RetryDecision → RetrySafety
safety_of d = record { allowed = d.retry; reason = d.safe_reason; mode = d.mode }

-- `retryDelayMs * 2 ** Math.max(attempt - 1, 0)`.
abbrev pub backoff : Task → ℕ
backoff t = t.retry_delay_ms * 2 ^ (t.attempt - 1)

-- `hash` is the SHA-256 digest of a feedback's summary and unmet criteria, never empty.
module _ (hash : Validation → String) where
  abbrev pub feedback_hash : Option Validation → Option String
  feedback_hash none = none
  feedback_hash (some v) = some (hash v)

  abbrev pub is_duplicate : Option Validation → Task → Bool
  is_duplicate none t = false
  is_duplicate (some v) t = includes (distinct [] (hashes_of t.metadata.rework)) (hash v)

  abbrev pub decision_of : Failure → Option Validation → Task → RetryDecision
  decision_of failure feedback t =
      decide_task_retry failure (remaining_of t) (is_some feedback) (is_duplicate feedback t)

  abbrev cause_of : Failure → String
  cause_of f = or_else (or_option f.cause f.message) "Unknown failure"

  abbrev pub failure_record : Failure → Option Validation → ℕ → Task → FailureRecord
  failure_record failure feedback now t =
      let d = decision_of failure feedback t in
      let fingerprint =
        or_option t.metadata.execution_contract_fingerprint
          t.metadata.nested_contract_fingerprint in
      record {
        failure = failure;
        cause = some (cause_of failure);
        retryable = failure.retryable;
        next_action = some (
            if d.retry
            then d.requested_action
            else if failure.retryable
            then "manual_intervention"
            else d.requested_action);
        at = some (or_else failure.at now);
        execution_fingerprint = fingerprint;
        budget = some (budget_of t);
        retry_safety = some (safety_of d);
        analysis = some (record {
          requested_action = d.requested_action;
          exhausted = remaining_of t == 0 || is_duplicate feedback t;
          duplicate_feedback = is_duplicate feedback t;
          feedback_hash = feedback_hash feedback;
          same_configuration = repeats fingerprint (last t.metadata.failure_history);
          prompt_changed = is_some feedback && not (is_duplicate feedback t);
        });
      }

  abbrev reworked : Failure → Option Validation → ℕ → Task → Option Rework
  reworked failure none now t =
      if (decision_of failure none t).retry
      then t.metadata.rework
      else drop_current t.metadata.rework
  reworked failure (some v) now t =
      let d = decision_of failure (some v) t in
      let known = distinct [] (hashes_of t.metadata.rework) in
      let duplicate = is_duplicate (some v) t in
      some (record {
        feedback_hashes = if duplicate then known else known ++ hash v ∷ [];
        feedback_revision = revision_of t.metadata.rework + (if duplicate then 0 else 1);
        current =
            if d.retry && d.requested_action =s= "rework"
            then some (record {
              feedback = v;
              feedback_hash = some (hash v);
              from_attempt = t.attempt;
              scheduled_at = now;
            })
            else none;
      })

  -- The row that `finishFailureClaim` writes, from the row that it read.
  unfoldable pub failed_row : Failure → FailureOptions → ℕ → Task → Task
  failed_row failure o now t =
      let d = decision_of failure o.feedback t in
      let rec = failure_record failure o.feedback now t in
      let m = t.metadata in
      let u = released now t in
      record u {
        status =
            if d.retry
            then TaskStatus.retry_waiting
            else or_else o.terminal_status TaskStatus.failed;
        output = or_option o.output t.output;
        turn_id = or_option o.turn_id t.turn_id;
        error = rec.cause;
        next_retry_at = if d.retry then some (now + backoff t) else none;
        completed_at = if d.retry then none else some now;
        metadata = record m {
          failure = some rec;
          failure_history = t.metadata.failure_history ++ rec ∷ [];
          validation_in_progress = false;
          rework = reworked failure o.feedback now t;
        };
      }

  abbrev pub finish_found :
      String
      → String
      → String
      → Failure
      → FailureOptions
      → ℕ
      → Registry
      → Option Task
      → Registry × Option Task
  finish_found id worker token failure o now r none = (r, none)
  finish_found id worker token failure o now r (some task) =
      log_if id (task_event (failed_row failure o now task).status)
        (update_tasks (owns id worker token) (failed_row failure o now) r)

  unfoldable pub finish_failure_claim :
      String → String → String → Failure → FailureOptions → ℕ → Registry → Registry × Option Task
  unfolding failed_row
  finish_failure_claim id worker token failure o now r =
      finish_found id worker token failure o now r
        (find (owned_in executing id worker token) r.tasks)
