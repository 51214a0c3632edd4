-- ===== src/Tasks/Validate.antt =====
-- `finishValidationClaim` and `failClaim` of src/registry.js.
use codex_threadhub.Base.{
  ℕ, String, Bool, true, false, not, ◌&&◌, Option, none, some, List, [], ◌∷◌, ◌=s=◌, or_else,
  if◌then◌else◌,
}
use codex_threadhub.Base.Text.{mentions}
use codex_threadhub.States.Task.{TaskStatus}
use codex_threadhub.Retry.{Failure, is_text, one_of, contract_types}
use codex_threadhub.Registry.{Validation, Metadata, Task, Registry, get_task}
use codex_threadhub.Tasks.Claim.{update_tasks, log_if, owned_in, acceptable}
use codex_threadhub.Tasks.Complete.{released}
use codex_threadhub.Tasks.Finish.{FailureOptions, finish_failure_claim, drop_current}

abbrev pub decision : Option Validation → Option String
decision none = none
decision (some v) = v.decision

abbrev pub summary_of : Option Validation → Option String
summary_of none = none
summary_of (some v) = v.summary

abbrev kind_of : Option Validation → Option String
kind_of none = none
kind_of (some v) = v.failure_kind

abbrev pub accepted : Option Validation → Bool
accepted v = is_text (decision v) "accept"

abbrev pub warned : Option Validation → Bool
warned v = is_text (decision v) "accept_with_warnings"

abbrev pub unsatisfied : String
unsatisfied = "Acceptance criteria were not satisfied"

-- The alternatives of `/execution contract|read[ -]?only|sandbox|permission|cannot (?:write|…)/i`.
abbrev pub configuration_words : List String
configuration_words =
    "execution contract" ∷ "read only" ∷ "read-only" ∷ "readonly" ∷ "sandbox" ∷ "permission"
    ∷ "cannot write" ∷ "cannot modify" ∷ "cannot edit" ∷ []

abbrev pub failure_kind : Option Validation → String
failure_kind v = or_else (kind_of v) (
    if mentions configuration_words (or_else (summary_of v) unsatisfied)
    then "configuration"
    else "validation")

-- The failure that a validator's verdict stands for.
unfoldable pub validation_failure : Option Validation → ℕ → Failure
validation_failure v now =
    let kind = failure_kind v in
    let summary = or_else (summary_of v) unsatisfied in
    if one_of contract_types kind
    then record {
      type = some kind;
      category = some kind;
      stage = some "validation";
      code = none;
      cause = some summary;
      message = some summary;
      retryable = false;
      next_action = some "repair_contract";
      at = some now;
    }
    else if is_text (decision v) "error"
    then record {
      type = some "infrastructure";
      category = some "environment";
      stage = some "validation";
      code = none;
      cause = some summary;
      message = some summary;
      retryable = true;
      next_action = some "retry";
      at = some now;
    }
    else record {
      type = some "validation";
      category = some (if kind =s= "product" then "product" else "validation");
      stage = some "validation";
      code = none;
      cause = some summary;
      message = some summary;
      retryable = true;
      next_action = some "rework";
      at = some now;
    }

abbrev pub rejection_status : Failure → TaskStatus
rejection_status f =
    if is_text f.type "policy"
    then TaskStatus.blocked_by_policy
    else if is_text f.type "validation"
    then TaskStatus.rejected
    else TaskStatus.validation_failed

abbrev pub accepted_metadata : Option Validation → Metadata → Metadata
accepted_metadata v m = record m {
  validation = v;
  validation_in_progress = false;
  failure = none;
  rework = drop_current m.rework;
}

abbrev pub accepted_row : Option Validation → ℕ → Task → Task → Task
accepted_row v now task t =
    let u = released now t in
    record u {
      status = if accepted v then TaskStatus.completed else TaskStatus.completed_with_warnings;
      error = if accepted v then none else some (or_else (summary_of v) unsatisfied);
      completed_at = some now;
      metadata = accepted_metadata v task.metadata;
    }

abbrev pub accept_found :
    String
    → String
    → String
    → Option Validation
    → ℕ
    → Registry
    → Option Task
    → Registry × Option Task
accept_found id worker token v now r none = (r, none)
accept_found id worker token v now r (some task) =
    log_if id (if accepted v then "task.completed" else "task.completed_with_warnings")
      (update_tasks (owned_in acceptable id worker token) (accepted_row v now task) r)

-- Only a verdict on the work itself is handed back to the worker as feedback.
abbrev pub validation_options : Option Validation → ℕ → FailureOptions
validation_options v now =
    let failure = validation_failure v now in
    record {
      terminal_status = some (rejection_status failure);
      feedback = if is_text failure.type "validation" then v else none;
      output = none;
      turn_id = none;
    }

-- The failure of a worker, where the caller names none.
abbrev pub worker_failure : String → ℕ → Failure
worker_failure error now = record {
  type = some "worker";
  category = none;
  stage = some "execution";
  code = none;
  cause = some error;
  message = some error;
  retryable = false;
  next_action = some "manual_intervention";
  at = some now;
}

abbrev pub plain_options : Option TaskStatus → FailureOptions
plain_options terminal = record {
  terminal_status = some (or_else terminal TaskStatus.failed);
  feedback = none;
  output = none;
  turn_id = none;
}

module _ (hash : Validation → String) where
  unfoldable pub finish_validation_claim :
      String → String → String → Option Validation → ℕ → Registry → Registry × Option Task
  unfolding validation_failure finish_failure_claim
  finish_validation_claim id worker token v now r =
      if not (accepted v) && not (warned v)
      then finish_failure_claim hash id worker token (validation_failure v now)
          (validation_options v now) now r
      else accept_found id worker token v now r (get_task id r)

  unfoldable pub fail_claim :
      String
      → String
      → String
      → String
      → Option Failure
      → Option TaskStatus
      → ℕ
      → Registry
      → Registry × Option Task
  unfolding finish_failure_claim
  fail_claim id worker token error failure terminal now =
      finish_failure_claim hash id worker token (or_else failure (worker_failure error now))
        (plain_options terminal) now
