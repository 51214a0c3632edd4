-- ===== src/Retry.antt =====
-- src/retry-policy.js: whether a failed attempt is retried.
use codex_threadhub.Base.{
  ℕ, String, Bool, true, false, not, ◌&&◌, ◌||◌, Option, none, some, if◌then◌else◌, ◌==◌, ◌=s=◌,
  or_else, or_option, Result, ok, err, List, [], ◌∷◌, any,
}
pub mod Laws
mod Tests

-- What the callers put into a failure; a property left out is `none`, and `retryable` is read as
-- a Boolean.
pub record Failure : Type 0 where
  pub type : Option String
  pub category : Option String
  pub stage : Option String
  pub code : Option String
  pub cause : Option String
  pub message : Option String
  pub retryable : Bool
  pub next_action : Option String
  pub at : Option ℕ

pub record RetryDecision : Type 0 where
  pub retry : Bool
  pub requested_action : String
  pub safe_reason : String
  pub mode : String

abbrev pub one_of : List String → String → Bool
one_of names s = any (λ n. n =s= s) names

-- `TRANSIENT_FAILURE_TYPES` and `CONTRACT_FAILURE_TYPES`.
abbrev pub transient_types : List String
transient_types = "infrastructure" ∷ "coordination" ∷ "timeout" ∷ []

abbrev pub contract_types : List String
contract_types = "configuration" ∷ "policy" ∷ []

abbrev pub failure_type : Failure → String
failure_type f = or_else (or_option f.type f.category) "worker"

abbrev pub failure_action : Failure → String
failure_action f =
    or_else f.next_action
      (if one_of transient_types (failure_type f) then "retry" else "manual_intervention")

abbrev pub is_text : Option String → String → Bool
is_text none s = false
is_text (some t) s = t =s= s

-- A contract or policy failure, by its type or by its category.
abbrev pub is_contract_failure : Failure → Bool
is_contract_failure f =
    one_of contract_types (failure_type f)
    || is_text f.category "configuration"
    || is_text f.category "policy"

abbrev refuse : String → String → RetryDecision
refuse action reason = record {
  retry = false;
  requested_action = action;
  safe_reason = reason;
  mode = "none";
}

-- `feedback` stands for the truth of the caller's feedback object.
unfoldable pub decide_task_retry : Failure → ℕ → Bool → Bool → RetryDecision
decide_task_retry failure remaining feedback duplicate_feedback =
    let action = failure_action failure in
    if is_contract_failure failure
    then refuse action "contract_or_policy_failure_requires_revision"
    else if not failure.retryable
    then refuse action "failure_marked_non_retryable"
    else if remaining == 0
    then refuse action "attempt_budget_exhausted"
    else if one_of transient_types (failure_type failure)
    then record {
      retry = true;
      requested_action = "retry";
      safe_reason = "transient_failure_same_contract";
      mode = "transient";
    }
    else if action =s= "rework" && feedback
    then if duplicate_feedback then refuse action "duplicate_validator_feedback" else record {
      retry = true;
      requested_action = action;
      safe_reason = "validator_feedback_revision";
      mode = "validator_rework";
    }
    else refuse action "failure_class_not_automatically_retryable"

pub data RevisionError : Type 0 where
  fingerprint_required revision_unchanged : RevisionError

abbrev is_blank : Option String → Bool
is_blank none = true
is_blank (some s) = s =s= ""

-- `assertNewContractRevision`, on the fingerprints of the two contracts; it returns the new one.
unfoldable pub assert_new_contract_revision :
    Option String → Option String → Result RevisionError (Option String)
assert_new_contract_revision previous next =
    if is_blank previous || is_blank next
    then err fingerprint_required
    else if is_text previous (or_else next "")
    then err revision_unchanged
    else ok next
