-- ===== src/Retry/Tests.antt =====
-- Decisions of the retry policy, and instances of its theorems.
use codex_threadhub.Base.{◌≡◌, refl, ◌↔◌, ◌<◌, true, false, not, ◌&&◌, ◌||◌, none, some, ◌=s=◌}
use codex_threadhub.Retry.{
  Failure, decide_task_retry, is_contract_failure, one_of, transient_types, failure_type,
  failure_action,
}
use codex_threadhub.Retry.Laws.{decide_task_retry_iff}

abbrev pub timeout_failure : Failure
timeout_failure = record {
  type = some "timeout";
  category = some "coordination";
  stage = some "execution";
  code = none;
  cause = some "timed out";
  message = none;
  retryable = true;
  next_action = none;
  at = none;
}

abbrev pub rejected_review : Failure
rejected_review = record timeout_failure {
  type = some "validation";
  category = some "validation";
  next_action = some "rework";
}

transient_retries : (decide_task_retry timeout_failure 1 false false).mode ≡ "transient"
unfolding decide_task_retry
transient_retries = refl

no_budget :
    (decide_task_retry timeout_failure 0 false false).safe_reason ≡ "attempt_budget_exhausted"
unfolding decide_task_retry
no_budget = refl

same_feedback : (decide_task_retry rejected_review 2 true true).retry ≡ false
unfolding decide_task_retry
same_feedback = refl

decide_task_retry_iff_example : ((decide_task_retry rejected_review 2 true false).retry ≡ true) ↔ (
    (is_contract_failure rejected_review ≡ false)
    × (true ≡ true)
    × (0 < 2)
    × ((one_of transient_types (failure_type rejected_review)
          || (failure_action rejected_review =s= "rework" && (true && not false)))
        ≡ true))
decide_task_retry_iff_example = decide_task_retry_iff rejected_review 2 true false
