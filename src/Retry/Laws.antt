-- ===== src/Retry/Laws.antt =====
-- When the retry policy grants an attempt.
use codex_threadhub.Base.{
  ℕ, ◌≡◌, ◌↔◌, ◌<◌, String, Bool, true, false, not, ◌&&◌, ◌||◌, Option, none, some, ◌≢◌, arith,
  ◌=s=◌, eq_iff, ok,
}
use codex_threadhub.Retry.{
  Failure, decide_task_retry, is_contract_failure, one_of, transient_types, failure_type,
  failure_action, assert_new_contract_revision,
}

-- A retry is granted exactly when the failure is neither a contract nor a policy failure, is marked
-- retryable, has budget left, and is either transient or asks for rework by feedback that the task
-- has not had before.
pub decide_task_retry_iff :
    (f : Failure) (n : ℕ) (fb dup : Bool)
    → ((decide_task_retry f n fb dup).retry ≡ true) ↔ (
        (is_contract_failure f ≡ false)
        × (f.retryable ≡ true)
        × (0 < n)
        × ((one_of transient_types (failure_type f)
              || (failure_action f =s= "rework" && (fb && not dup)))
            ≡ true))
unfolding decide_task_retry
decide_task_retry_iff f n fb dup = ground arith

-- A contract revision is accepted only if it has a fingerprint that differs from the previous one.
pub assert_new_contract_revision-ne :
    (previous next : Option String) {r : Option String}
    → assert_new_contract_revision previous next ≡ ok r
    → (r ≡ next) × (previous ≢ next) × (next ≢ none)
unfolding assert_new_contract_revision
assert_new_contract_revision-ne none next h = cc
assert_new_contract_revision-ne (some p) none h = ground arith
assert_new_contract_revision-ne (some p) (some q) h =
    ground (arith, eq_iff p q, eq_iff p "", eq_iff q "")
