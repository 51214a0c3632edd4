-- ===== src/Contracts/Failures.antt =====
-- executionContractFailure of src/execution-contracts.js, and what src/retry-policy.js makes of it.
use codex_threadhub.Base.{
  ℕ, String, Bool, false, not, Option, some, or_else, if◌then◌else◌, ◌≡◌, refl, Bool-cases, inl,
  inr,
}
use codex_threadhub.Retry.{Failure, is_text, decide_task_retry}
use codex_threadhub.Contracts.{
  ContractError, invalid, field_unsupported, version_unsupported, task_kind_mismatch,
  insufficient_sandbox, authorization_scope_unsupported, network_sandbox, capability_mismatch,
  insufficient_runtime_sandbox, unsupported_localhost_sandbox, missing_tool, external_action,
  side_effect_mismatch, integration_mismatch, integration_missing, missing, fingerprint_mismatch,
}

-- The code that an error carries.
abbrev pub code_of : ContractError → String
code_of invalid = "EXECUTION_CONTRACT_INVALID"
code_of field_unsupported = "EXECUTION_CONTRACT_FIELD_UNSUPPORTED"
code_of version_unsupported = "EXECUTION_CONTRACT_VERSION_UNSUPPORTED"
code_of task_kind_mismatch = "EXECUTION_CONTRACT_TASK_KIND_MISMATCH"
code_of insufficient_sandbox = "EXECUTION_CONTRACT_INSUFFICIENT_SANDBOX"
code_of authorization_scope_unsupported = "EXECUTION_CONTRACT_AUTHORIZATION_SCOPE"
code_of network_sandbox = "EXECUTION_CONTRACT_NETWORK_SANDBOX"
code_of capability_mismatch = "EXECUTION_CONTRACT_CAPABILITY_MISMATCH"
code_of insufficient_runtime_sandbox = "EXECUTION_CONTRACT_INSUFFICIENT_RUNTIME_SANDBOX"
code_of unsupported_localhost_sandbox = "EXECUTION_CONTRACT_UNSUPPORTED_LOCALHOST_SANDBOX"
code_of missing_tool = "EXECUTION_CONTRACT_MISSING_TOOL"
code_of external_action = "EXECUTION_CONTRACT_EXTERNAL_ACTION"
code_of side_effect_mismatch = "EXECUTION_CONTRACT_SIDE_EFFECT_MISMATCH"
code_of integration_mismatch = "EXECUTION_CONTRACT_INTEGRATION_MISMATCH"
code_of integration_missing = "EXECUTION_CONTRACT_INTEGRATION_MISSING"
code_of missing = "EXECUTION_CONTRACT_MISSING"
code_of fingerprint_mismatch = "EXECUTION_CONTRACT_FINGERPRINT_MISMATCH"

-- A failure with the two properties that only this one has.
pub record ContractFailure : Type 0 where
  pub failure : Failure
  pub repairable : Bool
  pub execution_fingerprint : Option String

-- The error's code, if it has one, its text, the options of the caller, and the clock.
unfoldable pub execution_contract_failure :
    Option String → String → Option String → Option String → ℕ → ContractFailure
execution_contract_failure code cause stage fingerprint now =
    let policy = is_text code "EXECUTION_CONTRACT_EXTERNAL_ACTION" in
    let class = if policy then "policy" else "configuration" in
    record {
      failure = record {
        type = some class;
        category = some class;
        stage = some (or_else stage "contract_validation");
        code = some (or_else code "EXECUTION_CONTRACT_INVALID");
        cause = some cause;
        message = some cause;
        retryable = false;
        next_action = some (if policy then "manual_authorization" else "repair_contract");
        at = some now;
      };
      repairable = not policy;
      execution_fingerprint = fingerprint;
    }

-- A contract that is refused is never retried by itself, whatever attempts and feedback are left:
-- the request that is passed on is to authorize the action where the contract asks for an external
-- one, and to repair the contract otherwise.
pub refused_contract_not_retried :
    (code : Option String) (cause : String) (stage fingerprint : Option String) (now remaining : ℕ)
    (feedback duplicate : Bool)
    → decide_task_retry
        (execution_contract_failure code cause stage fingerprint now).failure
        remaining
        feedback
        duplicate
      ≡ record {
        retry = false;
        requested_action =
            if is_text code "EXECUTION_CONTRACT_EXTERNAL_ACTION"
            then "manual_authorization"
            else "repair_contract";
        safe_reason = "contract_or_policy_failure_requires_revision";
        mode = "none";
      }
unfolding decide_task_retry execution_contract_failure
refused_contract_not_retried code cause stage fingerprint now remaining feedback duplicate =
    elim (Bool-cases (is_text code "EXECUTION_CONTRACT_EXTERNAL_ACTION")) [
      | inl y ↦ rw y refl
      | inr n ↦ rw n refl
    ]
