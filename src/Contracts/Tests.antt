-- ===== src/Contracts/Tests.antt =====
-- Execution contracts, and instances of the theorems on them.
use codex_threadhub.Base.{true, false, none, some, [], ◌∷◌, ok, err, ◌≡◌, refl, if◌then◌else◌}
use codex_threadhub.Retry.{decide_task_retry, is_text}
use codex_threadhub.Contracts.{
  Contract, insufficient_sandbox, external_action, Digest, validate_execution_contract,
  assert_execution_contract, fingerprint_mismatch,
}
use codex_threadhub.Contracts.Checked.{IsSafe}
use codex_threadhub.Contracts.Compile.{
  TaskRequest, Defaults, Matcher, compile_execution_contract,
  compile_and_validate_execution_contract,
}
use codex_threadhub.Contracts.Compiled.{compile_and_validate-eq}
use codex_threadhub.Contracts.Granted.{Grants, compile_execution_contract-Grants}
use codex_threadhub.Contracts.Failures.{
  code_of, execution_contract_failure, refused_contract_not_retried,
}

abbrev pub some_digest : Digest
some_digest c = "0123456789abcdef0123"

-- No pattern matches.
abbrev pub no_match : Matcher
no_match p t = false

abbrev pub request : TaskRequest
request = record {
  key = some "build";
  title = none;
  prompt = some "add a parser";
  acceptance_criteria = [];
  tools = "shell" ∷ "shell" ∷ [];
  capabilities = [];
  task_kind = some "implementation";
  mutates_workspace = none;
  requested_capabilities = none;
  network_access = none;
  required_sandbox = none;
  sandbox = none;
  workspace_mode = none;
  integration_strategy = none;
  side_effect_policy = none;
  authorization_scope = none;
  approval_policy = none;
  outputs = none;
  idempotency_key = none;
  base_ref = none;
}

abbrev pub no_defaults : Defaults
no_defaults = record {
  network_access = none;
  sandbox = none;
  workspace_mode = none;
  authorization_scope = none;
  approval_policy = none;
  base_ref = none;
}

abbrev pub compiled : Contract
compiled = record {
  other_fields = [];
  version = 2;
  task_kind = "implementation";
  mutates_workspace = true;
  required_sandbox = "workspace-write";
  sandbox = "workspace-write";
  network_access = false;
  approval_policy = "never";
  authorization_scope = "parent_run";
  side_effect_policy = "workspace";
  idempotency_key = some "build";
  workspace_mode = "worktree";
  base_ref = none;
  integration_strategy = "patch";
  outputs = "workspace-change" ∷ [];
  tools = "shell" ∷ [];
  execution_capabilities = "git-integration" ∷ "process-execution" ∷ "workspace-write" ∷ [];
  role_template = none;
  fingerprint = some "0123456789abcdef0123";
}

compile_request :
    compile_execution_contract some_digest no_match request no_defaults none ≡ ok compiled
unfolding compile_execution_contract
compile_request = refl

validate_compiled : validate_execution_contract compiled true ≡ ok compiled
unfolding validate_execution_contract
validate_compiled = refl

refusals :
    (compile_execution_contract some_digest no_match
        (record request { sandbox = some "read-only" })
        no_defaults
        none
      ≡ err insufficient_sandbox)
    × (compile_execution_contract some_digest no_match
          (record request { side_effect_policy = some "external" })
          no_defaults
          none
        ≡ err external_action)
    × (assert_execution_contract some_digest
          (record compiled { fingerprint = some "00000000000000000000" })
        ≡ err fingerprint_mismatch)
unfolding compile_execution_contract assert_execution_contract
refusals = (refl, refl, refl)

compile_and_validate-eq_example :
    compile_and_validate_execution_contract some_digest no_match request no_defaults none
    ≡ compile_execution_contract some_digest no_match request no_defaults none
compile_and_validate-eq_example =
    compile_and_validate-eq some_digest no_match request no_defaults none (λ c. refl)

compile_execution_contract-Grants_example : Grants request no_defaults compiled × IsSafe compiled
compile_execution_contract-Grants_example =
    compile_execution_contract-Grants some_digest no_match request no_defaults none compiled
      compile_request

refused_contract_not_retried_example :
    decide_task_retry
      (execution_contract_failure (some (code_of external_action)) "no" none none 5).failure
      3
      true
      false
    ≡ record {
      retry = false;
      requested_action =
          if is_text (some (code_of external_action)) "EXECUTION_CONTRACT_EXTERNAL_ACTION"
          then "manual_authorization"
          else "repair_contract";
      safe_reason = "contract_or_policy_failure_requires_revision";
      mode = "none";
    }
refused_contract_not_retried_example =
    refused_contract_not_retried (some (code_of external_action)) "no" none none 5 3 true false
