-- ===== src/Contracts.antt =====
-- validateExecutionContract and assertExecutionContract of src/execution-contracts.js. Each field has
-- the type that the source checks it for; texts are free, and those that are not supported are
-- refused as in the source.
pub mod Checked
pub mod Safe
pub mod Compile
pub mod Compiled
pub mod Granted
pub mod Failures
pub mod Tests
use codex_threadhub.Base.{
  ℕ, String, Bool, true, false, not, ◌&&◌, ◌||◌, Option, none, some, List, [], ◌∷◌, ◌++◌, map, any,
  all, length, leb, ltb, ◌==◌, ◌=s=◌, if◌then◌else◌, Result, ok, err, ◌>>=◌, throw_if,
}
use codex_threadhub.Base.Checks.{demand, run_checks}
use codex_threadhub.Base.Text.{codes}

-- The properties of a contract; `other_fields` are the names of those that the source does not know.
pub record Contract : Type 0 where
  pub other_fields : List String
  pub version : ℕ
  pub task_kind : String
  pub mutates_workspace : Bool
  pub required_sandbox : String
  pub sandbox : String
  pub network_access : Bool
  pub approval_policy : String
  pub authorization_scope : String
  pub side_effect_policy : String
  pub idempotency_key : Option String
  pub workspace_mode : String
  pub base_ref : Option String
  pub integration_strategy : String
  pub outputs : List String
  pub tools : List String
  pub execution_capabilities : List String
  pub role_template : Option String
  pub fingerprint : Option String

-- The code of the error that is thrown.
pub data ContractError : Type 0 where
  invalid field_unsupported version_unsupported task_kind_mismatch insufficient_sandbox :
      ContractError
  authorization_scope_unsupported network_sandbox capability_mismatch : ContractError
  insufficient_runtime_sandbox unsupported_localhost_sandbox missing_tool external_action :
      ContractError
  side_effect_mismatch integration_mismatch integration_missing missing : ContractError
  fingerprint_mismatch : ContractError

abbrev pub includes : List String → String → Bool
includes names s = any (λ n. n =s= s) names

abbrev pub task_kinds : List String
task_kinds = "analysis" ∷ "implementation" ∷ "test" ∷ "review" ∷ "integration" ∷ "release" ∷ []

abbrev pub side_effect_policies : List String
side_effect_policies = "none" ∷ "local-runtime" ∷ "workspace" ∷ "external" ∷ "destructive" ∷ []

abbrev pub authorization_scopes : List String
authorization_scopes = "parent_run" ∷ []

abbrev pub contract_version : ℕ
contract_version = 2

abbrev pub sandboxes : List String
sandboxes = "read-only" ∷ "workspace-write" ∷ "danger-full-access" ∷ []

abbrev pub approval_policies : List String
approval_policies = "never" ∷ "on-request" ∷ "on-failure" ∷ "untrusted" ∷ []

abbrev pub workspace_modes : List String
workspace_modes = "shared" ∷ "worktree" ∷ []

abbrev pub integration_strategies : List String
integration_strategies = "none" ∷ "patch" ∷ "commit" ∷ []

abbrev pub execution_capabilities : List String
execution_capabilities =
    "process-execution" ∷ "temporary-filesystem-write" ∷ "localhost-connect" ∷ "localhost-listen"
    ∷ "external-network" ∷ "browser-inspection" ∷ "workspace-write" ∷ "git-integration" ∷ []

-- `ALWAYS_MUTATING_TASK_KINDS` and `MUTATING_TASK_KINDS`, and `NEVER_MUTATING_TASK_KINDS`.
abbrev pub mutating_kinds : List String
mutating_kinds = "implementation" ∷ "integration" ∷ "release" ∷ []

abbrev pub never_mutating_kinds : List String
never_mutating_kinds = "analysis" ∷ "review" ∷ []

-- `SANDBOX_LEVEL`, read for supported sandboxes only.
abbrev pub sandbox_level : String → ℕ
sandbox_level s = if s =s= "read-only" then 0 else if s =s= "workspace-write" then 1 else 2

-- The white space that `trim` removes.
unfoldable pub is_space : ℕ → Bool
is_space c =
    (leb 9 c && leb c 13)
    || any (λ d. d == c) (32 ∷ 160 ∷ 5760 ∷ [])
    || (leb 8192 c && leb c 8202)
    || any (λ d. d == c) (8232 ∷ 8233 ∷ 8239 ∷ 8287 ∷ 12288 ∷ 65279 ∷ [])

unfoldable pub is_blank : String → Bool
unfolding is_space
is_blank s = all is_space (codes s)

unfoldable pub has_duplicates : List String → Bool
has_duplicates [] = false
has_duplicates (s ∷ rest) = includes rest s || has_duplicates rest

-- What a contract is refused for, in the order of the source.
abbrev pub Check : Type 0
Check = Bool × ContractError

-- `some((capability) => capabilitySet.has(capability))`, and the tools that can drive a browser.
abbrev pub browser_tools : List String
browser_tools = "browser" ∷ "computer-use" ∷ "chrome" ∷ []

abbrev pub needs_writable_runtime : List String → Bool
needs_writable_runtime capabilities =
    includes capabilities "temporary-filesystem-write" || includes capabilities "localhost-listen"

abbrev pub same : Bool → Bool → Bool
same true b = b
same false b = not b

-- The fields one by one.
abbrev pub field_checks : Contract → List Check
field_checks c =
    (any (λ f. true) c.other_fields, field_unsupported)
    ∷ demand (c.version == contract_version) version_unsupported
    ∷ demand (includes task_kinds c.task_kind) invalid
    ∷ (includes mutating_kinds c.task_kind && not c.mutates_workspace, task_kind_mismatch)
    ∷ (includes never_mutating_kinds c.task_kind && c.mutates_workspace, task_kind_mismatch)
    ∷ demand (includes sandboxes c.required_sandbox) invalid
    ∷ demand (includes sandboxes c.sandbox) invalid
    ∷ (ltb (sandbox_level c.sandbox) (sandbox_level c.required_sandbox), insufficient_sandbox)
    ∷ (
      c.mutates_workspace && (c.required_sandbox =s= "read-only" || c.sandbox =s= "read-only"),
      insufficient_sandbox,
    )
    ∷ demand (includes approval_policies c.approval_policy) invalid
    ∷ demand (includes authorization_scopes c.authorization_scope) authorization_scope_unsupported
    ∷ demand (includes side_effect_policies c.side_effect_policy) invalid
    ∷ demand (includes workspace_modes c.workspace_mode) invalid
    ∷ demand (includes integration_strategies c.integration_strategy) invalid
    ∷ (any is_blank c.outputs, invalid)
    ∷ (any is_blank c.tools, invalid)
    ∷ (any is_blank c.execution_capabilities, invalid)
    ∷ (has_duplicates c.execution_capabilities, invalid)
    ∷ demand (all (includes execution_capabilities) c.execution_capabilities) invalid
    ∷ []

-- The fields together, with `capabilitySet`.
abbrev pub joint_checks : Contract → (String → Bool) → List Check
joint_checks c has =
    (c.network_access && c.sandbox =s= "read-only", network_sandbox)
    ∷ demand (same c.network_access (has "external-network")) capability_mismatch
    ∷ demand (same c.mutates_workspace (has "workspace-write")) capability_mismatch
    ∷ (not (c.integration_strategy =s= "none") && not (has "git-integration"), capability_mismatch)
    ∷ (c.integration_strategy =s= "none" && has "git-integration", capability_mismatch)
    ∷ (has "localhost-listen" && not (has "process-execution"), capability_mismatch)
    ∷ (
      needs_writable_runtime c.execution_capabilities && c.sandbox =s= "read-only",
      insufficient_runtime_sandbox,
    )
    ∷ (
      has "localhost-listen" && c.sandbox =s= "workspace-write" && not c.network_access,
      unsupported_localhost_sandbox,
    )
    ∷ (has "browser-inspection" && not (any (includes browser_tools) c.tools), missing_tool)
    ∷ (includes ("external" ∷ "destructive" ∷ []) c.side_effect_policy, external_action)
    ∷ (c.mutates_workspace && not (c.side_effect_policy =s= "workspace"), side_effect_mismatch)
    ∷ (not c.mutates_workspace && c.side_effect_policy =s= "workspace", side_effect_mismatch)
    ∷ (
      c.workspace_mode =s= "shared" && not (c.integration_strategy =s= "none"),
      integration_mismatch,
    )
    ∷ (
      c.workspace_mode =s= "worktree" && c.mutates_workspace && c.integration_strategy =s= "none",
      integration_missing,
    )
    ∷ (not c.mutates_workspace && not (c.integration_strategy =s= "none"), integration_mismatch)
    ∷ []

-- `/^[a-f0-9]{20}$/`.
abbrev pub is_hex : ℕ → Bool
is_hex c = (leb 97 c && leb c 102) || (leb 48 c && leb c 57)

abbrev pub is_digest : Option String → Bool
is_digest none = false
is_digest (some s) = length (codes s) == 20 && all is_hex (codes s)

unfoldable pub validate_execution_contract : Contract → Bool → Result ContractError Contract
unfolding run_checks is_blank has_duplicates
validate_execution_contract c require_fingerprint = run_checks (field_checks c) >>= λ _.
    run_checks (joint_checks c (includes c.execution_capabilities)) >>= λ _.
    throw_if (require_fingerprint && not (is_digest c.fingerprint)) missing >>= λ _. ok c

abbrev pub same_text : Option String → String → Bool
same_text none s = false
same_text (some t) s = t =s= s

-- The digest of a contract without its fingerprint, `contractFingerprint`.
abbrev pub Digest : Type 0
Digest = Contract → String

abbrev pub unsigned : Contract → Contract
unsigned c = record c { fingerprint = none }

abbrev pub contract_fingerprint : Digest → Contract → String
contract_fingerprint digest c = digest (unsigned c)

unfoldable pub assert_execution_contract : Digest → Contract → Result ContractError Contract
unfolding validate_execution_contract
assert_execution_contract digest c = validate_execution_contract c true >>= λ _.
    throw_if (not (same_text c.fingerprint (contract_fingerprint digest c))) fingerprint_mismatch
    >>= λ _. ok c
