-- ===== src/Contracts/Compile.antt =====
-- compileExecutionContract of src/execution-contracts.js, with inferTaskKind and
-- acceptanceCapabilityRequirements. Whether a regular expression matches is a parameter.
use codex_threadhub.Base.{
  String, Bool, false, not, ◌&&◌, ◌||◌, Option, none, some, List, [], ◌∷◌, ◌++◌, any, all, or_else,
  or_option, keep, ◌=s=◌, ltb, if◌then◌else◌, Result, ok, ◌>>=◌, throw_if,
}
use codex_threadhub.Base.Checks.{demand, run_checks}
use codex_threadhub.Contracts.{
  Check, Contract, ContractError, invalid, authorization_scope_unsupported, insufficient_sandbox,
  network_sandbox, includes, task_kinds, side_effect_policies, authorization_scopes,
  contract_version, sandboxes, approval_policies, workspace_modes, integration_strategies,
  execution_capabilities, mutating_kinds, sandbox_level, is_blank, has_duplicates, browser_tools,
  needs_writable_runtime, validate_execution_contract, Digest, contract_fingerprint,
  assert_execution_contract,
}

-- What a caller asks for; `none` is a property that is left out.
pub record TaskRequest : Type 0 where
  pub key : Option String
  pub title : Option String
  pub prompt : Option String
  pub acceptance_criteria : List String
  pub tools : List String
  pub capabilities : List String
  pub task_kind : Option String
  pub mutates_workspace : Option Bool
  pub requested_capabilities : Option (List String)
  pub network_access : Option Bool
  pub required_sandbox : Option String
  pub sandbox : Option String
  pub workspace_mode : Option String
  pub integration_strategy : Option String
  pub side_effect_policy : Option String
  pub authorization_scope : Option String
  pub approval_policy : Option String
  pub outputs : Option (List String)
  pub idempotency_key : Option String
  pub base_ref : Option String

pub record Defaults : Type 0 where
  pub network_access : Option Bool
  pub sandbox : Option String
  pub workspace_mode : Option String
  pub authorization_scope : Option String
  pub approval_policy : Option String
  pub base_ref : Option String

-- The regular expressions of the source: five on the words of a task, three on its criteria.
pub data Pattern : Type 0 where
  release_words integration_words test_words implementation_words review_words : Pattern
  browser_criteria listener_criteria temporary_criteria : Pattern

-- Whether a pattern matches the text that the source makes of a task.
abbrev pub Matcher : Type 0
Matcher = Pattern → TaskRequest → Bool

abbrev pub is_true : Option Bool → Bool
is_true none = false
is_true (some b) = b

abbrev pub kind_from_text : Matcher → TaskRequest → String
kind_from_text matches task =
    if is_true task.mutates_workspace
    then "implementation"
    else if matches release_words task
    then "release"
    else if matches integration_words task
    then "integration"
    else if matches test_words task
    then "test"
    else if matches implementation_words task
    then "implementation"
    else if matches review_words task
    then "review"
    else "analysis"

abbrev pub kind_given : Matcher → TaskRequest → Option String → Result ContractError String
kind_given matches task none = ok (kind_from_text matches task)
kind_given matches task (some kind) =
    throw_if (not (includes task_kinds kind)) invalid >>= λ _. ok kind

unfoldable pub infer_task_kind : Matcher → TaskRequest → Result ContractError String
infer_task_kind matches task = kind_given matches task task.task_kind

-- `Set.add`.
abbrev pub add : String → List String → List String
add s set = if includes set s then set else set ++ (s ∷ [])

abbrev pub add_if : Bool → String → List String → List String
add_if test s set = if test then add s set else set

unfoldable pub add_each : List String → List String → List String
add_each [] set = set
add_each (s ∷ rest) set = add_each rest (add s set)

-- In the order of `sort`.
unfoldable pub acceptance_capability_requirements :
    Matcher → TaskRequest → Result ContractError (List String)
acceptance_capability_requirements matches task =
    throw_if (any is_blank task.acceptance_criteria) invalid >>= λ _. ok (
      (if matches browser_criteria task then "browser-inspection" ∷ [] else [])
      ++ ((if matches listener_criteria task
            then "localhost-listen" ∷ "process-execution" ∷ []
            else [])
          ++ (if matches temporary_criteria task then "temporary-filesystem-write" ∷ [] else [])))

abbrev pub shell_tools : List String
shell_tools = "shell" ∷ "node" ∷ "npm" ∷ "pnpm" ∷ "yarn" ∷ []

abbrev pub asks_network : TaskRequest → Defaults → Bool
asks_network task defaults = or_else task.network_access (or_else defaults.network_access false)

unfoldable pub inferred_capabilities :
    TaskRequest → Defaults → String → Bool → List String → List String
unfolding add_each
inferred_capabilities task defaults kind mutates criteria =
    let requested = add_each criteria (or_else task.requested_capabilities []) in
    let writing = add_if mutates "workspace-write" requested in
    let network = add_if (asks_network task defaults) "external-network" writing in
    let testing =
      if kind =s= "test"
      then add "temporary-filesystem-write" (add "process-execution" network)
      else network in
    let shell = add_if (any (includes shell_tools) task.tools) "process-execution" testing in
    let browser = add_if (any (includes browser_tools) task.tools) "browser-inspection" shell in
    add_if (not (or_else task.integration_strategy "none" =s= "none")) "git-integration" browser

-- The eight capabilities in the order of `sort`; a set of supported ones is sorted by it.
abbrev pub sorted_capabilities : List String
sorted_capabilities =
    "browser-inspection" ∷ "external-network" ∷ "git-integration" ∷ "localhost-connect"
    ∷ "localhost-listen" ∷ "process-execution" ∷ "temporary-filesystem-write" ∷ "workspace-write"
    ∷ []

abbrev pub sort_capabilities : List String → List String
sort_capabilities set = keep (includes set) sorted_capabilities

unfoldable pub unique : List String → List String
unfolding add_each
unique xs = add_each xs []

-- The capabilities of a task before those of its integration.
abbrev pub mutates_of : TaskRequest → String → Bool
mutates_of task kind = or_else task.mutates_workspace (includes mutating_kinds kind)

abbrev pub inferred_of : TaskRequest → Defaults → String → List String → List String
inferred_of task defaults kind criteria =
    inferred_capabilities task defaults kind (mutates_of task kind) criteria

-- The contract that the request and the defaults resolve to.
unfoldable pub draft_contract :
    TaskRequest → Defaults → Option String → String → List String → Contract
unfolding inferred_capabilities unique
draft_contract task defaults role kind criteria =
    let mutates = mutates_of task kind in
    let inferred = inferred_of task defaults kind criteria in
    let required =
      or_else task.required_sandbox
        (if mutates || needs_writable_runtime inferred then "workspace-write" else "read-only") in
    let workspace =
      or_else task.workspace_mode
        (or_else defaults.workspace_mode (if mutates then "worktree" else "shared")) in
    let strategy =
      or_else task.integration_strategy
        (if workspace =s= "worktree" && mutates then "patch" else "none") in
    record {
      other_fields = [];
      version = contract_version;
      task_kind = kind;
      mutates_workspace = mutates;
      required_sandbox = required;
      sandbox = or_else task.sandbox (or_else defaults.sandbox required);
      network_access = asks_network task defaults;
      approval_policy = or_else task.approval_policy (or_else defaults.approval_policy "never");
      authorization_scope =
          or_else task.authorization_scope (or_else defaults.authorization_scope "parent_run");
      side_effect_policy =
          or_else task.side_effect_policy (if mutates then "workspace" else "none");
      idempotency_key = or_option task.idempotency_key task.key;
      workspace_mode = workspace;
      base_ref = or_option task.base_ref defaults.base_ref;
      integration_strategy = strategy;
      outputs = or_else task.outputs (if mutates then "workspace-change" ∷ [] else "report" ∷ []);
      tools = unique task.tools;
      execution_capabilities =
          sort_capabilities (add_if (not (strategy =s= "none")) "git-integration" inferred);
      role_template = role;
      fingerprint = none;
    }

-- What the resolved values are refused for, in the order of the source.
abbrev pub draft_checks : Contract → List String → List Check
draft_checks c inferred =
    demand (all (includes execution_capabilities) inferred) invalid
    ∷ demand (includes sandboxes c.required_sandbox) invalid
    ∷ demand (includes sandboxes c.sandbox) invalid
    ∷ (ltb (sandbox_level c.sandbox) (sandbox_level c.required_sandbox), insufficient_sandbox)
    ∷ (c.network_access && c.sandbox =s= "read-only", network_sandbox)
    ∷ demand (includes workspace_modes c.workspace_mode) invalid
    ∷ demand (includes integration_strategies c.integration_strategy) invalid
    ∷ demand (includes side_effect_policies c.side_effect_policy) invalid
    ∷ demand (includes authorization_scopes c.authorization_scope) authorization_scope_unsupported
    ∷ demand (includes approval_policies c.approval_policy) invalid
    ∷ (any is_blank c.outputs, invalid)
    ∷ []

-- The contract before it is validated.
unfoldable pub resolve_contract :
    Matcher → TaskRequest → Defaults → Option String → Result ContractError Contract
unfolding infer_task_kind acceptance_capability_requirements draft_contract is_blank has_duplicates
    run_checks
resolve_contract matches task defaults role = throw_if (any is_blank task.tools) invalid >>= λ _.
    throw_if (any is_blank task.capabilities) invalid >>= λ _.
    infer_task_kind matches task >>= λ kind.
    throw_if
      (any is_blank (or_else task.requested_capabilities [])
        || has_duplicates (or_else task.requested_capabilities []))
      invalid
    >>= λ _. acceptance_capability_requirements matches task >>= λ criteria.
        run_checks (
          draft_checks (draft_contract task defaults role kind criteria)
            (inferred_of task defaults kind criteria))
        >>= λ _. ok (draft_contract task defaults role kind criteria)

unfoldable pub compile_execution_contract :
    Digest → Matcher → TaskRequest → Defaults → Option String → Result ContractError Contract
unfolding resolve_contract validate_execution_contract
compile_execution_contract digest matches task defaults role =
    resolve_contract matches task defaults role >>= λ c.
    validate_execution_contract c false >>= λ _.
    ok (record c { fingerprint = some (contract_fingerprint digest c) })

unfoldable pub compile_and_validate_execution_contract :
    Digest → Matcher → TaskRequest → Defaults → Option String → Result ContractError Contract
unfolding compile_execution_contract assert_execution_contract
compile_and_validate_execution_contract digest matches task defaults role =
    compile_execution_contract digest matches task defaults role >>= λ c.
    assert_execution_contract digest c
