-- ===== src/Contracts/Checked.antt =====
-- The checks of validateExecutionContract as facts on the contract that passes them.
use codex_threadhub.Base.{
  String, Bool, true, false, not, ◌&&◌, [], ◌∷◌, ltb, ◌=s=◌, ok, throw_if-eq_ok, bind-eq_ok, ◌≡◌,
  refl, arith,
}
use codex_threadhub.Base.Checks.{run_checks, Passes, run_checks-Passes, Passes-run_checks}
use codex_threadhub.Contracts.{
  Contract, missing, includes, mutating_kinds, never_mutating_kinds, sandbox_level, field_checks,
  joint_checks, is_digest, validate_execution_contract,
}

module _ (c : Contract) where
  abbrev has : String → Bool
  has = includes c.execution_capabilities

  pub record Valid (require_fingerprint : Bool) : Type 0 where
    pub fields : Passes (field_checks c)
    pub joint : Passes (joint_checks c has)
    pub signed : (require_fingerprint && not (is_digest c.fingerprint)) ≡ false

  pub validate-Valid :
      (require_fingerprint : Bool) {d : Contract}
      → validate_execution_contract c require_fingerprint ≡ ok d
      → Valid require_fingerprint × (c ≡ d)
  unfolding validate_execution_contract
  validate-Valid require_fingerprint h =
      let (u, a, h1) = bind-eq_ok (run_checks (field_checks c)) _ h in
      let (v, b, h2) = bind-eq_ok (run_checks (joint_checks c has)) _ h1 in
      let (n, h3) =
        throw_if-eq_ok (require_fingerprint && not (is_digest c.fingerprint)) missing _ h2 in
      (
        record {
          fields = run_checks-Passes (field_checks c) a;
          joint = run_checks-Passes (joint_checks c has) b;
          signed = n;
        },
        ground arith,
      )

  pub Valid-validate :
      (require_fingerprint : Bool)
      → Valid require_fingerprint
      → validate_execution_contract c require_fingerprint ≡ ok c
  unfolding validate_execution_contract
  Valid-validate require_fingerprint v =
      rw
        (
          Passes-run_checks (field_checks c) v.fields,
          Passes-run_checks (joint_checks c has) v.joint,
          v.signed,
        )
        refl

-- What a contract that mutates the workspace carries, and what every contract is kept from.
pub record IsSafe (c : Contract) : Type 0 where
  pub mutation :
      c.mutates_workspace ≡ true
      → ((c.required_sandbox =s= "read-only") ≡ false)
        × ((c.sandbox =s= "read-only") ≡ false)
        × ((c.side_effect_policy =s= "workspace") ≡ true)
        × (includes c.execution_capabilities "workspace-write" ≡ true)
        × (includes never_mutating_kinds c.task_kind ≡ false)
  pub no_mutation :
      c.mutates_workspace ≡ false
      → ((c.side_effect_policy =s= "workspace") ≡ false)
        × ((c.integration_strategy =s= "none") ≡ true)
        × (includes c.execution_capabilities "workspace-write" ≡ false)
        × (includes mutating_kinds c.task_kind ≡ false)
  pub network : c.network_access ≡ includes c.execution_capabilities "external-network"
  pub network_sandbox : c.network_access ≡ true → (c.sandbox =s= "read-only") ≡ false
  pub no_external_action : includes ("external" ∷ "destructive" ∷ []) c.side_effect_policy ≡ false
  pub sandbox : ltb (sandbox_level c.sandbox) (sandbox_level c.required_sandbox) ≡ false
  pub integration :
      (c.integration_strategy =s= "none") ≡ false
      → (c.mutates_workspace ≡ true)
        × ((c.workspace_mode =s= "shared") ≡ false)
        × (includes c.execution_capabilities "git-integration" ≡ true)
  pub isolated :
      (c.workspace_mode =s= "worktree") ≡ true
      → c.mutates_workspace ≡ true
      → (c.integration_strategy =s= "none") ≡ false
  pub listener :
      includes c.execution_capabilities "localhost-listen" ≡ true
      → (includes c.execution_capabilities "process-execution" ≡ true)
        × ((c.sandbox =s= "read-only") ≡ false)
        × (((c.sandbox =s= "workspace-write") ≡ true) → c.network_access ≡ true)
