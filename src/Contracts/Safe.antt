-- ===== src/Contracts/Safe.antt =====
-- What every contract that is accepted keeps to.
use codex_threadhub.Base.{
  Bool, true, false, not, ◌&&◌, ◌||◌, ◌=s=◌, ok, ◌≡◌, refl, sym, ◌∙◌, arith, implied, excluded,
}
use codex_threadhub.Base.Checks.{Passes}
use codex_threadhub.Contracts.{
  Contract, includes, same, field_checks, joint_checks, mutating_kinds, never_mutating_kinds,
  validate_execution_contract,
}
use codex_threadhub.Contracts.Checked.{IsSafe, validate-Valid}

same-eq : (a b : Bool) → not (same a b) ≡ false → a ≡ b
same-eq true true h = refl
same-eq true false h = cc h
same-eq false true h = cc h
same-eq false false h = refl

neither : (a b c : Bool) → (a && (b || c)) ≡ false → a ≡ true → (b ≡ false) × (c ≡ false)
neither a b c h e = (ground arith, ground arith)

refuted : (a b : Bool) → (a && b) ≡ false → b ≡ true → a ≡ false
refuted a b h e = ground arith

lifted : (a b c : Bool) → (a && b && not c) ≡ false → a ≡ true → b ≡ true → c ≡ true
lifted a b c h e k = ground arith

triple : (a b c : Bool) → (a && b && c) ≡ false → a ≡ true → b ≡ true → c ≡ false
triple a b c h e k = ground arith

contra_false : (a b : Bool) → (not a && b) ≡ false → a ≡ false → b ≡ false
contra_false a b h e = ground arith

refuted_not : (a b : Bool) → (a && not b) ≡ false → b ≡ false → a ≡ false
refuted_not a b h e = ground arith

mutates : (a b : Bool) → (not a && not b) ≡ false → b ≡ false → a ≡ true
mutates a b h e = ground arith

unless : (a b : Bool) → (not a && not b) ≡ false → a ≡ false → b ≡ true
unless a b h e = ground arith

writable_runtime : (t l s : Bool) → ((t || l) && s) ≡ false → l ≡ true → s ≡ false
writable_runtime t l s h e = ground arith

safe :
    (c : Contract)
    → Passes (field_checks c)
    → Passes (joint_checks c (includes c.execution_capabilities))
    → IsSafe c
safe c (_, (_, (_, (always, (never, (_, (_, (level, (writable, rest)))))))))
      (
        network,
        (
          net,
          (
            write,
            (
              git,
              (
                no_git,
                (
                  listen,
                  (
                    runtime,
                    (
                      local,
                      (
                        browser,
                        (external, (effect, (no_effect, (shared, (worktree, (integrates, _)))))),
                      ),
                    ),
                  ),
                ),
              ),
            ),
          ),
        ),
      ) =
    let has = includes c.execution_capabilities in
    let none_chosen = c.integration_strategy =s= "none" in
    let effects = c.side_effect_policy =s= "workspace" in
    let matches = same-eq c.mutates_workspace (has "workspace-write") write in
    record {
      mutation = λ y.
          let (a, b) =
            neither c.mutates_workspace (c.required_sandbox =s= "read-only")
              (c.sandbox =s= "read-only") writable y in
          (
            a,
            b,
            implied c.mutates_workspace effects effect y,
            sym matches ∙ y,
            refuted (includes never_mutating_kinds c.task_kind) c.mutates_workspace never y,
          );
      no_mutation = λ n. (
        contra_false c.mutates_workspace effects no_effect n,
        unless c.mutates_workspace none_chosen integrates n,
        sym matches ∙ n,
        refuted_not (includes mutating_kinds c.task_kind) c.mutates_workspace always n,
      );
      network = same-eq c.network_access (has "external-network") net;
      network_sandbox = excluded c.network_access (c.sandbox =s= "read-only") network;
      no_external_action = external;
      sandbox = level;
      integration = λ n. (
        mutates c.mutates_workspace none_chosen integrates n,
        refuted_not (c.workspace_mode =s= "shared") none_chosen shared n,
        unless none_chosen (has "git-integration") git n,
      );
      isolated = λ w y.
          triple (c.workspace_mode =s= "worktree") c.mutates_workspace none_chosen worktree w y;
      listener = λ l. (
        implied (has "localhost-listen") (has "process-execution") listen l,
        writable_runtime (has "temporary-filesystem-write") (has "localhost-listen")
            (c.sandbox =s= "read-only") runtime l,
        lifted (has "localhost-listen") (c.sandbox =s= "workspace-write") c.network_access local l,
      );
    }

-- A contract that is accepted is safe. If it mutates the workspace, both sandboxes are writable, its
-- side effects are those of the workspace, it has the capability, and its kind may mutate; if not, it
-- has neither workspace side effects nor an integration, and its kind need not mutate. It has network
-- access exactly if it has the capability, and then no read-only sandbox. Its side effects are
-- neither external nor destructive. Its sandbox allows what it requires. An integration is of a
-- mutating task outside the shared workspace with the capability, and a mutating task in a worktree
-- has one. A listener on the local host may run processes, has a writable sandbox, and the network
-- if that sandbox is the workspace.
pub validate_execution_contract-IsSafe :
    (c : Contract) (require_fingerprint : Bool)
    → validate_execution_contract c require_fingerprint ≡ ok c
    → IsSafe c
validate_execution_contract-IsSafe c require_fingerprint h =
    let (v, e) = validate-Valid c require_fingerprint h in safe c v.fields v.joint
