-- ===== src/Contracts/Granted.antt =====
-- What compileExecutionContract grants.
use codex_threadhub.Base.{
  String, Bool, true, false, not, ◌&&◌, Option, none, some, List, [], ◌∷◌, ◌++◌, any, all, keep,
  or_else, ◌=s=◌, if◌then◌else◌, ok, ok_inj, throw_if-eq_ok, bind-eq_ok, ◌≡◌, refl, sym, subst,
  arith, eq_iff, Bool-cases, inl, inr,
}
use codex_threadhub.Base.Checks.{run_checks, run_checks-Passes}
use codex_threadhub.Contracts.{
  browser_tools, Contract, Digest, includes, mutating_kinds, execution_capabilities, invalid,
  is_blank, task_kinds,
}
use codex_threadhub.Contracts.Checked.{IsSafe}
use codex_threadhub.Contracts.Safe.{validate_execution_contract-IsSafe}
use codex_threadhub.Contracts.Compiled.{compiled_from}
use codex_threadhub.Contracts.Compile.{
  TaskRequest, Defaults, Matcher, mutates_of, inferred_of, draft_contract, draft_checks, add,
  shell_tools, add_if, add_each, asks_network, infer_task_kind, kind_given,
  acceptance_capability_requirements, inferred_capabilities, sort_capabilities, sorted_capabilities,
  resolve_contract, compile_execution_contract,
}

-- The contract asks for what the request does, and is signed.
pub record Grants (task : TaskRequest) (defaults : Defaults) (c : Contract) : Type 0 where
  pub network : c.network_access ≡ asks_network task defaults
  pub sandbox : c.sandbox ≡ or_else task.sandbox (or_else defaults.sandbox c.required_sandbox)
  pub approval :
      c.approval_policy ≡ or_else task.approval_policy (or_else defaults.approval_policy "never")
  pub kind : (k : String) → task.task_kind ≡ some k → c.task_kind ≡ k
  pub mutation :
      c.mutates_workspace ≡ or_else task.mutates_workspace (includes mutating_kinds c.task_kind)
  pub capabilities :
      (s : String)
      → includes (or_else task.requested_capabilities []) s ≡ true
      → includes c.execution_capabilities s ≡ true

module _ (s : String) where
  add-includes :
      (x : String) (set : List String) → includes set s ≡ true → includes (add x set) s ≡ true
  add-includes x set h = elim (Bool-cases (includes set x)) [
    | inl y ↦ rw y h
    | inr n ↦ rw n (longer set h)
  ]
    where
      longer : (set : List String) → includes set s ≡ true → includes (set ++ (x ∷ [])) s ≡ true
      longer [] h = cc h
      longer (y ∷ set) h = ground (arith, longer set)

  add_if-includes :
      (b : Bool) (x : String) (set : List String)
      → includes set s ≡ true
      → includes (add_if b x set) s ≡ true
  add_if-includes true x set h = add-includes x set h
  add_if-includes false x set h = h

  add_each-includes :
      (xs set : List String) → includes set s ≡ true → includes (add_each xs set) s ≡ true
  unfolding add_each
  add_each-includes [] set h = h
  add_each-includes (x ∷ xs) set h = add_each-includes xs (add x set) (add-includes x set h)

  testing-includes :
      (b : Bool) (x y : String) (set : List String)
      → includes set s ≡ true
      → includes (if b then add x (add y set) else set) s ≡ true
  testing-includes true x y set h = add-includes x (add y set) (add-includes y set h)
  testing-includes false x y set h = h

  inferred-includes :
      (task : TaskRequest) (defaults : Defaults) (kind : String) (mutates : Bool)
      (criteria : List String)
      → includes (or_else task.requested_capabilities []) s ≡ true
      → includes (inferred_capabilities task defaults kind mutates criteria) s ≡ true
  unfolding inferred_capabilities
  inferred-includes task defaults kind mutates criteria h =
      let requested = add_each criteria (or_else task.requested_capabilities []) in
      let writing = add_if mutates "workspace-write" requested in
      let network = add_if (asks_network task defaults) "external-network" writing in
      let testing =
        if kind =s= "test"
        then add "temporary-filesystem-write" (add "process-execution" network)
        else network in
      let shell = add_if (any (includes shell_tools) task.tools) "process-execution" testing in
      let browser = add_if (any (includes browser_tools) task.tools) "browser-inspection" shell in
      add_if-includes (not (or_else task.integration_strategy "none" =s= "none")) "git-integration"
        browser
        (add_if-includes (any (includes browser_tools) task.tools) "browser-inspection" shell (
          add_if-includes (any (includes shell_tools) task.tools) "process-execution" testing (
            testing-includes (kind =s= "test") "temporary-filesystem-write" "process-execution"
              network
              (add_if-includes (asks_network task defaults) "external-network" writing (
                add_if-includes mutates "workspace-write" requested
                  (add_each-includes criteria (or_else task.requested_capabilities []) h))))))

  all-includes :
      (p : String → Bool) (xs : List String) → all p xs ≡ true → includes xs s ≡ true → p s ≡ true
  all-includes p [] a h = cc h
  all-includes p (x ∷ xs) a h = elim (Bool-cases (x =s= s)) [
    | inl y ↦ subst (λ k. p k ≡ true) ((eq_iff x s).0 y) (ground arith)
    | inr n ↦ all-includes p xs (ground arith) (rw n at h)
  ]

  keep-includes :
      (p : String → Bool) (xs : List String)
      → includes xs s ≡ true
      → p s ≡ true
      → includes (keep p xs) s ≡ true
  keep-includes p [] h k = cc h
  keep-includes p (x ∷ xs) h k = elim (Bool-cases (x =s= s)) [
    | inl y ↦ rw (subst (λ z. p z ≡ true) (sym ((eq_iff x s).0 y)) k, y) refl
    | inr n ↦
        let rest = keep-includes p xs (rw n at h) k in
        elim (Bool-cases (p x)) [ inl a ↦ rw (a, n) rest | inr a ↦ rw a rest ]
  ]

  sorted-includes : includes execution_capabilities s ≡ true → includes sorted_capabilities s ≡ true
  sorted-includes h = ground arith

  capable :
      (inferred : List String) (b : Bool)
      → not (all (includes execution_capabilities) inferred) ≡ false
      → includes inferred s ≡ true
      → includes (sort_capabilities (add_if b "git-integration" inferred)) s ≡ true
  capable inferred b supported h =
      keep-includes (includes (add_if b "git-integration" inferred)) sorted_capabilities
        (sorted-includes (all-includes (includes execution_capabilities) inferred (ground arith) h))
        (add_if-includes b "git-integration" inferred h)

module _ (digest : Digest) (matches : Matcher) (task : TaskRequest) (defaults : Defaults)
    (role : Option String) where
  given_kind :
      (o : Option String) {kind : String}
      → kind_given matches task o ≡ ok kind
      → (k : String) → o ≡ some k
      → kind ≡ k
  given_kind none h k e = cc e
  given_kind (some given) h k e =
      let (_, h1) = throw_if-eq_ok (not (includes task_kinds given)) invalid _ h in ground arith

  resolved-Grants :
      (c : Contract) → resolve_contract matches task defaults role ≡ ok c → Grants task defaults c
  unfolding resolve_contract infer_task_kind draft_contract
  resolved-Grants c h =
      let (_, h1) = throw_if-eq_ok (any is_blank task.tools) invalid _ h in
      let (_, h2) = throw_if-eq_ok (any is_blank task.capabilities) invalid _ h1 in
      let (kind, from, h3) = bind-eq_ok (kind_given matches task task.task_kind) _ h2 in
      let (_, h4) = throw_if-eq_ok _ invalid _ h3 in
      let (criteria, _, h5) = bind-eq_ok (acceptance_capability_requirements matches task) _ h4 in
      let inferred = inferred_of task defaults kind criteria in
      let workspace =
        or_else task.workspace_mode (
          or_else defaults.workspace_mode
            (if mutates_of task kind then "worktree" else "shared")) in
      let strategy =
        or_else task.integration_strategy
          (if workspace =s= "worktree" && mutates_of task kind then "patch" else "none") in
      let (u, checked, h6) =
        bind-eq_ok
          (run_checks (draft_checks (draft_contract task defaults role kind criteria) inferred)) _
          h5 in
      let (supported, _) =
        run_checks-Passes (draft_checks (draft_contract task defaults role kind criteria) inferred)
          checked in
      let same = ok_inj h6 in
      subst (Grants task defaults) same record {
        network = refl;
        sandbox = refl;
        approval = refl;
        kind = λ k e. given_kind task.task_kind from k e;
        mutation = refl;
        capabilities = λ s asked.
            capable s inferred (not (strategy =s= "none")) supported
              (inferred-includes s task defaults kind (mutates_of task kind) criteria asked);
      }

  -- A contract that is compiled is safe, and grants what was asked for. It has network access exactly
  -- if the task, or else its defaults, ask for it; the sandbox and the approval policy that are named,
  -- or else the defaults'; the kind that is named;
  -- it mutates as asked, or else as its kind does; and every capability that was asked for is there.
  pub compile_execution_contract-Grants :
      (c : Contract)
      → compile_execution_contract digest matches task defaults role ≡ ok c
      → Grants task defaults c × IsSafe c
  compile_execution_contract-Grants c h =
      let (d, resolved, checked, same) = compiled_from digest matches task defaults role h in
      let g = resolved-Grants d resolved in
      let safe = validate_execution_contract-IsSafe d false checked in
      (
        subst (Grants task defaults) same record {
          network = g.network;
          sandbox = g.sandbox;
          approval = g.approval;
          kind = g.kind;
          mutation = g.mutation;
          capabilities = g.capabilities;
        },
        subst IsSafe same record {
          mutation = safe.mutation;
          no_mutation = safe.no_mutation;
          network = safe.network;
          network_sandbox = safe.network_sandbox;
          no_external_action = safe.no_external_action;
          sandbox = safe.sandbox;
          integration = safe.integration;
          isolated = safe.isolated;
          listener = safe.listener;
        },
      )
