-- ===== src/Authorization/Bounds.antt =====
-- What a manifest that is compiled bounds.
use codex_threadhub.Base.{
  ℕ, String, Bool, true, false, not, Option, none, some, List, [], ◌∷◌, any, or_else, ltb, ◌≤◌, ok,
  ok_inj, throw_if-eq_ok, bind-eq_ok, ◌≡◌, refl, subst, arith, All, implied,
}
use codex_threadhub.Base.Checks.{run_checks, Passes, run_checks-Passes}
use codex_threadhub.Contracts.{includes, sandbox_level}
use codex_threadhub.Authorization.{
  ManifestInput, Manifest, ScopedTask, Scope, fingerprint_mismatch, manifest_required, run_mismatch,
  differs, inside, input_checks, unsigned_manifest, signed_manifest, task_checks, check_tasks,
  compile_authorization_manifest, index_inputs, input_for, compile_found, compile_each,
  compile_authorization_manifest_set,
}

holds : (b : Bool) → not b ≡ false → b ≡ true
holds b h = ground arith

no_less : (a b : ℕ) → ltb a b ≡ false → b ≤ a
no_less a b h = ground arith

module _ (canonical : String → String) (digest : Manifest → String) where
  -- The task runs below an allowed root, and its contract asks for no more than the manifest allows.
  pub record IsWithin (m : Manifest) (cwd : String) (t : ScopedTask) : Type 0 where
    pub root : any (λ root. inside canonical root (or_else t.cwd cwd)) m.allowed_roots ≡ true
    pub kind : includes m.task_kinds t.contract.task_kind ≡ true
    pub mutation : t.contract.mutates_workspace ≡ true → m.mutates_workspace ≡ true
    pub effects : includes m.side_effect_policies t.contract.side_effect_policy ≡ true
    pub sandbox : sandbox_level t.contract.sandbox ≤ sandbox_level m.sandbox_ceiling
    pub network : t.contract.network_access ≡ true → m.network_access ≡ true
    pub workspace : includes m.workspace_modes t.contract.workspace_mode ≡ true

  passed-IsWithin :
      (m : Manifest) (cwd : String) (t : ScopedTask)
      → Passes (task_checks canonical digest m cwd t)
      → IsWithin m cwd t
  passed-IsWithin m cwd t
        (root, (kind, (mutation, (effects, (sandbox, (network, (workspace, _))))))) =
      record {
        root = holds _ root;
        kind = holds _ kind;
        mutation = implied t.contract.mutates_workspace m.mutates_workspace mutation;
        effects = holds _ effects;
        sandbox =
            no_less (sandbox_level m.sandbox_ceiling) (sandbox_level t.contract.sandbox) sandbox;
        network = implied t.contract.network_access m.network_access network;
        workspace = holds _ workspace;
      }

  check_tasks-IsWithin :
      (m : Manifest) (cwd : String) (tasks : List ScopedTask) {u : Unit {0}}
      → check_tasks canonical digest m cwd tasks ≡ ok u
      → All (IsWithin m cwd) tasks
  unfolding check_tasks
  check_tasks-IsWithin m cwd [] h = tt
  check_tasks-IsWithin m cwd (t ∷ tasks) h =
      let (u, first, rest) = bind-eq_ok (run_checks (task_checks canonical digest m cwd t)) _ h in
      (
        passed-IsWithin m cwd t (run_checks-Passes (task_checks canonical digest m cwd t) first),
        check_tasks-IsWithin m cwd tasks rest,
      )

  -- The manifest of a Project Run: it is bound to it, its roots stand in the project, and every task
  -- keeps within it.
  pub record Bounds (scope : Scope) (m : Manifest) : Type 0 where
    pub run : m.run_id ≡ scope.run_id
    pub project : m.project_id ≡ scope.project_id
    pub roots :
        any (λ root. not (inside canonical scope.canonical_root root)) m.allowed_roots ≡ false
    pub tasks : All (IsWithin m scope.cwd) scope.tasks

  -- A manifest that is compiled is bound to the Project Run and to its project, and its roots stand in
  -- the project. Every task of the Run works below one of the roots, and its contract has an allowed
  -- kind, side effects and workspace, mutates the workspace and uses the network only if the manifest
  -- allows it, and asks for no wider sandbox than the ceiling.
  pub compile_authorization_manifest-Bounds :
      (input : ManifestInput) (scope : Scope) (m : Manifest)
      → compile_authorization_manifest canonical digest input scope ≡ ok m
      → Bounds scope m
  unfolding compile_authorization_manifest
  compile_authorization_manifest-Bounds input scope m h =
      let (u, checked, h1) =
        bind-eq_ok (run_checks (input_checks canonical digest input scope)) _ h in
      let (_, h2) =
        throw_if-eq_ok
          (differs input.fingerprint (digest (unsigned_manifest canonical digest input scope)))
          fingerprint_mismatch _ h1 in
      let (v, kept, h3) =
        bind-eq_ok
          (check_tasks canonical digest (signed_manifest canonical digest input scope) scope.cwd
            scope.tasks)
          _ h2 in
      let (_, (_, (_, (_, (escape, _))))) =
        run_checks-Passes (input_checks canonical digest input scope) checked in
      subst (Bounds scope) (ok_inj h3) record {
        run = refl;
        project = refl;
        roots = escape;
        tasks =
            check_tasks-IsWithin (signed_manifest canonical digest input scope) scope.cwd
              scope.tasks kept;
      }

  -- One manifest for each Project Run, in their order.
  abbrev pub Authorized : List Scope → List Manifest → Type 0
  Authorized [] [] = Unit
  Authorized [] (m ∷ manifests) = ⊥
  Authorized (scope ∷ scopes) [] = ⊥
  Authorized (scope ∷ scopes) (m ∷ manifests) = Bounds scope m × Authorized scopes manifests

  found-Bounds :
      (o : Option ManifestInput) (scope : Scope) (m : Manifest)
      → compile_found canonical digest o scope ≡ ok m
      → Bounds scope m
  found-Bounds none scope m h = cc h
  found-Bounds (some input) scope m h = compile_authorization_manifest-Bounds input scope m h

  compile_each-Authorized :
      (by_run : List ManifestInput) (scopes : List Scope) (manifests : List Manifest)
      → compile_each canonical digest by_run scopes ≡ ok manifests
      → Authorized scopes manifests
  unfolding compile_each
  compile_each-Authorized by_run [] manifests h = subst (Authorized []) (ok_inj h) tt
  compile_each-Authorized by_run (scope ∷ scopes) manifests h =
      let (m, first, h1) =
        bind-eq_ok (compile_found canonical digest (input_for by_run scope.run_id) scope) _ h in
      let (rest, others, h2) = bind-eq_ok (compile_each canonical digest by_run scopes) _ h1 in
      subst (Authorized (scope ∷ scopes)) (ok_inj h2) (
        found-Bounds (input_for by_run scope.run_id) scope m first,
        compile_each-Authorized by_run scopes rest others,
      )

  -- A set of manifests that is compiled has one for each Project Run, in their order, and each of
  -- them bounds the tasks of its Run.
  pub compile_authorization_manifest_set-Authorized :
      (inputs : List ManifestInput) (scopes : List Scope) (manifests : List Manifest)
      → compile_authorization_manifest_set canonical digest inputs scopes ≡ ok manifests
      → Authorized scopes manifests
  unfolding compile_authorization_manifest_set
  compile_authorization_manifest_set-Authorized inputs scopes manifests h =
      let (_, h1) = throw_if-eq_ok _ manifest_required _ h in
      let (by_run, indexed, h2) = bind-eq_ok (index_inputs [] inputs) _ h1 in
      let (found, each, h3) = bind-eq_ok (compile_each canonical digest by_run scopes) _ h2 in
      let (_, h4) = throw_if-eq_ok _ run_mismatch _ h3 in
      subst (Authorized scopes) (ok_inj h4) (compile_each-Authorized by_run scopes found each)
