-- ===== src/Authorization.antt =====
-- The authorization manifests of src/global-runs.js. The canonical form of a path (`realpathSync`)
-- and the digest of a manifest are parameters. The lists of a manifest are sets: the order that
-- `sort` gives them counts for the digest only.
pub mod Bounds
pub mod Tests
use Prim.Native.String.{◌++◌ as ◌<>◌}
use codex_threadhub.Base.{
  ℕ, String, Bool, true, false, not, ◌&&◌, ◌||◌, Option, none, some, List, [], ◌∷◌, map, any,
  or_else, ltb, ◌==◌, ◌=s=◌, length, if◌then◌else◌, Result, ok, err, ◌>>=◌, throw_if,
}
use codex_threadhub.Base.Checks.{demand, run_checks}
use codex_threadhub.Base.Text.{codes, starts}
use codex_threadhub.Contracts.{
  Contract, includes, task_kinds, side_effect_policies, workspace_modes, sandboxes, sandbox_level,
  is_blank,
}
use codex_threadhub.Contracts.Compile.{unique}

pub record ManifestInput : Type 0 where
  pub version : Option ℕ
  pub run_id : String
  pub project_id : Option String
  pub allowed_roots : List String
  pub task_kinds : List String
  pub mutates_workspace : Bool
  pub side_effect_policies : List String
  pub sandbox_ceiling : String
  pub network_access : Bool
  pub workspace_modes : List String
  pub fingerprint : Option String

pub record Manifest : Type 0 where
  pub run_id : String
  pub project_id : String
  pub allowed_roots : List String
  pub task_kinds : List String
  pub mutates_workspace : Bool
  pub side_effect_policies : List String
  pub sandbox_ceiling : String
  pub network_access : Bool
  pub workspace_modes : List String
  pub fingerprint : String

pub record ScopedTask : Type 0 where
  pub id : String
  pub cwd : Option String
  pub contract : Contract

-- A Project Run with its project and its tasks.
pub record Scope : Type 0 where
  pub run_id : String
  pub project_id : String
  pub canonical_root : String
  pub cwd : String
  pub tasks : List ScopedTask

pub data AuthorizationError : Type 0 where
  manifest_required version_unsupported run_mismatch project_mismatch manifest_invalid :
      AuthorizationError
  root_escape task_kind_invalid side_effect_invalid workspace_mode_invalid : AuthorizationError
  sandbox_invalid fingerprint_mismatch manifest_duplicate : AuthorizationError
  root_mismatch task_kind_exceeded mutation_exceeded side_effect_exceeded :
      String → AuthorizationError
  sandbox_exceeded network_exceeded workspace_mode_exceeded : String → AuthorizationError

abbrev pub is_empty {ℓ} : {A : Type ℓ} → List A → Bool
is_empty [] = true
is_empty (x ∷ xs) = false

-- `stringArray(value, name, { allowEmpty: false })`.
abbrev pub list_invalid : List String → Bool
list_invalid names = is_empty names || any is_blank names

abbrev pub differs : Option String → String → Bool
differs none s = false
differs (some t) s = not (t =s= s)

abbrev pub wrong_version : Option ℕ → Bool
wrong_version none = false
wrong_version (some v) = not (v == 1)

-- The candidate is the root, or stands below it.
unfoldable pub inside : (String → String) → String → String → Bool
unfolding starts
inside canonical root candidate =
    canonical candidate =s= canonical root
    || starts (codes (canonical root <> "/")) (codes (canonical candidate))

-- `byRun`, the newest entry first.
unfoldable pub index_inputs :
    List ManifestInput → List ManifestInput → Result AuthorizationError (List ManifestInput)
index_inputs by_run [] = ok by_run
index_inputs by_run (i ∷ inputs) =
    throw_if (i.run_id =s= "" || any (λ x. x.run_id =s= i.run_id) by_run) manifest_duplicate
    >>= λ _. index_inputs (i ∷ by_run) inputs

unfoldable pub input_for : List ManifestInput → String → Option ManifestInput
input_for [] run_id = none
input_for (i ∷ inputs) run_id = if i.run_id =s= run_id then some i else input_for inputs run_id

module _ (canonical : String → String) (digest : Manifest → String) where
  abbrev pub roots_of : ManifestInput → List String
  roots_of input = map canonical (unique input.allowed_roots)

  -- The checks in front of the tasks, in the order of the source.
  abbrev pub input_checks : ManifestInput → Scope → List (Bool × AuthorizationError)
  input_checks input scope =
      (wrong_version input.version, version_unsupported)
      ∷ demand (input.run_id =s= scope.run_id) run_mismatch
      ∷ (differs input.project_id scope.project_id, project_mismatch)
      ∷ (list_invalid input.allowed_roots, manifest_invalid)
      ∷ (
        any (λ root. not (inside canonical scope.canonical_root root)) (roots_of input),
        root_escape,
      )
      ∷ (list_invalid input.task_kinds, manifest_invalid)
      ∷ (any (λ k. not (includes task_kinds k)) input.task_kinds, task_kind_invalid)
      ∷ (list_invalid input.side_effect_policies, manifest_invalid)
      ∷ (
        any (λ p. not (includes side_effect_policies p)) input.side_effect_policies,
        side_effect_invalid,
      )
      ∷ (list_invalid input.workspace_modes, manifest_invalid)
      ∷ (any (λ m. not (includes workspace_modes m)) input.workspace_modes, workspace_mode_invalid)
      ∷ demand (includes sandboxes input.sandbox_ceiling) sandbox_invalid
      ∷ []

  abbrev pub unsigned_manifest : ManifestInput → Scope → Manifest
  unsigned_manifest input scope = record {
    run_id = scope.run_id;
    project_id = scope.project_id;
    allowed_roots = roots_of input;
    task_kinds = unique input.task_kinds;
    mutates_workspace = input.mutates_workspace;
    side_effect_policies = unique input.side_effect_policies;
    sandbox_ceiling = input.sandbox_ceiling;
    network_access = input.network_access;
    workspace_modes = unique input.workspace_modes;
    fingerprint = "";
  }

  abbrev pub signed_manifest : ManifestInput → Scope → Manifest
  signed_manifest input scope =
      let m = unsigned_manifest input scope in record m { fingerprint = digest m }

  -- What a task is refused for.
  abbrev pub task_checks : Manifest → String → ScopedTask → List (Bool × AuthorizationError)
  task_checks m cwd t =
      demand (any (λ root. inside canonical root (or_else t.cwd cwd)) m.allowed_roots)
        (root_mismatch t.id)
      ∷ demand (includes m.task_kinds t.contract.task_kind) (task_kind_exceeded t.id)
      ∷ (t.contract.mutates_workspace && not m.mutates_workspace, mutation_exceeded t.id)
      ∷ demand (includes m.side_effect_policies t.contract.side_effect_policy)
          (side_effect_exceeded t.id)
      ∷ (
        ltb (sandbox_level m.sandbox_ceiling) (sandbox_level t.contract.sandbox),
        sandbox_exceeded t.id,
      )
      ∷ (t.contract.network_access && not m.network_access, network_exceeded t.id)
      ∷ demand (includes m.workspace_modes t.contract.workspace_mode) (workspace_mode_exceeded t.id)
      ∷ []

  unfoldable pub check_tasks :
      Manifest → String → List ScopedTask → Result AuthorizationError (Unit {0})
  unfolding run_checks inside
  check_tasks m cwd [] = ok tt
  check_tasks m cwd (t ∷ tasks) = run_checks (task_checks m cwd t) >>= λ _. check_tasks m cwd tasks

  unfoldable pub compile_authorization_manifest :
      ManifestInput → Scope → Result AuthorizationError Manifest
  unfolding check_tasks is_blank unique inside
  compile_authorization_manifest input scope = run_checks (input_checks input scope) >>= λ _.
      throw_if (differs input.fingerprint (digest (unsigned_manifest input scope)))
        fingerprint_mismatch
      >>= λ _. check_tasks (signed_manifest input scope) scope.cwd scope.tasks >>= λ _.
          ok (signed_manifest input scope)

  -- An absent manifest is no object.
  abbrev pub compile_found : Option ManifestInput → Scope → Result AuthorizationError Manifest
  compile_found none scope = err manifest_required
  compile_found (some input) scope = compile_authorization_manifest input scope

  unfoldable pub compile_each :
      List ManifestInput → List Scope → Result AuthorizationError (List Manifest)
  unfolding compile_authorization_manifest input_for
  compile_each by_run [] = ok []
  compile_each by_run (scope ∷ scopes) =
      compile_found (input_for by_run scope.run_id) scope >>= λ m.
      compile_each by_run scopes >>= λ rest. ok (m ∷ rest)

  -- The manifests of a set; its digest is left out.
  unfoldable pub compile_authorization_manifest_set :
      List ManifestInput → List Scope → Result AuthorizationError (List Manifest)
  unfolding index_inputs compile_each
  compile_authorization_manifest_set inputs scopes =
      throw_if (not (length inputs == length scopes)) manifest_required >>= λ _.
      index_inputs [] inputs >>= λ by_run. compile_each by_run scopes >>= λ manifests.
      throw_if (not (length by_run == length manifests)) run_mismatch >>= λ _. ok manifests
