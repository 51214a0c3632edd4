-- ===== src/Authorization/Tests.antt =====
-- Manifests for one Project Run, and instances of the theorems on them.
use codex_threadhub.Base.{String, true, false, none, some, [], ◌∷◌, ok, err, ◌≡◌, refl}
use codex_threadhub.Contracts.Tests.{compiled}
use codex_threadhub.Authorization.{
  ManifestInput, Manifest, Scope, root_mismatch, mutation_exceeded, compile_authorization_manifest,
  compile_authorization_manifest_set,
}
use codex_threadhub.Authorization.Bounds.{Authorized, compile_authorization_manifest_set-Authorized}

-- Paths are canonical as they are.
abbrev as_is : String → String
as_is path = path

abbrev digest : Manifest → String
digest m = "d1"

abbrev work : Scope
work = record {
  run_id = "run";
  project_id = "project";
  canonical_root = "/p";
  cwd = "/p/src";
  tasks = record { id = "t"; cwd = none; contract = compiled } ∷ [];
}

abbrev given : ManifestInput
given = record {
  version = some 1;
  run_id = "run";
  project_id = none;
  allowed_roots = "/p/src" ∷ [];
  task_kinds = "implementation" ∷ [];
  mutates_workspace = true;
  side_effect_policies = "workspace" ∷ [];
  sandbox_ceiling = "workspace-write";
  network_access = false;
  workspace_modes = "worktree" ∷ [];
  fingerprint = none;
}

abbrev manifest : Manifest
manifest = record {
  run_id = "run";
  project_id = "project";
  allowed_roots = "/p/src" ∷ [];
  task_kinds = "implementation" ∷ [];
  mutates_workspace = true;
  side_effect_policies = "workspace" ∷ [];
  sandbox_ceiling = "workspace-write";
  network_access = false;
  workspace_modes = "worktree" ∷ [];
  fingerprint = "d1";
}

compile_given : compile_authorization_manifest as_is digest given work ≡ ok manifest
unfolding compile_authorization_manifest
compile_given = refl

refusals :
    (compile_authorization_manifest as_is digest (record given { mutates_workspace = false }) work
      ≡ err (mutation_exceeded "t"))
    × (compile_authorization_manifest as_is digest given (record work { cwd = "/p/srcs" })
        ≡ err (root_mismatch "t"))
unfolding compile_authorization_manifest
refusals = (refl, refl)

compile_set :
    compile_authorization_manifest_set as_is digest (given ∷ []) (work ∷ []) ≡ ok (manifest ∷ [])
unfolding compile_authorization_manifest_set
compile_set = refl

compile_authorization_manifest_set-Authorized_example :
    Authorized as_is digest (work ∷ []) (manifest ∷ [])
compile_authorization_manifest_set-Authorized_example =
    compile_authorization_manifest_set-Authorized as_is digest (given ∷ []) (work ∷ [])
      (manifest ∷ []) compile_set
