-- ===== src/Permissions.antt =====
-- src/parent-permissions.js: the permissions of the thread that asks for a task, and the task that
-- takes them over.
pub mod Inherited
pub mod Tests
use codex_threadhub.Base.{
  String, Bool, true, false, not, ◌&&◌, ◌||◌, Option, none, some, List, [], ◌∷◌, ◌++◌, any, keep,
  is_none, or_option, ◌=s=◌, if◌then◌else◌, Result, ok, err, ◌>>=◌, throw_if,
}
use codex_threadhub.Contracts.{includes, sandboxes, approval_policies}
use codex_threadhub.Contracts.Compile.{TaskRequest}

-- The payload of a `turn_context` row. A text that is missing is `none`; `network_access` says
-- whether the policy sets it to `true`.
pub record TurnContext : Type 0 where
  pub turn_id : Option String
  pub sandbox_type : Option String
  pub network_access : Bool
  pub approval_policy : Option String

-- The rows of the file that parse, by their type.
pub data Row : Type 0 where
  session_meta : Option String → Option String → Row
  turn_context : TurnContext → Row
  other : Row

pub record Origin : Type 0 where
  pub thread_id : String
  pub turn_id : Option String

pub record Permissions : Type 0 where
  pub sandbox : String
  pub approval_policy : String
  pub network_access : Bool
  pub thread_id : String
  pub turn_id : Option String

pub data PermissionError : Type 0 where
  no_context unsupported_sandbox unsupported_approval : PermissionError

abbrev pub same_turn : Option String → Option String → Bool
same_turn none t = true
same_turn (some wanted) none = false
same_turn (some wanted) (some t) = t =s= wanted

-- What the loop over the lines keeps: the last row of each kind.
pub record Found : Type 0 where
  pub identity : Option String
  pub context : Option TurnContext

unfoldable pub read_row : Origin → Found → Row → Found
read_row origin found (session_meta id session_id) = record found {
  identity = or_option id session_id;
}
read_row origin found (turn_context c) =
    if same_turn origin.turn_id c.turn_id then record found { context = some c } else found
read_row origin found other = found

unfoldable pub read_rows : Origin → Found → List Row → Found
unfolding read_row
read_rows origin found [] = found
read_rows origin found (row ∷ rows) = read_rows origin (read_row origin found row) rows

abbrev pub is_text : Option String → String → Bool
is_text none s = false
is_text (some t) s = t =s= s

abbrev pub supported : List String → Option String → PermissionError → Result PermissionError String
supported names none e = err e
supported names (some s) e = throw_if (not (includes names s)) e >>= λ _. ok s

abbrev pub granted : Origin → Option TurnContext → Result PermissionError Permissions
granted origin none = err no_context
granted origin (some c) = supported sandboxes c.sandbox_type unsupported_sandbox >>= λ sandbox.
    supported approval_policies c.approval_policy unsupported_approval >>= λ approval. ok record {
      sandbox = sandbox;
      approval_policy = approval;
      network_access = sandbox =s= "danger-full-access" || c.network_access;
      thread_id = origin.thread_id;
      turn_id = c.turn_id;
    }

unfoldable pub permissions_from_rollout : List Row → Origin → Result PermissionError Permissions
unfolding read_rows
permissions_from_rollout rows origin =
    let found = read_rows origin (record { identity = none; context = none }) rows in
    throw_if (not (is_text found.identity origin.thread_id)) no_context >>= λ _.
    granted origin found.context

abbrev pub inherited_capabilities : Permissions → Option (List String) → Option (List String)
inherited_capabilities p none = none
inherited_capabilities p (some names) =
    let others = keep (λ name. not (name =s= "external-network")) names in
    some (if p.network_access then others ++ ("external-network" ∷ []) else others)

-- `inheritPermissions`; no permissions leave the task as it is.
unfoldable pub inherit_permissions : TaskRequest → Option Permissions → TaskRequest
inherit_permissions task none = task
inherit_permissions task (some p) = record task {
  sandbox = some p.sandbox;
  network_access = some p.network_access;
  approval_policy = some p.approval_policy;
  requested_capabilities = inherited_capabilities p task.requested_capabilities;
}

pub data SandboxPolicy : Type 0 where
  danger_full_access read_only : SandboxPolicy
  workspace_write : (writable_root : String) (network_access : Bool) → SandboxPolicy

-- `permissionRunOptions`: the approval policy and the sandbox policy of the turn.
unfoldable pub permission_run_options :
    Option Permissions → String → Option (String × SandboxPolicy)
permission_run_options none cwd = none
permission_run_options (some p) cwd = some (
  p.approval_policy,
  if p.sandbox =s= "danger-full-access"
      then danger_full_access
      else if p.sandbox =s= "read-only"
      then read_only
      else workspace_write cwd p.network_access,
)
