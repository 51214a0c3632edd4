-- ===== src/Permissions/Tests.antt =====
-- The permissions of a file, and instances of the theorems on them.
use codex_threadhub.Base.{String, Bool, true, false, none, some, List, [], ◌∷◌, ok, err, ◌≡◌, refl}
use codex_threadhub.Contracts.{Contract, includes}
use codex_threadhub.Contracts.Compile.{compile_execution_contract}
use codex_threadhub.Contracts.Tests.{some_digest, no_match, request, no_defaults, compiled}
use codex_threadhub.Permissions.{
  TurnContext, Row, session_meta, turn_context, Origin, Permissions, no_context,
  permissions_from_rollout, inherit_permissions,
}
use codex_threadhub.Permissions.Inherited.{compile-inherit_permissions}

abbrev turn : String → Bool → TurnContext
turn id network = record {
  turn_id = some id;
  sandbox_type = some "workspace-write";
  network_access = network;
  approval_policy = some "on-request";
}

-- The turn that asks has no network, the one before had.
abbrev file : List Row
file =
    session_meta (some "thread") none
    ∷ turn_context (turn "1" true)
    ∷ turn_context (turn "2" false)
    ∷ []

abbrev asking : Origin
asking = record { thread_id = "thread"; turn_id = some "2" }

abbrev parent : Permissions
parent = record {
  sandbox = "workspace-write";
  approval_policy = "on-request";
  network_access = false;
  thread_id = "thread";
  turn_id = some "2";
}

read_file : permissions_from_rollout file asking ≡ ok parent
unfolding permissions_from_rollout
read_file = refl

wrong_thread : permissions_from_rollout file (record asking { thread_id = "x" }) ≡ err no_context
unfolding permissions_from_rollout
wrong_thread = refl

abbrev child : Contract
child = record compiled { approval_policy = "on-request" }

compile_child :
    compile_execution_contract some_digest no_match
      (inherit_permissions (record request { network_access = some true }) (some parent))
      no_defaults
      none
    ≡ ok child
unfolding compile_execution_contract inherit_permissions
compile_child = refl

compile-inherit_permissions_example :
    (child.sandbox ≡ parent.sandbox)
    × (child.approval_policy ≡ parent.approval_policy)
    × (child.network_access ≡ parent.network_access)
    × (includes child.execution_capabilities "external-network" ≡ parent.network_access)
compile-inherit_permissions_example =
    compile-inherit_permissions some_digest no_match (record request { network_access = some true })
      parent no_defaults none child compile_child
