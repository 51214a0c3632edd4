-- ===== src/Agents.antt =====
-- `updateAgent` of src/registry.js, with the part of `transitionThreadLifecycle` that it calls: to
-- `active` or `idle`, which ask for no settled thread and no successor. The assignment to a project
-- and the evidence of the events are left out.
pub mod Idle
pub mod Expired
pub mod Recovers
mod Tests
use codex_threadhub.Base.{
  ℕ, String, Bool, not, ◌&&◌, Option, none, some, List, [], ◌∷◌, any, find, or_else, or_option,
  ◌=s=◌, if◌then◌else◌, Result, ok, err, ◌>>=◌,
}
use codex_threadhub.Base.Table.{update_where}
use codex_threadhub.Registry.{Event}
use codex_threadhub.States.Machine.{StateError, Options, no_options, move}
use codex_threadhub.States.Agent.{AgentStatus, agent_machine, active_agents, is_agent, agent_in}
use codex_threadhub.Routing.Lifecycle.{
  LifecycleStatus, LifecycleError, same_lifecycle, transition_thread_lifecycle,
}

-- Of the metadata of an agent, the properties that are written here.
pub record Agent : Type 0 where
  pub id : String
  pub name : Option String
  pub cwd : Option String
  pub model : Option String
  pub status : AgentStatus
  pub role : Option String
  pub capabilities : List String
  pub summary : Option String
  pub last_task_at : Option ℕ
  pub updated_at : ℕ
  pub current_task_id : Option String
  pub agent_lease_token : Option String
  pub lifecycle_state : Option String
  pub recovered_lease_at : Option ℕ

pub record ThreadLifecycle : Type 0 where
  pub thread_id : String
  pub status : LifecycleStatus
  pub updated_at : ℕ

pub record LifecycleEvent : Type 0 where
  pub thread_id : String
  pub from_status : LifecycleStatus
  pub to_status : LifecycleStatus

pub record Agents : Type 0 where
  pub rows : List Agent
  pub lifecycles : List ThreadLifecycle
  pub lifecycle_events : List LifecycleEvent
  pub events : List Event

pub data AgentError : Type 0 where
  agent_not_found : AgentError
  agent_state : StateError → AgentError
  lifecycle : LifecycleError → AgentError

-- A property that is `none` is not changed; those of the metadata may be set to null.
pub record AgentChanges : Type 0 where
  pub name : Option String
  pub cwd : Option String
  pub model : Option String
  pub status : Option AgentStatus
  pub role : Option String
  pub capabilities : Option (List String)
  pub summary : Option String
  pub last_task_at : Option ℕ
  pub current_task_id : Option (Option String)
  pub agent_lease_token : Option (Option String)
  pub lifecycle_state : Option (Option String)
  pub recovered_lease_at : Option ℕ
  pub options : Option Options

abbrev pub no_agent_changes : AgentChanges
no_agent_changes = record {
  name = none;
  cwd = none;
  model = none;
  status = none;
  role = none;
  capabilities = none;
  summary = none;
  last_task_at = none;
  current_task_id = none;
  agent_lease_token = none;
  lifecycle_state = none;
  recovered_lease_at = none;
  options = none;
}

abbrev pub has_id : String → Agent → Bool
has_id id a = a.id =s= id

abbrev pub get_agent : String → Agents → Option Agent
get_agent id s = find (has_id id) s.rows

abbrev pub get_thread_lifecycle : String → Agents → Option ThreadLifecycle
get_thread_lifecycle id s = find (λ l. l.thread_id =s= id) s.lifecycles

abbrev pub merged : AgentChanges → ℕ → Agent → Agent
merged c now a = record {
  id = a.id;
  name = or_option c.name a.name;
  cwd = or_option c.cwd a.cwd;
  model = or_option c.model a.model;
  status = or_else c.status a.status;
  role = or_option c.role a.role;
  capabilities = or_else c.capabilities a.capabilities;
  summary = or_option c.summary a.summary;
  last_task_at = or_option c.last_task_at a.last_task_at;
  updated_at = now;
  current_task_id = or_else c.current_task_id a.current_task_id;
  agent_lease_token = or_else c.agent_lease_token a.agent_lease_token;
  lifecycle_state = or_else c.lifecycle_state a.lifecycle_state;
  recovered_lease_at = or_option c.recovered_lease_at a.recovered_lease_at;
}

-- Every status is projected on one of the two.
abbrev pub projected : AgentStatus → LifecycleStatus
projected status =
    if agent_in active_agents status then LifecycleStatus.active else LifecycleStatus.idle

abbrev pub follows : LifecycleStatus → Bool
follows s =
    any (same_lifecycle s)
      (LifecycleStatus.candidate ∷ LifecycleStatus.active ∷ LifecycleStatus.idle ∷ [])

abbrev pub moved_lifecycle : LifecycleStatus → ℕ → ThreadLifecycle → ThreadLifecycle
moved_lifecycle to now l = record l { status = to; updated_at = now }

-- `transitionThreadLifecycle` of the registry, for a lifecycle that is there.
unfoldable pub move_thread_lifecycle :
    ThreadLifecycle → LifecycleStatus → ℕ → Agents → Result LifecycleError Agents
unfolding transition_thread_lifecycle
move_thread_lifecycle l to now s =
    if same_lifecycle l.status to
    then ok s
    else transition_thread_lifecycle l.status to >>= λ _. ok record s {
      lifecycles =
          update_where (λ x. x.thread_id =s= l.thread_id) (moved_lifecycle to now) s.lifecycles;
      lifecycle_events =
          record { thread_id = l.thread_id; from_status = l.status; to_status = to }
          ∷ s.lifecycle_events;
      events =
          record {
            entity_type = "thread_lifecycle";
            entity_id = l.thread_id;
            event_type = "thread_lifecycle.transitioned";
          }
          ∷ s.events;
    }

-- The lifecycle follows the status of the agent, unless the thread is retired.
abbrev pub project_lifecycle :
    LifecycleStatus → ℕ → Agents → Option ThreadLifecycle → Result LifecycleError Agents
project_lifecycle to now s none = ok s
project_lifecycle to now s (some l) =
    if follows l.status && not (same_lifecycle l.status to)
    then move_thread_lifecycle l to now s
    else ok s

abbrev pub lifted : Result LifecycleError Agents → Result AgentError Agents
lifted (ok s) = ok s
lifted (err e) = err (lifecycle e)

abbrev pub allowed : Result StateError AgentStatus → Result AgentError (Unit {0})
allowed (ok s) = ok tt
allowed (err e) = err (agent_state e)

-- `transitionAgent` for a status that is another.
unfoldable pub check_status : AgentStatus → AgentStatus → Options → Result AgentError (Unit {0})
unfolding move
check_status from to options =
    if is_agent to from then ok tt else allowed (move agent_machine from to options)

abbrev pub write_agent : Agent → Agents → Agents
write_agent row s = record s { rows = update_where (has_id row.id) (λ _. row) s.rows }

abbrev pub update_found : AgentChanges → ℕ → Agents → Option Agent → Result AgentError Agents
update_found c now s none = err agent_not_found
update_found c now s (some a) =
    let row = merged c now a in
    check_status a.status row.status (or_else c.options no_options) >>= λ _. lifted (
      project_lifecycle (projected row.status) now (write_agent row s)
        (get_thread_lifecycle row.id (write_agent row s)))

unfoldable pub update_agent : String → AgentChanges → ℕ → Agents → Result AgentError Agents
unfolding check_status move_thread_lifecycle
update_agent id c now s = update_found c now s (get_agent id s)
