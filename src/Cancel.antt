-- ===== src/Cancel.antt =====
-- `cancelTask` and `cancelRun` of src/registry.js, over all the tables that they write: they cancel the
-- turn dispatches, give back the leases and set the agents to idle.
pub mod Returns
pub mod Freed
pub mod Listed
pub mod Cleared
pub mod Barred
pub mod Rows
pub mod Loop
pub mod WholeRun
pub mod Tests
use codex_threadhub.Base.{
  ℕ, String, Bool, true, false, not, ◌&&◌, ◌||◌, Option, none, some, List, [], ◌∷◌, ◌++◌, map, any,
  keep, ◌=s=◌, if◌then◌else◌, Result, ok, err, ◌>>=◌,
}
use codex_threadhub.States.Machine.{StateError, no_options}
use codex_threadhub.States.Run
use codex_threadhub.States.Task.{TaskStatus, is_terminal_task}
use codex_threadhub.States.Agent.{AgentStatus}
use codex_threadhub.States.Lease.{active, released, expired, is_lease, lease_in}
use codex_threadhub.Registry.{Task, Registry, get_task}
use codex_threadhub.Tasks.Wait.{update_task}
use codex_threadhub.Dispatches.Rows.{Dispatches}
use codex_threadhub.Dispatches.Cancel.{Parents, CancelError, request_turn_dispatch_cancellation}
use codex_threadhub.Leases.Worktree.{
  Lease, Leases, LeaseError, ListOptions, list_leases, release_lease,
}
use codex_threadhub.Leases.Agent.{AgentLease, AgentLeases, AgentLeaseError, release_agent_lease}
use codex_threadhub.Agents.{
  Agent, Agents, AgentError, AgentChanges, get_agent, update_agent, no_agent_changes,
}
use codex_threadhub.Runs.Rows.{Run, Store, RunError, RunChanges, get_run, update_run}
use codex_threadhub.Runs.Refresh.{list_tasks, task_limit, end_changes}

-- The tables.
pub record Plane : Type 0 where
  pub store : Store
  pub dispatches : Dispatches
  pub worktrees : Leases
  pub agent_leases : AgentLeases
  pub agents : Agents

pub data PlaneError : Type 0 where
  task_not_found run_not_found : PlaneError
  of_task : Option StateError → PlaneError
  of_dispatches : CancelError → PlaneError
  of_lease : LeaseError → PlaneError
  of_agent_lease : AgentLeaseError → PlaneError
  of_agent : AgentError → PlaneError
  of_run : RunError → PlaneError

abbrev pub by_task : String → Parents
by_task id = record { run_id = none; task_id = some id; plan_id = none }

abbrev pub by_run : String → Parents
by_run id = record { run_id = some id; task_id = none; plan_id = none }

abbrev pub with_dispatches : Plane → Result CancelError Dispatches → Result PlaneError Plane
with_dispatches p (ok s) = ok (record p { dispatches = s })
with_dispatches p (err e) = err (of_dispatches e)

-- Unless the caller has cancelled the dispatches already.
abbrev pub cancel_dispatches : Bool → Parents → ℕ → Plane → Result PlaneError Plane
cancel_dispatches true parents now p = ok p
cancel_dispatches false parents now p =
    with_dispatches p (request_turn_dispatch_cancellation parents now p.dispatches)

abbrev pub owned_by : String → ListOptions
owned_by id = record { status = none; owner_task_id = some id; limit = none }

abbrev pub is_open : Lease → Bool
is_open l = lease_in (active ∷ expired ∷ []) l.status

abbrev pub open_leases : String → ℕ → Plane → List Lease
open_leases id now p = keep is_open (list_leases (owned_by id) now p.worktrees).1

abbrev pub leases_listed : String → ℕ → Plane → Plane
leases_listed id now p = record p { worktrees = (list_leases (owned_by id) now p.worktrees).0 }

abbrev pub holds_agent : String → AgentLease → Bool
holds_agent id l = l.owner_task_id =s= id && is_lease l.status active

abbrev pub held_agents : String → Plane → List AgentLease
held_agents id p = keep (holds_agent id) p.agent_leases.rows

abbrev pub canceled_columns : ℕ → Task → Task
canceled_columns now t = record t {
  completed_at = some now;
  worker_id = none;
  heartbeat_at = none;
  claim_token = none;
  next_retry_at = none;
}

abbrev pub with_task :
    Plane → Result (Option StateError) (Registry × Task) → Result PlaneError (Plane × Task)
with_task p (ok (r, t)) = let s = p.store in ok (record p { store = record s { registry = r } }, t)
with_task p (err e) = err (of_task e)

abbrev pub with_agents : Plane → Result AgentError Agents → Result PlaneError Plane
with_agents p (ok s) = ok (record p { agents = s })
with_agents p (err e) = err (of_agent e)

-- An agent that is not there is passed over.
abbrev pub update_if_found :
    String → AgentChanges → ℕ → Plane → Option Agent → Result PlaneError Plane
update_if_found id c now p none = ok p
update_if_found id c now p (some a) = with_agents p (update_agent id c now p.agents)

-- The end of `updateTask`: the time of the last task of its agent.
abbrev pub touch_agent : Option String → ℕ → Plane → Result PlaneError Plane
touch_agent none now p = ok p
touch_agent (some id) now p =
    if id =s= ""
    then ok p
    else update_if_found id (record no_agent_changes { last_task_at = some now }) now p
        (get_agent id p.agents)

unfoldable pub cancel_row : String → ℕ → Plane → Result PlaneError (Plane × Task)
unfolding update_task update_agent
cancel_row id now p =
    with_task p (update_task id TaskStatus.canceled (canceled_columns now) now p.store.registry)
    >>= λ (q, t). touch_agent t.agent_id now q >>= λ u. ok (u, t)

abbrev pub with_worktrees :
    Plane → Result LeaseError (Leases × Option Lease) → Result PlaneError Plane
with_worktrees p (ok (s, l)) = ok (record p { worktrees = s })
with_worktrees p (err e) = err (of_lease e)

unfoldable pub release_worktrees : String → List Lease → ℕ → Plane → Result PlaneError Plane
unfolding release_lease
release_worktrees id [] now p = ok p
release_worktrees id (l ∷ ls) now p =
    with_worktrees p (release_lease l.key id none l.owner_token now p.worktrees) >>= λ q.
    release_worktrees id ls now q

abbrev pub with_agent_leases :
    Plane → Result AgentLeaseError (AgentLeases × Option AgentLease) → Result PlaneError Plane
with_agent_leases p (ok (s, l)) = ok (record p { agent_leases = s })
with_agent_leases p (err e) = err (of_agent_lease e)

unfoldable pub release_agents : String → List AgentLease → ℕ → Plane → Result PlaneError Plane
unfolding release_agent_lease
release_agents id [] now p = ok p
release_agents id (l ∷ ls) now p =
    with_agent_leases p
      (release_agent_lease l.agent_id id l.owner_token released now p.agent_leases)
    >>= λ q. release_agents id ls now q

-- `new Set([...].filter(Boolean))`.
abbrev pub add_id : String → List String → List String
add_id id ids = if id =s= "" || any (λ x. x =s= id) ids then ids else ids ++ (id ∷ [])

unfoldable pub add_ids : List AgentLease → List String → List String
add_ids [] ids = ids
add_ids (l ∷ ls) ids = add_ids ls (add_id l.agent_id ids)

abbrev pub first_id : Option String → List String
first_id none = []
first_id (some id) = add_id id []

abbrev pub idle_changes : AgentChanges
idle_changes = record no_agent_changes {
  status = some AgentStatus.idle;
  current_task_id = some none;
  agent_lease_token = some none;
  lifecycle_state = some (some "idle");
}

unfoldable pub idle_agents : List String → ℕ → Plane → Result PlaneError Plane
unfolding update_agent
idle_agents [] now p = ok p
idle_agents (id ∷ ids) now p =
    update_if_found id idle_changes now p (get_agent id p.agents) >>= λ q. idle_agents ids now q

-- What is done for a task once it is canceled.
abbrev pub free_all :
    String → List Lease → List AgentLease → List String → ℕ → Plane → Result PlaneError Plane
free_all id leases agents ids now p = release_worktrees id leases now p >>= λ q.
    release_agents id agents now q >>= λ u. idle_agents ids now u

-- The leases and the agents are those from before the task was canceled.
abbrev pub cancel_leased : String → ℕ → Task → Plane → Result PlaneError (Plane × Task)
cancel_leased id now t p =
    let leases = open_leases id now p in
    let agents = held_agents id p in
    cancel_row id now (leases_listed id now p) >>= λ (u, canceled).
    free_all id leases agents (add_ids agents (first_id t.agent_id)) now u >>= λ v. ok (v, canceled)

abbrev pub cancel_open : String → Bool → ℕ → Task → Plane → Result PlaneError (Plane × Task)
cancel_open id requested now t p =
    cancel_dispatches requested (by_task id) now p >>= λ q. cancel_leased id now t q

abbrev pub cancel_found : String → Bool → ℕ → Plane → Option Task → Result PlaneError (Plane × Task)
cancel_found id requested now p none = err task_not_found
cancel_found id requested now p (some t) =
    if is_terminal_task t.status then ok (p, t) else cancel_open id requested now t p

unfoldable pub cancel_task : String → Bool → ℕ → Plane → Result PlaneError (Plane × Task)
unfolding cancel_row release_worktrees release_agents idle_agents add_ids list_leases
    request_turn_dispatch_cancellation
cancel_task id requested now p = cancel_found id requested now p (get_task id p.store.registry)

unfoldable pub cancel_each : List Task → ℕ → Plane → Result PlaneError Plane
unfolding cancel_task
cancel_each [] now p = ok p
cancel_each (t ∷ ts) now p = cancel_task t.id true now p >>= λ (q, _). cancel_each ts now q

abbrev pub with_run : Plane → Result RunError (Store × Run) → Result PlaneError (Plane × Run)
with_run p (ok (s, run)) = ok (record p { store = s }, run)
with_run p (err e) = err (of_run e)

abbrev pub cancel_run_found :
    String → Bool → ℕ → Plane → Option Run → Result PlaneError (Plane × Run)
cancel_run_found id requested now p none = err run_not_found
cancel_run_found id requested now p (some run) =
    cancel_dispatches requested (by_run id) now p >>= λ q.
    cancel_each (list_tasks id task_limit q.store.registry) now q >>= λ u.
    with_run u (update_run id (end_changes Run.RunStatus.cancelled now) no_options now u.store)

unfoldable pub cancel_run : String → Bool → ℕ → Plane → Result PlaneError (Plane × Run)
unfolding cancel_each list_tasks update_run request_turn_dispatch_cancellation
cancel_run id requested now p = cancel_run_found id requested now p (get_run id p.store)
