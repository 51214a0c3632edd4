-- ===== src/Cancel/Tests.antt =====
-- A Run of two tasks that is cancelled while one is running.
use codex_threadhub.Base.{
  String, false, none, some, Option, List, [], ◌∷◌, map, All, ◌≡◌, refl, Result, ok, err, arith,
}
use codex_threadhub.Base.Order.{order_by, insert_by}
use codex_threadhub.Base.Table.{update_where, returned}
use codex_threadhub.States.Machine.{move}
use codex_threadhub.States.Run.{RunStatus, move_run}
use codex_threadhub.States.Task.{TaskStatus, move_task}
use codex_threadhub.States.Agent.{AgentStatus}
use codex_threadhub.States.Lease.{LeaseStatus, move_lease}
use codex_threadhub.States.Dispatch.{DispatchStatus}
use codex_threadhub.Registry.{Task}
use codex_threadhub.Tasks.Wait.{update_task}
use codex_threadhub.Tasks.Samples.{task_row, two_tasks, unique_two}
use codex_threadhub.Dispatches.Rows.{Dispatch}
use codex_threadhub.Dispatches.Cancel.{cancel_all, request_turn_dispatch_cancellation}
use codex_threadhub.Leases.Worktree.{Lease, list_leases, check_move, release_lease}
use codex_threadhub.Leases.Agent.{AgentLease, release_agent_lease}
use codex_threadhub.Routing.Lifecycle.{LifecycleStatus, transition_thread_lifecycle}
use codex_threadhub.Agents.{Agent, check_status, move_thread_lifecycle, update_agent}
use codex_threadhub.Runs.Rows
use codex_threadhub.Runs.Rows.{Run, update_run}
use codex_threadhub.Runs.Refresh.{list_tasks}
use codex_threadhub.Cancel.{
  Plane, PlaneError, by_task, cancel_row, release_worktrees, release_agents, idle_agents, add_ids,
  cancel_task, cancel_each, cancel_run,
}
use codex_threadhub.Cancel.Cleared.{IsCleared}
use codex_threadhub.Cancel.Barred.{goes_on, cancel_task-clears}
use codex_threadhub.Cancel.Loop
use codex_threadhub.Cancel.WholeRun.{cancel_run-stops}

abbrev busy_task : Task
busy_task = record (task_row "a" TaskStatus.running 1) {
  worker_id = some "w";
  claim_token = some "k";
  agent_id = some "g";
}

abbrev busy_dispatch : Dispatch
busy_dispatch = record {
  id = "d";
  subject_type = "task";
  subject_id = "a";
  purpose = "execution";
  revision = 1;
  parent_run_id = some "run";
  parent_task_id = some "a";
  plan_id = none;
  status = DispatchStatus.turn_running;
  thread_id = some "g";
  agent_id = some "g";
  thread_action = none;
  turn_id = none;
  turn_status = none;
  owner_instance_id = none;
  owner_token = none;
  heartbeat_at = none;
  lease_expires_at = none;
  cancellation_generation = 0;
  cancel_requested_at = none;
  deadline_at = 100;
  started_at = none;
  terminal_at = none;
  last_probe_at = none;
  probe_count = 0;
  reconciliation_decision = none;
  failure = none;
  evidence = "{}";
  updated_at = 1;
  version = 0;
}

abbrev busy_agent : Agent
busy_agent = record {
  id = "g";
  name = none;
  cwd = none;
  model = none;
  status = AgentStatus.running;
  role = none;
  capabilities = [];
  summary = none;
  last_task_at = none;
  updated_at = 1;
  current_task_id = some "a";
  agent_lease_token = some "l";
  lifecycle_state = some "running";
  recovered_lease_at = none;
}

abbrev busy_lease : Lease
busy_lease = record {
  key = "w";
  owner_task_id = "a";
  owner_agent_id = none;
  owner_token = some "k";
  cwd = none;
  worktree_path = none;
  status = LeaseStatus.active;
  acquired_at = 1;
  expires_at = 101;
  heartbeat_at = some 1;
  released_at = none;
  metadata = "{}";
}

abbrev busy_run : Run
busy_run = record {
  id = "run";
  request_key = none;
  plan_id = none;
  name = none;
  status = RunStatus.running;
  cwd = none;
  updated_at = 1;
  started_at = some 1;
  completed_at = none;
  archived_at = none;
  dispatch_phase = none;
  dispatch_error = none;
  failure = none;
  failure_history = [];
  global_run_revision_id = none;
  global_graph_fingerprint = none;
  global_authorization_fingerprint = none;
  global_manifest_fingerprint = none;
}

abbrev plane : Plane
plane = record {
  store = record {
    runs = busy_run ∷ [];
    registry = record two_tasks { tasks = busy_task ∷ task_row "b" TaskStatus.blocked 0 ∷ [] };
    board = record { notices = []; events = [] };
  };
  dispatches = record { rows = busy_dispatch ∷ []; events = [] };
  worktrees = record { rows = busy_lease ∷ []; events = [] };
  agent_leases = record {
    rows =
        record {
          agent_id = "g";
          owner_task_id = "a";
          owner_token = "l";
          status = LeaseStatus.active;
          acquired_at = 1;
          expires_at = 101;
          heartbeat_at = none;
          released_at = none;
          metadata = "{}";
        }
        ∷ [];
    events = [];
  };
  agents = record {
    rows = busy_agent ∷ [];
    lifecycles = record { thread_id = "g"; status = LifecycleStatus.active; updated_at = 1 } ∷ [];
    lifecycle_events = [];
    events = [];
  };
}

-- The statuses of the tasks, of the worktree leases and of the agents.
abbrev statuses_of :
    {A : Type 0}
    → Result PlaneError (Plane × A)
    → List TaskStatus
      × List LeaseStatus
      × List LeaseStatus
      × List (AgentStatus × Option String)
      × List DispatchStatus
statuses_of (ok (p, _)) = (
  map (λ (t : Task). t.status) p.store.registry.tasks,
  map (λ (l : Lease). l.status) p.worktrees.rows,
  map (λ (l : AgentLease). l.status) p.agent_leases.rows,
  map (λ (a : Agent). (a.status, a.current_task_id)) p.agents.rows,
  map (λ (d : Dispatch). d.status) p.dispatches.rows,
)
statuses_of (err e) = ([], [], [], [], [])

cancels_run : statuses_of (cancel_run "run" false 5 plane) ≡ (
  TaskStatus.canceled ∷ TaskStatus.canceled ∷ [],
  LeaseStatus.released ∷ [],
  LeaseStatus.released ∷ [],
  (AgentStatus.idle, none) ∷ [],
  DispatchStatus.cancelling ∷ [],
)
unfolding cancel_run cancel_each cancel_task cancel_row release_worktrees release_agents idle_agents
    add_ids list_leases order_by insert_by request_turn_dispatch_cancellation cancel_all update_task
    move_task move update_where returned list_tasks update_agent check_status move_thread_lifecycle
    transition_thread_lifecycle release_lease check_move move_lease release_agent_lease update_run
    Rows.check_status move_run
cancels_run = refl

cancel_task-clears_example :
    (q : Plane) × (row : Task) × (cancel_task "a" false 5 plane ≡ ok (q, row))
    × IsCleared "a" row q
    × All (λ d. goes_on (by_task "a") d ≡ false) q.dispatches.rows
cancel_task-clears_example = cancel_task-clears "a" 5 plane busy_task refl refl refl (omega arith)

cancel_run-stops_example :
    (q : Plane) × (row : Run) × (cancel_run "run" false 5 plane ≡ ok (q, row))
    × (row.status ≡ RunStatus.cancelled)
    × All (λ x. Loop.goes_on "run" x ≡ false) q.store.registry.tasks
cancel_run-stops_example =
    cancel_run-stops "run" false 5 plane busy_run refl refl refl unique_two (omega arith)
