-- ===== src/Agents/Tests.antt =====
-- Two agents at work, the lease of one of which is over, and an instance of the theorem on them.
use codex_threadhub.Base.{
  ℕ, ◌≡◌, refl, String, Option, none, some, List, [], ◌∷◌, map, false, Result, ok, err, All,
}
use codex_threadhub.Base.Table.{update_where}
use codex_threadhub.States.Machine.{move}
use codex_threadhub.States.Agent.{AgentStatus}
use codex_threadhub.States.Lease.{LeaseStatus, active, move_lease}
use codex_threadhub.Leases.Agent.{AgentLease}
use codex_threadhub.Agents.{Agent, check_status, move_thread_lifecycle, update_agent}
use codex_threadhub.Agents.Expired.{
  Pool, PoolError, is_over, recover_lease, recover_each, recover_expired_agent_leases,
}
use codex_threadhub.Agents.Recovers.{recover_expired_agent_leases-recovers}

abbrev lease_of : String → ℕ → AgentLease
lease_of agent until = record {
  agent_id = agent;
  owner_task_id = "t";
  owner_token = "k";
  status = active;
  acquired_at = 0;
  expires_at = until;
  heartbeat_at = some 0;
  released_at = none;
  metadata = "{}";
}

abbrev working : String → Agent
working id = record {
  id = id;
  name = none;
  cwd = none;
  model = none;
  status = AgentStatus.running;
  role = none;
  capabilities = [];
  summary = none;
  last_task_at = none;
  updated_at = 0;
  current_task_id = some "t";
  agent_lease_token = some "k";
  lifecycle_state = some "running";
  recovered_lease_at = none;
}

abbrev pool : Pool
pool = record {
  leases = record { rows = lease_of "g" 5 ∷ lease_of "h" 9 ∷ []; events = [] };
  agents = record {
    rows = working "g" ∷ working "h" ∷ [];
    lifecycles = [];
    lifecycle_events = [];
    events = [];
  };
}

abbrev statuses_of : Pool → List LeaseStatus × List (AgentStatus × Option String × Option ℕ)
statuses_of p = (
  map (λ l. l.status) p.leases.rows,
  map (λ a. (a.status, a.current_task_id, a.recovered_lease_at)) p.agents.rows,
)

abbrev recovered_statuses :
    Result PoolError (Pool × ℕ) → List LeaseStatus × List (AgentStatus × Option String × Option ℕ)
recovered_statuses (ok (p, n)) = statuses_of p
recovered_statuses (err e) = ([], [])

recovers_one : recovered_statuses (recover_expired_agent_leases 5 pool) ≡ (
  LeaseStatus.expired ∷ LeaseStatus.active ∷ [],
  (AgentStatus.idle, none, some 5) ∷ (AgentStatus.running, some "t", none) ∷ [],
)
unfolding recover_expired_agent_leases recover_each recover_lease move_lease move update_where
    update_agent check_status move_thread_lifecycle
recovers_one = refl

recover_expired_agent_leases-recovers_example :
    (q : Pool) × (recover_expired_agent_leases 5 pool ≡ ok (q, 1))
    × All (λ l. is_over 5 l ≡ false) q.leases.rows
recover_expired_agent_leases-recovers_example = recover_expired_agent_leases-recovers 5 pool
