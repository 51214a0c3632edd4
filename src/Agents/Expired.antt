-- ===== src/Agents/Expired.antt =====
-- `recoverExpiredAgentLeases` of src/registry.js, over the leases on agents and the agents.
use codex_threadhub.Base.{
  ℕ, String, Bool, ◌&&◌, Option, none, some, List, [], ◌∷◌, keep, length, leb, if◌then◌else◌,
  Result, ok, err, ◌>>=◌,
}
use codex_threadhub.Base.Table.{update_where}
use codex_threadhub.States.Machine.{StateError, no_options}
use codex_threadhub.States.Lease.{LeaseStatus, active, expired, is_lease, move_lease}
use codex_threadhub.States.Agent.{AgentStatus, active_agents, agent_in}
use codex_threadhub.Leases.Agent.{AgentLease, AgentLeases, is_of, ended_agent}
use codex_threadhub.Agents.{
  Agent, Agents, AgentError, AgentChanges, no_agent_changes, get_agent, update_agent,
}

pub record Pool : Type 0 where
  pub leases : AgentLeases
  pub agents : Agents

pub data PoolError : Type 0 where
  of_lease : StateError → PoolError
  of_agent : AgentError → PoolError

-- `status = 'active' AND expires_at <= ?`.
abbrev pub is_over : ℕ → AgentLease → Bool
is_over now l = is_lease l.status active && leb l.expires_at now

abbrev pub is_active_of : String → AgentLease → Bool
is_active_of agent l = is_of agent l && is_lease l.status active

abbrev pub lapsed_leases : String → ℕ → Pool → Pool
lapsed_leases agent now p =
    let s = p.leases in
    record p {
      leases = record s {
        rows = update_where (is_active_of agent) (ended_agent expired now) s.rows;
      };
    }

abbrev pub recovered : ℕ → AgentChanges
recovered now = record no_agent_changes {
  status = some AgentStatus.idle;
  current_task_id = some none;
  agent_lease_token = some none;
  recovered_lease_at = some now;
}

abbrev pub with_agents : Pool → Result AgentError Agents → Result PoolError Pool
with_agents p (ok s) = ok (record p { agents = s })
with_agents p (err e) = err (of_agent e)

-- An agent that is not there, or is not at work, stays as it is.
abbrev pub idle_if_active : String → ℕ → Pool → Option Agent → Result PoolError Pool
idle_if_active id now p none = ok p
idle_if_active id now p (some a) =
    if agent_in active_agents a.status
    then with_agents p (update_agent id (recovered now) now p.agents)
    else ok p

abbrev pub log_expired : String → Pool → Pool
log_expired agent p =
    let s = p.leases in
    record p {
      leases = record s {
        events =
            record { entity_type = "agent"; entity_id = agent; event_type = "agent.lease_expired" }
            ∷ s.events;
      };
    }

abbrev pub allowed : Result StateError LeaseStatus → Result PoolError (Unit {0})
allowed (ok s) = ok tt
allowed (err e) = err (of_lease e)

unfoldable pub recover_lease : AgentLease → ℕ → Pool → Result PoolError Pool
unfolding move_lease update_agent
recover_lease l now p = allowed (move_lease l.status expired no_options) >>= λ _.
    let q = lapsed_leases l.agent_id now p in
    idle_if_active l.agent_id now q (get_agent l.agent_id q.agents) >>= λ u.
    ok (log_expired l.agent_id u)

unfoldable pub recover_each : List AgentLease → ℕ → Pool → Result PoolError Pool
unfolding recover_lease
recover_each [] now p = ok p
recover_each (l ∷ ls) now p = recover_lease l now p >>= λ q. recover_each ls now q

-- The number of leases that had expired.
unfoldable pub recover_expired_agent_leases : ℕ → Pool → Result PoolError (Pool × ℕ)
unfolding recover_each
recover_expired_agent_leases now p =
    let ls = keep (is_over now) p.leases.rows in recover_each ls now p >>= λ q. ok (q, length ls)
