-- ===== src/Leases/Tests.antt =====
-- Runs of the leases, and instances of their theorems.
use codex_threadhub.Base.{◌≡◌, refl, String, none, some, List, [], ◌∷◌, ok, arith}
use codex_threadhub.Base.Table.{upsert}
use codex_threadhub.States.Lease.{active}
use codex_threadhub.Leases.Worktree.{Leases, LeaseRequest, acquire_lease, check_move}
use codex_threadhub.Leases.Agent.{
  AgentLease, AgentLeases, acquire_agent_lease, check_revival, granted,
}
use codex_threadhub.Leases.Dashboard.{DashboardLease, acquire_dashboard_lease, opened}
use codex_threadhub.Leases.Kept.{
  LeaseCall, run_lease_call, run_lease_calls, Holds, run_lease_calls-Holds,
}
use codex_threadhub.Leases.Fenced.{acquire_agent_lease-fenced}

abbrev request_of : String → String → LeaseRequest
request_of key task = record {
  key = some key;
  owner_task_id = some task;
  owner_agent_id = none;
  owner_token = some "k";
  cwd = none;
  worktree_path = none;
  ttl_ms = some 100;
  metadata = none;
}

abbrev no_leases : Leases
no_leases = record { rows = []; events = [] }

abbrev one_lease : Leases
one_lease = record {
  rows =
      record {
        key = "w";
        owner_task_id = "t";
        owner_agent_id = none;
        owner_token = some "k";
        cwd = none;
        worktree_path = none;
        status = active;
        acquired_at = 1;
        expires_at = 101;
        heartbeat_at = some 1;
        released_at = none;
        metadata = "{}";
      }
      ∷ [];
  events = record { entity_type = "task"; entity_id = "t"; event_type = "lease.acquired" } ∷ [];
}

acquires_one : run_lease_call (LeaseCall.acquires (request_of "w" "t") 1) no_leases ≡ one_lease
unfolding run_lease_call acquire_lease check_move upsert
acquires_one = refl

abbrev rivals : List LeaseCall
rivals =
    LeaseCall.lists (record { status = none; owner_task_id = none; limit = none }) 200
    ∷ LeaseCall.acquires (request_of "w" "u") 201
    ∷ LeaseCall.releases "w" "u" none none 202
    ∷ []

run_lease_calls-Holds_example : Holds "w" "t" (run_lease_calls rivals one_lease)
run_lease_calls-Holds_example =
    run_lease_calls-Holds "w" "t" rivals one_lease (refl, (refl, (refl, tt)))
      (refl, ((λ e. (refl, refl)), tt))

abbrev no_agents : AgentLeases
no_agents = record { rows = []; events = [] }

abbrev agent_row : AgentLease
agent_row = granted "a" "t" "k" "{}" 100 1

abbrev one_agent : AgentLeases
one_agent = record {
  rows = agent_row ∷ [];
  events = record { entity_type = "agent"; entity_id = "a"; event_type = "agent.leased" } ∷ [];
}

leases_agent : acquire_agent_lease "a" "t" "k" "{}" 100 1 no_agents ≡ ok (one_agent, some agent_row)
unfolding acquire_agent_lease check_revival upsert
leases_agent = refl

acquire_agent_lease-fenced_example :
    acquire_agent_lease "a" "u" "l" "{}" 100 50 one_agent ≡ ok (one_agent, none)
acquire_agent_lease-fenced_example =
    acquire_agent_lease-fenced "a" "t" "k" "u" "l" "{}" "{}" 100 100 1 50 no_agents one_agent
      agent_row refl refl (omega arith) leases_agent (omega arith)

abbrev dashboard_row : DashboardLease
dashboard_row = opened "p" "o" "x" 30000 1

leases_dashboard :
    acquire_dashboard_lease "p" "o" none none "x" 1 [] ≡ ok (dashboard_row ∷ [], some dashboard_row)
unfolding acquire_dashboard_lease upsert
leases_dashboard = refl
