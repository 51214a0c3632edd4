-- ===== src/Leases/Agent.antt =====
-- The agent leases of src/registry.js. A call reads the clock once. The metadata is its JSON text.
use codex_threadhub.Base.{
  ℕ, ◌+◌, String, Bool, ◌&&◌, ◌||◌, Option, none, some, List, [], ◌∷◌, find, leb, ◌=s=◌,
  if◌then◌else◌, Result, ok, err, ◌>>=◌,
}
use codex_threadhub.Base.Table.{update_where, returned, upsert}
use codex_threadhub.States.Machine.{StateError, no_options}
use codex_threadhub.States.Lease.{
  LeaseStatus, active, released, expired, is_lease, lease_in, move_lease,
}
use codex_threadhub.Registry.{Event}

pub record AgentLease : Type 0 where
  pub agent_id : String
  pub owner_task_id : String
  pub owner_token : String
  pub status : LeaseStatus
  pub acquired_at : ℕ
  pub expires_at : ℕ
  pub heartbeat_at : Option ℕ
  pub released_at : Option ℕ
  pub metadata : String

pub record AgentLeases : Type 0 where
  pub rows : List AgentLease
  pub events : List Event

-- `fields_required` is the TypeError.
pub data AgentLeaseError : Type 0 where
  fields_required : AgentLeaseError
  state : StateError → AgentLeaseError

abbrev pub is_of : String → AgentLease → Bool
is_of agent l = l.agent_id =s= agent

abbrev pub get_agent_lease : String → AgentLeases → Option AgentLease
get_agent_lease agent s = find (is_of agent) s.rows

-- `transitionLease`, for a row that is not active.
unfoldable pub check_revival : Option AgentLease → Result AgentLeaseError (Unit {0})
unfolding move_lease
check_revival none = ok tt
check_revival (some l) =
    if is_lease l.status active
    then ok tt
    else elim (move_lease l.status active no_options) [ ok s ↦ ok tt | err e ↦ err (state e) ]

-- The lease has ended, or its time is over.
abbrev pub is_free : ℕ → AgentLease → Bool
is_free now l = lease_in (released ∷ expired ∷ []) l.status || leb l.expires_at now

abbrev pub granted : String → String → String → String → ℕ → ℕ → AgentLease
granted agent owner token metadata ttl_ms now = record {
  agent_id = agent;
  owner_task_id = owner;
  owner_token = token;
  status = active;
  acquired_at = now;
  expires_at = now + ttl_ms;
  heartbeat_at = some now;
  released_at = none;
  metadata = metadata;
}

abbrev pub regranted : AgentLease → AgentLease → AgentLease
regranted new l = record new { agent_id = l.agent_id }

abbrev pub log_agent :
    String
    → String
    → List Event
    → List AgentLease × Option AgentLease
    → AgentLeases × Option AgentLease
log_agent agent type events (rows, none) = (record { rows = rows; events = events }, none)
log_agent agent type events (rows, some l) = (
  record {
    rows = rows;
    events = record { entity_type = "agent"; entity_id = agent; event_type = type } ∷ events;
  },
  some l,
)

abbrev pub insert_agent_lease : AgentLease → ℕ → AgentLeases → AgentLeases × Option AgentLease
insert_agent_lease new now s =
    log_agent new.agent_id "agent.leased" s.events
      (upsert (is_of new.agent_id) (is_free now) (regranted new) new s.rows)

unfoldable pub acquire_agent_lease :
    String
    → String
    → String
    → String
    → ℕ
    → ℕ
    → AgentLeases
    → Result AgentLeaseError (AgentLeases × Option AgentLease)
unfolding check_revival upsert
acquire_agent_lease agent owner token metadata ttl_ms now s =
    if agent =s= "" || (owner =s= "" || token =s= "")
    then err fields_required
    else check_revival (get_agent_lease agent s) >>= λ _.
        ok (insert_agent_lease (granted agent owner token metadata ttl_ms now) now s)

abbrev pub is_held : String → String → String → AgentLease → Bool
is_held agent owner token l =
    is_of agent l
    && (l.owner_task_id =s= owner && (l.owner_token =s= token && is_lease l.status active))

abbrev pub renewed_agent : ℕ → ℕ → AgentLease → AgentLease
renewed_agent now ttl_ms l = record l { heartbeat_at = some now; expires_at = now + ttl_ms }

unfoldable pub renew_agent_lease :
    String → String → String → ℕ → ℕ → AgentLeases → AgentLeases × Option AgentLease
renew_agent_lease agent owner token ttl_ms now s =
    let p = is_held agent owner token in
    let f = renewed_agent now ttl_ms in
    (record s { rows = update_where p f s.rows }, returned p f s.rows)

abbrev pub ended_agent : LeaseStatus → ℕ → AgentLease → AgentLease
ended_agent status now l = record l {
  status = status;
  released_at = some now;
  heartbeat_at = some now;
}

unfoldable pub release_agent_lease :
    String
    → String
    → String
    → LeaseStatus
    → ℕ
    → AgentLeases
    → Result AgentLeaseError (AgentLeases × Option AgentLease)
unfolding move_lease
release_agent_lease agent owner token status now s = elim (move_lease active status no_options) [
  | err e ↦ err (state e)
  | ok to ↦
      let p = is_held agent owner token in
      ok (
        log_agent agent "agent.lease_released" s.events (
          update_where p (ended_agent status now) s.rows,
          returned p (ended_agent status now) s.rows,
        ))
]
