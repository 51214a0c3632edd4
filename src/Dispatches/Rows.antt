-- ===== src/Dispatches/Rows.antt =====
-- The table of the turn dispatches. The columns that are only written by `createTurnDispatch` and
-- not read again are left out.
use codex_threadhub.Base.{ℕ, String, Bool, false, not, Option, none, some, List, ◌∷◌, find, ◌=s=◌}
use codex_threadhub.States.Dispatch.{DispatchStatus, dispatch_in, active_dispatches}
use codex_threadhub.Registry.{Event}

pub record Dispatch : Type 0 where
  pub id : String
  pub subject_type : String
  pub subject_id : String
  pub purpose : String
  pub revision : ℕ
  pub parent_run_id : Option String
  pub parent_task_id : Option String
  pub plan_id : Option String
  pub status : DispatchStatus
  pub thread_id : Option String
  pub agent_id : Option String
  pub thread_action : Option String
  pub turn_id : Option String
  pub turn_status : Option String
  pub owner_instance_id : Option String
  pub owner_token : Option String
  pub heartbeat_at : Option ℕ
  pub lease_expires_at : Option ℕ
  pub cancellation_generation : ℕ
  pub cancel_requested_at : Option ℕ
  pub deadline_at : ℕ
  pub started_at : Option ℕ
  pub terminal_at : Option ℕ
  pub last_probe_at : Option ℕ
  pub probe_count : ℕ
  pub reconciliation_decision : Option String
  pub failure : Option String
  pub evidence : String
  pub updated_at : ℕ
  pub version : ℕ

pub record Dispatches : Type 0 where
  pub rows : List Dispatch
  pub events : List Event

abbrev pub has_id : String → Dispatch → Bool
has_id id d = d.id =s= id

abbrev pub get_turn_dispatch : String → Dispatches → Option Dispatch
get_turn_dispatch id s = find (has_id id) s.rows

abbrev pub is_active : Dispatch → Bool
is_active d = dispatch_in active_dispatches d.status

abbrev pub log_dispatch :
    String → String → List Event → List Dispatch × Option Dispatch → Dispatches × Option Dispatch
log_dispatch id type events (rows, none) = (record { rows = rows; events = events }, none)
log_dispatch id type events (rows, some d) = (
  record {
    rows = rows;
    events = record { entity_type = "turn_dispatch"; entity_id = id; event_type = type } ∷ events;
  },
  some d,
)

-- The truth of a text: neither absent nor empty.
abbrev pub is_given : Option String → Bool
is_given none = false
is_given (some s) = not (s =s= "")
