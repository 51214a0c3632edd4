-- ===== src/Leases/Worktree.antt =====
-- The worktree leases of src/registry.js. A call reads the clock once; a lease's status is given as
-- a status, so that `assertLeaseStatus` passes. The metadata is its JSON text.
use codex_threadhub.Base.{
  ℕ, ◌+◌, String, Bool, true, false, not, ◌&&◌, ◌||◌, Option, none, some, List, [], ◌∷◌, find, keep,
  take, leb, ◌=s=◌, is_none, or_else, or_option, if◌then◌else◌, Result, ok, err, ◌>>=◌,
}
use codex_threadhub.Base.Sql.{holds, eq}
use codex_threadhub.Base.Order.{order_by}
use codex_threadhub.Base.Table.{update_where, returned, upsert}
use codex_threadhub.States.Machine.{StateError, no_options}
use codex_threadhub.States.Lease.{
  LeaseStatus, active, released, expired, is_lease, lease_in, move_lease,
}
use codex_threadhub.Registry.{Event}

pub record Lease : Type 0 where
  pub key : String
  pub owner_task_id : String
  pub owner_agent_id : Option String
  pub owner_token : Option String
  pub cwd : Option String
  pub worktree_path : Option String
  pub status : LeaseStatus
  pub acquired_at : ℕ
  pub expires_at : ℕ
  pub heartbeat_at : Option ℕ
  pub released_at : Option ℕ
  pub metadata : String

pub record Leases : Type 0 where
  pub rows : List Lease
  pub events : List Event

pub record LeaseRequest : Type 0 where
  pub key : Option String
  pub owner_task_id : Option String
  pub owner_agent_id : Option String
  pub owner_token : Option String
  pub cwd : Option String
  pub worktree_path : Option String
  pub ttl_ms : Option ℕ
  pub metadata : Option String

-- `fields_required` is the TypeError.
pub data LeaseError : Type 0 where
  fields_required : LeaseError
  state : StateError → LeaseError

abbrev pub is_given : Option String → Bool
is_given none = false
is_given (some s) = not (s =s= "")

abbrev pub has_key : String → Lease → Bool
has_key key l = l.key =s= key

-- `transitionLease` before the update, where the row exists and its status is another.
unfoldable pub check_move : Option Lease → LeaseStatus → Result LeaseError (Unit {0})
unfolding move_lease
check_move none to = ok tt
check_move (some l) to =
    if is_lease l.status to
    then ok tt
    else elim (move_lease l.status to no_options) [ ok s ↦ ok tt | err e ↦ err (state e) ]

abbrev pub requested : String → String → LeaseRequest → ℕ → Lease
requested key owner q now = record {
  key = key;
  owner_task_id = owner;
  owner_agent_id = q.owner_agent_id;
  owner_token = q.owner_token;
  cwd = q.cwd;
  worktree_path = q.worktree_path;
  status = active;
  acquired_at = now;
  expires_at = now + or_else q.ttl_ms 120000;
  heartbeat_at = some now;
  released_at = none;
  metadata = or_else q.metadata "{}";
}

-- The key stays that of the row.
abbrev pub taken_over : Lease → Lease → Lease
taken_over new l = record new { key = l.key }

abbrev pub log_lease :
    String → String → List Event → List Lease × Option Lease → Leases × Option Lease
log_lease task type events (rows, none) = (record { rows = rows; events = events }, none)
log_lease task type events (rows, some l) = (
  record {
    rows = rows;
    events = record { entity_type = "task"; entity_id = task; event_type = type } ∷ events;
  },
  some l,
)

abbrev pub insert_lease : String → String → LeaseRequest → ℕ → Leases → Leases × Option Lease
insert_lease key owner q now s =
    let new = requested key owner q now in
    log_lease owner "lease.acquired" s.events
      (upsert (has_key key) (λ l. is_lease l.status released) (taken_over new) new s.rows)

unfoldable pub acquire_lease : LeaseRequest → ℕ → Leases → Result LeaseError (Leases × Option Lease)
unfolding check_move upsert
acquire_lease q now s =
    if not (is_given q.key) || not (is_given q.owner_task_id)
    then err fields_required
    else let key = or_else q.key "" in
      check_move (find (has_key key) s.rows) active >>= λ _.
      ok (insert_lease key (or_else q.owner_task_id "") q now s)

-- `? IS NULL OR owner_token = ?`.
abbrev pub token_fits : Option String → Lease → Bool
token_fits token l = is_none token || holds (eq l.owner_token token)

abbrev pub renewable : String → String → Option String → Lease → Bool
renewable key owner token l =
    has_key key l && (l.owner_task_id =s= owner && (is_lease l.status active && token_fits token l))

abbrev pub renewed : ℕ → ℕ → Lease → Lease
renewed now ttl_ms l = record l { heartbeat_at = some now; expires_at = now + ttl_ms }

unfoldable pub renew_lease :
    String → String → ℕ → Option String → ℕ → Leases → Leases × Option Lease
renew_lease key owner ttl_ms token now s = (
  record s { rows = update_where (renewable key owner token) (renewed now ttl_ms) s.rows },
  returned (renewable key owner token) (renewed now ttl_ms) s.rows,
)

abbrev pub releasable : String → String → Option String → Lease → Bool
releasable key owner token l =
    has_key key l
    && (l.owner_task_id =s= owner
        && (lease_in (active ∷ expired ∷ []) l.status && token_fits token l))

abbrev pub ended : LeaseStatus → ℕ → Lease → Lease
ended status now l = record l { status = status; released_at = some now; heartbeat_at = some now }

unfoldable pub release_lease :
    String
    → String
    → Option LeaseStatus
    → Option String
    → ℕ
    → Leases
    → Result LeaseError (Leases × Option Lease)
unfolding check_move
release_lease key owner status token now s =
    let to = or_else status released in
    let p = releasable key owner token in
    check_move (find (has_key key) s.rows) to >>= λ _. ok (
      log_lease owner "lease.released" s.events
        (update_where p (ended to now) s.rows, returned p (ended to now) s.rows))

abbrev pub overdue : ℕ → Lease → Bool
overdue now l = is_lease l.status active && leb l.expires_at now

abbrev pub lapsed : ℕ → Lease → Lease
lapsed now l = record l { status = expired; released_at = or_option l.released_at (some now) }

pub record ListOptions : Type 0 where
  pub status : Option LeaseStatus
  pub owner_task_id : Option String
  pub limit : Option ℕ

-- `ORDER BY acquired_at DESC`.
abbrev pub newest_first : List Lease → List Lease
newest_first ls = order_by (λ l x. leb x.acquired_at l.acquired_at) ls

abbrev pub is_listed : ListOptions → Lease → Bool
is_listed o l = fits_status o.status l.status && fits_owner o.owner_task_id l.owner_task_id
  where
    fits_status : Option LeaseStatus → LeaseStatus → Bool
    fits_status none s = true
    fits_status (some t) s = is_lease s t

    fits_owner : Option String → String → Bool
    fits_owner none s = true
    fits_owner (some t) s = t =s= "" || s =s= t

unfoldable pub list_leases : ListOptions → ℕ → Leases → Leases × List Lease
unfolding order_by
list_leases o now s =
    let rows = update_where (overdue now) (lapsed now) s.rows in
    (record s { rows = rows }, take (or_else o.limit 100) (newest_first (keep (is_listed o) rows)))
