-- ===== src/Queue.antt =====
-- The project queue of src/registry.js: the Runs that wait for their preparation, of which each
-- project has one leased at a time. A time is a number of milliseconds, and a call reads the clock
-- once; the random tokens are arguments. The payload is its JSON text.
use codex_threadhub.Base.{
  ℕ, ◌+◌, suc, String, Bool, true, false, not, ◌&&◌, ◌||◌, Option, none, some, List, [], ◌∷◌, ◌++◌,
  length, any, find, keep, take, leb, ltb, ◌==◌, ◌=s=◌, is_some, is_none, or_else, if◌then◌else◌,
  Result, ok, err,
}
use codex_threadhub.Base.Sql.{holds, eq, le}
use codex_threadhub.Base.Table.{update_where, returned}
use codex_threadhub.Base.Counts.{count}
pub mod OneLease
pub mod Ready
pub mod Calls
mod Tests

pub data QueueStatus : Type 0 where
  queued leased retry_waiting completed dead : QueueStatus

abbrev pub is_status : QueueStatus → QueueStatus → Bool
is_status queued queued = true
is_status leased leased = true
is_status retry_waiting retry_waiting = true
is_status completed completed = true
is_status dead dead = true
is_status _ _ = false

pub record Item : Type 0 where
  pub id : String
  pub project_key : String
  pub run_id : String
  pub cwd : String
  pub status : QueueStatus
  pub sequence : ℕ
  pub lease_owner : Option String
  pub lease_token : Option String
  pub lease_expires_at : Option ℕ
  pub attempt : ℕ
  pub max_attempts : ℕ
  pub not_before : Option ℕ
  pub last_error : Option String
  pub payload : String
  pub created_at : ℕ
  pub updated_at : ℕ

pub record QueueInput : Type 0 where
  pub id : Option String
  pub run_id : Option String
  pub project_key : Option String
  pub cwd : Option String
  pub max_attempts : Option ℕ
  pub payload : Option String

-- `fields_required` is the TypeError, `id_taken` the failure of the primary key.
pub data QueueError : Type 0 where
  fields_required id_taken : QueueError

-- The truth of a text: neither absent nor empty.
abbrev pub is_given : Option String → Bool
is_given none = false
is_given (some s) = not (s =s= "")

abbrev max_sequence : List Item → ℕ
max_sequence [] = 0
max_sequence (x ∷ xs) = let m = max_sequence xs in if ltb m x.sequence then x.sequence else m

-- `COALESCE((SELECT MAX(sequence) + 1 …), 1)`; no row has a sequence below 1.
abbrev next_sequence : List Item → ℕ
next_sequence xs = max_sequence xs + 1

abbrev new_item : String → String → String → QueueInput → ℕ → List Item → Item
new_item id run key input now xs = record {
  id = id;
  project_key = key;
  run_id = run;
  cwd = or_else input.cwd key;
  status = queued;
  sequence = next_sequence xs;
  lease_owner = none;
  lease_token = none;
  lease_expires_at = none;
  attempt = 0;
  max_attempts = or_else input.max_attempts 3;
  not_before = none;
  last_error = none;
  payload = or_else input.payload "{}";
  created_at = now;
  updated_at = now;
}

abbrev pub refreshed_item : QueueInput → ℕ → Item → Item
refreshed_item input now x = record x { payload = or_else input.payload "{}"; updated_at = now }

-- `INSERT … ON CONFLICT(run_id) DO UPDATE`.
abbrev pub insert_item :
    String → String → String → QueueInput → ℕ → List Item → Result QueueError (List Item)
insert_item id run key input now xs =
    if any (λ x. x.run_id =s= run) xs
    then ok (update_where (λ x. x.run_id =s= run) (refreshed_item input now) xs)
    else if any (λ x. x.id =s= id) xs
    then err id_taken
    else ok (new_item id run key input now xs ∷ xs)

-- `prefix` is the id made of the run's.
unfoldable pub enqueue_project_preparation :
    (String → String) → QueueInput → ℕ → List Item → Result QueueError (List Item)
enqueue_project_preparation prefix input now xs =
    if not (is_given input.run_id) || not (is_given input.project_key)
    then err fields_required
    else let run = or_else input.run_id "" in
      insert_item (or_else input.id (prefix run)) run (or_else input.project_key "") input now xs

abbrev pub get_project_queue_item_by_run : String → List Item → Option Item
get_project_queue_item_by_run run xs = find (λ x. x.run_id =s= run) xs

abbrev released : ℕ → Item → Item
released now x = record x {
  lease_owner = none;
  lease_token = none;
  lease_expires_at = none;
  updated_at = now;
}

abbrev pub is_expired : ℕ → Item → Bool
is_expired now x = is_status x.status leased && holds (le x.lease_expires_at (some now))

abbrev pub recovered : ℕ → Item → Item
recovered now x = let u = released now x in record u { status = queued }

unfoldable pub recover_project_queue : ℕ → List Item → List Item
recover_project_queue now xs = update_where (is_expired now) (recovered now) xs

abbrev pub is_due : Option ℕ → ℕ → Bool
is_due none now = true
is_due (some at) now = leb at now

-- Some item of the project is leased.
abbrev pub has_lease : String → List Item → Bool
has_lease key xs = any (λ a. a.project_key =s= key && is_status a.status leased) xs

abbrev pub is_ready : List Item → ℕ → Item → Bool
is_ready xs now q =
    (is_status q.status queued || is_status q.status retry_waiting)
    && (is_due q.not_before now && not (has_lease q.project_key xs))

-- `ORDER BY q.sequence LIMIT 1`.
abbrev pub sooner : Item → Option Item → Option Item
sooner x none = some x
sooner x (some y) = if leb x.sequence y.sequence then some x else some y

unfoldable pub first : (Item → Bool) → List Item → Option Item
first p [] = none
first p (x ∷ xs) = let rest = first p xs in if p x then sooner x rest else rest

abbrev pub leased_item : String → String → ℕ → ℕ → Item → Item
leased_item worker token now lease_ms x = record x {
  status = leased;
  lease_owner = some worker;
  lease_token = some token;
  lease_expires_at = some (now + lease_ms);
  attempt = x.attempt + 1;
  updated_at = now;
}

abbrev pub has_id : String → Item → Bool
has_id id x = x.id =s= id

abbrev pub lease_found : String → String → ℕ → ℕ → List Item → Option Item → List Item × Option Item
lease_found worker token now lease_ms xs none = (xs, none)
lease_found worker token now lease_ms xs (some q) =
    let f = leased_item worker token now lease_ms in
    (update_where (has_id q.id) f xs, returned (has_id q.id) f xs)

unfoldable pub claim_project_preparation :
    String → String → ℕ → ℕ → List Item → List Item × Option Item
unfolding recover_project_queue first
claim_project_preparation worker token now lease_ms xs =
    let ys = recover_project_queue now xs in
    lease_found worker token now lease_ms ys (first (is_ready ys now) ys)

abbrev pub holds_item : String → String → String → Item → Bool
holds_item id worker token x =
    x.id =s= id && (holds (eq x.lease_owner (some worker)) && holds (eq x.lease_token (some token)))

abbrev pub holds_leased : String → String → String → Item → Bool
holds_leased id worker token x = holds_item id worker token x && is_status x.status leased

abbrev pub completed_item : ℕ → Item → Item
completed_item now x = let u = released now x in record u { status = completed }

unfoldable pub complete_project_preparation :
    String → String → String → ℕ → List Item → List Item × Option Item
complete_project_preparation id worker token now xs =
    let p = holds_leased id worker token in
    (update_where p (completed_item now) xs, returned p (completed_item now) xs)

-- The row that was read decides; another attempt follows unless the budget is spent.
abbrev pub failed_item : Item → String → ℕ → ℕ → Item → Item
failed_item current error delay now x =
    let u = released now x in
    let retry = ltb current.attempt current.max_attempts in
    record u {
      status = if retry then retry_waiting else dead;
      not_before = if retry then some (now + delay) else none;
      last_error = some error;
    }

abbrev pub fail_found :
    String → String → String → String → ℕ → ℕ → List Item → Option Item → List Item × Option Item
fail_found id worker token error delay now xs none = (xs, none)
fail_found id worker token error delay now xs (some current) =
    let p = holds_item id worker token in
    let f = failed_item current error delay now in (update_where p f xs, returned p f xs)

unfoldable pub fail_project_preparation :
    String → String → String → String → ℕ → ℕ → List Item → List Item × Option Item
fail_project_preparation id worker token error delay now xs =
    fail_found id worker token error delay now xs (find (holds_item id worker token) xs)
