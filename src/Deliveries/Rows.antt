-- ===== src/Deliveries/Rows.antt =====
-- The rows of the control deliveries of src/registry.js, and `enqueueControlDelivery`.
use Prim.Native.String
use codex_threadhub.Base.{
  ℕ, String, Bool, false, not, ◌||◌, Option, none, some, List, ◌∷◌, any, find, ◌=s=◌, or_else,
  or_option, if◌then◌else◌, Result, ok, ◌>>=◌, throw_if,
}
use codex_threadhub.Base.Table.{update_where}
use codex_threadhub.States.Machine.{StateError}
use codex_threadhub.States.Delivery.{DeliveryStatus, pending}
use codex_threadhub.Notices.{NoticeError, Board}

pub record Delivery : Type 0 where
  pub id : String
  pub delivery_key : String
  pub run_id : String
  pub origin_thread_id : String
  pub origin_turn_id : Option String
  pub status : DeliveryStatus
  pub payload : String
  pub attempt : ℕ
  pub max_attempts : ℕ
  pub not_before : Option ℕ
  pub last_error : Option String
  pub delivered_turn_id : Option String
  pub delivery_method : Option String
  pub direct_delivered_at : Option ℕ
  pub acknowledged_at : Option ℕ
  pub acknowledged_turn_id : Option String
  pub created_at : ℕ
  pub updated_at : ℕ
  pub delivered_at : Option ℕ

pub record DeliveryInput : Type 0 where
  pub id : Option String
  pub run_id : Option String
  pub origin_thread_id : Option String
  pub origin_turn_id : Option String
  pub delivery_key : Option String
  pub payload : Option String
  pub max_attempts : Option ℕ
  pub not_before : Option ℕ

-- The TypeError, the failures of the foreign key and of the primary key, and those of the calls.
pub data DeliveryError : Type 0 where
  fields_required unknown_run id_taken : DeliveryError
  state : StateError → DeliveryError
  notice : NoticeError → DeliveryError

pub record Mail : Type 0 where
  pub rows : List Delivery
  pub board : Board

abbrev pub is_given : Option String → Bool
is_given none = false
is_given (some s) = not (s =s= "")

abbrev pub has_id : String → Delivery → Bool
has_id id d = d.id =s= id

abbrev pub has_delivery_key : String → Delivery → Bool
has_delivery_key key d = d.delivery_key =s= key

abbrev pub get_control_delivery_by_key : String → Mail → Option Delivery
get_control_delivery_by_key key m = find (has_delivery_key key) m.rows

abbrev pub new_delivery : DeliveryInput → String → String → String → String → ℕ → Delivery
new_delivery q id key run thread now = record {
  id = id;
  delivery_key = key;
  run_id = run;
  origin_thread_id = thread;
  origin_turn_id = q.origin_turn_id;
  status = pending;
  payload = or_else q.payload "{}";
  attempt = 0;
  max_attempts = or_else q.max_attempts 20;
  not_before = some (or_else q.not_before now);
  last_error = none;
  delivered_turn_id = none;
  delivery_method = none;
  direct_delivered_at = none;
  acknowledged_at = none;
  acknowledged_turn_id = none;
  created_at = now;
  updated_at = now;
  delivered_at = none;
}

-- The origin turn that is known is kept.
abbrev pub enqueued_again : DeliveryInput → ℕ → Delivery → Delivery
enqueued_again q now d = record d {
  payload = or_else q.payload "{}";
  origin_turn_id = or_option d.origin_turn_id q.origin_turn_id;
  updated_at = now;
}

-- `INSERT … ON CONFLICT(delivery_key) DO UPDATE`.
abbrev pub insert_delivery :
    Bool → DeliveryInput → Delivery → ℕ → List Delivery → Result DeliveryError (List Delivery)
insert_delivery known q new now ds =
    if any (has_delivery_key new.delivery_key) ds
    then ok (update_where (has_delivery_key new.delivery_key) (enqueued_again q now) ds)
    else throw_if (any (has_id new.id) ds) id_taken >>= λ _.
        throw_if (not known) unknown_run >>= λ _. ok (new ∷ ds)

-- `${runId}:${originThreadId}`.
abbrev pub default_key : String → String → String
default_key run thread = String.◌++◌ run (String.◌++◌ ":" thread)

unfoldable pub enqueue_control_delivery :
    (String → Bool)
    → DeliveryInput
    → String
    → ℕ
    → Mail
    → Result DeliveryError (Mail × Option Delivery)
enqueue_control_delivery known q random now m =
    let run = or_else q.run_id "" in
    let thread = or_else q.origin_thread_id "" in
    let key = or_else q.delivery_key (default_key run thread) in
    throw_if (not (is_given q.run_id) || not (is_given q.origin_thread_id)) fields_required >>= λ _.
    insert_delivery (known run) q (new_delivery q (or_else q.id random) key run thread now) now
      m.rows
    >>= λ rows.
        let after = record m { rows = rows } in ok (after, get_control_delivery_by_key key after)
