-- ===== src/Deliveries/Moves.antt =====
-- What src/registry.js does with a control delivery that is in the table.
use Prim.Native.String
use codex_threadhub.Base.{
  ℕ, ◌+◌, String, Bool, not, ◌&&◌, Option, none, some, [], ◌∷◌, find, leb, or_option, if◌then◌else◌,
  Result, ok, err, ◌>>=◌,
}
use codex_threadhub.Base.Table.{update_where, returned}
use codex_threadhub.States.Machine.{StateError, no_options}
use codex_threadhub.States.Delivery.{
  DeliveryStatus, delivering, retry_waiting, pending_attention, direct_delivered, delivered,
  is_delivery, delivery_in, move_delivery,
}
use codex_threadhub.Notices.{NoticeInput, Board, create_notification}
use codex_threadhub.Deliveries.Rows.{Delivery, DeliveryError, state, notice, Mail, has_id}

-- `transitionDelivery`, where the row exists and has another status.
unfoldable pub check_move : Option Delivery → DeliveryStatus → Result DeliveryError (Unit {0})
unfolding move_delivery
check_move none to = ok tt
check_move (some d) to =
    if is_delivery d.status to
    then ok tt
    else elim (move_delivery d.status to no_options) [ ok s ↦ ok tt | err e ↦ err (state e) ]

abbrev pub acknowledged : Option String → ℕ → Delivery → Delivery
acknowledged turn now d = record d {
  status = delivered;
  delivered_turn_id = turn;
  delivered_at = some now;
  delivery_method = some "drain_acknowledgement";
  acknowledged_at = some now;
  acknowledged_turn_id = turn;
  updated_at = now;
  last_error = none;
}

abbrev pub undelivered : String → Delivery → Bool
undelivered id d = has_id id d && not (is_delivery d.status delivered)

-- The updated row, or the row as it is.
abbrev pub row_or_found :
    String → (Delivery → Bool) → (Delivery → Delivery) → Mail → Mail × Option Delivery
row_or_found id p f m =
    let after = record m { rows = update_where p f m.rows } in
    (after, or_option (returned p f m.rows) (find (has_id id) after.rows))

unfoldable pub mark_control_delivery_delivered :
    String → Option String → ℕ → Mail → Result DeliveryError (Mail × Option Delivery)
unfolding check_move
mark_control_delivery_delivered id turn now m =
    check_move (find (has_id id) m.rows) delivered >>= λ _.
    ok (row_or_found id (undelivered id) (acknowledged turn now) m)

abbrev pub appended : Option String → ℕ → Delivery → Delivery
appended turn now d = record d {
  status = direct_delivered;
  delivered_turn_id = turn;
  delivered_at = some now;
  delivery_method = some "direct_origin_append";
  direct_delivered_at = some now;
  updated_at = now;
  last_error = none;
}

abbrev pub unsent : String → Delivery → Bool
unsent id d = has_id id d && not (delivery_in (direct_delivered ∷ delivered ∷ []) d.status)

unfoldable pub mark_control_delivery_direct_delivered :
    String → Option String → ℕ → Mail → Result DeliveryError (Mail × Option Delivery)
unfolding check_move
mark_control_delivery_direct_delivered id turn now m =
    check_move (find (has_id id) m.rows) direct_delivered >>= λ _.
    ok (row_or_found id (unsent id) (appended turn now) m)

abbrev pub is_exhausted : Delivery → Bool
is_exhausted d = leb d.max_attempts (d.attempt + 1)

abbrev pub deferred_status : Delivery → DeliveryStatus
deferred_status d = if is_exhausted d then pending_attention else retry_waiting

-- The values come from the row that was read.
abbrev pub deferred : Delivery → String → ℕ → ℕ → Delivery → Delivery
deferred current error delay now d = record d {
  status = deferred_status current;
  attempt = current.attempt + 1;
  not_before = if is_exhausted current then none else some (now + delay);
  last_error = some error;
  updated_at = now;
}

abbrev attention_title : String
attention_title = "이전 결과 기록 확인 필요"

abbrev attention_body : String
attention_body = "이전 버전에서 남은 결과 전달 기록입니다. 작업 탐색기의 해당 Run과 담당 스레드에서 결과를 확인하세요."

abbrev attention_input : (String → String) → Delivery → NoticeInput
attention_input project_of d = record {
  id = none;
  project_key = some (project_of d.run_id);
  run_id = some d.run_id;
  task_id = none;
  kind = some "attention_required";
  severity = none;
  title = some attention_title;
  body = some attention_body;
  dedupe_key = some (String.◌++◌ d.delivery_key ":attention");
  metadata = none;
}

-- The notification, once the attempts are exhausted.
unfoldable pub call_attention :
    (String → String) → Delivery → String → ℕ → Board → Result DeliveryError Board
unfolding create_notification
call_attention project_of d random now b =
    if is_exhausted d
    then elim (create_notification (attention_input project_of d) random now b) [
      | ok x ↦ ok x.0
      | err e ↦ err (notice e)
    ]
    else ok b

abbrev pub from_state : Result StateError DeliveryStatus → Result DeliveryError (Unit {0})
from_state (ok s) = ok tt
from_state (err e) = err (state e)

abbrev pub defer_found :
    (String → String)
    → String
    → String
    → ℕ
    → String
    → ℕ
    → Mail
    → Option Delivery
    → Result DeliveryError (Mail × Option Delivery)
defer_found project_of id error delay random now m none = ok (m, none)
defer_found project_of id error delay random now m (some d) =
    if is_delivery d.status delivered
    then ok (m, some d)
    else from_state (move_delivery d.status (deferred_status d) no_options) >>= λ _.
        let f = deferred d error delay now in
        call_attention project_of d random now m.board >>= λ b. ok (
          record { rows = update_where (has_id id) f m.rows; board = b },
          returned (has_id id) f m.rows,
        )

unfoldable pub defer_control_delivery :
    (String → String)
    → String
    → String
    → ℕ
    → String
    → ℕ
    → Mail
    → Result DeliveryError (Mail × Option Delivery)
unfolding call_attention move_delivery
defer_control_delivery project_of id error delay random now m =
    defer_found project_of id error delay random now m (find (has_id id) m.rows)

abbrev pub resumed : ℕ → Delivery → Delivery
resumed now d = record d { status = retry_waiting; not_before = some now; updated_at = now }

-- The transition that the source asserts, delivering to retry_waiting, is in the table.
unfoldable pub recover_control_deliveries : ℕ → Mail → Mail
recover_control_deliveries now m = record m {
  rows = update_where (λ d. is_delivery d.status delivering) (resumed now) m.rows;
}
