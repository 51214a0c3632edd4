-- ===== src/Deliveries/Tests.antt =====
-- A delivery that is deferred and acknowledged, and an instance of the theorem on it.
use codex_threadhub.Base.{◌≡◌, refl, String, Bool, true, none, some, [], ◌∷◌}
use codex_threadhub.Base.Table.{update_where, returned}
use codex_threadhub.States.Delivery.{move_delivery}
use codex_threadhub.States.Machine.{move}
use codex_threadhub.Notices.{create_notification, normalize_notification_kind}
use codex_threadhub.Deliveries.Rows.{DeliveryInput, Mail, new_delivery, enqueue_control_delivery}
use codex_threadhub.Deliveries.Moves.{
  acknowledged, check_move, mark_control_delivery_delivered, defer_control_delivery, call_attention,
}
use codex_threadhub.Deliveries.Calls.{DeliveryCall, run_delivery_call, run_deliveries}
use codex_threadhub.Deliveries.Final.{IsDelivered, run_deliveries-IsDelivered}

abbrev input : DeliveryInput
input = record {
  id = some "d";
  run_id = some "r";
  origin_thread_id = some "t";
  origin_turn_id = none;
  delivery_key = none;
  payload = none;
  max_attempts = some 1;
  not_before = none;
}

abbrev all_known : String → Bool
all_known run = true

abbrev workspace_of : String → String
workspace_of run = "workspace"

abbrev no_mail : Mail
no_mail = record { rows = []; board = record { notices = []; events = [] } }

abbrev acknowledged_mail : Mail
acknowledged_mail = record no_mail {
  rows = acknowledged (some "turn") 2 (new_delivery input "d" "r:t" "r" "t" 1) ∷ [];
}

acknowledges :
    run_deliveries all_known workspace_of
      (DeliveryCall.enqueues input "x" 1 ∷ DeliveryCall.acknowledges "d" (some "turn") 2 ∷ [])
      no_mail
    ≡ acknowledged_mail
unfolding run_deliveries run_delivery_call enqueue_control_delivery mark_control_delivery_delivered
    check_move move_delivery move update_where returned
acknowledges = refl

-- The only attempt is spent: the delivery wants attention, and a notification says so.
defers_once :
    (run_deliveries all_known workspace_of
      (DeliveryCall.enqueues input "x" 1 ∷ DeliveryCall.defers "d" "offline" 30 "n" 2 ∷ [])
      no_mail).board.events
    ≡ record {
      entity_type = "notification";
      entity_id = "n";
      event_type = "notification.attention_required";
    }
      ∷ []
unfolding run_deliveries run_delivery_call enqueue_control_delivery defer_control_delivery
    call_attention move_delivery move update_where returned create_notification
    normalize_notification_kind
defers_once = refl

run_deliveries-IsDelivered_example :
    IsDelivered "d"
      (some "turn")
      (run_deliveries all_known workspace_of
        (DeliveryCall.defers "d" "late" 30 "n" 3
          ∷ DeliveryCall.recovers 4
          ∷ DeliveryCall.acknowledges "d" (some "other") 5
          ∷ [])
        acknowledged_mail).rows
run_deliveries-IsDelivered_example =
    run_deliveries-IsDelivered all_known workspace_of "d" (some "turn")
      (DeliveryCall.defers "d" "late" 30 "n" 3
        ∷ DeliveryCall.recovers 4
        ∷ DeliveryCall.acknowledges "d" (some "other") 5
        ∷ [])
      acknowledged_mail (refl, ((λ e. (refl, refl)), tt))
