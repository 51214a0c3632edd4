-- ===== src/States/Delivery.antt =====
-- The Delivery states of src/domain-states.js.
use codex_threadhub.Base.{ℕ, String, ◌≡◌, refl, Bool, List, [], ◌∷◌, some, Result}
use codex_threadhub.States.Machine.{
  Machine, Options, StateError, get_elem?, has, same, move, transition,
}

pub data DeliveryStatus : Type 0 where
  pending delivering retry_waiting pending_attention direct_delivered delivered : DeliveryStatus

abbrev pub delivery_statuses : List DeliveryStatus
delivery_statuses =
    pending ∷ delivering ∷ retry_waiting ∷ pending_attention ∷ direct_delivered ∷ delivered ∷ []

abbrev pub delivery_spelling : DeliveryStatus → String
delivery_spelling pending = "pending"
delivery_spelling delivering = "delivering"
delivery_spelling retry_waiting = "retry_waiting"
delivery_spelling pending_attention = "pending_attention"
delivery_spelling direct_delivered = "direct_delivered"
delivery_spelling delivered = "delivered"

abbrev pub delivery_code : DeliveryStatus → ℕ
delivery_code pending = 0
delivery_code delivering = 1
delivery_code retry_waiting = 2
delivery_code pending_attention = 3
delivery_code direct_delivered = 4
delivery_code delivered = 5

abbrev pub delivery_moves : DeliveryStatus → List DeliveryStatus
delivery_moves pending =
    delivering ∷ retry_waiting ∷ pending_attention ∷ direct_delivered ∷ delivered ∷ []
delivery_moves delivering = retry_waiting ∷ pending_attention ∷ direct_delivered ∷ delivered ∷ []
delivery_moves retry_waiting =
    delivering ∷ retry_waiting ∷ pending_attention ∷ direct_delivered ∷ delivered ∷ []
delivery_moves pending_attention = delivering ∷ retry_waiting ∷ direct_delivered ∷ delivered ∷ []
delivery_moves _ = []

pub delivery_listed : (s : DeliveryStatus) → get_elem? delivery_statuses (delivery_code s) ≡ some s
delivery_listed pending = refl
delivery_listed _ = refl

abbrev pub delivery_machine : Machine DeliveryStatus
delivery_machine = record {
  entity = "Delivery";
  label = "Delivery";
  statuses = delivery_statuses;
  spelling = delivery_spelling;
  code = delivery_code;
  moves = delivery_moves;
  listed = delivery_listed;
}

abbrev pub terminal_deliveries : List DeliveryStatus
terminal_deliveries = direct_delivered ∷ delivered ∷ []

abbrev pub waiting_deliveries : List DeliveryStatus
waiting_deliveries = pending ∷ retry_waiting ∷ pending_attention ∷ []

abbrev pub is_delivery : DeliveryStatus → DeliveryStatus → Bool
is_delivery = same delivery_machine

abbrev pub delivery_in : List DeliveryStatus → DeliveryStatus → Bool
delivery_in = has delivery_machine

abbrev pub is_terminal_delivery : DeliveryStatus → Bool
is_terminal_delivery = delivery_in terminal_deliveries

unfoldable pub transition_delivery : String → String → Options → Result StateError DeliveryStatus
unfolding transition
transition_delivery = transition delivery_machine

unfoldable pub move_delivery :
    DeliveryStatus → DeliveryStatus → Options → Result StateError DeliveryStatus
unfolding move
move_delivery = move delivery_machine
