-- ===== src/Deliveries/Calls.antt =====
-- The calls on the control deliveries, as one type, and their histories.
use codex_threadhub.Base.{ℕ, String, Bool, Option, List, [], ◌∷◌, Result, ok, err}
use codex_threadhub.Deliveries.Rows.{
  Delivery, DeliveryInput, DeliveryError, Mail, enqueue_control_delivery,
}
use codex_threadhub.Deliveries.Moves.{
  mark_control_delivery_delivered, mark_control_delivery_direct_delivered, defer_control_delivery,
  recover_control_deliveries,
}

pub data DeliveryCall : Type 0 where
  enqueues : DeliveryInput → String → ℕ → DeliveryCall
  acknowledges : String → Option String → ℕ → DeliveryCall
  appends : String → Option String → ℕ → DeliveryCall
  defers : String → String → ℕ → String → ℕ → DeliveryCall
  recovers : ℕ → DeliveryCall

-- A call that throws changes nothing.
abbrev pub settled : Mail → Result DeliveryError (Mail × Option Delivery) → Mail
settled m (ok x) = x.0
settled m (err e) = m

module _ (known : String → Bool) (project_of : String → String) where
  unfoldable pub run_delivery_call : DeliveryCall → Mail → Mail
  unfolding enqueue_control_delivery mark_control_delivery_delivered
      mark_control_delivery_direct_delivered defer_control_delivery recover_control_deliveries
  run_delivery_call (enqueues q random now) m =
      settled m (enqueue_control_delivery known q random now m)
  run_delivery_call (acknowledges id turn now) m =
      settled m (mark_control_delivery_delivered id turn now m)
  run_delivery_call (appends id turn now) m =
      settled m (mark_control_delivery_direct_delivered id turn now m)
  run_delivery_call (defers id error delay random now) m =
      settled m (defer_control_delivery project_of id error delay random now m)
  run_delivery_call (recovers now) m = recover_control_deliveries now m

  unfoldable pub run_deliveries : List DeliveryCall → Mail → Mail
  unfolding run_delivery_call
  run_deliveries [] m = m
  run_deliveries (c ∷ cs) m = run_deliveries cs (run_delivery_call c m)
