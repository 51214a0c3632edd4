-- ===== src/Deliveries/Final.antt =====
-- A delivery that has been acknowledged stays acknowledged by the same turn.
use mathlib.Core.Bool.{and-eq-true_iff}
use codex_threadhub.Base.{
  ℕ, ◌≡◌, refl, sym, ap, subst, ◌∙◌, String, Bool, true, false, not, Option, none, some, List, [],
  ◌∷◌, arith, any, All, All-Memᴰ, eq_iff, find, or_else, ◌=s=◌, Result, ok, err, ◌>>=◌,
}
use codex_threadhub.Base.Ensures.{
  Ensures, Ensures-ok, Ensures-then, Ensures-bind, Ensures-throw_if, ensures_rules,
}
use codex_threadhub.Base.Table.{update_where, find-eq_some, All-update_where, any-update_where}
use codex_threadhub.States.Delivery.{
  DeliveryStatus, delivering, direct_delivered, delivered, is_delivery, delivery_in,
}
use codex_threadhub.Deliveries.Calls.{DeliveryCall, settled, run_delivery_call, run_deliveries}
use codex_threadhub.Deliveries.Rows.{
  Delivery, DeliveryInput, DeliveryError, Mail, has_id, has_delivery_key, default_key, new_delivery,
  enqueued_again, insert_delivery, get_control_delivery_by_key, enqueue_control_delivery,
}
use codex_threadhub.Deliveries.Moves.{
  check_move, acknowledged, undelivered, row_or_found, mark_control_delivery_delivered, appended,
  unsent, mark_control_delivery_direct_delivered, deferred, defer_found, defer_control_delivery,
  resumed, recover_control_deliveries,
}

-- Every row of the id is delivered to the turn.
abbrev pub DeliveredTo : String → Option String → Delivery → Type 0
DeliveredTo id turn d =
    has_id id d ≡ true → (is_delivery d.status delivered ≡ true) × (d.delivered_turn_id ≡ turn)

abbrev pub IsDelivered : String → Option String → List Delivery → Type 0
IsDelivered id turn ds = (any (has_id id) ds ≡ true) × All (DeliveredTo id turn) ds

true≢false : {b : Bool} → b ≡ true → b ≡ false → ⊥
true≢false p q = cc

not-true : (b : Bool) → not b ≡ true → b ≡ false
not-true b h = ground arith

unsent_status :
    (d : Delivery)
    → not (delivery_in (direct_delivered ∷ delivered ∷ []) d.status) ≡ true
    → is_delivery d.status delivered ≡ false
unsent_status d h = ground arith

still_moving :
    (s : DeliveryStatus) → is_delivery s delivering ≡ true → is_delivery s delivered ≡ true → ⊥
still_moving s h k = ground arith

module _ (id : String) (turn : Option String) where
  updated-IsDelivered :
      (p : Delivery → Bool) (f : Delivery → Delivery) (ds : List Delivery)
      → ((d : Delivery) → (f d).id ≡ d.id)
      → ((d : Delivery) → p d ≡ true → DeliveredTo id turn d → DeliveredTo id turn (f d))
      → IsDelivered id turn ds
      → IsDelivered id turn (update_where p f ds)
  updated-IsDelivered p f ds same keeps (found, all) = (
    any-update_where (has_id id) p f ds (λ d. ap (λ k. k =s= id) (same d)) ∙ found,
    All-update_where (DeliveredTo id turn) p f ds keeps all,
  )

  -- The rows that a call returns, and those that it leaves where it throws.
  abbrev Keeps : Mail × Option Delivery → Type 0
  Keeps x = IsDelivered id turn x.0.rows

  settled-IsDelivered :
      (m : Mail) (r : Result DeliveryError (Mail × Option Delivery))
      → IsDelivered id turn m.rows
      → Ensures Keeps r
      → IsDelivered id turn (settled m r).rows
  settled-IsDelivered m (ok x) h k = k.at x refl
  settled-IsDelivered m (err e) h k = h

  placed-IsDelivered :
      (new : Delivery) (ds : List Delivery)
      → IsDelivered id turn ds
      → any (has_id new.id) ds ≡ false
      → IsDelivered id turn (new ∷ ds)
  placed-IsDelivered new ds (found, all) free = (
    rw found (ground arith),
    (
      λ mine. absurd (
          true≢false found
            (subst (λ z. any (has_id z) ds ≡ false) ((eq_iff new.id id).0 mine) free)),
      all,
    ),
  )

  insert_delivery-Ensures :
      (known : Bool) (q : DeliveryInput) (new : Delivery) (now : ℕ) (ds : List Delivery)
      → IsDelivered id turn ds
      → Ensures (IsDelivered id turn) (insert_delivery known q new now ds)
  insert_delivery-Ensures known q new now ds h =
      search (ensures_rules, again, placed-IsDelivered new ds)
    where
      again :
          IsDelivered id turn
            (update_where (has_delivery_key new.delivery_key) (enqueued_again q now) ds)
      again =
          updated-IsDelivered (has_delivery_key new.delivery_key) (enqueued_again q now) ds
            (λ d. refl) (λ d e to. to) h

  enqueue_control_delivery-Ensures :
      (known : String → Bool) (q : DeliveryInput) (random : String) (now : ℕ) (m : Mail)
      → IsDelivered id turn m.rows
      → Ensures Keeps (enqueue_control_delivery known q random now m)
  unfolding enqueue_control_delivery
  enqueue_control_delivery-Ensures known q random now m h =
      let run = or_else q.run_id "" in
      let thread = or_else q.origin_thread_id "" in
      let key = or_else q.delivery_key (default_key run thread) in
      let new = new_delivery q (or_else q.id random) key run thread now in
      Ensures-throw_if _ _ _ (λ _.
        Ensures-bind (insert_delivery (known run) q new now m.rows)
          (λ rows.
            let after = record m { rows = rows } in
            ok (after, get_control_delivery_by_key key after))
          (insert_delivery-Ensures (known run) q new now m.rows h) (λ rows k. Ensures-ok _ k))

  marked-Ensures :
      (k : String) (p : Delivery → Bool) (f : Delivery → Delivery) (to : DeliveryStatus) (m : Mail)
      → ((d : Delivery) → (f d).id ≡ d.id)
      → ((d : Delivery) → p d ≡ true → is_delivery d.status delivered ≡ false)
      → IsDelivered id turn m.rows
      → Ensures Keeps (check_move (find (has_id k) m.rows) to >>= λ _. ok (row_or_found k p f m))
  marked-Ensures k p f to m same unsettled h =
      Ensures-then (check_move (find (has_id k) m.rows) to) (λ _. ok (row_or_found k p f m))
        (λ _ _. Ensures-ok _ (
          updated-IsDelivered p f m.rows same
            (λ d e holds mine.
              absurd (
                true≢false (holds (subst (λ z. (z =s= id) ≡ true) (same d) mine)).0
                  (unsettled d e)))
            h))

  -- A delivery that is not delivered is another one.
  deferred-IsDelivered :
      (k error : String) (delay now : ℕ) (d : Delivery) (ds : List Delivery)
      → find (has_id k) ds ≡ some d
      → IsDelivered id turn ds
      → is_delivery d.status delivered ≡ false
      → IsDelivered id turn (update_where (has_id k) (deferred d error delay now) ds)
  deferred-IsDelivered k error delay now d ds e h unsettled =
      updated-IsDelivered (has_id k) (deferred d error delay now) ds (λ x. refl)
        (λ x at holds mine.
          let (listed, named) = find-eq_some (has_id k) ds e in
          let same : k ≡ id = sym ((eq_iff x.id k).0 at) ∙ (eq_iff x.id id).0 mine in
          let it =
            All-Memᴰ (DeliveredTo id turn) ds h.1 listed
              (subst (λ z. (d.id =s= z) ≡ true) same named) in
          absurd (true≢false it.0 unsettled))
        h

  defer_found-Ensures :
      (project_of : String → String) (k error : String) (delay : ℕ) (random : String) (now : ℕ)
      (m : Mail) (o : Option Delivery)
      → find (has_id k) m.rows ≡ o
      → IsDelivered id turn m.rows
      → Ensures Keeps (defer_found project_of k error delay random now m o)
  defer_found-Ensures project_of k error delay random now m none e h = Ensures-ok _ h
  defer_found-Ensures project_of k error delay random now m (some d) e h =
      search (ensures_rules, deferred-IsDelivered k error delay now d m.rows)

  call-IsDelivered :
      (known : String → Bool) (project_of : String → String) (c : DeliveryCall) (m : Mail)
      → IsDelivered id turn m.rows
      → IsDelivered id turn (run_delivery_call known project_of c m).rows
  unfolding run_delivery_call mark_control_delivery_delivered mark_control_delivery_direct_delivered
      defer_control_delivery recover_control_deliveries
  call-IsDelivered known project_of (DeliveryCall.enqueues q random now) m h =
      settled-IsDelivered m _ h (enqueue_control_delivery-Ensures known q random now m h)
  call-IsDelivered known project_of (DeliveryCall.acknowledges k t now) m h =
      settled-IsDelivered m _ h (
        marked-Ensures k (undelivered k) (acknowledged t now) delivered m (λ d. refl)
          (λ d e.
            not-true _
              ((and-eq-true_iff (has_id k d) (not (is_delivery d.status delivered))).0 e).1)
          h)
  call-IsDelivered known project_of (DeliveryCall.appends k t now) m h = settled-IsDelivered m _ h (
      marked-Ensures k (unsent k) (appended t now) direct_delivered m (λ d. refl)
        (λ d e.
          unsent_status d
            ((and-eq-true_iff (has_id k d)
                (not (delivery_in (direct_delivered ∷ delivered ∷ []) d.status))).0
              e).1)
        h)
  call-IsDelivered known project_of (DeliveryCall.defers k error delay random now) m h =
      settled-IsDelivered m _ h
        (defer_found-Ensures project_of k error delay random now m (find (has_id k) m.rows) refl h)
  call-IsDelivered known project_of (DeliveryCall.recovers now) m h =
      updated-IsDelivered (λ d. is_delivery d.status delivering) (resumed now) m.rows (λ d. refl)
        (λ d e holds mine. absurd (still_moving d.status e (holds mine).0)) h

-- Once a delivery is acknowledged by a turn, every call on the deliveries, in any order, leaves it
-- delivered to that turn: it is not deferred, recovered, appended or acknowledged anew.
pub run_deliveries-IsDelivered :
    (known : String → Bool) (project_of : String → String) (id : String) (turn : Option String)
    (cs : List DeliveryCall) (m : Mail)
    → IsDelivered id turn m.rows
    → IsDelivered id turn (run_deliveries known project_of cs m).rows
unfolding run_deliveries
run_deliveries-IsDelivered known project_of id turn [] m h = h
run_deliveries-IsDelivered known project_of id turn (c ∷ cs) m h =
    run_deliveries-IsDelivered known project_of id turn cs (run_delivery_call known project_of c m)
      (call-IsDelivered id turn known project_of c m h)
