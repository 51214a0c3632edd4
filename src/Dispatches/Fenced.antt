-- ===== src/Dispatches/Fenced.antt =====
-- A cancellation bars every transition that was prepared before it.
use codex_threadhub.Base.{
  ℕ, ◌≤◌, ◌<◌, ◌≡◌, refl, subst, String, Bool, true, not, ◌&&◌, ◌||◌, Option, none, some, List, [],
  ◌∷◌, arith, All, Bool-cases, inl, inr, keep, ◌==◌, ◌=s=◌, Result, ok, err, ◌>>=◌, throw_if,
}
use codex_threadhub.Base.Table.{update_where, All-update_where}
use codex_threadhub.States.Dispatch.{DispatchStatus, is_terminal_dispatch, move_dispatch}
use codex_threadhub.Dispatches.Rows.{
  Dispatch, Dispatches, has_id, get_turn_dispatch, log_dispatch, is_given,
}
use codex_threadhub.Dispatches.Claim.{
  holds_already, claimable, claimed, claim_found, claim_turn_dispatch, beating, beaten,
  heartbeat_turn_dispatch,
}
use codex_threadhub.Dispatches.Move.{
  Changes, Fence, DispatchError, transition_row, transition_found, transition_turn_dispatch,
  transitioned, transitionable, generation_fits, token_fits, from_move, has_evidence,
  evidence_required,
}
use codex_threadhub.Dispatches.Cancel.{
  Parents, CancelError, is_child, cancelled, cancel_one, cancel_all,
  request_turn_dispatch_cancellation,
}

pub data DispatchCall : Type 0 where
  claims : String → String → String → ℕ → Bool → ℕ → DispatchCall
  moves : String → DispatchStatus → Changes → Fence → ℕ → DispatchCall
  beats : String → String → String → ℕ → ℕ → DispatchCall
  cancels : Parents → ℕ → DispatchCall

-- A call that throws changes nothing.
abbrev pub settled : Dispatches → Result DispatchError (Dispatches × Option Dispatch) → Dispatches
settled s (ok x) = x.0
settled s (err e) = s

abbrev pub settled_cancel : Dispatches → Result CancelError Dispatches → Dispatches
settled_cancel s (ok t) = t
settled_cancel s (err e) = s

-- `merged` joins two texts of evidence.
module _ (merged : String → String → String) where
  unfoldable pub run_dispatch_call : DispatchCall → Dispatches → Dispatches
  unfolding claim_turn_dispatch transition_turn_dispatch heartbeat_turn_dispatch
      request_turn_dispatch_cancellation
  run_dispatch_call (DispatchCall.claims id owner token ttl_ms force now) s =
      (claim_turn_dispatch id owner token ttl_ms force now s).0
  run_dispatch_call (DispatchCall.moves id status c fence now) s =
      settled s (transition_turn_dispatch merged id status c fence now s)
  run_dispatch_call (DispatchCall.beats id owner token ttl_ms now) s =
      (heartbeat_turn_dispatch id owner token ttl_ms now s).0
  run_dispatch_call (DispatchCall.cancels p now) s =
      settled_cancel s (request_turn_dispatch_cancellation p now s)

  unfoldable pub run_dispatches : List DispatchCall → Dispatches → Dispatches
  unfolding run_dispatch_call
  run_dispatches [] s = s
  run_dispatches (c ∷ cs) s = run_dispatches cs (run_dispatch_call c s)

-- The rows of the id have a later generation.
abbrev pub IsFenced : String → ℕ → List Dispatch → Type 0
IsFenced id g ds = All (λ d. has_id id d ≡ true → g < d.cancellation_generation) ds

module _ (id : String) (g : ℕ) where
  -- No update of a row takes a generation back.
  updated-IsFenced :
      (p : Dispatch → Bool) (f : Dispatch → Dispatch) (ds : List Dispatch)
      → ((d : Dispatch) → (f d).id ≡ d.id)
      → ((d : Dispatch) → d.cancellation_generation ≤ (f d).cancellation_generation)
      → IsFenced id g ds
      → IsFenced id g (update_where p f ds)
  updated-IsFenced p f ds same grows =
      All-update_where (λ d. has_id id d ≡ true → g < d.cancellation_generation) p f ds
        (λ d e h mine.
          let before = h (subst (λ k. (k =s= id) ≡ true) (same d) mine) in
          let step = grows d in omega arith)

  logged-IsFenced :
      (k type : String) (s : Dispatches) (rows : List Dispatch) (o : Option Dispatch)
      → IsFenced id g rows
      → IsFenced id g (log_dispatch k type s.events (rows, o)).0.rows
  logged-IsFenced k type s rows none h = h
  logged-IsFenced k type s rows (some d) h = h

  pub cancel_all-IsFenced :
      (now : ℕ) (ds : List Dispatch) (s : Dispatches)
      → IsFenced id g s.rows
      → IsFenced id g (cancel_all now ds s).rows
  unfolding cancel_all
  cancel_all-IsFenced now [] s h = h
  cancel_all-IsFenced now (d ∷ ds) s h = cancel_all-IsFenced now ds (cancel_one now s d) (
      logged-IsFenced d.id "turn_dispatch.cancelling" s _ _ (
        updated-IsFenced (λ x. x.id =s= d.id && x.version == d.version) (cancelled now) s.rows
          (λ x. refl) (λ x. omega arith) h))

  claimed-IsFenced :
      (k owner token : String) (ttl_ms : ℕ) (force : Bool) (now : ℕ) (s : Dispatches)
      (o : Option Dispatch)
      → IsFenced id g s.rows
      → IsFenced id g (claim_found k owner token ttl_ms force now s o).0.rows
  claimed-IsFenced k owner token ttl_ms force now s none h = h
  claimed-IsFenced k owner token ttl_ms force now s (some d) h =
      elim (Bool-cases (is_terminal_dispatch d.status)) [
        | inl y ↦ rw y h
        | inr n ↦ elim (Bool-cases (not force && holds_already owner now d)) [
          | inl y ↦ rw (n, y) h
          | inr m ↦
              rw (n, m)
                (logged-IsFenced k "turn_dispatch.claimed" s _ _ (
                  updated-IsFenced (claimable k owner now force) (claimed owner token ttl_ms now)
                    s.rows (λ x. refl) (λ x. omega arith) h))
        ]
      ]

  moved_row-IsFenced :
      (merged : String → String → String) (k : String) (status : DispatchStatus) (c : Changes)
      (fence : Fence) (now : ℕ) (s : Dispatches) (e : Dispatch)
      → IsFenced id g s.rows
      → IsFenced id g (transition_row merged k status c fence now s e).0.rows
  moved_row-IsFenced merged k status c fence now s e h =
      elim (Bool-cases
        (not (token_fits fence.owner_token e) || not (generation_fits fence.generation e))) [
          | inl y ↦ rw y h
          | inr n ↦ rw n (
              logged-IsFenced k _ s _ _ (
                updated-IsFenced (transitionable k fence e.version)
                  (transitioned merged e status c now) s.rows (λ x. refl) (λ x. omega arith) h))
        ]

  -- A check that passes or throws.
  checked-IsFenced :
      (s : Dispatches) (x y : Result DispatchError (Unit {0})) (z : Dispatches × Option Dispatch)
      → IsFenced id g s.rows
      → IsFenced id g z.0.rows
      → IsFenced id g (settled s (x >>= λ _. y >>= λ _. ok z)).rows
  checked-IsFenced s (err a) y z h k = h
  checked-IsFenced s (ok a) (err b) z h k = h
  checked-IsFenced s (ok a) (ok b) z h k = k

  moved-IsFenced :
      (merged : String → String → String) (k : String) (status : DispatchStatus) (c : Changes)
      (fence : Fence) (now : ℕ) (s : Dispatches) (o : Option Dispatch)
      → IsFenced id g s.rows
      → IsFenced id g (settled s (transition_found merged k status c fence now s o)).rows
  moved-IsFenced merged k status c fence now s none h = h
  moved-IsFenced merged k status c fence now s (some e) h =
      checked-IsFenced s
        (throw_if (fence.options.observed_terminal && not (has_evidence e status c))
          evidence_required)
        (from_move (move_dispatch e.status status fence.options))
        (transition_row merged k status c fence now s e) h
        (moved_row-IsFenced merged k status c fence now s e h)

  cancelled-IsFenced :
      (p : Parents) (now : ℕ) (s : Dispatches)
      → IsFenced id g s.rows
      → IsFenced id g (settled_cancel s (request_turn_dispatch_cancellation p now s)).rows
  unfolding request_turn_dispatch_cancellation
  cancelled-IsFenced p now s h =
      elim (Bool-cases (not (is_given p.run_id || (is_given p.task_id || is_given p.plan_id)))) [
        | inl y ↦ rw y h
        | inr n ↦ rw n (cancel_all-IsFenced now (keep (is_child p) s.rows) s h)
      ]

  call-IsFenced :
      (merged : String → String → String) (c : DispatchCall) (s : Dispatches)
      → IsFenced id g s.rows
      → IsFenced id g (run_dispatch_call merged c s).rows
  unfolding run_dispatch_call claim_turn_dispatch transition_turn_dispatch heartbeat_turn_dispatch
  call-IsFenced merged (DispatchCall.claims k owner token ttl_ms force now) s h =
      claimed-IsFenced k owner token ttl_ms force now s (get_turn_dispatch k s) h
  call-IsFenced merged (DispatchCall.moves k status c fence now) s h =
      moved-IsFenced merged k status c fence now s (get_turn_dispatch k s) h
  call-IsFenced merged (DispatchCall.beats k owner token ttl_ms now) s h =
      updated-IsFenced (beating k owner token) (beaten ttl_ms now) s.rows (λ x. refl)
        (λ x. omega arith) h
  call-IsFenced merged (DispatchCall.cancels p now) s h = cancelled-IsFenced p now s h

  pub calls-IsFenced :
      (merged : String → String → String) (cs : List DispatchCall) (s : Dispatches)
      → IsFenced id g s.rows
      → IsFenced id g (run_dispatches merged cs s).rows
  unfolding run_dispatches
  calls-IsFenced merged [] s h = h
  calls-IsFenced merged (c ∷ cs) s h =
      calls-IsFenced merged cs (run_dispatch_call merged c s) (call-IsFenced merged c s h)
