-- ===== src/Dispatches/Barred.antt =====
-- A cancellation bars every transition that was prepared before it.
use mathlib.Core.Bool.{and-eq-true_iff}
use mathlib.Core.List.{Memᴰ, not-mem-nil}
use codex_threadhub.Base.{
  ℕ, ◌+◌, ◌≤◌, ◌<◌, ◌≡◌, refl, ap, subst, subst⁻¹, String, Bool, true, false, not, ◌&&◌, ◌||◌,
  Option, none, some, List, [], ◌∷◌, arith, any, All, All-Memᴰ, Bool-cases, eq_iff, eq_refl, inl,
  inr, find, keep, ◌==◌, ◌=s=◌, Result, ok, err, ◌>>=◌, throw_if, bind-eq_ok,
}
use codex_threadhub.Base.Counts.{count, count_unique}
use codex_threadhub.Base.Table.{update_where, returned, All-update_where, find-eq_some}
use codex_threadhub.States.Dispatch.{DispatchStatus, move_dispatch}
use codex_threadhub.Dispatches.Rows.{
  Dispatch, Dispatches, has_id, get_turn_dispatch, log_dispatch, is_given,
}
use codex_threadhub.Dispatches.Move.{
  Changes, Fence, DispatchError, transition_row, transition_found, transition_turn_dispatch,
  generation_fits, token_fits, from_move, has_evidence, evidence_required,
}
use codex_threadhub.Dispatches.Cancel.{
  Parents, CancelError, parent_required, is_child, cancelled, cancel_one, cancel_all,
  request_turn_dispatch_cancellation,
}
use codex_threadhub.Dispatches.Fenced.{
  DispatchCall, settled, run_dispatches, IsFenced, cancel_all-IsFenced, calls-IsFenced,
}

-- `d` is the only row of its id.
abbrev pub IsOnly : Dispatch → List Dispatch → Type 0
IsOnly d ds = All (λ x. has_id d.id x ≡ true → x ≡ d) ds

true≢false : {b : Bool} → b ≡ true → b ≡ false → ⊥
true≢false p q = cc

module _ (now : ℕ) (d : Dispatch) where
  abbrev hits : Dispatch → Dispatch → Bool
  hits k x = x.id =s= k.id && x.version == k.version

  -- The row that is cancelled gets the next generation.
  own-IsFenced :
      (ds : List Dispatch)
      → IsOnly d ds
      → IsFenced d.id d.cancellation_generation (update_where (hits d) (cancelled now) ds)
  unfolding update_where
  own-IsFenced [] h = tt
  own-IsFenced (x ∷ ds) (h, hs) = elim (Bool-cases (hits d x)) [
    | inl y ↦ rw y ((λ mine. next x (h mine)), own-IsFenced ds hs)
    | inr n ↦ rw n ((λ mine. absurd (missed x n (h mine))), own-IsFenced ds hs)
  ]
    where
      next : (x : Dispatch) → x ≡ d → d.cancellation_generation < x.cancellation_generation + 1
      next x e = let same = ap (λ z. z.cancellation_generation) e in omega arith

      missed : (x : Dispatch) → hits d x ≡ false → x ≡ d → ⊥
      missed x n e =
          let k = subst (λ z. hits d z ≡ false) e n in let r = eq_refl d.id in ground arith

  -- The cancellation of another id leaves the row.
  other-IsOnly :
      (k : Dispatch) (ds : List Dispatch)
      → has_id d.id k ≡ false
      → IsOnly d ds
      → IsOnly d (update_where (hits k) (cancelled now) ds)
  other-IsOnly k ds other =
      All-update_where (λ x. has_id d.id x ≡ true → x ≡ d) (hits k) (cancelled now) ds
        (λ x e h mine.
          let named =
            (eq_iff x.id k.id).0
              ((and-eq-true_iff (x.id =s= k.id) (x.version == k.version)).0 e).0 in
          absurd (true≢false (subst (λ z. (z =s= d.id) ≡ true) named mine) other))

  cancelled_one-rows :
      (s : Dispatches) (k : Dispatch)
      → (cancel_one now s k).rows ≡ update_where (hits k) (cancelled now) s.rows
  cancelled_one-rows s k = logged (returned (hits k) (cancelled now) s.rows)
    where
      logged :
          (o : Option Dispatch)
          → (log_dispatch k.id "turn_dispatch.cancelling" s.events
              (update_where (hits k) (cancelled now) s.rows, o)).0.rows
            ≡ update_where (hits k) (cancelled now) s.rows
      logged none = refl
      logged (some x) = refl

  cancels-IsFenced :
      (ds : List Dispatch) (s : Dispatches)
      → any (has_id d.id) ds ≡ true
      → IsOnly d ds
      → IsOnly d s.rows
      → IsFenced d.id d.cancellation_generation (cancel_all now ds s).rows
  unfolding cancel_all
  cancels-IsFenced [] s found only h = cc
  cancels-IsFenced (x ∷ ds) s found (o, only) h = elim (Bool-cases (has_id d.id x)) [
    | inl y ↦ cancel_all-IsFenced d.id d.cancellation_generation now ds (cancel_one now s x) (
        subst⁻¹ (IsFenced d.id d.cancellation_generation) (cancelled_one-rows s x) (
          subst⁻¹
            (λ z.
              IsFenced d.id d.cancellation_generation
                (update_where (hits z) (cancelled now) s.rows))
            (o y) (own-IsFenced s.rows h)))
    | inr n ↦
        cancels-IsFenced ds (cancel_one now s x) (ground arith) only
          (subst⁻¹ (IsOnly d) (cancelled_one-rows s x) (other-IsOnly x s.rows n h))
  ]

module _ (p q : Dispatch → Bool) where
  any-keep :
      (ds : List Dispatch) {d : Dispatch}
      → Memᴰ d ds
      → p d ≡ true
      → q d ≡ true
      → any q (keep p ds) ≡ true
  any-keep [] m h k = absurd (not-mem-nil ∣ m ∣₁)
  any-keep (x ∷ ds) (Memᴰ.head e) h k =
      let a = subst (λ z. p z ≡ true) e h in let b = subst (λ z. q z ≡ true) e k in rw (a, b) refl
  any-keep (x ∷ ds) (Memᴰ.tail m) h k = elim (Bool-cases (p x)) [
    | inl y ↦ rw (y, any-keep ds m h k) (ground arith)
    | inr n ↦ rw n (any-keep ds m h k)
  ]

All-keep :
    (P : Dispatch → Type 0) (p : Dispatch → Bool) (ds : List Dispatch)
    → All P ds
    → All P (keep p ds)
All-keep P p [] h = tt
All-keep P p (x ∷ ds) (h, hs) = elim (Bool-cases (p x)) [
  | inl y ↦ rw y (h, All-keep P p ds hs)
  | inr n ↦ rw n (All-keep P p ds hs)
]

-- With unique ids a row is the only one of its id.
listed-IsOnly :
    (ds : List Dispatch) (d : Dispatch) → count (has_id d.id) ds ≤ 1 → Memᴰ d ds → IsOnly d ds
listed-IsOnly ds d one m = all_of ds (λ x n. n)
  where
    all_of : (es : List Dispatch) → ((x : Dispatch) → Memᴰ x es → Memᴰ x ds) → IsOnly d es
    all_of [] sub = tt
    all_of (x ∷ es) sub = (
      (λ mine. count_unique (has_id d.id) ds (sub x (Memᴰ.head refl)) m mine (eq_refl d.id) one),
      all_of es (λ y n. sub y (Memᴰ.tail n)),
    )

requested-IsFenced :
    (p : Parents) (now : ℕ) (s s' : Dispatches) (d : Dispatch)
    → count (has_id d.id) s.rows ≤ 1
    → Memᴰ d s.rows
    → is_child p d ≡ true
    → request_turn_dispatch_cancellation p now s ≡ ok s'
    → IsFenced d.id d.cancellation_generation s'.rows
unfolding request_turn_dispatch_cancellation
requested-IsFenced p now s s' d one m child h =
    let only = listed-IsOnly s.rows d one m in
    let (u, given, done) =
      bind-eq_ok
        (throw_if (not (is_given p.run_id || (is_given p.task_id || is_given p.plan_id)))
          parent_required)
        (λ _. ok (cancel_all now (keep (is_child p) s.rows) s)) h in
    subst (λ z. IsFenced d.id d.cancellation_generation z.rows) (ok_injective done)
      (cancels-IsFenced now d (keep (is_child p) s.rows) s
        (any-keep (is_child p) (has_id d.id) s.rows m child (eq_refl d.id))
        (All-keep _ (is_child p) s.rows only) only)
  where
    ok_injective :
        {x y : Dispatches} → ◌≡◌ {A = Result CancelError Dispatches} (ok x) (ok y) → x ≡ y
    ok_injective e = cc e

stale_row :
    (merged : String → String → String) (id : String) (status : DispatchStatus) (c : Changes)
    (fence : Fence) (now g : ℕ) (s : Dispatches) (e : Dispatch)
    → fence.generation ≡ some g
    → g < e.cancellation_generation
    → transition_row merged id status c fence now s e ≡ (s, none)
stale_row merged id status c fence now g s e old later =
    let stale : generation_fits fence.generation e ≡ false =
      subst⁻¹ (λ z. generation_fits z e ≡ false) old (differs g e later) in
    rw (stale, true_right (not (token_fits fence.owner_token e)))
  where
    differs :
        (g : ℕ) (e : Dispatch) → g < e.cancellation_generation → generation_fits (some g) e ≡ false
    differs g e h = ground arith

    true_right : (b : Bool) → (b || true) ≡ true
    true_right b = ground arith

stale_found :
    (merged : String → String → String) (id : String) (status : DispatchStatus) (c : Changes)
    (fence : Fence) (now g : ℕ) (s : Dispatches) (o : Option Dispatch)
    → fence.generation ≡ some g
    → IsFenced id g s.rows
    → find (has_id id) s.rows ≡ o
    → settled s (transition_found merged id status c fence now s o) ≡ s
stale_found merged id status c fence now g s none old h e = refl
stale_found merged id status c fence now g s (some d) old h e =
    let (listed, named) = find-eq_some (has_id id) s.rows e in
    let later =
      All-Memᴰ (λ x. has_id id x ≡ true → g < x.cancellation_generation) s.rows h listed named in
    unchanged
      (throw_if (fence.options.observed_terminal && not (has_evidence d status c))
        evidence_required)
      (from_move (move_dispatch d.status status fence.options))
      (stale_row merged id status c fence now g s d old later)
  where
    unchanged :
        (x y : Result DispatchError (Unit {0})) {z : Dispatches × Option Dispatch}
        → z ≡ (s, none)
        → settled s (x >>= λ _. y >>= λ _. ok z) ≡ s
    unchanged (err a) y k = refl
    unchanged (ok a) (err b) k = refl
    unchanged (ok a) (ok b) k = ap (λ w. w.0) k

-- A dispatch that is active when its parents are cancelled is fenced off: whatever is claimed,
-- moved, heard of or cancelled afterwards, a transition of it by a caller that still has the
-- generation from before the cancellation changes nothing. The id of the dispatch is unique.
pub cancellation_bars_transitions :
    (merged : String → String → String) (p : Parents) (then_at now : ℕ) (s s' : Dispatches)
    (d : Dispatch) (cs : List DispatchCall) (status : DispatchStatus) (c : Changes) (fence : Fence)
    → count (has_id d.id) s.rows ≤ 1
    → Memᴰ d s.rows
    → is_child p d ≡ true
    → request_turn_dispatch_cancellation p then_at s ≡ ok s'
    → fence.generation ≡ some d.cancellation_generation
    → let t = run_dispatches merged cs s' in
      settled t (transition_turn_dispatch merged d.id status c fence now t) ≡ t
unfolding transition_turn_dispatch
cancellation_bars_transitions merged p then_at now s s' d cs status c fence one m child h old =
    let t = run_dispatches merged cs s' in
    let fenced =
      calls-IsFenced d.id d.cancellation_generation merged cs s'
        (requested-IsFenced p then_at s s' d one m child h) in
    stale_found merged d.id status c fence now d.cancellation_generation t
      (get_turn_dispatch d.id t) old fenced refl
