-- ===== src/Tasks/Ends.antt =====
-- With one round more than there are blocked tasks, `refreshBlockedTasks` comes to an end.
use mathlib.Core.List.{Memᴰ}
use codex_threadhub.Base.{
  ℕ, zero, suc, ◌≤◌, ◌<◌, ◌≡◌, ◌≢◌, refl, subst⁻¹, String, Bool, true, false, Option, some, List,
  [], ◌∷◌, map, arith, All, Bool-cases, eq_iff, inl, inr, keep, if◌then◌else◌, Result, ok, err,
  is_some,
}
use codex_threadhub.States.Machine.{StateError}
use codex_threadhub.Registry.{Task}
use codex_threadhub.Tasks.Rules.{UniqueIds, unique_row}
use codex_threadhub.Tasks.Refresh.{
  Tally, refresh_each, is_blocked, blocked_ids, started, refresh_rounds,
}
use codex_threadhub.Tasks.Rounds.{AllBlocked, Apart, Pending, blocked_count, refresh_each-Progress}

kept_apart :
    (id : String) (ts : List Task)
    → All (λ x. x.id ≢ id) ts
    → All (λ j. j ≢ id) (map (λ t. t.id) (keep is_blocked ts))
kept_apart id [] h = tt
kept_apart id (t ∷ ts) (h, hs) = elim (Bool-cases (is_blocked t)) [
  | inl y ↦ rw y (h, kept_apart id ts hs)
  | inr n ↦ rw n (kept_apart id ts hs)
]

blocked_ids-Apart : (ts : List Task) → UniqueIds ts → Apart (map (λ t. t.id) (keep is_blocked ts))
blocked_ids-Apart [] u = tt
blocked_ids-Apart (t ∷ ts) (n, u) = elim (Bool-cases (is_blocked t)) [
  | inl y ↦ rw y (kept_apart t.id ts n, blocked_ids-Apart ts u)
  | inr m ↦ rw m (blocked_ids-Apart ts u)
]

-- A blocked row is the only one of its id.
one_blocked :
    (ts : List Task) (t : Task)
    → UniqueIds ts
    → Memᴰ t ts
    → is_blocked t ≡ true
    → AllBlocked t.id ts
one_blocked ts t u m h = each ts (λ x n. n)
  where
    each : (us : List Task) → ((x : Task) → Memᴰ x us → Memᴰ x ts) → AllBlocked t.id us
    each [] sub = tt
    each (x ∷ us) sub = (
      (λ mine.
          subst⁻¹ (λ z. is_blocked z ≡ true)
            (unique_row ts u (sub x (Memᴰ.head refl)) m ((eq_iff x.id t.id).0 mine)) h),
      each us (λ y n. sub y (Memᴰ.tail n)),
    )

blocked_ids-AllBlocked :
    (ts us : List Task)
    → UniqueIds ts
    → ((x : Task) → Memᴰ x us → Memᴰ x ts)
    → All (λ i. AllBlocked i ts) (map (λ t. t.id) (keep is_blocked us))
blocked_ids-AllBlocked ts [] u sub = tt
blocked_ids-AllBlocked ts (t ∷ us) u sub = elim (Bool-cases (is_blocked t)) [
  | inl y ↦ rw y (
    one_blocked ts t u (sub t (Memᴰ.head refl)) y,
    blocked_ids-AllBlocked ts us u (λ x n. sub x (Memᴰ.tail n)),
  )
  | inr n ↦ rw n (blocked_ids-AllBlocked ts us u (λ x m. sub x (Memᴰ.tail m)))
]

Pending-start : (ts : List Task) → UniqueIds ts → Pending (map (λ t. t.id) (keep is_blocked ts)) ts
Pending-start ts u = (blocked_ids-AllBlocked ts ts u (λ x m. m), blocked_ids-Apart ts u)

either :
    {A : Type 0} (b : Bool) (x y : Option A)
    → (b ≡ true → is_some x ≡ true)
    → is_some y ≡ true
    → is_some (if b then x else y) ≡ true
either true x y h k = h refl
either false x y h k = k

-- The loop of `refreshBlockedTasks` ends within one round more than there are blocked tasks, if the
-- ids of the tasks are unique: each round that goes on has failed a task that was blocked.
pub refresh_rounds_end :
    (n now : ℕ) (s : Tally)
    → UniqueIds s.registry.tasks
    → blocked_count s.registry < n
    → is_some (refresh_rounds n now s) ≡ true
unfolding refresh_rounds
refresh_rounds_end zero now s u h = absurd (omega arith)
refresh_rounds_end (suc n) now s u h =
    round (λ t. refresh_rounds_end n now t) (refresh_each now (blocked_ids s.registry) (started s))
      refl
  where
    round :
        ((t : Tally)
          → UniqueIds t.registry.tasks
          → blocked_count t.registry < n
          → is_some (refresh_rounds n now t) ≡ true)
        → (x : Result (Option StateError) Tally)
        → refresh_each now (blocked_ids s.registry) (started s) ≡ x
        → is_some (elim x [
          | err e ↦ some (err e)
          | ok t ↦ let rest = refresh_rounds n now t in if t.again then rest else some (ok t)
        ])
          ≡ true
    round ih (err e) k = refl
    round ih (ok t) k =
        let p =
          refresh_each-Progress now (blocked_ids s.registry) (started s) t
            (Pending-start s.registry.tasks u) k in
        either t.again (refresh_rounds n now t) (some (ok t))
          (λ y.
            let fewer : suc (blocked_count t.registry) ≤ blocked_count s.registry =
              elim (p.again y) [ inl z ↦ cc z | inr z ↦ z ] in
            ih t (p.unique u) (omega arith))
          refl
