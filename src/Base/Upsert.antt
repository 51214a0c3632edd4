-- ===== src/Base/Upsert.antt =====
-- Upserts into a table with a unique key: who holds the row afterwards, and who is refused.
use mathlib.Core.Path.{◌≡◌, refl, ap, ap₂, subst}
use mathlib.Core.Logic.{◌⊎◌, inl, inr}
use mathlib.Core.Bool.{Bool, true, false, ◌&&◌}
use mathlib.Core.Option.{none, some}
use mathlib.Core.List.{List, [], ◌∷◌}
use Prim.Native.Nat.{◌≤◌}
use native.Mathlib.Omega.{arith}
use codex_threadhub.Base.Tests.{Bool-cases}
use codex_threadhub.Base.Lists.{All, All-map, any, any-false→All}
use codex_threadhub.Base.Counts.{count}
use codex_threadhub.Base.Table.{
  update_where, returned, update_where_unmatched, returned_unmatched, returned-eq_some, upsert_into,
  upsert,
}

module _ {ℓ} {A : Type ℓ} where
  count_none : (p : A → Bool) (xs : List A) → count p xs ≤ 0 → any p xs ≡ false
  count_none p [] h = refl
  count_none p (x ∷ xs) h = ground (arith, count_none p xs)

  -- The only row that the test finds is `y`.
  abbrev pub HeldBy : (A → Bool) → A → List A → Type ℓ
  HeldBy c y xs = (any c xs ≡ true) × All (λ l. c l ≡ true → l ≡ y) xs

  module _ (c may : A → Bool) (f : A → A) where
    abbrev may_take : A → Bool
    may_take x = c x && may x

    none_taken : (xs : List A) → any c xs ≡ false → any may_take xs ≡ false
    none_taken [] h = refl
    none_taken (z ∷ zs) h = ground (arith, none_taken zs)

    none_left : (xs : List A) (y : A) → any c xs ≡ false → All (λ l. c l ≡ true → l ≡ y) xs
    none_left xs y h = All-map _ _ xs (λ x e k. cc) (any-false→All c xs h)

    held_later : (x : A) (xs : List A) {y : A} → c x ≡ false → HeldBy c y xs → HeldBy c y (x ∷ xs)
    held_later x xs other (found, all_y) = (ground arith, ((λ e. cc), all_y))

    -- The head is the row of the key: no other row is.
    taken_head :
        (x : A) (xs : List A) {y : A}
        → c (f x) ≡ true
        → c x ≡ true
        → any c xs ≡ false
        → returned may_take f (x ∷ xs) ≡ some y
        → HeldBy c y (update_where may_take f (x ∷ xs))
    unfolding returned update_where
    taken_head x xs {y} mine' mine rest h = elim (Bool-cases (may x)) [
      | inl free ↦
          let same : f x ≡ y = ground arith in
          rw (mine, free, mine', update_where_unmatched may_take f xs (none_taken xs rest))
            (refl, ((λ e. same), none_left xs y rest))
      | inr barred ↦
          let gone = returned_unmatched may_take f xs (none_taken xs rest) in cc (gone, barred, h)
    ]

    taken-HeldBy :
        (xs : List A) {y : A}
        → ((x : A) → c x ≡ true → c (f x) ≡ true)
        → count c xs ≤ 1
        → returned may_take f xs ≡ some y
        → HeldBy c y (update_where may_take f xs)
    unfolding returned update_where
    taken-HeldBy [] keeps one h = cc
    taken-HeldBy (x ∷ xs) {y} keeps one h = elim (Bool-cases (c x)) [
      | inl mine ↦ taken_head x xs (keeps x mine) mine (count_none c xs (ground arith)) h
      | inr other ↦
          let held : HeldBy c y (update_where may_take f xs) =
            taken-HeldBy xs keeps (ground arith) (ground arith) in
          rw other (held_later x _ other held)
    ]

  -- A row that may not be taken keeps its table as it is.
  pub upsert_refused :
      (c may : A → Bool) (f : A → A) (new y : A) (xs : List A)
      → HeldBy c y xs
      → may y ≡ false
      → upsert c may f new xs ≡ (xs, none)
  unfolding upsert
  upsert_refused c may f new y xs (found, all_y) free =
      let unmatched = none_match c may xs all_y free in
      rw found (
        ap₂ (λ a b. (a, b)) (update_where_unmatched (λ x. c x && may x) f xs unmatched)
          (returned_unmatched (λ x. c x && may x) f xs unmatched))
    where
      none_match :
          (c may : A → Bool) (zs : List A) {y : A}
          → All (λ l. c l ≡ true → l ≡ y) zs
          → may y ≡ false
          → any (λ x. c x && may x) zs ≡ false
      none_match c may [] h n = refl
      none_match c may (z ∷ zs) (h, hs) n = elim (Bool-cases (c z)) [
        | inl e ↦ let same = h e in rw (e, same, n) (none_match c may zs hs n)
        | inr e ↦ rw e (none_match c may zs hs n)
      ]

  upsert_into-HeldBy :
      (c may : A → Bool) (f : A → A) (new : A) (xs : List A) (b : Bool) {ys : List A} {y : A}
      → any c xs ≡ b
      → c new ≡ true
      → ((x : A) → c x ≡ true → c (f x) ≡ true)
      → count c xs ≤ 1
      → upsert_into b c may f new xs ≡ (ys, some y)
      → HeldBy c y ys
  upsert_into-HeldBy c may f new xs true {y} e fits keeps one h =
      subst (HeldBy c y) (ap (λ z. z.0) h) (taken-HeldBy c may f xs keeps one (ap (λ z. z.1) h))
  upsert_into-HeldBy c may f new xs false {ys} {y} e fits keeps one h =
      let same : new ≡ y = cc h in
      subst (HeldBy c y) (ap (λ z. z.0) h) (rw fits refl, ((λ k. same), none_left c may f xs y e))

  -- Whoever gets a row of a table with a unique key holds the key.
  pub upsert-HeldBy :
      (c may : A → Bool) (f : A → A) (new : A) (xs : List A) {ys : List A} {y : A}
      → c new ≡ true
      → ((x : A) → c x ≡ true → c (f x) ≡ true)
      → count c xs ≤ 1
      → upsert c may f new xs ≡ (ys, some y)
      → HeldBy c y ys
  unfolding upsert
  upsert-HeldBy c may f new xs fits keeps one h =
      upsert_into-HeldBy c may f new xs (any c xs) refl fits keeps one h

  upsert_into-row :
      (c may : A → Bool) (f : A → A) (new : A) (xs : List A) (b : Bool) {ys : List A} {y : A}
      → upsert_into b c may f new xs ≡ (ys, some y)
      → (y ≡ new) ⊎ ((x : A) × (c x ≡ true) × (y ≡ f x))
  upsert_into-row c may f new xs true h =
      let (x, m, matches, e) = returned-eq_some (λ x. c x && may x) f xs (ap (λ z. z.1) h) in
      inr (x, ground arith, e)
  upsert_into-row c may f new xs false h = inl (cc h)

  -- The row is the new one, or an old one overwritten.
  pub upsert-row :
      (c may : A → Bool) (f : A → A) (new : A) (xs : List A) {ys : List A} {y : A}
      → upsert c may f new xs ≡ (ys, some y)
      → (y ≡ new) ⊎ ((x : A) × (c x ≡ true) × (y ≡ f x))
  unfolding upsert
  upsert-row c may f new xs h = upsert_into-row c may f new xs (any c xs) h
