-- ===== src/Base/Table.antt =====
-- A table as the list of its rows, and the statements that the registry runs on it.
use mathlib.Core.Path.{◌≡◌, refl, sym, subst}
use mathlib.Core.Logic.{inl, inr}
use mathlib.Core.Bool.{Bool, true, false, ◌&&◌}
use mathlib.Core.Option.{Option, none, some}
use mathlib.Core.List.{List, [], ◌∷◌, Memᴰ, map, not-mem-nil}
use native.Mathlib.Omega.{arith}
use codex_threadhub.Base.Tests.{if◌then◌else◌, Bool-cases}
use codex_threadhub.Base.Lists.{All, length, any, find}

module _ {ℓ} {A : Type ℓ} where
  -- `UPDATE … SET f WHERE p`.
  unfoldable pub update_where : (A → Bool) → (A → A) → List A → List A
  update_where p f [] = []
  update_where p f (x ∷ xs) = (if p x then f x else x) ∷ update_where p f xs

  -- The row that `.get()` reads from its `RETURNING *`.
  unfoldable pub returned : (A → Bool) → (A → A) → List A → Option A
  returned p f [] = none
  returned p f (x ∷ xs) = if p x then some (f x) else returned p f xs

  pub length-update_where :
      (p : A → Bool) (f : A → A) (xs : List A) → length (update_where p f xs) ≡ length xs
  unfolding update_where
  length-update_where p f [] = refl
  length-update_where p f (x ∷ xs) = ground (arith, length-update_where p f xs)

  -- An update that matches no row changes nothing and returns none.
  pub update_where_unmatched :
      (p : A → Bool) (f : A → A) (xs : List A) → any p xs ≡ false → update_where p f xs ≡ xs
  unfolding update_where
  update_where_unmatched p f [] h = refl
  update_where_unmatched p f (x ∷ xs) h = ground (arith, update_where_unmatched p f xs)

  pub returned_unmatched :
      (p : A → Bool) (f : A → A) (xs : List A) → any p xs ≡ false → returned p f xs ≡ none
  unfolding returned
  returned_unmatched p f [] h = refl
  returned_unmatched p f (x ∷ xs) h = ground (arith, returned_unmatched p f xs)

  pub find_unmatched : (p : A → Bool) (xs : List A) → any p xs ≡ false → find p xs ≡ none
  find_unmatched p [] h = refl
  find_unmatched p (x ∷ xs) h = ground (arith, find_unmatched p xs)

  -- A stronger condition matches no more rows.
  pub any_mono :
      (p q : A → Bool) (xs : List A)
      → ((x : A) → p x ≡ true → q x ≡ true)
      → any q xs ≡ false
      → any p xs ≡ false
  any_mono p q [] h k = refl
  any_mono p q (x ∷ xs) h k = elim (Bool-cases (p x)) [
    | inl e ↦ let e' = h x e in ground arith
    | inr e ↦ rw e (any_mono p q xs h (ground arith))
  ]

  -- The row that is returned is the new form of a row that matched.
  pub returned-eq_some :
      (p : A → Bool) (f : A → A) (xs : List A) {y : A}
      → returned p f xs ≡ some y
      → (x : A) × Memᴰ x xs × (p x ≡ true) × (y ≡ f x)
  unfolding returned
  returned-eq_some p f [] h = cc
  returned-eq_some p f (x ∷ xs) h = elim (Bool-cases (p x)) [
    | inl e ↦ (x, Memᴰ.head refl, e, ground arith)
    | inr e ↦ let (z, m, k, l) = returned-eq_some p f xs (ground arith) in (z, Memᴰ.tail m, k, l)
  ]

  pub find-eq_some :
      (p : A → Bool) (xs : List A) {y : A} → find p xs ≡ some y → Memᴰ y xs × (p y ≡ true)
  find-eq_some p [] h = cc
  find-eq_some p (x ∷ xs) {y} h = elim (Bool-cases (p x)) [
    | inl e ↦ let s : x ≡ y = ground arith in (Memᴰ.head (sym s), ground arith)
    | inr e ↦ let (m, k) = find-eq_some p xs (ground arith) in (Memᴰ.tail m, k)
  ]

  -- The row that passes a test.
  pub any-true : (p : A → Bool) (xs : List A) → any p xs ≡ true → (x : A) × Memᴰ x xs × (p x ≡ true)
  any-true p [] h = cc h
  any-true p (x ∷ xs) h = elim (Bool-cases (p x)) [
    | inl y ↦ (x, Memᴰ.head refl, y)
    | inr n ↦ let (z, m, k) = any-true p xs (ground arith) in (z, Memᴰ.tail m, k)
  ]

  pub any-Memᴰ : (p : A → Bool) (xs : List A) {x : A} → Memᴰ x xs → p x ≡ true → any p xs ≡ true
  any-Memᴰ p [] m h = absurd (not-mem-nil ∣ m ∣₁)
  any-Memᴰ p (y ∷ xs) (Memᴰ.head e) h = let k = subst (λ z. p z ≡ true) e h in ground arith
  any-Memᴰ p (y ∷ xs) (Memᴰ.tail m) h = let k = any-Memᴰ p xs m h in ground arith

  -- A test that the update does not change finds as much afterwards.
  pub any-update_where :
      (q p : A → Bool) (f : A → A) (xs : List A)
      → ((x : A) → q (f x) ≡ q x)
      → any q (update_where p f xs) ≡ any q xs
  unfolding update_where
  any-update_where q p f [] h = refl
  any-update_where q p f (x ∷ xs) h = elim (Bool-cases (p x)) [
    | inl y ↦ rw (y, h x, any-update_where q p f xs h)
    | inr n ↦ rw (n, any-update_where q p f xs h)
  ]

  -- What the update keeps of each row that it changes, it keeps of the table.
  pub All-update_where {κ} :
      (P : A → Type κ) (p : A → Bool) (f : A → A) (xs : List A)
      → ((x : A) → p x ≡ true → P x → P (f x))
      → All P xs
      → All P (update_where p f xs)
  unfolding update_where
  All-update_where P p f [] h k = tt
  All-update_where P p f (x ∷ xs) h (k, ks) = (
    elim (Bool-cases (p x)) [ inl e ↦ rw e (h x e k) | inr e ↦ rw e k ],
    All-update_where P p f xs h ks,
  )

  -- A map that leaves every row as it is.
  pub map_same : (g : A → A) (xs : List A) → ((x : A) → g x ≡ x) → map g xs ≡ xs
  map_same g [] e = refl
  map_same g (x ∷ xs) e = rw (e x, map_same g xs e) refl

  -- A map after an update is the map of what both make of a row.
  pub map-update_where :
      (g h : A → A) (p : A → Bool) (f : A → A) (xs : List A)
      → ((x : A) → g (if p x then f x else x) ≡ h x)
      → map g (update_where p f xs) ≡ map h xs
  unfolding update_where
  map-update_where g h p f [] e = refl
  map-update_where g h p f (x ∷ xs) e = rw (e x, map-update_where g h p f xs e) refl

  -- `INSERT … ON CONFLICT DO UPDATE … WHERE … RETURNING *`: the row that conflicts is overwritten if
  -- it may be.
  abbrev pub upsert_into : Bool → (A → Bool) → (A → Bool) → (A → A) → A → List A → List A × Option A
  upsert_into true conflicts may f new xs =
      (update_where (λ x. conflicts x && may x) f xs, returned (λ x. conflicts x && may x) f xs)
  upsert_into false conflicts may f new xs = (new ∷ xs, some new)

  unfoldable pub upsert : (A → Bool) → (A → Bool) → (A → A) → A → List A → List A × Option A
  unfolding update_where returned
  upsert conflicts may f new xs = upsert_into (any conflicts xs) conflicts may f new xs
