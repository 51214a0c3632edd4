-- ===== src/Base/Counts.antt =====
-- How many rows of a table satisfy a test.
use Prim.Native.Nat.{ℕ, suc, ◌+◌, ◌≤◌}
use mathlib.Core.Path.{◌≡◌, refl, subst, sym, ◌∙◌}
use mathlib.Core.Logic.{inl, inr}
use mathlib.Core.Bool.{Bool, true, false, ◌&&◌}
use mathlib.Core.List.{List, [], ◌∷◌, Memᴰ, not-mem-nil}
use native.Mathlib.Omega.{arith}
use codex_threadhub.Base.Tests.{if◌then◌else◌, Bool-cases}
use codex_threadhub.Base.Table.{update_where}
use codex_threadhub.Base.Lists.{any}

module _ {ℓ} {A : Type ℓ} where
  abbrev pub count : (A → Bool) → List A → ℕ
  count p [] = 0
  count p (x ∷ xs) = let rest = count p xs in if p x then suc rest else rest

  pub count_mono :
      (p q : A → Bool) (xs : List A) → ((x : A) → p x ≡ true → q x ≡ true) → count p xs ≤ count q xs
  count_mono p q [] h = omega arith
  count_mono p q (x ∷ xs) h =
      let rest = count_mono p q xs h in
      elim (Bool-cases (p x)) [
        | inl y ↦ let z = h x y in rw (y, z) (omega arith)
        | inr n ↦ rw n (elim (Bool-cases (q x)) [ inl y ↦ rw y (omega arith) | inr m ↦ rw m rest ])
      ]

  pub count_pos : (p : A → Bool) (xs : List A) {q : A} → Memᴰ q xs → p q ≡ true → 1 ≤ count p xs
  count_pos p [] m h = absurd (not-mem-nil ∣ m ∣₁)
  count_pos p (x ∷ xs) (Memᴰ.head e) h = let y = subst (λ z. p z ≡ true) e h in rw y (omega arith)
  count_pos p (x ∷ xs) (Memᴰ.tail m) h =
      let rest = count_pos p xs m h in
      elim (Bool-cases (p x)) [ inl y ↦ rw y (omega arith) | inr n ↦ rw n rest ]

  -- If only one row passes the first test, and it fails the second, none passes both.
  pub count_only :
      (p r : A → Bool) (xs : List A) {q : A}
      → Memᴰ q xs
      → p q ≡ true
      → r q ≡ false
      → count p xs ≤ 1
      → count (λ x. p x && r x) xs ≡ 0
  count_only p r [] m h n c = absurd (not-mem-nil ∣ m ∣₁)
  count_only p r (x ∷ xs) (Memᴰ.head e) h n c =
      let y = subst (λ z. p z ≡ true) e h in
      let k = subst (λ z. r z ≡ false) e n in
      let less = count_mono (λ x. p x && r x) p xs (λ x h. ground arith) in ground arith
  count_only p r (x ∷ xs) (Memᴰ.tail m) h n c =
      let one = count_pos p xs m h in ground (arith, count_only p r xs m h n)

  -- An update adds at most the rows that it changes and that pass the test afterwards.
  pub count-update_where :
      (p s w : A → Bool) (f : A → A) (xs : List A)
      → ((x : A) → w x ≡ true → p (f x) ≡ true → s x ≡ true)
      → count p (update_where w f xs) ≤ count p xs + count (λ x. w x && s x) xs
  unfolding update_where
  count-update_where p s w f [] h = omega arith
  count-update_where p s w f (x ∷ xs) h =
      let rest = count-update_where p s w f xs h in
      elim (Bool-cases (w x)) [
        | inl y ↦ elim (Bool-cases (p (f x))) [
          | inl z ↦ let a = h x y z in ground arith
          | inr n ↦ ground arith
        ]
        | inr n ↦ ground arith
      ]

  -- An update that makes no row pass the test adds none.
  pub count-update_where_le :
      (p w : A → Bool) (f : A → A) (xs : List A)
      → ((x : A) → w x ≡ true → p (f x) ≡ true → p x ≡ true)
      → count p (update_where w f xs) ≤ count p xs
  unfolding update_where
  count-update_where_le p w f [] h = omega arith
  count-update_where_le p w f (x ∷ xs) h =
      let rest = count-update_where_le p w f xs h in
      elim (Bool-cases (w x)) [
        | inl y ↦ elim (Bool-cases (p (f x))) [
          | inl z ↦ let a = h x y z in ground arith
          | inr n ↦ ground arith
        ]
        | inr n ↦ ground arith
      ]

  -- Two rows that pass a test which only one row passes are the same.
  pub count_unique :
      (p : A → Bool) (xs : List A) {a b : A}
      → Memᴰ a xs
      → Memᴰ b xs
      → p a ≡ true
      → p b ≡ true
      → count p xs ≤ 1
      → a ≡ b
  count_unique p [] m n h k c = absurd (not-mem-nil ∣ m ∣₁)
  count_unique p (x ∷ xs) (Memᴰ.head e) (Memᴰ.head d) h k c = e ∙ sym d
  count_unique p (x ∷ xs) (Memᴰ.head e) (Memᴰ.tail n) h k c =
      let y = subst (λ z. p z ≡ true) e h in let one = count_pos p xs n k in absurd (ground arith)
  count_unique p (x ∷ xs) (Memᴰ.tail m) (Memᴰ.head d) h k c =
      let y = subst (λ z. p z ≡ true) d k in let one = count_pos p xs m h in absurd (ground arith)
  count_unique p (x ∷ xs) (Memᴰ.tail m) (Memᴰ.tail n) h k c =
      count_unique p xs m n h k (ground arith)

  -- An update that takes the test from a row which passed it leaves fewer.
  pub count-update_where_lt :
      (p w : A → Bool) (f : A → A) (xs : List A) {q : A}
      → Memᴰ q xs
      → w q ≡ true
      → p q ≡ true
      → ((x : A) → w x ≡ true → p (f x) ≡ false)
      → suc (count p (update_where w f xs)) ≤ count p xs
  unfolding update_where
  count-update_where_lt p w f [] m h k g = absurd (not-mem-nil ∣ m ∣₁)
  count-update_where_lt p w f (x ∷ xs) (Memᴰ.head e) h k g =
      let a = subst (λ z. w z ≡ true) e h in
      let b = subst (λ z. p z ≡ true) e k in
      let c = g x a in
      let rest = count-update_where_le p w f xs (λ z y d. cc (g z y, d)) in
      rw (a, b, c) (omega arith)
  count-update_where_lt p w f (x ∷ xs) (Memᴰ.tail m) h k g =
      let rest = count-update_where_lt p w f xs m h k g in
      elim (Bool-cases (w x)) [
        | inl y ↦
            let c = g x y in
            rw (y, c) (elim (Bool-cases (p x)) [ inl z ↦ rw z (omega arith) | inr z ↦ rw z rest ])
        | inr n ↦ rw n (elim (Bool-cases (p x)) [ inl z ↦ rw z (omega arith) | inr z ↦ rw z rest ])
      ]

  -- None passes exactly when the count is 0.
  pub count-any-false : (p : A → Bool) (xs : List A) → any p xs ≡ false → count p xs ≡ 0
  count-any-false p [] h = refl
  count-any-false p (x ∷ xs) h = ground (arith, count-any-false p xs)

  pub any-count_zero : (p : A → Bool) (xs : List A) → count p xs ≡ 0 → any p xs ≡ false
  any-count_zero p [] h = refl
  any-count_zero p (x ∷ xs) h = ground (arith, any-count_zero p xs)
