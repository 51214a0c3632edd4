-- ===== src/Base/Members.antt =====
-- The members of a list that is searched, filtered or cut.
use Prim.Native.Nat.{ℕ, zero, suc, ◌≤◌}
use mathlib.Core.Path.{◌≡◌, refl, subst}
use mathlib.Core.Bool.{Bool, true, false, ◌&&◌}
use mathlib.Core.Logic.{inl, inr}
use mathlib.Core.Option.{some}
use mathlib.Core.List.{List, [], ◌∷◌, Memᴰ, not-mem-nil}
use native.Mathlib.Omega.{arith}
use codex_threadhub.Base.Tests.{if◌then◌else◌, Bool-cases}
use codex_threadhub.Base.Lists.{All, length, any, find, keep, take}

module _ {A : Type 0} where
  pub Memᴰ-keep : (q : A → Bool) (xs : List A) {x : A} → Memᴰ x xs → q x ≡ true → Memᴰ x (keep q xs)
  Memᴰ-keep q [] m h = absurd (not-mem-nil ∣ m ∣₁)
  Memᴰ-keep q (y ∷ xs) (Memᴰ.head e) h = let k = subst (λ z. q z ≡ true) e h in rw k (Memᴰ.head e)
  Memᴰ-keep q (y ∷ xs) {x} (Memᴰ.tail m) h = go (q y) (Memᴰ-keep q xs m h)
    where
      go : (b : Bool) → Memᴰ x (keep q xs) → Memᴰ x (if b then y ∷ keep q xs else keep q xs)
      go true k = Memᴰ.tail k
      go false k = k

  pub Memᴰ-take : (n : ℕ) (xs : List A) {x : A} → length xs ≤ n → Memᴰ x xs → Memᴰ x (take n xs)
  Memᴰ-take n [] h m = absurd (not-mem-nil ∣ m ∣₁)
  Memᴰ-take zero (y ∷ xs) h m = absurd (omega arith)
  Memᴰ-take (suc n) (y ∷ xs) h (Memᴰ.head e) = Memᴰ.head e
  Memᴰ-take (suc n) (y ∷ xs) h (Memᴰ.tail m) = Memᴰ.tail (Memᴰ-take n xs (omega arith) m)

  pub any-keep : (p q : A → Bool) (xs : List A) → any p (keep q xs) ≡ any (λ x. q x && p x) xs
  any-keep p q [] = refl
  any-keep p q (x ∷ xs) = ground (arith, any-keep p q xs)

  pub any-find : (p : A → Bool) (xs : List A) → any p xs ≡ true → (t : A) × (find p xs ≡ some t)
  any-find p [] h = cc h
  any-find p (x ∷ xs) h = elim (Bool-cases (p x)) [
    | inl y ↦ (x, rw y refl)
    | inr n ↦ let (t, e) = any-find p xs (ground arith) in (t, rw n e)
  ]

  pub All_of_Memᴰ : (P : A → Type 0) (xs : List A) → ((x : A) → Memᴰ x xs → P x) → All P xs
  All_of_Memᴰ P [] h = tt
  All_of_Memᴰ P (x ∷ xs) h = (h x (Memᴰ.head refl), All_of_Memᴰ P xs (λ y m. h y (Memᴰ.tail m)))

  pub All-take : (P : A → Type 0) (n : ℕ) (xs : List A) → All P xs → All P (take n xs)
  All-take P zero xs a = tt
  All-take P (suc n) [] a = tt
  All-take P (suc n) (x ∷ xs) (h, hs) = (h, All-take P n xs hs)

  -- What holds of the rows that pass a test, and the other way round.
  pub All-keep :
      (P : A → Type 0) (q : A → Bool) (xs : List A)
      → All (λ x. q x ≡ true → P x) xs
      → All P (keep q xs)
  All-keep P q [] h = tt
  All-keep P q (x ∷ xs) (h, hs) = go (q x) refl (All-keep P q xs hs)
    where
      go : (b : Bool) → q x ≡ b → All P (keep q xs) → All P (if b then x ∷ keep q xs else keep q xs)
      go true e rest = (h e, rest)
      go false e rest = rest

  pub keep-All :
      (P : A → Type 0) (q : A → Bool) (xs : List A)
      → All P (keep q xs)
      → All (λ x. q x ≡ true → P x) xs
  keep-All P q [] h = tt
  keep-All P q (x ∷ xs) h = go (q x) refl h (keep-All P q xs)
    where
      go :
          (b : Bool)
          → q x ≡ b
          → All P (if b then x ∷ keep q xs else keep q xs)
          → (All P (keep q xs) → All (λ x. q x ≡ true → P x) xs)
          → (q x ≡ true → P x) × All (λ x. q x ≡ true → P x) xs
      go true e (h, hs) rest = (λ _. h, rest hs)
      go false e hs rest = (λ k. cc (e, k), rest hs)

  pub All-both :
      (P Q R : A → Type 0) (xs : List A)
      → ((x : A) → P x → Q x → R x)
      → All P xs
      → All Q xs
      → All R xs
  All-both P Q R [] h a b = tt
  All-both P Q R (x ∷ xs) h (p, ps) (q, qs) = (h x p q, All-both P Q R xs h ps qs)
