-- ===== src/Base/Order.antt =====
-- ORDER BY: the rows in the order of a test, which says that one row stands before another.
use Prim.Native.Nat.{ℕ, zero, suc, ◌≤◌}
use mathlib.Core.Path.{◌≡◌, refl, sym, ap, subst, ◌∙◌}
use mathlib.Core.Bool.{Bool, true, false, ◌||◌}
use mathlib.Core.List.{List, [], ◌∷◌, Memᴰ}
use native.Mathlib.Omega.{arith}
use codex_threadhub.Base.Tests.{if◌then◌else◌}
use codex_threadhub.Base.Lists.{All, length, any, take}

module _ {ℓ} {A : Type ℓ} where
  unfoldable pub insert_by : (A → A → Bool) → A → List A → List A
  insert_by before t [] = t ∷ []
  insert_by before t (x ∷ xs) =
      let rest = x ∷ insert_by before t xs in if before t x then t ∷ x ∷ xs else rest

  unfoldable pub order_by : (A → A → Bool) → List A → List A
  unfolding insert_by
  order_by before [] = []
  order_by before (x ∷ xs) = insert_by before x (order_by before xs)

module _ {ℓ} {A : Type ℓ} (before : A → A → Bool) where
  length-insert_by : (t : A) (xs : List A) → length (insert_by before t xs) ≡ suc (length xs)
  unfolding insert_by
  length-insert_by t [] = refl
  length-insert_by t (x ∷ xs) = ground (arith, length-insert_by t xs)

  pub length-order_by : (xs : List A) → length (order_by before xs) ≡ length xs
  unfolding order_by
  length-order_by [] = refl
  length-order_by (x ∷ xs) = length-insert_by x (order_by before xs) ∙ ap suc (length-order_by xs)

  any-insert_by :
      (p : A → Bool) (t : A) (xs : List A) → any p (insert_by before t xs) ≡ (p t || any p xs)
  unfolding insert_by
  any-insert_by p t [] = refl
  any-insert_by p t (x ∷ xs) = ground (arith, any-insert_by p t xs)

  pub any-order_by : (p : A → Bool) (xs : List A) → any p (order_by before xs) ≡ any p xs
  unfolding order_by
  any-order_by p [] = refl
  any-order_by p (x ∷ xs) =
      any-insert_by p x (order_by before xs) ∙ ap (λ b. p x || b) (any-order_by p xs)

  Memᴰ-insert_by : (t : A) (xs : List A) {x : A} → Memᴰ x (t ∷ xs) → Memᴰ x (insert_by before t xs)
  unfolding insert_by
  Memᴰ-insert_by t [] m = m
  Memᴰ-insert_by t (y ∷ xs) {x} m = go (before t y) (λ k. Memᴰ-insert_by t xs k) m
    where
      go :
          (b : Bool)
          → (Memᴰ x (t ∷ xs) → Memᴰ x (insert_by before t xs))
          → Memᴰ x (t ∷ y ∷ xs)
          → Memᴰ x (if b then t ∷ y ∷ xs else y ∷ insert_by before t xs)
      go true ih m = m
      go false ih (Memᴰ.head e) = Memᴰ.tail (ih (Memᴰ.head e))
      go false ih (Memᴰ.tail (Memᴰ.head e)) = Memᴰ.head e
      go false ih (Memᴰ.tail (Memᴰ.tail m)) = Memᴰ.tail (ih (Memᴰ.tail m))

  pub Memᴰ-order_by : (xs : List A) {x : A} → Memᴰ x xs → Memᴰ x (order_by before xs)
  unfolding order_by
  Memᴰ-order_by [] m = m
  Memᴰ-order_by (y ∷ xs) (Memᴰ.head e) = Memᴰ-insert_by y (order_by before xs) (Memᴰ.head e)
  Memᴰ-order_by (y ∷ xs) (Memᴰ.tail m) =
      Memᴰ-insert_by y (order_by before xs) (Memᴰ.tail (Memᴰ-order_by xs m))

-- Whatever holds of every row still does, and did.
module _ {ℓ κ} {A : Type ℓ} (before : A → A → Bool) (P : A → Type κ) where
  All-insert_by : (t : A) (xs : List A) → P t → All P xs → All P (insert_by before t xs)
  unfolding insert_by
  All-insert_by t [] h a = (h, tt)
  All-insert_by t (x ∷ xs) h (k, ks) = go (before t x) (All-insert_by t xs h ks)
    where
      go :
          (b : Bool)
          → All P (insert_by before t xs)
          → All P (if b then t ∷ x ∷ xs else x ∷ insert_by before t xs)
      go true rest = (h, (k, ks))
      go false rest = (k, rest)

  pub All-order_by : (xs : List A) → All P xs → All P (order_by before xs)
  unfolding order_by
  All-order_by [] a = tt
  All-order_by (x ∷ xs) (h, hs) = All-insert_by x (order_by before xs) h (All-order_by xs hs)

  insert_by-All : (t : A) (xs : List A) → All P (insert_by before t xs) → P t × All P xs
  unfolding insert_by
  insert_by-All t [] (h, _) = (h, tt)
  insert_by-All t (x ∷ xs) h = go (before t x) h (insert_by-All t xs)
    where
      go :
          (b : Bool)
          → All P (if b then t ∷ x ∷ xs else x ∷ insert_by before t xs)
          → (All P (insert_by before t xs) → P t × All P xs)
          → P t × All P (x ∷ xs)
      go true (h, (k, ks)) rest = (h, (k, ks))
      go false (k, ks) rest = let (h, l) = rest ks in (h, (k, l))

  pub order_by-All : (xs : List A) → All P (order_by before xs) → All P xs
  unfolding order_by
  order_by-All [] h = tt
  order_by-All (x ∷ xs) h =
      let (k, l) = insert_by-All x (order_by before xs) h in (k, order_by-All xs l)

-- A LIMIT that is not met leaves all the rows.
pub take_all {ℓ} : {A : Type ℓ} (n : ℕ) (xs : List A) → length xs ≤ n → take n xs ≡ xs
take_all zero [] h = refl
take_all (suc n) [] h = refl
take_all zero (x ∷ xs) h = absurd (omega arith)
take_all (suc n) (x ∷ xs) h = ap (λ ys. x ∷ ys) (take_all n xs (omega arith))

pub take_ordered {ℓ} :
    {A : Type ℓ} (before : A → A → Bool) (n : ℕ) (xs : List A)
    → length xs ≤ n
    → take n (order_by before xs) ≡ order_by before xs
take_ordered before n xs h =
    take_all n (order_by before xs) (subst (λ k. k ≤ n) (sym (length-order_by before xs)) h)
