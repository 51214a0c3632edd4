-- ===== src/Base/Sweep.antt =====
-- A loop of updates, each for one member of a list, over a table: when the list covers the rows that
-- are held, none is held at the end.
use mathlib.Core.List.{Memᴰ}
use mathlib.Core.Path.{◌≡◌}
use mathlib.Core.Logic.{inl, inr}
use mathlib.Core.Bool.{Bool, true, false}
use mathlib.Core.List.{List, [], ◌∷◌}
use native.Mathlib.Omega.{arith}
use codex_threadhub.Base.Tests.{Bool-cases}
use codex_threadhub.Base.Lists.{any, All, All-map}
use codex_threadhub.Base.Members.{All_of_Memᴰ}
use codex_threadhub.Base.Table.{update_where, any-Memᴰ}

module _ {A : Type 0} where
  -- The update of a table, by cases on whether the row is hit.
  pub All-update_split :
      (P Q : A → Type 0) (p : A → Bool) (f : A → A) (xs : List A)
      → ((x : A) → p x ≡ true → P x → Q (f x))
      → ((x : A) → p x ≡ false → P x → Q x)
      → All P xs
      → All Q (update_where p f xs)
  unfolding update_where
  All-update_split P Q p f [] h k a = tt
  All-update_split P Q p f (x ∷ xs) h k (a, rest) = (
    elim (Bool-cases (p x)) [ inl y ↦ rw y (h x y a) | inr n ↦ rw n (k x n a) ],
    All-update_split P Q p f xs h k rest,
  )

module _ {A L : Type 0} (held : A → Bool) (hits : L → A → Bool) where
  -- The list has a member for the row, if the row is held.
  abbrev pub Covered : List L → A → Type 0
  Covered ls x = held x ≡ true → any (λ l. hits l x) ls ≡ true

  pub step-Covered :
      (l : L) (ls : List L) (f : A → A) (xs : List A)
      → ((x : A) → held (f x) ≡ false)
      → All (Covered (l ∷ ls)) xs
      → All (Covered ls) (update_where (hits l) f xs)
  step-Covered l ls f xs free a =
      All-update_split (Covered (l ∷ ls)) (Covered ls) (hits l) f xs
        (λ x h k y. absurd (cc (free x, y))) (λ x n k y. let c = k y in ground arith) a

  pub none-Covered : (xs : List A) → All (Covered []) xs → All (λ x. held x ≡ false) xs
  none-Covered xs a =
      All-map (Covered []) (λ x. held x ≡ false) xs
        (λ x h. elim (Bool-cases (held x)) [ inl y ↦ absurd (cc (h y)) | inr n ↦ n ]) a

  -- A list that has the row itself covers it.
  pub all-Covered :
      (ls : List L) (xs : List A)
      → ((x : A) → Memᴰ x xs → held x ≡ true → (l : L) × Memᴰ l ls × (hits l x ≡ true))
      → All (Covered ls) xs
  all-Covered ls xs h =
      All_of_Memᴰ (Covered ls) xs
        (λ x m y. let (l, k, e) = h x m y in any-Memᴰ (λ l. hits l x) ls k e)
