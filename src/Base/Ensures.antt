-- ===== src/Base/Ensures.antt =====
-- What a computation ensures of the value that it returns, where it returns one: a rule for each way to
-- put computations together.
use mathlib.Core.Path.{◌≡◌, refl, subst}
use mathlib.Core.Bool.{Bool, true, false}
use codex_threadhub.Base.Tests.{if◌then◌else◌}
use codex_threadhub.Base.Results.{Result, ok, err, ok_inj, ◌>>=◌, throw_if}

pub record Ensures {ℓ} {E A : Type ℓ} (P : A → Type ℓ) (r : Result E A) : Type ℓ where
  pub at : (a : A) → r ≡ ok a → P a

module _ {ℓ} {E A : Type ℓ} {P : A → Type ℓ} where
  pub Ensures-ok : (a : A) → P a → Ensures {E = E} P (ok a)
  Ensures-ok a h = record { at = λ b e. subst P (ok_inj e) h }

  pub Ensures-err : (e : E) → Ensures P (err e)
  Ensures-err e = record { at = λ b h. cc h }

  pub Ensures-if :
      (b : Bool) (r q : Result E A)
      → (b ≡ true → Ensures P r)
      → (b ≡ false → Ensures P q)
      → Ensures P (if b then r else q)
  Ensures-if true r q h k = h refl
  Ensures-if false r q h k = k refl

module _ {ℓ} {E A B : Type ℓ} {P : B → Type ℓ} where
  -- The rest may use what the first part returned.
  pub Ensures-then :
      (r : Result E A) (rest : A → Result E B)
      → ((a : A) → r ≡ ok a → Ensures P (rest a))
      → Ensures P (r >>= rest)
  Ensures-then (ok a) rest h = h a refl
  Ensures-then (err e) rest h = Ensures-err e

  -- The rest may use what the first part ensures.
  pub Ensures-bind :
      {Q : A → Type ℓ} (r : Result E A) (rest : A → Result E B)
      → Ensures Q r
      → ((a : A) → Q a → Ensures P (rest a))
      → Ensures P (r >>= rest)
  Ensures-bind r rest h k = Ensures-then r rest (λ a e. k a (h.at a e))

pub Ensures-mono {ℓ} :
    {E A : Type ℓ} {P Q : A → Type ℓ} (r : Result E A)
    → ((a : A) → Q a → P a)
    → Ensures Q r
    → Ensures P r
Ensures-mono r f h = record { at = λ a e. f a (h.at a e) }

pub Ensures-throw_if {ℓ} :
    {E B : Type ℓ} {P : B → Type ℓ} (b : Bool) (e : E) (rest : Result E B)
    → (b ≡ false → Ensures P rest)
    → Ensures P (throw_if b e >>= λ _. rest)
Ensures-throw_if true e rest h = Ensures-err e
Ensures-throw_if false e rest h = h refl

pub ruleset ensures_rules = (Ensures-ok, Ensures-err, Ensures-if, Ensures-then, Ensures-throw_if)
