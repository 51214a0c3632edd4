-- ===== src/Base/Results.antt =====
-- A computation that may throw: its value, or the error that it throws.
use mathlib.Core.Path.{◌≡◌, refl}
use mathlib.Core.Logic.{◌⊎◌, inl, inr}
use mathlib.Core.Bool.{Bool, true, false}
use native.Mathlib.Omega.{arith}
use codex_threadhub.Base.Tests.{if◌then◌else◌}

pub data Result {ℓ κ} (E : Type ℓ) (A : Type κ) : Type (ℓ ⊔ κ) where
  ok : A → Result E A
  err : E → Result E A

module _ {ℓ κ} {E : Type ℓ} {A : Type κ} where
  -- The rest of a function runs with the value, or not at all.
  infixl 5 ◌>>=◌
  abbrev pub ◌>>=◌ {μ} : {B : Type μ} → Result E A → (A → Result E B) → Result E B
  r >>= rest = elim r [ ok a ↦ rest a | err e ↦ err e ]

  -- A call whose value is not used.
  infixl 5 ◌>>◌
  abbrev pub ◌>>◌ {μ} : {B : Type μ} → Result E A → Result E B → Result E B
  r >> rest = elim r [ ok _ ↦ rest | err e ↦ err e ]

  abbrev pub is_ok : Result E A → Bool
  is_ok r = elim r [ ok _ ↦ Bool.true | err _ ↦ Bool.false ]

-- `if (test) throw e;`.
abbrev pub throw_if {ℓ} : {E : Type ℓ} → Bool → E → Result E (Unit {0})
throw_if test e = elim test [ Bool.true ↦ err e | Bool.false ↦ ok tt ]

module _ {ℓ κ μ} {E : Type ℓ} {A : Type κ} {B : Type μ} where
  -- A chain that returns has returned from its first part.
  pub bind-eq_ok :
      (r : Result E A) (rest : A → Result E B) {b : B}
      → (r >>= rest) ≡ ok b
      → (a : A) × (r ≡ ok a) × (rest a ≡ ok b)
  bind-eq_ok (ok a) rest h = (a, refl, h)
  bind-eq_ok (err e) rest h = cc h

module _ {ℓ κ} {E : Type ℓ} {A : Type κ} where
  -- To split on a computed result and keep the equation.
  pub Result-cases : (r : Result E A) → ((a : A) × (r ≡ ok a)) ⊎ ((e : E) × (r ≡ err e))
  Result-cases (ok a) = inl (a, refl)
  Result-cases (err e) = inr (e, refl)

  pub ok_inj : {a b : A} → ◌≡◌ {A = Result E A} (ok a) (ok b) → a ≡ b
  ok_inj h = ground arith

  pub err_inj : {d e : E} → ◌≡◌ {A = Result E A} (err d) (err e) → d ≡ e
  err_inj h = ground arith

-- A chain that returns has passed its check.
pub throw_if-eq_ok {ℓ κ} :
    {E : Type ℓ} {A : Type κ} (b : Bool) (e : E) (rest : Result E A) {a : A}
    → (throw_if b e >>= λ _. rest) ≡ ok a
    → (b ≡ false) × (rest ≡ ok a)
throw_if-eq_ok true e rest h = cc h
throw_if-eq_ok false e rest h = (refl, h)

module _ {ℓ κ μ} {E : Type ℓ} {A : Type κ} {B : Type μ} where
  -- A chain that throws has thrown in its first part, or after it.
  pub bind-eq_err :
      (r : Result E A) (rest : A → Result E B) {e : E}
      → (r >>= rest) ≡ err e
      → (r ≡ err e) ⊎ ((a : A) × (r ≡ ok a) × (rest a ≡ err e))
  bind-eq_err (ok a) rest h = inr (a, refl, h)
  bind-eq_err (err d) rest h = inl (ground arith)

  -- A chain returns if its parts do.
  pub bind-is_ok :
      (r : Result E A) (rest : A → Result E B)
      → is_ok r ≡ true
      → ((a : A) → r ≡ ok a → is_ok (rest a) ≡ true)
      → is_ok (r >>= rest) ≡ true
  bind-is_ok (ok a) rest h k = k a refl
  bind-is_ok (err e) rest h k = cc h

module _ {ℓ κ} {E : Type ℓ} {A : Type κ} where
  pub if-is_ok :
      (b : Bool) (r q : Result E A)
      → (b ≡ true → is_ok r ≡ true)
      → (b ≡ false → is_ok q ≡ true)
      → is_ok (if b then r else q) ≡ true
  if-is_ok true r q h k = h refl
  if-is_ok false r q h k = k refl

pub throw_if-is_ok {ℓ} : {E : Type ℓ} (b : Bool) (e : E) → b ≡ false → is_ok (throw_if b e) ≡ true
throw_if-is_ok true e h = cc h
throw_if-is_ok false e h = refl

-- To show that code returns, by the parts that it is put together from.
pub ruleset returns_rules = (bind-is_ok, if-is_ok, throw_if-is_ok)
