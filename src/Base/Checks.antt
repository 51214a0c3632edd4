-- ===== src/Base/Checks.antt =====
-- A sequence of `if (test) throw e;`.
use mathlib.Core.Path.{◌≡◌, refl}
use mathlib.Core.Bool.{Bool, false, not}
use mathlib.Core.List.{List, [], ◌∷◌}
use codex_threadhub.Base.Results.{Result, ok, ◌>>=◌, throw_if, throw_if-eq_ok}

module _ {ℓ} {E : Type ℓ} where
  -- The error of a fact that does not hold.
  abbrev pub demand : Bool → E → Bool × E
  demand fact e = (not fact, e)

  -- The first check that fails throws.
  unfoldable pub run_checks : List (Bool × E) → Result E (Unit {0})
  run_checks [] = ok tt
  run_checks ((failed, e) ∷ rest) = throw_if failed e >>= λ _. run_checks rest

  -- No check fails.
  abbrev pub Passes : List (Bool × E) → Type 0
  Passes [] = Unit
  Passes ((failed, e) ∷ rest) = (failed ≡ false) × Passes rest

  pub run_checks-Passes :
      (checks : List (Bool × E)) {u : Unit {0}} → run_checks checks ≡ ok u → Passes checks
  unfolding run_checks
  run_checks-Passes [] h = tt
  run_checks-Passes ((failed, e) ∷ rest) h =
      let (n, h1) = throw_if-eq_ok failed e _ h in (n, run_checks-Passes rest h1)

  pub Passes-run_checks : (checks : List (Bool × E)) → Passes checks → run_checks checks ≡ ok tt
  unfolding run_checks
  Passes-run_checks [] p = refl
  Passes-run_checks ((failed, e) ∷ rest) (n, p) = rw n (Passes-run_checks rest p)
