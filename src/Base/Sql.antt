-- ===== src/Base/Sql.antt =====
-- SQL's three-valued logic, in which a comparison with NULL is neither true nor false. `none` is
-- NULL, and a WHERE clause keeps a row only if its condition is `some true`.
use Prim.Native.Nat.{ℕ}
use Prim.Native.String.{String}
use mathlib.Core.Path.{◌≡◌, ap}
use mathlib.Core.Logic.{◌≢◌}
use text.Mathlib.TextEquality.{eq_iff}
use mathlib.Core.Bool.{Bool, true, false, not}
use mathlib.Core.Option.{Option, none, some}
use codex_threadhub.Base.Tests.{leb, ◌=s=◌}

abbrev pub Truth : Type 0
Truth = Option Bool

abbrev pub holds : Truth → Bool
holds (some b) = b
holds none = false

-- `a = b`, on columns of text.
abbrev pub eq : Option String → Option String → Truth
eq (some a) (some b) = some (a =s= b)
eq _ _ = none

-- `a <= b`, on columns of time.
abbrev pub le : Option ℕ → Option ℕ → Truth
le (some a) (some b) = some (leb a b)
le _ _ = none

abbrev pub neg : Truth → Truth
neg (some b) = some (not b)
neg none = none

abbrev pub or : Truth → Truth → Truth
or (some true) _ = some true
or _ (some true) = some true
or (some false) b = b
or none _ = none

abbrev pub and : Truth → Truth → Truth
and (some true) b = b
and (some false) _ = some false
and none (some false) = some false
and none _ = none

-- Two columns that compare as equal are equal, and neither is NULL.
pub eq-holds : (a b : Option String) → holds (eq a b) ≡ true → (a ≡ b) × (a ≢ none)
eq-holds none b h = cc
eq-holds (some a) none h = cc
eq-holds (some a) (some b) h = (ap some ((eq_iff a b).0 h), λ e. cc)
