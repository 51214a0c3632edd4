-- ===== src/States/Machine.antt =====
-- The part that the state machines of src/domain-states.js share: a list of statuses with their
-- spelling, a transition table, and `transition` itself.
use codex_threadhub.Base.{
  ℕ, zero, suc, String, ◌≡◌, Bool, true, false, Option, none, some, List, [], ◌∷◌, arith, ◌==◌,
  if◌then◌else◌, ◌=s=◌, any, find, Result, ok, err, ◌>>=◌,
}

-- The errors that the functions throw, with what their message names.
pub data StateError : Type 0 where
  state_invalid : String → String → StateError
  transition_invalid : String → String → String → StateError
  entity_invalid : String → StateError

-- The flags that a caller may pass; a flag left out is false.
pub record Options : Type 0 where
  pub allow_sync : Bool
  pub allow_repair : Bool
  pub observed_terminal : Bool

abbrev pub no_options : Options
no_options = record { allow_sync = false; allow_repair = false; observed_terminal = false }

abbrev pub get_elem? {ℓ} : {A : Type ℓ} → List A → ℕ → Option A
get_elem? [] i = none
get_elem? (x ∷ xs) zero = some x
get_elem? (x ∷ xs) (suc i) = get_elem? xs i

-- An enumeration of statuses: `code` is a status's place in the frozen list `statuses`.
pub record Machine (S : Type 0) : Type 0 where
  pub entity : String
  pub label : String
  pub statuses : List S
  pub spelling : S → String
  pub code : S → ℕ
  pub moves : S → List S
  pub listed : (s : S) → get_elem? statuses (code s) ≡ some s

module _ {S : Type 0} where
  -- `a === b`, and `Set.prototype.has` or `Array.prototype.includes`.
  abbrev pub same : Machine S → S → S → Bool
  same m a b = m.code a == m.code b

  abbrev pub has : Machine S → List S → S → Bool
  has m xs s = any (λ x. same m x s) xs

  -- `assertKnown`, which also reads the spelling of the status.
  unfoldable pub assert_known : Machine S → String → Result StateError S
  assert_known m status = elim (find (λ s. m.spelling s =s= status) m.statuses) [
    | none ↦ err (state_invalid m.label status)
    | some s ↦ ok s
  ]

  -- `transition` behind its two assertions.
  unfoldable pub move : Machine S → S → S → Options → Result StateError S
  move m from to options =
      if same m from to
      then ok to
      else if options.allow_sync
      then ok to
      else if has m (m.moves from) to
      then ok to
      else err (transition_invalid m.entity (m.spelling from) (m.spelling to))

  unfoldable pub transition : Machine S → String → String → Options → Result StateError S
  unfolding move assert_known
  transition m from to options = do
    f ← assert_known m from
    t ← assert_known m to
    move m f t options

module _ {S : Type 0} (m : Machine S) where
  -- The tests compare statuses, not only their codes.
  pub same→eq : (s t : S) → same m s t ≡ true → s ≡ t
  same→eq s t h = let e : m.code s ≡ m.code t = ground arith in cc (m.listed s, m.listed t, e)
