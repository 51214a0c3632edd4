-- ===== src/Graph/Walk.antt =====
-- Walks along the edges of a graph that is given by the children of each id.
use codex_threadhub.Base.{
  String, Bool, true, List, [], ◌∷◌, ◌≡◌, ◌=s=◌, refl, arith, subst, inl, inr, any, All, All-map,
  Bool-cases, eq_iff, eq_refl,
}

-- `Set.has`.
abbrev pub has : List String → String → Bool
has ids id = any (λ other. other =s= id) ids

-- A walk of at least one edge.
pub data Walk (children : String → List String) : String → String → Type 0 where
  edge : {a b : String} → has (children a) b ≡ true → Walk children a b
  on : {a b c : String} → Walk children a b → has (children b) c ≡ true → Walk children a c

abbrev pub IsAcyclic : (String → List String) → Type 0
IsAcyclic children = (id : String) → ¬ Walk children id id

pub all-has : (xs : List String) → All (λ x. has xs x ≡ true) xs
all-has [] = tt
all-has (x ∷ xs) = (
  rw (eq_refl x) refl,
  All-map (λ y. has xs y ≡ true) (λ y. has (x ∷ xs) y ≡ true) xs (λ y h. ground arith) (all-has xs),
)

pub All-has :
    (p : String → Type 0) (xs : List String) (x : String) → All p xs → has xs x ≡ true → p x
All-has p [] x a h = cc h
All-has p (y ∷ xs) x (a, rest) h = elim (Bool-cases (y =s= x)) [
  | inl e ↦ subst p ((eq_iff y x).0 e) a
  | inr n ↦ All-has p xs x rest (rw n at h)
]
