-- ===== src/Graph/Order.antt =====
-- The search visits the children of a node before the node, so what it accepts has no cycle.
use codex_threadhub.Base.{
  ℕ, suc, String, true, false, List, [], ◌∷◌, ◌≡◌, subst, sym, ◌<◌, ◌≤◌, arith, inl, inr, length,
  All, ◌=s=◌, if◌then◌else◌, Bool-cases, eq_iff,
}
use codex_threadhub.Graph.Walk.{has, All-has, Walk, edge, on}

abbrev rank : List String → String → ℕ
rank [] id = 0
rank (x ∷ xs) id = if x =s= id then suc (length xs) else rank xs id

rank-le-length : (xs : List String) (id : String) → rank xs id ≤ length xs
rank-le-length [] id = omega arith
rank-le-length (x ∷ xs) id =
    let rest = rank-le-length xs id in
    elim (Bool-cases (x =s= id)) [ inl y ↦ rw y (omega arith) | inr n ↦ rw n (omega arith) ]

module _ (children : String → List String) where
  -- Each id stands once, and in front of its children.
  abbrev pub IsOrdered : List String → Type 0
  IsOrdered [] = Unit
  IsOrdered (x ∷ xs) = (has xs x ≡ false) × All (λ c. has xs c ≡ true) (children x) × IsOrdered xs

  rank-children :
      (xs : List String) (id c : String)
      → IsOrdered xs
      → has xs id ≡ true
      → has (children id) c ≡ true
      → (has xs c ≡ true) × (rank xs c < rank xs id)
  rank-children [] id c o h e = cc
  rank-children (x ∷ xs) id c (fresh, below, o) h e = elim (Bool-cases (x =s= id)) [
    | inl y ↦
        let child : has xs c ≡ true =
          All-has (λ k. has xs k ≡ true) (children x) c below
            (subst (λ k. has (children k) c ≡ true) (sym ((eq_iff x id).0 y)) e) in
        let late = rank-le-length xs c in
        elim (Bool-cases (x =s= c)) [
          | inl same ↦ cc (sym (subst (λ k. has xs k ≡ false) ((eq_iff x c).0 same) fresh), child)
          | inr n ↦ rw (y, n) (child, omega arith)
        ]
    | inr n ↦
        let (child, less) = rank-children xs id c o (rw n at h) e in
        elim (Bool-cases (x =s= c)) [
          | inl same ↦ cc (sym (subst (λ k. has xs k ≡ false) ((eq_iff x c).0 same) fresh), child)
          | inr m ↦ rw (n, m) (child, less)
        ]
  ]

  rank-Walk :
      (xs : List String) {a b : String}
      → IsOrdered xs
      → has xs a ≡ true
      → Walk children a b
      → (has xs b ≡ true) × (rank xs b < rank xs a)
  rank-Walk xs {a} {b} o h (edge e) = rank-children xs a b o h e
  rank-Walk xs {a} {b = c} o h (on {b = m} w e) =
      let (there, less) = rank-Walk xs o h w in
      let (child, more) = rank-children xs m c o there e in (child, omega arith)

  pub acyclic_from :
      (xs : List String) (a : String) → IsOrdered xs → has xs a ≡ true → ¬ Walk children a a
  acyclic_from xs a o h w = omega (arith, (rank-Walk xs o h w).1)
