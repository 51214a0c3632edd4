-- ===== src/Graph/Cycles.antt =====
-- What a search that is refused has found: the id that it names lies on a cycle, and the fuel is
-- never the reason.
use codex_threadhub.Base.{
  ℕ, zero, suc, ◌<◌, ◌≤◌, String, true, false, not, List, [], ◌∷◌, ◌≡◌, refl, subst, sym, arith,
  inl, inr, Result, Result-cases, err_inj, ok, err, ◌>>=◌, length, All, All-map, ◌=s=◌, Bool,
  Bool-cases, eq_iff, eq_refl,
}
use codex_threadhub.Base.Counts.{count, count_mono}
use codex_threadhub.Graph.Walk.{has, all-has, Walk, edge, on}
use codex_threadhub.Graph.Visits.{IsSound, Kept, visit-Kept, enter-IsSound}
use codex_threadhub.Graph.Search.{
  Marks, Refusal, cycle_at, out_of_fuel, blank, visit_each, enter, leave, visit, search,
}

count_lt :
    (p q : String → Bool) (xs : List String) (id : String)
    → ((x : String) → p x ≡ true → q x ≡ true)
    → has xs id ≡ true
    → q id ≡ true
    → p id ≡ false
    → count p xs < count q xs
count_lt p q [] id h m y n = cc
count_lt p q (x ∷ xs) id h m y n = elim (Bool-cases (x =s= id)) [
  | inl same ↦
      let e = sym ((eq_iff x id).0 same) in
      let y' = subst (λ k. q k ≡ true) e y in
      let n' = subst (λ k. p k ≡ false) e n in
      let rest = count_mono p q xs h in rw (y', n') (omega arith)
  | inr other ↦
      let rest = count_lt p q xs id h (rw other at m) y n in
      elim (Bool-cases (p x)) [
        | inl a ↦ let b = h x a in rw (a, b) (omega arith)
        | inr a ↦ rw a (elim (Bool-cases (q x)) [ inl b ↦ rw b (omega arith) | inr b ↦ rw b rest ])
      ]
]

count-le-length : (p : String → Bool) (xs : List String) → count p xs ≤ length xs
count-le-length p [] = omega arith
count-le-length p (x ∷ xs) =
    let rest = count-le-length p xs in
    elim (Bool-cases (p x)) [ inl y ↦ rw y (omega arith) | inr n ↦ rw n (omega arith) ]

module _ (children : String → List String) (nodes : List String) where
  -- Children of a node are nodes.
  abbrev pub IsClosed : Type 0
  IsClosed = (a b : String) → has (children a) b ≡ true → has nodes b ≡ true

  -- The nodes that the search may still enter.
  abbrev room : Marks → ℕ
  room s = count (λ id. not (has s.visiting id)) nodes

  -- The id is a node, and whatever the search is visiting leads to it.
  abbrev Reached : Marks → String → Type 0
  Reached s id =
      (has nodes id ≡ true) × ((a : String) → has s.visiting a ≡ true → Walk children a id)

  -- A refusal names an id on a cycle.
  abbrev pub IsReal : Refusal → Type 0
  IsReal (cycle_at id) = Walk children id id
  IsReal out_of_fuel = ⊥

  visit_each-IsReal :
      (f : String → Marks → Result Refusal Marks) (n : ℕ)
      → ((id : String) (s t : Marks)
          → f id s ≡ ok t
          → IsSound children s
          → Kept children s t (id ∷ []))
      → ((id : String) (s : Marks) (r : Refusal)
          → f id s ≡ err r
          → IsSound children s
          → room s < n
          → Reached s id
          → IsReal r)
      → (ids : List String) (s : Marks) (r : Refusal) → visit_each f ids s ≡ err r
      → IsSound children s
      → room s < n
      → All (Reached s) ids
      → IsReal r
  unfolding visit_each
  visit_each-IsReal f n kept one [] s r h g m a = cc h
  visit_each-IsReal f n kept one (id ∷ ids) s r h g m (a, rest) = elim (Result-cases (f id s)) [
    | inl (t, y) ↦
        let k = kept id s t y g in
        visit_each-IsReal f n kept one ids t r (rw y at h) k.sound
          (subst (λ xs. count (λ x. not (has xs x)) nodes < n) (sym k.same) m)
          (All-map (Reached s) (Reached t) ids
            (λ x (node, leads). (node, λ b i. leads b (subst (λ xs. has xs b ≡ true) k.same i)))
            rest)
    | inr (e, y) ↦ subst IsReal (err_inj (rw y at h)) (one id s e y g m a)
  ]

  visit-IsReal :
      IsClosed
      → (fuel : ℕ) (id : String) (s : Marks) (r : Refusal) → visit children fuel id s ≡ err r
      → IsSound children s
      → room s < fuel
      → Reached s id
      → IsReal r
  unfolding visit
  visit-IsReal closed zero id s r h g m a = absurd (omega arith)
  visit-IsReal closed (suc fuel) id s r h g m (node, leads) =
      elim (Bool-cases (has s.visiting id)) [
        | inl y ↦ subst IsReal (err_inj (rw y at h)) (leads id y)
        | inr free ↦
            let h' = rw free at h in
            elim (Bool-cases (has s.visited id)) [
              | inl old ↦ cc (rw old at h')
              | inr fresh ↦
                  let less =
                    count_lt (λ x. not (has (enter id s).visiting x)) (λ x. not (has s.visiting x))
                      nodes id (λ x k. ground arith) node (rw free refl) (rw (eq_refl id) refl) in
                  visit_each-IsReal (visit children fuel) fuel (visit-Kept children fuel)
                    (visit-IsReal closed fuel) (children id) (enter id s) r
                    (inner (visit_each (visit children fuel) (children id) (enter id s))
                      (rw fresh at h'))
                    (enter-IsSound children id s fresh g) (omega arith)
                    (All-map (λ c. has (children id) c ≡ true) (Reached (enter id s)) (children id)
                      (λ c e. (
                        closed id c e,
                        λ a i. elim (Bool-cases (id =s= a)) [
                          | inl same ↦
                              subst (λ k. Walk children k c) ((eq_iff id a).0 same) (edge e)
                          | inr other ↦ on (leads a (rw other at i)) e
                        ],
                      ))
                      (all-has (children id)))
            ]
      ]
    where
      inner : (x : Result Refusal Marks) → (x >>= λ t. ok (leave id t)) ≡ err r → x ≡ err r
      inner (ok t) k = cc k
      inner (err e) k = ground arith

  pub search-IsReal : IsClosed → (r : Refusal) → search children nodes ≡ err r → IsReal r
  unfolding search
  search-IsReal closed r h =
      visit_each-IsReal (visit children (suc (length nodes))) (suc (length nodes))
        (visit-Kept children (suc (length nodes))) (visit-IsReal closed (suc (length nodes))) nodes
        blank r h (record { ordered = tt; apart = λ id k. cc })
        (omega (arith, count-le-length (λ id. not (has [] id)) nodes))
        (All-map (λ x. has nodes x ≡ true) (Reached blank) nodes (λ x k. (k, λ a i. cc))
          (all-has nodes))
