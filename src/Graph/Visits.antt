-- ===== src/Graph/Visits.antt =====
-- What a search that returns has done: every id that it was started at is visited, behind its
-- children.
use codex_threadhub.Base.{
  ℕ, zero, suc, String, true, false, not, List, [], ◌∷◌, ◌≡◌, refl, subst, sym, arith, inl, inr,
  Result, ok, bind-eq_ok, keep, length, All, ◌=s=◌, Bool-cases, eq_iff, eq_refl,
}
use codex_threadhub.Graph.Walk.{has}
use codex_threadhub.Graph.Order.{IsOrdered}
use codex_threadhub.Graph.Search.{Marks, Refusal, blank, visit_each, enter, leave, visit, search}

keep-absent :
    (id : String) (xs : List String) → has xs id ≡ false → keep (λ x. not (x =s= id)) xs ≡ xs
keep-absent id [] h = refl
keep-absent id (x ∷ xs) h = ground (arith, keep-absent id xs)

pub leave-visiting :
    (id : String) (xs : List String) → has xs id ≡ false → keep (λ x. not (x =s= id)) (id ∷ xs) ≡ xs
leave-visiting id xs h = rw (eq_refl id, keep-absent id xs h) refl

module _ (children : String → List String) where
  pub record IsSound (s : Marks) : Type 0 where
    pub ordered : IsOrdered children s.visited
    pub apart : (id : String) → has s.visiting id ≡ true → has s.visited id ≡ false

  pub record Kept (s t : Marks) (ids : List String) : Type 0 where
    pub sound : IsSound t
    pub same : t.visiting ≡ s.visiting
    pub more : (id : String) → has s.visited id ≡ true → has t.visited id ≡ true
    pub done : All (λ id. has t.visited id ≡ true) ids

  visit_each-Kept :
      (f : String → Marks → Result Refusal Marks)
      → ((id : String) (s t : Marks) → f id s ≡ ok t → IsSound s → Kept s t (id ∷ []))
      → (ids : List String) (s u : Marks) → visit_each f ids s ≡ ok u
      → IsSound s
      → Kept s u ids
  unfolding visit_each
  visit_each-Kept f one [] s u h g =
      subst (λ x. Kept s x []) (ground arith)
        (record { sound = g; same = refl; more = λ id k. k; done = tt })
  visit_each-Kept f one (id ∷ ids) s u h g =
      let (t, first, others) = bind-eq_ok (f id s) (λ t. visit_each f ids t) h in
      let a = one id s t first g in
      let b = visit_each-Kept f one ids t u others a.sound in
      record {
        sound = b.sound;
        same = cc (a.same, b.same);
        more = λ x k. b.more x (a.more x k);
        done = (b.more id a.done.0, b.done);
      }

  pub enter-IsSound :
      (id : String) (s : Marks) → has s.visited id ≡ false → IsSound s → IsSound (enter id s)
  enter-IsSound id s fresh g = record {
    ordered = g.ordered;
    apart = λ x h. elim (Bool-cases (id =s= x)) [
      | inl y ↦ subst (λ k. has s.visited k ≡ false) ((eq_iff id x).0 y) fresh
      | inr n ↦ g.apart x (rw n at h)
    ];
  }

  leave-Kept :
      (id : String) (s t : Marks)
      → has s.visiting id ≡ false
      → Kept (enter id s) t (children id)
      → Kept s (leave id t) (id ∷ [])
  leave-Kept id s t free k =
      let back : (leave id t).visiting ≡ s.visiting =
        subst (λ xs. keep (λ x. not (x =s= id)) xs ≡ s.visiting) (sym k.same)
          (leave-visiting id s.visiting free) in
      let open_id : has t.visiting id ≡ true =
        subst (λ xs. has xs id ≡ true) (sym k.same) (rw (eq_refl id) refl) in
      record {
        sound = record {
          ordered = (k.sound.apart id open_id, k.done, k.sound.ordered);
          apart = λ x h.
              let was : has s.visiting x ≡ true = subst (λ xs. has xs x ≡ true) back h in
              let still : has t.visiting x ≡ true =
                subst (λ xs. has xs x ≡ true) (sym k.same) (ground arith) in
              elim (Bool-cases (id =s= x)) [
                | inl y ↦
                    cc (sym (subst (λ z. has s.visiting z ≡ false) ((eq_iff id x).0 y) free), was)
                | inr n ↦ rw n (k.sound.apart x still)
              ];
        };
        same = back;
        more = λ x h. let kept = k.more x h in ground arith;
        done = (rw (eq_refl id) refl, tt);
      }

  pub visit-Kept :
      (fuel : ℕ) (id : String) (s t : Marks)
      → visit children fuel id s ≡ ok t
      → IsSound s
      → Kept s t (id ∷ [])
  unfolding visit
  visit-Kept zero id s t h g = cc h
  visit-Kept (suc fuel) id s t h g = elim (Bool-cases (has s.visiting id)) [
    | inl y ↦ cc (rw y at h)
    | inr free ↦
        let h' = rw free at h in
        elim (Bool-cases (has s.visited id)) [
          | inl old ↦
              subst (λ x. Kept s x (id ∷ [])) (ground arith)
                (record { sound = g; same = refl; more = λ x k. k; done = (old, tt) })
          | inr fresh ↦
              let (u, inside, e) =
                bind-eq_ok (visit_each (visit children fuel) (children id) (enter id s))
                  (λ t. ok (leave id t)) (rw fresh at h') in
              let k =
                visit_each-Kept (visit children fuel) (visit-Kept fuel) (children id) (enter id s) u
                  inside (enter-IsSound id s fresh g) in
              subst (λ x. Kept s x (id ∷ [])) (ground arith) (leave-Kept id s u free k)
        ]
  ]

  pub search-Kept :
      (nodes : List String) (t : Marks) → search children nodes ≡ ok t → Kept blank t nodes
  unfolding search
  search-Kept nodes t h =
      visit_each-Kept (visit children (suc (length nodes))) (visit-Kept (suc (length nodes))) nodes
        blank t h (record { ordered = tt; apart = λ id k. cc })
