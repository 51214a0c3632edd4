-- ===== src/Graph/Accepts.antt =====
-- The verdict of the depth-first search.
use codex_threadhub.Base.{String, true, List, ◌≡◌, inl, inr, ok, err, Result-cases, refl}
use codex_threadhub.Graph.Walk.{has, All-has, Walk, edge, on, IsAcyclic}
use codex_threadhub.Graph.Order.{acyclic_from}
use codex_threadhub.Graph.Visits.{search-Kept}
use codex_threadhub.Graph.Cycles.{IsClosed, IsReal, search-IsReal}
use codex_threadhub.Graph.Search.{Marks, Refusal, cycle_at, out_of_fuel, search}

module _ (children : String → List String) (nodes : List String)
    (closed : IsClosed children nodes) where
  last_is_node : {a b : String} → Walk children a b → has nodes b ≡ true
  last_is_node {a} {b} (edge e) = closed a b e
  last_is_node {b = b} (on {b = m} w e) = closed m b e

  pub search-IsAcyclic : (t : Marks) → search children nodes ≡ ok t → IsAcyclic children
  search-IsAcyclic t h id w =
      let k = search-Kept children nodes t h in
      acyclic_from children t.visited id k.sound.ordered
        (All-has (λ x. has t.visited x ≡ true) nodes id k.done (last_is_node w)) w

  real_cycle :
      (r : Refusal)
      → IsReal children nodes r
      → (id : String) × (r ≡ cycle_at id) × Walk children id id
  real_cycle (cycle_at id) w = (id, refl, w)
  real_cycle out_of_fuel w = absurd w

  pub search-cycle_at :
      (r : Refusal)
      → search children nodes ≡ err r
      → (id : String) × (r ≡ cycle_at id) × Walk children id id
  search-cycle_at r h = real_cycle r (search-IsReal children nodes closed r h)

  pub search_accepts : IsAcyclic children → (t : Marks) × (search children nodes ≡ ok t)
  search_accepts a = elim (Result-cases (search children nodes)) [
    | inl found ↦ found
    | inr (r, h) ↦ let (id, e, w) = search-cycle_at r h in absurd (a id w)
  ]
