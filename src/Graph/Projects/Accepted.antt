-- ===== src/Graph/Projects/Accepted.antt =====
-- What validateGlobalProjectGraph accepts.
use codex_threadhub.Base.{
  ◌≤◌, String, Bool, true, false, List, [], ◌∷◌, Result, ok, err, throw_if-eq_ok, bind-eq_ok,
  bind-eq_err, ◌=s=◌, ◌≡◌, ◌≢◌, ◌↔◌, refl, sym, ◌∙◌, subst, arith, All, All-map, Bool-cases, inl,
  inr,
}
use codex_threadhub.Graph.Walk.{has, All-has, Walk, IsAcyclic}
use codex_threadhub.Graph.Search.{Marks, Refusal, cycle_at, search}
use codex_threadhub.Graph.Accepts.{search-IsAcyclic, search-cycle_at, search_accepts}
use codex_threadhub.Graph.Cycles.{IsClosed}
use codex_threadhub.Graph.Projects.Index.{
  run_ids, occurrences, IsMember, Joins, index_projects-Indexed, index_projects_returns,
  index_projects-own, add_edges-Joins, add_edges_passes, add_edges-own,
}
use codex_threadhub.Graph.Projects.{
  ProjectRun, CrossEdge, projects_required, search_refused, index_projects, add_edges, consumers_of,
  verdict, is_empty, validate_global_project_graph,
}

-- A graph of projects, by itself: the memberships are in order, no Run stands twice, each dependency
-- joins two Runs of the list, and no Run feeds itself, through others or not.
pub record IsProjectGraph (projects : List ProjectRun) (dependencies : List CrossEdge)
    : Type 0 where
  pub some_project : projects ≢ []
  pub members : All IsMember projects
  pub distinct : (id : String) → occurrences id (run_ids projects) ≤ 1
  pub joined : All (Joins (run_ids projects)) dependencies
  pub acyclic : IsAcyclic (consumers_of dependencies)

consumers-closed :
    (p : String → Type 0) (dependencies : List CrossEdge) (id : String)
    → All (λ d. p d.consumer_run_id) dependencies
    → All p (consumers_of dependencies id)
consumers-closed p [] id a = tt
consumers-closed p (d ∷ dependencies) id (first, rest) =
    elim (Bool-cases (d.producer_run_id =s= id)) [
      | inl y ↦ rw y (first, consumers-closed p dependencies id rest)
      | inr n ↦ rw n (consumers-closed p dependencies id rest)
    ]

is_closed :
    (ids : List String) (dependencies : List CrossEdge)
    → All (Joins ids) dependencies
    → IsClosed (consumers_of dependencies) ids
is_closed ids dependencies joined a b h =
    All-has (λ c. has ids c ≡ true) (consumers_of dependencies a) b
      (consumers-closed (λ c. has ids c ≡ true) dependencies a
        (All-map (Joins ids) (λ d. has ids d.consumer_run_id ≡ true) dependencies
          (λ d j. j.consumer) joined))
      h

same_joins :
    (ids other : List String) (dependencies : List CrossEdge)
    → ((id : String) → has ids id ≡ has other id)
    → All (Joins ids) dependencies
    → All (Joins other) dependencies
same_joins ids other dependencies same = All-map (Joins ids) (Joins other) dependencies (λ d j.
    record {
      named = j.named;
      producer = sym (same d.producer_run_id) ∙ j.producer;
      consumer = sym (same d.consumer_run_id) ∙ j.consumer;
      apart = j.apart;
      condition = j.condition;
    })

accepted_search :
    (r : Result Refusal Marks) {u : Bool} → verdict r ≡ ok u → (t : Marks) × (r ≡ ok t)
accepted_search (ok t) h = (t, refl)
accepted_search (err e) h = cc h

refused_search :
    (x : Result Refusal Marks) {r : Refusal} → verdict x ≡ err (search_refused r) → x ≡ err r
refused_search (ok t) h = cc h
refused_search (err e) h = ground arith

not_empty : (projects : List ProjectRun) → projects ≢ [] → is_empty projects ≡ false
not_empty [] h = absurd (h refl)
not_empty (p ∷ projects) h = refl

module _ (projects : List ProjectRun) (dependencies : List CrossEdge) where
  accepted_graph :
      validate_global_project_graph projects dependencies ≡ ok true
      → IsProjectGraph projects dependencies
  unfolding validate_global_project_graph
  accepted_graph h =
      let (some_one, h1) = throw_if-eq_ok (is_empty projects) projects_required _ h in
      let (ids, indexed, h2) = bind-eq_ok (index_projects [] projects) _ h1 in
      let (edges, added, h3) = bind-eq_ok (add_edges ids [] dependencies) _ h2 in
      let i = index_projects-Indexed [] projects ids indexed in
      let (same, joins) = add_edges-Joins ids [] dependencies edges added in
      let joined = same_joins ids (run_ids projects) dependencies i.same joins in
      let (t, searched) =
        accepted_search (search (consumers_of dependencies) (run_ids projects))
          (subst (λ e. verdict (search (consumers_of e) (run_ids projects)) ≡ ok true) same h3) in
      record {
        some_project = λ e. cc (subst (λ ps. is_empty ps ≡ false) e some_one);
        members = i.members;
        distinct = λ id. omega (arith, i.once id (omega arith));
        joined = joined;
        acyclic =
            search-IsAcyclic (consumers_of dependencies) (run_ids projects)
              (is_closed (run_ids projects) dependencies joined) t searched;
      }

  graph_accepted :
      IsProjectGraph projects dependencies
      → validate_global_project_graph projects dependencies ≡ ok true
  unfolding validate_global_project_graph
  graph_accepted g =
      let (ids, indexed) =
        index_projects_returns [] projects g.members (λ id. let k = g.distinct id in omega arith) in
      let i = index_projects-Indexed [] projects ids indexed in
      let (t, searched) =
        search_accepts (consumers_of dependencies) (run_ids projects)
          (is_closed (run_ids projects) dependencies g.joined) g.acyclic in
      rw
        (
          not_empty projects g.some_project,
          indexed,
          add_edges_passes ids [] dependencies
              (same_joins (run_ids projects) ids dependencies (λ id. sym (i.same id)) g.joined),
          searched,
        )
        refl

  -- A Global Run is accepted exactly when it has Projects, each with a Run id and a known membership,
  -- no Run stands twice, every dependency has an id and a known condition and joins two different
  -- Runs of the list, and no chain of dependencies leads from a Run back to itself.
  pub validate_global_project_graph_iff :
      (validate_global_project_graph projects dependencies ≡ ok true)
      ↔ IsProjectGraph projects dependencies
  validate_global_project_graph_iff = (accepted_graph, graph_accepted)

-- A cycle that is reported is one: the Run that the error names feeds itself through a chain of
-- dependencies, and the search ends with no other refusal.
pub validate_global_project_graph-cycle :
    (projects : List ProjectRun) (dependencies : List CrossEdge) (r : Refusal)
    → validate_global_project_graph projects dependencies ≡ err (search_refused r)
    → (id : String) × (r ≡ cycle_at id) × Walk (consumers_of dependencies) id id
unfolding validate_global_project_graph
validate_global_project_graph-cycle [] dependencies r h = cc h
validate_global_project_graph-cycle (p ∷ ps) dependencies r h =
    elim (bind-eq_err (index_projects [] (p ∷ ps)) _ h) [
      | inl e ↦ absurd (index_projects-own [] (p ∷ ps) r e)
      | inr (ids, indexed, h2) ↦ elim (bind-eq_err (add_edges ids [] dependencies) _ h2) [
        | inl e ↦ absurd (add_edges-own ids [] dependencies r e)
        | inr (edges, added, h3) ↦
            let i = index_projects-Indexed [] (p ∷ ps) ids indexed in
            let (same, joins) = add_edges-Joins ids [] dependencies edges added in
            search-cycle_at (consumers_of dependencies) (run_ids (p ∷ ps))
              (is_closed (run_ids (p ∷ ps)) dependencies
                (same_joins ids (run_ids (p ∷ ps)) dependencies i.same joins))
              r
              (refused_search (search (consumers_of dependencies) (run_ids (p ∷ ps))) (
                subst
                  (λ e.
                    verdict (search (consumers_of e) (run_ids (p ∷ ps))) ≡ err (search_refused r))
                  same h3))
      ]
    ]
