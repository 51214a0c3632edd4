-- ===== src/Graph/Projects/Index.antt =====
-- The loops of validateGlobalProjectGraph in front of the search: what they pass, and what they
-- throw.
use mathlib.Core.List.{append-nil, append_assoc}
use codex_threadhub.Base.{
  ℕ, ◌+◌, ◌≤◌, String, true, false, not, ◌||◌, List, [], ◌∷◌, ◌++◌, map, or_else, ok, err,
  throw_if-eq_ok, ◌=s=◌, ◌≡◌, ◌≢◌, refl, sym, ◌∙◌, arith, All, Bool-cases, inl, inr, eq_refl,
  eq_iff, subst,
}
use codex_threadhub.Base.Counts.{count, count-any-false, any-count_zero}
use codex_threadhub.Graph.Walk.{has}
use codex_threadhub.Graph.Search.{Refusal}
use codex_threadhub.Graph.Projects.{
  ProjectRun, CrossEdge, project_id_required, duplicate_project, membership_invalid, unknown_run,
  self_dependency, condition_invalid, search_refused, membership_kinds, dependency_conditions,
  index_projects, add_edges,
}

abbrev pub run_ids : List ProjectRun → List String
run_ids projects = map (λ p. p.run_id) projects

abbrev pub occurrences : String → List String → ℕ
occurrences id ids = count (λ other. other =s= id) ids

-- The id is there, and the membership, if any, is one of the two.
pub record IsMember (p : ProjectRun) : Type 0 where
  pub named : (p.run_id =s= "") ≡ false
  pub kind : has membership_kinds (or_else p.membership "required") ≡ true

-- The dependency has an id, joins two different Runs of the list, and its condition is supported.
pub record Joins (ids : List String) (d : CrossEdge) : Type 0 where
  pub named : (d.id =s= "") ≡ false
  pub producer : has ids d.producer_run_id ≡ true
  pub consumer : has ids d.consumer_run_id ≡ true
  pub apart : (d.producer_run_id =s= d.consumer_run_id) ≡ false
  pub condition : has dependency_conditions (or_else d.condition "all_success") ≡ true

pub record Indexed (ids : List String) (projects : List ProjectRun) (final : List String)
    : Type 0 where
  pub members : All IsMember projects
  pub once :
      (id : String)
      → occurrences id ids ≤ 1
      → occurrences id ids + occurrences id (run_ids projects) ≤ 1
  pub same : (id : String) → has final id ≡ (has ids id || has (run_ids projects) id)

pub index_projects-Indexed :
    (ids : List String) (projects : List ProjectRun) (final : List String)
    → index_projects ids projects ≡ ok final
    → Indexed ids projects final
unfolding index_projects
index_projects-Indexed ids [] final h = record {
  members = tt;
  once = λ id k. omega arith;
  same = λ id. ground arith;
}
index_projects-Indexed ids (p ∷ projects) final h =
    let (named, h1) = throw_if-eq_ok (p.run_id =s= "") project_id_required _ h in
    let (fresh, h2) = throw_if-eq_ok (has ids p.run_id) (duplicate_project p.run_id) _ h1 in
    let (kind, h3) =
      throw_if-eq_ok (not (has membership_kinds (or_else p.membership "required")))
        membership_invalid _ h2 in
    let rest = index_projects-Indexed (p.run_id ∷ ids) projects final h3 in
    record {
      members = (record { named = named; kind = ground arith }, rest.members);
      once = λ id k.
          let more = rest.once id in
          elim (Bool-cases (p.run_id =s= id)) [
            | inl y ↦
                let free : occurrences id ids ≡ 0 =
                  subst (λ k. occurrences k ids ≡ 0) ((eq_iff p.run_id id).0 y)
                    (count-any-false (λ other. other =s= p.run_id) ids fresh) in
                ground arith
            | inr n ↦ ground arith
          ];
      same = λ id. let more = rest.same id in ground arith;
    }

pub index_projects_returns :
    (ids : List String) (projects : List ProjectRun)
    → All IsMember projects
    → ((id : String) → occurrences id ids + occurrences id (run_ids projects) ≤ 1)
    → (final : List String) × (index_projects ids projects ≡ ok final)
unfolding index_projects
index_projects_returns ids [] a one = (ids, refl)
index_projects_returns ids (p ∷ projects) (m, a) one =
    let fresh =
      any-count_zero (λ other. other =s= p.run_id) ids
        (let k = rw (eq_refl p.run_id) at (one p.run_id) in omega arith) in
    let (final, e) =
      index_projects_returns (p.run_id ∷ ids) projects a (λ id. let k = one id in ground arith) in
    (final, rw (m.named, fresh, m.kind) e)

pub index_projects-own :
    (ids : List String) (projects : List ProjectRun) (r : Refusal)
    → index_projects ids projects ≢ err (search_refused r)
unfolding index_projects
index_projects-own ids [] r h = cc h
index_projects-own ids (p ∷ projects) r h = elim (Bool-cases (p.run_id =s= "")) [
  | inl y ↦ cc (rw y at h)
  | inr n ↦
      let h1 = rw n at h in
      elim (Bool-cases (has ids p.run_id)) [
        | inl y ↦ cc (rw y at h1)
        | inr m ↦
            let h2 = rw m at h1 in
            elim (Bool-cases (not (has membership_kinds (or_else p.membership "required")))) [
              | inl y ↦ cc (rw y at h2)
              | inr k ↦ index_projects-own (p.run_id ∷ ids) projects r (rw k at h2)
            ]
      ]
]

pub add_edges-Joins :
    (ids : List String) (edges dependencies final : List CrossEdge)
    → add_edges ids edges dependencies ≡ ok final
    → (final ≡ edges ++ dependencies) × All (Joins ids) dependencies
unfolding add_edges
add_edges-Joins ids edges [] final h =
    (let e : edges ≡ final = ground arith in sym e ∙ sym (append-nil edges), tt)
add_edges-Joins ids edges (d ∷ dependencies) final h =
    let (known, h1) =
      throw_if-eq_ok
        (d.id =s= "" || not (has ids d.producer_run_id) || not (has ids d.consumer_run_id))
        unknown_run _ h in
    let (apart, h2) =
      throw_if-eq_ok (d.producer_run_id =s= d.consumer_run_id) self_dependency _ h1 in
    let (condition, h3) =
      throw_if-eq_ok (not (has dependency_conditions (or_else d.condition "all_success")))
        condition_invalid _ h2 in
    let (e, rest) = add_edges-Joins ids (edges ++ (d ∷ [])) dependencies final h3 in
    (
      e ∙ append_assoc edges (d ∷ []) dependencies,
      (
        record {
          named = ground arith;
          producer = ground arith;
          consumer = ground arith;
          apart = apart;
          condition = ground arith;
        },
        rest,
      ),
    )

pub add_edges_passes :
    (ids : List String) (edges dependencies : List CrossEdge)
    → All (Joins ids) dependencies
    → add_edges ids edges dependencies ≡ ok (edges ++ dependencies)
unfolding add_edges
add_edges_passes ids edges [] a = rw (append-nil edges) refl
add_edges_passes ids edges (d ∷ dependencies) (j, a) =
    rw (j.named, j.producer, j.consumer, j.apart, j.condition)
      (rw (← append_assoc edges (d ∷ []) dependencies)
        (add_edges_passes ids (edges ++ (d ∷ [])) dependencies a))

pub add_edges-own :
    (ids : List String) (edges dependencies : List CrossEdge) (r : Refusal)
    → add_edges ids edges dependencies ≢ err (search_refused r)
unfolding add_edges
add_edges-own ids edges [] r h = cc h
add_edges-own ids edges (d ∷ dependencies) r h =
    elim (Bool-cases
      (d.id =s= "" || not (has ids d.producer_run_id) || not (has ids d.consumer_run_id))) [
        | inl y ↦ cc (rw y at h)
        | inr n ↦
            let h1 = rw n at h in
            elim (Bool-cases (d.producer_run_id =s= d.consumer_run_id)) [
              | inl y ↦ cc (rw y at h1)
              | inr m ↦
                  let h2 = rw m at h1 in
                  elim (Bool-cases
                    (not (has dependency_conditions (or_else d.condition "all_success")))) [
                      | inl y ↦ cc (rw y at h2)
                      | inr k ↦ add_edges-own ids (edges ++ (d ∷ [])) dependencies r (rw k at h2)
                    ]
            ]
      ]
