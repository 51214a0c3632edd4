-- ===== src/Graph/Tasks/Checked.antt =====
-- The loops of validateTaskGraph in front of the search: what they pass, and what they throw.
use codex_threadhub.Base.{
  String, true, false, not, ◌||◌, List, [], ◌∷◌, ok, err, throw_if-eq_ok, bind-eq_ok, bind-eq_err,
  ◌=s=◌, ◌≡◌, ◌≢◌, refl, arith, All, Bool-cases, inl, inr,
}
use codex_threadhub.Graph.Walk.{has}
use codex_threadhub.Graph.Search.{Refusal}
use codex_threadhub.Graph.Tasks.{
  GraphTask, search_refused, unknown_dependency, self_dependency, ids_of, index_tasks, check_each,
  check_dependencies,
}

pub check_each-known :
    (by_id : List GraphTask) (id : String) (ds : List String) {u : Unit {0}}
    → check_each by_id id ds ≡ ok u
    → All (λ d. has (ids_of by_id) d ≡ true) ds
unfolding check_each
check_each-known by_id id [] h = tt
check_each-known by_id id (d ∷ ds) h =
    let (there, h1) = throw_if-eq_ok (not (has (ids_of by_id) d)) (unknown_dependency d) _ h in
    let (_, h2) = throw_if-eq_ok (d =s= id) (self_dependency id) _ h1 in
    (ground arith, check_each-known by_id id ds h2)

pub check_dependencies-known :
    (by_id tasks : List GraphTask) {u : Unit {0}}
    → check_dependencies by_id tasks ≡ ok u
    → All (λ t. All (λ d. has (ids_of by_id) d ≡ true) t.depends_on) tasks
unfolding check_dependencies
check_dependencies-known by_id [] h = tt
check_dependencies-known by_id (t ∷ tasks) h =
    let (u, first, rest) = bind-eq_ok (check_each by_id t.id t.depends_on) _ h in
    (check_each-known by_id t.id t.depends_on first, check_dependencies-known by_id tasks rest)

pub check_each_passes :
    (by_id : List GraphTask) (id : String) (ds : List String)
    → All (λ d. has (ids_of by_id) d ≡ true) ds
    → All (λ d. (d =s= id) ≡ false) ds
    → check_each by_id id ds ≡ ok tt
unfolding check_each
check_each_passes by_id id [] a b = refl
check_each_passes by_id id (d ∷ ds) (y, a) (n, b) = rw (y, n) (check_each_passes by_id id ds a b)

pub check_dependencies_passes :
    (by_id tasks : List GraphTask)
    → All (λ t. All (λ d. has (ids_of by_id) d ≡ true) t.depends_on) tasks
    → All (λ t. All (λ d. (d =s= t.id) ≡ false) t.depends_on) tasks
    → check_dependencies by_id tasks ≡ ok tt
unfolding check_dependencies
check_dependencies_passes by_id [] a b = refl
check_dependencies_passes by_id (t ∷ tasks) (y, a) (n, b) =
    rw (check_each_passes by_id t.id t.depends_on y n) (check_dependencies_passes by_id tasks a b)

pub index_tasks-own :
    (by_id tasks : List GraphTask) (r : Refusal) → index_tasks by_id tasks ≢ err (search_refused r)
unfolding index_tasks
index_tasks-own by_id [] r h = cc h
index_tasks-own by_id (t ∷ tasks) r h = elim (Bool-cases (t.id =s= "" || t.prompt =s= "")) [
  | inl y ↦ cc (rw y at h)
  | inr n ↦
      let h1 = rw n at h in
      elim (Bool-cases (has (ids_of by_id) t.id)) [
        | inl y ↦ cc (rw y at h1)
        | inr m ↦ index_tasks-own (t ∷ by_id) tasks r (rw m at h1)
      ]
]

pub check_each-own :
    (by_id : List GraphTask) (id : String) (ds : List String) (r : Refusal)
    → check_each by_id id ds ≢ err (search_refused r)
unfolding check_each
check_each-own by_id id [] r h = cc h
check_each-own by_id id (d ∷ ds) r h = elim (Bool-cases (has (ids_of by_id) d)) [
  | inl y ↦
      let h1 = rw y at h in
      elim (Bool-cases (d =s= id)) [
        | inl m ↦ cc (rw m at h1)
        | inr m ↦ check_each-own by_id id ds r (rw m at h1)
      ]
  | inr n ↦ cc (rw n at h)
]

pub check_dependencies-own :
    (by_id tasks : List GraphTask) (r : Refusal)
    → check_dependencies by_id tasks ≢ err (search_refused r)
unfolding check_dependencies
check_dependencies-own by_id [] r h = cc h
check_dependencies-own by_id (t ∷ tasks) r h =
    elim (bind-eq_err (check_each by_id t.id t.depends_on) _ h) [
      | inl e ↦ absurd (check_each-own by_id t.id t.depends_on r e)
      | inr (u, e, rest) ↦ check_dependencies-own by_id tasks r rest
    ]
