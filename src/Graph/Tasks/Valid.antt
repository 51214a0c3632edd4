-- ===== src/Graph/Tasks/Valid.antt =====
-- What validateTaskGraph accepts.
use mathlib.Core.Path.{fun_ext}
use codex_threadhub.Base.{
  ◌≤◌, String, true, false, List, [], ◌∷◌, some, find, Result, ok, err, throw_if-eq_ok, bind-eq_ok,
  bind-eq_err, ◌=s=◌, ◌≡◌, ◌≢◌, ◌↔◌, refl, ap, arith, All, All-map, Bool-cases, inl, inr, eq_refl,
  eq_iff, subst, sym,
}
use codex_threadhub.Graph.Walk.{has, all-has, All-has, Walk, edge, IsAcyclic}
use codex_threadhub.Graph.Search.{Refusal, cycle_at, Marks, search}
use codex_threadhub.Graph.Accepts.{search-IsAcyclic, search-cycle_at, search_accepts}
use codex_threadhub.Graph.Cycles.{IsClosed}
use codex_threadhub.Graph.Tasks.Index.{
  IsComplete, occurrences, index_tasks-complete, index_tasks-occurrences, index_tasks-find,
  index_tasks-has, index_tasks_returns,
}
use codex_threadhub.Graph.Tasks.Checked.{
  check_dependencies-known, check_dependencies_passes, check_dependencies-own, index_tasks-own,
}
use codex_threadhub.Graph.Tasks.{
  GraphTask, tasks_required, search_refused, ids_of, index_tasks, check_dependencies,
  dependencies_of, depends_of, verdict, is_empty, validate_task_graph,
}

-- A task graph, by itself: texts are there, no id stands twice, each dependency is a task, and no
-- task depends on itself, through others or not.
pub record IsTaskGraph (tasks : List GraphTask) : Type 0 where
  pub some_task : tasks ≢ []
  pub complete : All IsComplete tasks
  pub distinct : (id : String) → occurrences id tasks ≤ 1
  pub known : All (λ t. All (λ d. has (ids_of tasks) d ≡ true) t.depends_on) tasks
  pub acyclic : IsAcyclic (dependencies_of tasks)

module _ (nodes : String → Type 0) where
  -- The dependencies that the index gives are those of the tasks.
  pub dependencies-closed :
      (tasks : List GraphTask) (id : String)
      → All (λ t. All nodes t.depends_on) tasks
      → All nodes (dependencies_of tasks id)
  dependencies-closed [] id a = tt
  dependencies-closed (t ∷ tasks) id (first, rest) = elim (Bool-cases (t.id =s= id)) [
    | inl y ↦ rw y first
    | inr n ↦ rw n (dependencies-closed tasks id rest)
  ]

find-occurs :
    (id : String) (tasks : List GraphTask) {u : GraphTask}
    → find (λ t. t.id =s= id) tasks ≡ some u
    → 1 ≤ occurrences id tasks
find-occurs id [] h = cc h
find-occurs id (t ∷ tasks) h = elim (Bool-cases (t.id =s= id)) [
  | inl y ↦ rw y (omega arith)
  | inr n ↦ rw n (find-occurs id tasks (rw n at h))
]

-- Where no id stands twice, each task is found by its id.
found_by_id :
    (tasks : List GraphTask)
    → ((id : String) → occurrences id tasks ≤ 1)
    → All (λ u. find (λ t. t.id =s= u.id) tasks ≡ some u) tasks
found_by_id [] one = tt
found_by_id (t ∷ tasks) one = (
  rw (eq_refl t.id) refl,
  All-map (λ u. find (λ x. x.id =s= u.id) tasks ≡ some u)
      (λ u. find (λ x. x.id =s= u.id) (t ∷ tasks) ≡ some u) tasks
      (λ u e. elim (Bool-cases (t.id =s= u.id)) [
        | inl y ↦ let twice = rw y at (one u.id) in absurd (omega (arith, find-occurs u.id tasks e))
        | inr n ↦ rw n e
      ])
      (found_by_id tasks (λ id. let k = one id in ground arith)),
)

no_self :
    (tasks : List GraphTask)
    → IsTaskGraph tasks
    → All (λ t. All (λ d. (d =s= t.id) ≡ false) t.depends_on) tasks
no_self tasks g =
    All-map (λ u. find (λ t. t.id =s= u.id) tasks ≡ some u)
      (λ t. All (λ d. (d =s= t.id) ≡ false) t.depends_on) tasks
      (λ u found.
        All-map (λ d. has u.depends_on d ≡ true) (λ d. (d =s= u.id) ≡ false) u.depends_on
          (λ d listed. elim (Bool-cases (d =s= u.id)) [
            | inl same ↦
                let listed' =
                  subst (λ k. has u.depends_on k ≡ true) ((eq_iff d u.id).0 same) listed in
                absurd (g.acyclic u.id (edge (rw found listed')))
            | inr n ↦ n
          ])
          (all-has u.depends_on))
      (found_by_id tasks g.distinct)

same_dependencies :
    (tasks by_id : List GraphTask)
    → index_tasks [] tasks ≡ ok by_id
    → dependencies_of by_id ≡ dependencies_of tasks
same_dependencies tasks by_id h =
    fun_ext (λ id. ap depends_of (index_tasks-find [] tasks by_id id h))

same_ids :
    (tasks by_id : List GraphTask)
    → index_tasks [] tasks ≡ ok by_id
    → has (ids_of by_id) ≡ has (ids_of tasks)
same_ids tasks by_id h = fun_ext (λ id. index_tasks-has [] tasks by_id id h)

is_closed :
    (tasks : List GraphTask)
    → All (λ t. All (λ d. has (ids_of tasks) d ≡ true) t.depends_on) tasks
    → IsClosed (dependencies_of tasks) (ids_of tasks)
is_closed tasks known a b h =
    All-has (λ d. has (ids_of tasks) d ≡ true) (dependencies_of tasks a) b
      (dependencies-closed (λ d. has (ids_of tasks) d ≡ true) tasks a known) h

accepted_search :
    (r : Result Refusal Marks) {u : Unit {0}} → verdict r ≡ ok u → (t : Marks) × (r ≡ ok t)
accepted_search (ok t) h = (t, refl)
accepted_search (err e) h = cc h

accepted_graph : (tasks : List GraphTask) → validate_task_graph tasks ≡ ok tt → IsTaskGraph tasks
unfolding validate_task_graph
accepted_graph tasks h =
    let (some_one, h1) = throw_if-eq_ok (is_empty tasks) tasks_required _ h in
    let (by_id, indexed, h2) = bind-eq_ok (index_tasks [] tasks) _ h1 in
    let (u, checked, h3) = bind-eq_ok (check_dependencies by_id tasks) _ h2 in
    let known =
      subst (λ p. All (λ t. All (λ d. p d ≡ true) t.depends_on) tasks)
        (same_ids tasks by_id indexed) (check_dependencies-known by_id tasks checked) in
    let (t, searched) = accepted_search (search (dependencies_of tasks) (ids_of tasks)) (
      subst (λ f. verdict (search f (ids_of tasks)) ≡ ok tt) (same_dependencies tasks by_id indexed)
        h3) in
    record {
      some_task = λ e. cc (subst (λ ts. is_empty ts ≡ false) e some_one);
      complete = index_tasks-complete [] tasks by_id indexed;
      distinct =
          λ id. omega (arith, index_tasks-occurrences [] tasks by_id id indexed (omega arith));
      known = known;
      acyclic =
          search-IsAcyclic (dependencies_of tasks) (ids_of tasks) (is_closed tasks known) t
            searched;
    }

not_empty : (tasks : List GraphTask) → tasks ≢ [] → is_empty tasks ≡ false
not_empty [] h = absurd (h refl)
not_empty (t ∷ tasks) h = refl

graph_accepted : (tasks : List GraphTask) → IsTaskGraph tasks → validate_task_graph tasks ≡ ok tt
unfolding validate_task_graph
graph_accepted tasks g =
    let (by_id, indexed) =
      index_tasks_returns [] tasks g.complete (λ id. let k = g.distinct id in omega arith) in
    let known =
      subst (λ p. All (λ t. All (λ d. p d ≡ true) t.depends_on) tasks)
        (sym (same_ids tasks by_id indexed)) g.known in
    let (t, searched) =
      search_accepts (dependencies_of tasks) (ids_of tasks) (is_closed tasks g.known) g.acyclic in
    rw
      (
        not_empty tasks g.some_task,
        indexed,
        check_dependencies_passes by_id tasks known (no_self tasks g),
        same_dependencies tasks by_id indexed,
        searched,
      )
      refl

-- A list of tasks is accepted exactly when it is not empty, every task has an id and a prompt, no
-- id stands twice, every dependency is a task of the list, and no chain of dependencies leads from
-- a task back to itself.
pub validate_task_graph_iff :
    (tasks : List GraphTask) → (validate_task_graph tasks ≡ ok tt) ↔ IsTaskGraph tasks
validate_task_graph_iff tasks = (accepted_graph tasks, graph_accepted tasks)

refused_search :
    (x : Result Refusal Marks) {r : Refusal} → verdict x ≡ err (search_refused r) → x ≡ err r
refused_search (ok t) h = cc h
refused_search (err e) h = ground arith

-- A cycle that is reported is one: the id that the error names depends on itself through a chain of
-- tasks, and the search ends with no other refusal.
pub validate_task_graph-cycle :
    (tasks : List GraphTask) (r : Refusal)
    → validate_task_graph tasks ≡ err (search_refused r)
    → (id : String) × (r ≡ cycle_at id) × Walk (dependencies_of tasks) id id
unfolding validate_task_graph
validate_task_graph-cycle [] r h = cc h
validate_task_graph-cycle (t ∷ ts) r h = elim (bind-eq_err (index_tasks [] (t ∷ ts)) _ h) [
  | inl e ↦ absurd (index_tasks-own [] (t ∷ ts) r e)
  | inr (by_id, indexed, h2) ↦ elim (bind-eq_err (check_dependencies by_id (t ∷ ts)) _ h2) [
    | inl e ↦ absurd (check_dependencies-own by_id (t ∷ ts) r e)
    | inr (u, checked, h3) ↦
        let known =
          subst (λ p. All (λ t. All (λ d. p d ≡ true) t.depends_on) (t ∷ ts))
            (same_ids (t ∷ ts) by_id indexed) (check_dependencies-known by_id (t ∷ ts) checked) in
        search-cycle_at (dependencies_of (t ∷ ts)) (ids_of (t ∷ ts)) (is_closed (t ∷ ts) known) r (
          refused_search (search (dependencies_of (t ∷ ts)) (ids_of (t ∷ ts))) (
            subst (λ f. verdict (search f (ids_of (t ∷ ts))) ≡ err (search_refused r))
              (same_dependencies (t ∷ ts) by_id indexed) h3))
  ]
]
