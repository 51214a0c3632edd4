-- ===== src/Graph/Tasks/Index.antt =====
-- What the first two loops of validateTaskGraph establish.
use codex_threadhub.Base.{
  ℕ, ◌+◌, ◌≤◌, String, false, ◌||◌, List, [], ◌∷◌, none, find, or_option, ok, throw_if-eq_ok, ◌=s=◌,
  ◌≡◌, refl, arith, All, Bool-cases, inl, inr, eq_refl, eq_iff, subst,
}
use codex_threadhub.Base.Counts.{count, count-any-false, any-count_zero}
use codex_threadhub.Graph.Walk.{has}
use codex_threadhub.Graph.Tasks.{GraphTask, fields_required, duplicate_id, ids_of, index_tasks}

-- Both texts are there.
abbrev pub IsComplete : GraphTask → Type 0
IsComplete t = (t.id =s= "" || t.prompt =s= "") ≡ false

-- How often an id stands among the tasks.
abbrev pub occurrences : String → List GraphTask → ℕ
occurrences id tasks = count (λ other. other =s= id) (ids_of tasks)

pub index_tasks-complete :
    (by_id tasks final : List GraphTask) → index_tasks by_id tasks ≡ ok final → All IsComplete tasks
unfolding index_tasks
index_tasks-complete by_id [] final h = tt
index_tasks-complete by_id (t ∷ tasks) final h =
    let (full, h1) = throw_if-eq_ok (t.id =s= "" || t.prompt =s= "") fields_required _ h in
    let (_, h2) = throw_if-eq_ok (has (ids_of by_id) t.id) (duplicate_id t.id) _ h1 in
    (full, index_tasks-complete (t ∷ by_id) tasks final h2)

pub index_tasks-occurrences :
    (by_id tasks final : List GraphTask) (id : String)
    → index_tasks by_id tasks ≡ ok final
    → occurrences id by_id ≤ 1
    → occurrences id by_id + occurrences id tasks ≤ 1
unfolding index_tasks
index_tasks-occurrences by_id [] final id h one = omega arith
index_tasks-occurrences by_id (t ∷ tasks) final id h one =
    let (_, h1) = throw_if-eq_ok (t.id =s= "" || t.prompt =s= "") fields_required _ h in
    let (fresh, h2) = throw_if-eq_ok (has (ids_of by_id) t.id) (duplicate_id t.id) _ h1 in
    let rest = index_tasks-occurrences (t ∷ by_id) tasks final id h2 in
    elim (Bool-cases (t.id =s= id)) [
      | inl y ↦
          let free : occurrences id by_id ≡ 0 =
            subst (λ k. occurrences k by_id ≡ 0) ((eq_iff t.id id).0 y)
              (count-any-false (λ other. other =s= t.id) (ids_of by_id) fresh) in
          ground arith
      | inr n ↦ ground arith
    ]

absent :
    (id : String) (tasks : List GraphTask)
    → has (ids_of tasks) id ≡ false
    → find (λ t. t.id =s= id) tasks ≡ none
absent id [] h = refl
absent id (t ∷ tasks) h = ground (arith, absent id tasks)

-- The index finds what the list finds.
pub index_tasks-find :
    (by_id tasks final : List GraphTask) (id : String)
    → index_tasks by_id tasks ≡ ok final
    → find (λ t. t.id =s= id) final
      ≡ or_option (find (λ t. t.id =s= id) by_id) (find (λ t. t.id =s= id) tasks)
unfolding index_tasks
index_tasks-find by_id [] final id h = ground arith
index_tasks-find by_id (t ∷ tasks) final id h =
    let (_, h1) = throw_if-eq_ok (t.id =s= "" || t.prompt =s= "") fields_required _ h in
    let (fresh, h2) = throw_if-eq_ok (has (ids_of by_id) t.id) (duplicate_id t.id) _ h1 in
    let rest = index_tasks-find (t ∷ by_id) tasks final id h2 in
    elim (Bool-cases (t.id =s= id)) [
      | inl y ↦
          let gone =
            absent id by_id
              (subst (λ k. has (ids_of by_id) k ≡ false) ((eq_iff t.id id).0 y) fresh) in
          rw (y, gone) (rw y at rest)
      | inr n ↦ rw n (rw n at rest)
    ]

pub index_tasks-has :
    (by_id tasks final : List GraphTask) (id : String)
    → index_tasks by_id tasks ≡ ok final
    → has (ids_of final) id ≡ (has (ids_of by_id) id || has (ids_of tasks) id)
unfolding index_tasks
index_tasks-has by_id [] final id h = ground arith
index_tasks-has by_id (t ∷ tasks) final id h =
    let (_, h1) = throw_if-eq_ok (t.id =s= "" || t.prompt =s= "") fields_required _ h in
    let (fresh, h2) = throw_if-eq_ok (has (ids_of by_id) t.id) (duplicate_id t.id) _ h1 in
    let rest = index_tasks-has (t ∷ by_id) tasks final id h2 in ground arith

pub index_tasks_returns :
    (by_id tasks : List GraphTask)
    → All IsComplete tasks
    → ((id : String) → occurrences id by_id + occurrences id tasks ≤ 1)
    → (final : List GraphTask) × (index_tasks by_id tasks ≡ ok final)
unfolding index_tasks
index_tasks_returns by_id [] a h = (by_id, refl)
index_tasks_returns by_id (t ∷ tasks) (full, a) h =
    let fresh =
      any-count_zero (λ other. other =s= t.id) (ids_of by_id)
        (let k = rw (eq_refl t.id) at (h t.id) in omega arith) in
    let (final, e) = index_tasks_returns (t ∷ by_id) tasks a (λ id. let k = h id in ground arith) in
    (final, rw (full, fresh) e)
