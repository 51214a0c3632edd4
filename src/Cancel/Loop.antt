-- ===== src/Cancel/Loop.antt =====
-- The loop of `cancelRun` over the tasks of the Run: what it keeps, and that it leaves none open.
use codex_threadhub.Base.{
  ℕ, String, Bool, true, false, not, ◌&&◌, some, List, [], ◌∷◌, any, find, ◌=s=◌, is_ok,
  Result-cases, ok, ◌≡◌, refl, sym, ap, subst, ◌∙◌, arith, All, All-Memᴰ, All-map, Bool-cases, inl,
  inr, eq_iff, and_false,
}
use codex_threadhub.Base.Members.{All_of_Memᴰ, any-find}
use codex_threadhub.Base.Table.{update_where, find-eq_some}
use codex_threadhub.States.Task.{TaskStatus, is_terminal_task}
use codex_threadhub.Registry.{Task, Registry}
use codex_threadhub.Tasks.Rules.{UniqueIds, unique_row}
use codex_threadhub.Tasks.Rounds.{UniqueIds-update_where}
use codex_threadhub.Runs.Refresh.{of_run}
use codex_threadhub.Cancel.{Plane, cancel_task, cancel_each}
use codex_threadhub.Base.Sweep.{Covered, step-Covered, none-Covered}
use codex_threadhub.Cancel.Returns.{cancel_task-is_ok}
use codex_threadhub.Cancel.Rows.{Ended, before, now_canceled, cancel_task-Ends}

-- A task of the Run that has not ended.
abbrev pub goes_on : String → Task → Bool
goes_on id t = of_run id t && not (is_terminal_task t.status)

abbrev pub same_id : Task → Task → Bool
same_id t x = x.id =s= t.id

-- Every task of the list has a row.
abbrev pub Known : List Task → List Task → Type 0
Known ls rows = All (λ t. any (same_id t) rows ≡ true) ls

-- Writing over the rows of an id keeps the ids.
any-written :
    (id k : String) (row : Task) (xs : List Task)
    → row.id ≡ id
    → any (λ x. x.id =s= k) (update_where (λ x. x.id =s= id) (λ _. row) xs)
      ≡ any (λ x. x.id =s= k) xs
unfolding update_where
any-written id k row [] e = refl
any-written id k row (x ∷ xs) e = elim (Bool-cases (x.id =s= id)) [
  | inl y ↦
      let same : row.id ≡ x.id = e ∙ sym ((eq_iff x.id id).0 y) in
      rw (y, any-written id k row xs e, same) refl
  | inr n ↦ rw (n, any-written id k row xs e) refl
]

module _ (run : String) where
  -- What the loop keeps: a row for every task to come, and no open task of the Run that is not to come.
  pub record IsSwept (ls rows : List Task) : Type 0 where
    pub unique : UniqueIds rows
    pub known : Known ls rows
    pub covered : All (Covered (goes_on run) same_id ls) rows

  canceled_stops : (row : Task) → row.status ≡ TaskStatus.canceled → goes_on run row ≡ false
  canceled_stops row e = rw e (and_false (of_run run row))

  ended_covers :
      (t found : Task) (ls rows : List Task)
      → UniqueIds rows
      → find (λ x. x.id =s= t.id) rows ≡ some found
      → is_terminal_task found.status ≡ true
      → All (Covered (goes_on run) same_id (t ∷ ls)) rows
      → All (Covered (goes_on run) same_id ls) rows
  ended_covers t found ls rows u f h a =
      All_of_Memᴰ (Covered (goes_on run) same_id ls) rows (λ x m y.
        let c = All-Memᴰ (Covered (goes_on run) same_id (t ∷ ls)) rows a m y in
        elim (Bool-cases (same_id t x)) [
          | inr n ↦ ground arith
          | inl e ↦
              let (k, named) = find-eq_some (λ x. x.id =s= t.id) rows f in
              let same =
                unique_row rows u m k
                  ((eq_iff x.id t.id).0 e ∙ sym ((eq_iff found.id t.id).0 named)) in
              let over = subst (λ z. is_terminal_task z.status ≡ true) (sym same) h in
              absurd (closed x over y)
        ])
    where
      closed : (x : Task) → is_terminal_task x.status ≡ true → goes_on run x ≡ true → ⊥
      closed x o y = let n : is_terminal_task x.status ≡ false = ground arith in cc (o, n)

  step-IsSwept :
      (t : Task) (ls : List Task) (r u : Registry)
      → IsSwept (t ∷ ls) r.tasks
      → Ended t.id r u
      → IsSwept ls u.tasks
  step-IsSwept t ls r u s (before found f h same) = subst (IsSwept ls) same (record {
    unique = s.unique;
    known = s.known.1;
    covered = ended_covers t found ls r.tasks s.unique f h s.covered;
  })
  step-IsSwept t ls r u s (now_canceled row (e, named, same)) = subst (IsSwept ls) same (record {
    unique =
        UniqueIds-update_where (same_id t) (λ _. row) r.tasks
          (λ x y. named ∙ sym ((eq_iff x.id t.id).0 y)) s.unique;
    known =
        All-map (λ k. any (same_id k) r.tasks ≡ true)
          (λ k. any (same_id k) (update_where (same_id t) (λ _. row) r.tasks) ≡ true) ls
          (λ k h. any-written t.id k.id row r.tasks named ∙ h) s.known.1;
    covered =
        step-Covered (goes_on run) same_id t ls (λ _. row) r.tasks (λ _. canceled_stops row e)
          s.covered;
  })

  -- The loop returns, and leaves no task of the Run open.
  pub cancel_each-stops :
      (ls : List Task) (now : ℕ) (p : Plane)
      → IsSwept ls p.store.registry.tasks
      → (q : Plane) × (cancel_each ls now p ≡ ok q)
        × (p.store.runs ≡ q.store.runs)
        × All (λ x. goes_on run x ≡ false) q.store.registry.tasks
  unfolding cancel_each
  cancel_each-stops [] now p s =
      (p, refl, refl, none-Covered (goes_on run) same_id p.store.registry.tasks s.covered)
  cancel_each-stops (t ∷ ls) now p s =
      let (found, f) = any-find (same_id t) p.store.registry.tasks s.known.0 in
      elim (Result-cases (cancel_task t.id true now p)) [
        | inl ((q, row), e) ↦
            let (ends, runs) = (cancel_task-Ends t.id now p found f).at (q, row) e in
            let (u, returned, same, stopped) =
              cancel_each-stops ls now q
                (step-IsSwept t ls p.store.registry q.store.registry s ends) in
            (u, rw e returned, runs ∙ same, stopped)
        | inr (x, e) ↦
            let k = cancel_task-is_ok t.id true now p found (inl refl) f in
            absurd (cc (ap is_ok e, k))
      ]
