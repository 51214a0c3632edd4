-- ===== src/Cancel/WholeRun.antt =====
-- `cancelRun` ends every task of the Run, and then the Run.
use codex_threadhub.Base.{
  ℕ, ◌≤◌, String, Bool, true, false, ◌&&◌, some, any, find, keep, length, ◌=s=◌, ok, ◌≡◌, refl, sym,
  ap, subst, ◌∙◌, arith, All, All-map, Bool-cases, inl, inr, eq_refl,
}
use codex_threadhub.Base.Order.{any-order_by, take_ordered}
use codex_threadhub.Base.Members.{All_of_Memᴰ, any-keep}
use codex_threadhub.Base.Table.{any-Memᴰ}
use codex_threadhub.States.Machine.{no_options}
use codex_threadhub.States.Run.{RunStatus, is_run, is_terminal_run}
use codex_threadhub.States.Transitions.{move_run-cancelled}
use codex_threadhub.Registry.{Task, Registry}
use codex_threadhub.Tasks.Rules.{UniqueIds}
use codex_threadhub.Runs.Rows.{
  Run, Store, has_id, get_run, check_status, update_found, update_run, changed_run, write_run,
}
use codex_threadhub.Runs.Refresh.{of_run, list_tasks, task_limit, end_changes}
use codex_threadhub.Runs.Untouched.{Listed, list_tasks-Listed}
use codex_threadhub.Dispatches.Cancel.{is_child, cancel_all, request_turn_dispatch_cancellation}
use codex_threadhub.Runs.Events.{update_found-tasks}
use codex_threadhub.Cancel.{Plane, by_run, cancel_dispatches, cancel_run}
use codex_threadhub.Base.Sweep.{Covered}
use codex_threadhub.Cancel.Loop.{goes_on, same_id, IsSwept, cancel_each-stops}

any-list_tasks :
    (p : Task → Bool) (id : String) (r : Registry)
    → length (keep (of_run id) r.tasks) ≤ task_limit
    → any p (list_tasks id task_limit r) ≡ any (λ x. of_run id x && p x) r.tasks
unfolding list_tasks
any-list_tasks p id r l =
    let own = keep (of_run id) r.tasks in
    ap (any p) (take_ordered _ task_limit own l)
    ∙ any-order_by _ p own
    ∙ any-keep p (of_run id) r.tasks

list_tasks-IsSwept :
    (id : String) (r : Registry)
    → UniqueIds r.tasks
    → length (keep (of_run id) r.tasks) ≤ task_limit
    → IsSwept id (list_tasks id task_limit r) r.tasks
list_tasks-IsSwept id r u l = record {
  unique = u;
  known =
      All-map (Listed id r.tasks) (λ t. any (same_id t) r.tasks ≡ true) (list_tasks id task_limit r)
        (λ t (m, _). any-Memᴰ (same_id t) r.tasks m (eq_refl t.id))
        (list_tasks-Listed id task_limit r);
  covered =
      All_of_Memᴰ (Covered (goes_on id) same_id (list_tasks id task_limit r)) r.tasks (λ x m y.
        let own : of_run id x ≡ true = ground arith in
        any-list_tasks (λ t. same_id t x) id r l
        ∙ any-Memᴰ (λ t. of_run id t && same_id t x) r.tasks m (rw (own, eq_refl x.id) refl));
}

dispatches_stop :
    (id : String) (requested : Bool) (now : ℕ) (p : Plane)
    → (id =s= "") ≡ false
    → (q : Plane) × (cancel_dispatches requested (by_run id) now p ≡ ok q) × (p.store ≡ q.store)
unfolding request_turn_dispatch_cancellation
dispatches_stop id true now p h = (p, refl, refl)
dispatches_stop id false now p h =
    let ds = keep (is_child (by_run id)) p.dispatches.rows in
    (record p { dispatches = cancel_all now ds p.dispatches }, rw h refl, refl)

check_cancelled :
    (s : RunStatus)
    → is_terminal_run s ≡ false
    → check_status s RunStatus.cancelled no_options ≡ ok tt
unfolding check_status
check_cancelled s h = elim (Bool-cases (is_run RunStatus.cancelled s)) [
  | inl y ↦ rw y refl
  | inr n ↦ rw (n, move_run-cancelled s h) refl
]

run_ends :
    (id : String) (now : ℕ) (s : Store) (run : Run)
    → get_run id s ≡ some run
    → is_terminal_run run.status ≡ false
    → (u : Store) × (row : Run) × (update_run id
          (end_changes RunStatus.cancelled now)
          no_options
          now
          s
        ≡ ok (u, row))
      × (row.status ≡ RunStatus.cancelled)
      × (u.registry.tasks ≡ s.registry.tasks)
unfolding update_run
run_ends id now s run f h =
    let c = end_changes RunStatus.cancelled now in
    let row = changed_run c RunStatus.cancelled now run in
    let u = write_run run RunStatus.cancelled row s in
    let returned : update_found c no_options now s (some run) ≡ ok (u, row) =
      rw (check_cancelled run.status h) refl in
    (u, row, rw f returned, refl, update_found-tasks (some run) c now s u row returned)

-- Cancelling a Run that has not ended returns the cancelled Run, and leaves no task of it open, where
-- the Run has at most as many tasks as are listed.
pub cancel_run-stops :
    (id : String) (requested : Bool) (now : ℕ) (p : Plane) (run : Run)
    → (id =s= "") ≡ false
    → get_run id p.store ≡ some run
    → is_terminal_run run.status ≡ false
    → UniqueIds p.store.registry.tasks
    → length (keep (of_run id) p.store.registry.tasks) ≤ task_limit
    → (q : Plane) × (row : Run) × (cancel_run id requested now p ≡ ok (q, row))
      × (row.status ≡ RunStatus.cancelled)
      × All (λ x. goes_on id x ≡ false) q.store.registry.tasks
unfolding cancel_run
cancel_run-stops id requested now p run n f h unique l =
    let (p1, first, same) = dispatches_stop id requested now p n in
    let swept =
      subst (λ (s : Store). IsSwept id (list_tasks id task_limit s.registry) s.registry.tasks) same
        (list_tasks-IsSwept id p.store.registry unique l) in
    let (p2, second, runs, stopped) =
      cancel_each-stops id (list_tasks id task_limit p1.store.registry) now p1 swept in
    let found =
      subst (λ rs. find (has_id id) rs ≡ some run) runs
        (subst (λ (s : Store). get_run id s ≡ some run) same f) in
    let (u, row, third, cancelled, tasks) = run_ends id now p2.store run found h in
    (
      record p2 { store = u },
      row,
      rw (f, first, second, third) refl,
      cancelled,
      subst (All (λ x. goes_on id x ≡ false)) (sym tasks) stopped,
    )
