-- ===== src/Runs/Verdicts.antt =====
-- When `refreshRun` of src/registry.js completes a Run.
use codex_threadhub.Base.{
  ℕ, String, true, false, Option, none, some, List, [], ◌∷◌, keep, length, or_else, ok, ◌>>=◌, ◌≡◌,
  refl, sym, ap, subst, ◌∙◌, All, ◌≤◌, ◌≢◌,
}
use codex_threadhub.Base.Ensures.{
  Ensures, Ensures-ok, Ensures-err, Ensures-if, Ensures-then, Ensures-bind, Ensures-mono,
}
use codex_threadhub.Base.Members.{keep-All}
use codex_threadhub.Base.Order.{order_by-All, take_ordered}
use codex_threadhub.Registry.{Task}
use codex_threadhub.Notices.{classify_run_notification}
use codex_threadhub.States.Machine.{no_options, Options}
use codex_threadhub.States.Run.{RunStatus, is_run, is_terminal_run}
use codex_threadhub.States.Derive.{derive_run_status}
use codex_threadhub.States.Outcomes.{Succeeds, derive_run_status-completed_iff}
use codex_threadhub.Runs.Rows.{
  Run, Store, RunChanges, get_run, check_status, changed_run, write_run, update_found, update_run,
}
use codex_threadhub.Runs.Refresh.{
  newest_first, of_run, list_tasks, task_limit, statuses, end_changes, end_run, settle,
  refresh_found, refresh_run, notify_end,
}

All-map_status :
    (ts : List Task) → All Succeeds (statuses ts) → All (λ (t : Task). Succeeds t.status) ts
All-map_status [] h = tt
All-map_status (t ∷ ts) (h, hs) = (h, All-map_status ts hs)

-- What an update returns has the status that was asked for.
update_found-Ensures :
    (o : Option Run) (c : RunChanges) (options : Options) (now : ℕ) (s : Store) (status : RunStatus)
    → c.status ≡ some status
    → Ensures (λ x. x.1.status ≡ status) (update_found c options now s o)
update_found-Ensures none c options now s status k = Ensures-err _
update_found-Ensures (some run) c options now s status k =
    let to = or_else c.status run.status in
    let written = changed_run c to now run in
    Ensures-then (check_status run.status to options)
      (λ _. ok (write_run run to written s, written))
      (λ _ _. Ensures-ok _ (ap (λ o. or_else o run.status) k))

update_run-Ensures :
    (id : String) (c : RunChanges) (now : ℕ) (s : Store) (status : RunStatus)
    → c.status ≡ some status
    → Ensures (λ x. x.1.status ≡ status) (update_run id c no_options now s)
unfolding update_run
update_run-Ensures id c now s status k =
    update_found-Ensures (get_run id s) c no_options now s status k

end_run-Ensures :
    (run : Run) (status : RunStatus) (random : String) (now : ℕ) (s : Store)
    → Ensures
        (λ x. (row : Run) → x.1 ≡ some row → row.status ≡ status)
        (end_run run status random now s)
end_run-Ensures run status random now s =
    let changes = end_changes status now in
    let notified = λ (p : Store × Run).
      notify_end p.1
        (classify_run_notification p.1.status (list_tasks run.id task_limit s.registry)) random now
        p.0 in
    Ensures-bind (update_run run.id changes no_options now s)
      (λ p. notified p >>= λ (v : Store). ok (v, some p.1))
      (update_run-Ensures run.id changes now s status refl)
      (λ p h.
        Ensures-then (notified p) (λ (v : Store). ok (v, some p.1))
          (λ v _.
            Ensures-ok _ (λ row e. sym (ap (λ (o : Option Run). (or_else o row).status) e) ∙ h)))

same_run :
    (run row : Run)
    → some run ≡ some row
    → is_terminal_run run.status ≡ false
    → is_terminal_run row.status ≡ true
    → ⊥
same_run run row e n t = cc

-- The Run that is returned, if it has ended, has ended as its tasks say.
abbrev EndsAs : Option RunStatus → Store × Option Run → Type 0
EndsAs verdict x =
    (row : Run) → x.1 ≡ some row → is_terminal_run row.status ≡ true → verdict ≡ some row.status

settle-Ensures :
    (run : Run) (verdict : Option RunStatus) (random : String) (now : ℕ) (s : Store)
    → is_terminal_run run.status ≡ false
    → Ensures (EndsAs verdict) (settle run verdict random now s)
settle-Ensures run none random now s n = Ensures-ok _ (λ row e t. absurd (same_run run row e n t))
settle-Ensures run (some status) random now s n =
    Ensures-if (is_run run.status status) _ _
      (λ _. Ensures-ok _ (λ row e t. absurd (same_run run row e n t)))
      (λ _.
        Ensures-mono (end_run run status random now s) (λ x h row e t. ap some (sym (h row e)))
          (end_run-Ensures run status random now s))

refresh_found-Ensures :
    (run : Run) (random : String) (now : ℕ) (s : Store)
    → is_terminal_run run.status ≡ false
    → Ensures
        (EndsAs (derive_run_status (statuses (list_tasks run.id task_limit s.registry))))
        (refresh_found random now s (some run))
refresh_found-Ensures run random now s n = rw n (settle-Ensures run _ random now s n)

-- With at most as many tasks as are listed, a Run that `refreshRun` completes has a task, and every
-- task of it has succeeded.
pub refresh_run-completed :
    (id random : String) (now : ℕ) (s u : Store) (run row : Run)
    → get_run id s ≡ some run
    → is_terminal_run run.status ≡ false
    → length (keep (of_run run.id) s.registry.tasks) ≤ task_limit
    → refresh_run id random now s ≡ ok (u, some row)
    → row.status ≡ RunStatus.completed
    → (keep (of_run run.id) s.registry.tasks ≢ [])
      × All (λ t. of_run run.id t ≡ true → Succeeds t.status) s.registry.tasks
unfolding refresh_run list_tasks
refresh_run-completed id random now s u run row f n l e c =
    let own = keep (of_run run.id) s.registry.tasks in
    let found = subst (λ o. refresh_found random now s o ≡ ok (u, some row)) f e in
    let ends = subst (λ x. is_terminal_run x ≡ true) (sym c) refl in
    let derived =
      (refresh_found-Ensures run random now s n).at (u, some row) found row refl ends ∙ ap some c in
    let listed : list_tasks run.id task_limit s.registry ≡ newest_first own =
      take_ordered _ task_limit own l in
    let all_derived =
      subst (λ ts. derive_run_status (statuses ts) ≡ some RunStatus.completed) listed derived in
    let (some_task, good) =
      (derive_run_status-completed_iff (statuses (newest_first own))).0 all_derived in
    (
      λ none_own. some_task (ap (λ ts. statuses (newest_first ts)) none_own),
      keep-All (λ t. Succeeds t.status) (of_run run.id) s.registry.tasks
          (order_by-All _ (λ t. Succeeds t.status) own (All-map_status (newest_first own) good)),
    )
