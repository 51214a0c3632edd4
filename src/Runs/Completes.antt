-- ===== src/Runs/Completes.antt =====
-- `refreshRun` of src/registry.js completes a Run whose tasks have all succeeded.
use Prim.Native.String.{◌++◌ as ◌<>◌}
use text.Mathlib.TextLemmas.{append-eq-nil_iff}
use codex_threadhub.Base.{
  ℕ, ◌≤◌, String, true, false, some, List, [], ◌∷◌, keep, length, ◌=s=◌, is_ok, Result-cases, ok,
  ◌≡◌, ◌≢◌, refl, sym, ap, subst, ◌∙◌, arith, All, Bool-cases, inl, inr, eq_iff, eq_refl, Bool,
  find, Option, Result, err, ok_inj,
}
use codex_threadhub.Base.Order.{length-order_by, All-order_by, take_ordered}
use codex_threadhub.Base.Members.{All-keep}
use codex_threadhub.Base.Table.{update_where, find-eq_some}
use codex_threadhub.Registry.{Task, Registry}
use codex_threadhub.Notices.{
  Board, Notice, NoticeError, NoticeKind, normalize_notification_kind, classify_run_notification,
  create_notification,
}
use codex_threadhub.States.Machine.{no_options, move}
use codex_threadhub.States.Run.{RunStatus, is_run, move_run}
use codex_threadhub.States.Derive.{derive_run_status}
use codex_threadhub.States.Outcomes.{Succeeds, derive_run_status-completed_iff}
use codex_threadhub.Runs.Rows.{
  Run, Store, has_id, get_run, check_status, changed_run, write_run, update_run,
}
use codex_threadhub.Runs.Refresh.{
  newest_first, of_run, list_tasks, task_limit, statuses, end_changes, end_run, refresh_run,
  notify_end, posted, run_notice,
}

statuses-Succeeds :
    (ts : List Task) → All (λ (t : Task). Succeeds t.status) ts → All Succeeds (statuses ts)
statuses-Succeeds [] h = tt
statuses-Succeeds (t ∷ ts) (h, hs) = (h, statuses-Succeeds ts hs)

none_listed : (ts : List Task) → statuses (newest_first ts) ≡ [] → ts ≡ []
none_listed ts e = empty ts (sym (length-order_by _ ts) ∙ none (newest_first ts) e)
  where
    none : (xs : List Task) → statuses xs ≡ [] → length xs ≡ 0
    none [] h = refl
    none (x ∷ xs) h = cc h

    empty : (xs : List Task) → length xs ≡ 0 → xs ≡ []
    empty [] h = refl
    empty (x ∷ xs) h = absurd (omega arith)

-- The verdict of the tasks.
all_completed :
    (id : String) (r : Registry)
    → keep (of_run id) r.tasks ≢ []
    → length (keep (of_run id) r.tasks) ≤ task_limit
    → All (λ t. of_run id t ≡ true → Succeeds t.status) r.tasks
    → derive_run_status (statuses (list_tasks id task_limit r)) ≡ some RunStatus.completed
unfolding list_tasks
all_completed id r n l a =
    let own = keep (of_run id) r.tasks in
    let listed : list_tasks id task_limit r ≡ newest_first own = take_ordered _ task_limit own l in
    let good = statuses-Succeeds (newest_first own) (
      All-order_by _ (λ t. Succeeds t.status) own
        (All-keep (λ (t : Task). Succeeds t.status) (of_run id) r.tasks a)) in
    subst (λ ts. derive_run_status (statuses ts) ≡ some RunStatus.completed) (sym listed)
      ((derive_run_status-completed_iff (statuses (newest_first own))).1
        ((λ e. n (none_listed own e)), good))

key_given : (id : String) → ((id <> (":" <> "completed")) =s= "") ≡ false
key_given id = elim (Bool-cases ((id <> (":" <> "completed")) =s= "")) [
  | inr n ↦ n
  | inl y ↦
      let (_, e) = append-eq-nil_iff.0 ((eq_iff (id <> (":" <> "completed")) "").0 y) in absurd cc
]

-- The notification of a completed Run is always accepted.
completed_posted :
    (run : Run) (random : String) (now : ℕ) (s : Store)
    → is_ok (notify_end run (some NoticeKind.completed) random now s) ≡ true
unfolding notify_end create_notification normalize_notification_kind
completed_posted run random now s = rw (key_given run.id) refl

may_complete :
    (s : RunStatus) → s ≡ RunStatus.running → check_status s RunStatus.completed no_options ≡ ok tt
unfolding check_status move_run move
may_complete s e = rw e refl

-- A row that is written over is found with its new columns.
find_written :
    (p : Run → Bool) (row : Run) (xs : List Run) {x : Run}
    → p row ≡ true
    → find p xs ≡ some x
    → find p (update_where p (λ _. row) xs) ≡ some row
unfolding update_where
find_written p row [] h e = cc e
find_written p row (y ∷ ys) h e = elim (Bool-cases (p y)) [
  | inl m ↦ rw (m, h) refl
  | inr n ↦ rw (n, n) (find_written p row ys h (sym (rw n refl) ∙ e))
]

write_run-runs :
    (run : Run) (status : RunStatus) (row : Run) (s : Store)
    → (write_run run status row s).runs ≡ update_where (has_id run.id) (λ _. row) s.runs
write_run-runs run status row s = elim (Bool-cases (is_run status run.status)) [
  | inl y ↦ rw y refl
  | inr n ↦ rw n refl
]

posted-runs :
    (s u : Store) (r : Result NoticeError (Board × Option Notice))
    → posted s r ≡ ok u
    → u.runs ≡ s.runs
posted-runs s u (ok (board, row)) e = sym (ap (λ (x : Store). x.runs) (ok_inj e))
posted-runs s u (err n) e = cc e

notify_end-runs :
    (row : Run) (kind : NoticeKind) (random : String) (now : ℕ) (s u : Store)
    → notify_end row (some kind) random now s ≡ ok u
    → u.runs ≡ s.runs
unfolding notify_end
notify_end-runs row kind random now s u e =
    posted-runs s u (create_notification (run_notice row kind) random now s.board) e

end_run_completes :
    (run : Run) (random : String) (now : ℕ) (s : Store)
    → get_run run.id s ≡ some run
    → run.status ≡ RunStatus.running
    → (u : Store) × (row : Run) × (end_run run RunStatus.completed random now s ≡ ok (u, some row))
      × (get_run run.id u ≡ some row)
      × (row.status ≡ RunStatus.completed)
      × (row.completed_at ≡ some now)
unfolding update_run classify_run_notification
end_run_completes run random now s f r =
    let row = changed_run (end_changes RunStatus.completed now) RunStatus.completed now run in
    let w = write_run run RunStatus.completed row s in
    elim (Result-cases (notify_end row (some NoticeKind.completed) random now w)) [
      | inl (u, e) ↦
          let same =
            notify_end-runs row NoticeKind.completed random now w u e
            ∙ write_run-runs run RunStatus.completed row s in
          let held : get_run run.id u ≡ some row =
            ap (find (has_id run.id)) same
            ∙ find_written (has_id run.id) row s.runs (eq_refl run.id) f in
          (u, row, rw (f, may_complete run.status r, e) refl, held, refl, refl)
      | inr (x, e) ↦ absurd (cc (ap is_ok e, completed_posted row random now w))
    ]

-- A running Run with a task, with at most as many tasks as are listed, and all of whose tasks have
-- succeeded is completed by `refreshRun`: the row that it returns is `completed` since that time, and
-- the table that it leaves holds this row under the id.
pub refresh_run_completes :
    (id random : String) (now : ℕ) (s : Store) (run : Run)
    → get_run id s ≡ some run
    → run.status ≡ RunStatus.running
    → keep (of_run run.id) s.registry.tasks ≢ []
    → length (keep (of_run run.id) s.registry.tasks) ≤ task_limit
    → All (λ t. of_run run.id t ≡ true → Succeeds t.status) s.registry.tasks
    → (u : Store) × (row : Run) × (refresh_run id random now s ≡ ok (u, some row))
      × (get_run id u ≡ some row)
      × (row.status ≡ RunStatus.completed)
      × (row.completed_at ≡ some now)
unfolding refresh_run
refresh_run_completes id random now s run f r n l a =
    let named = (eq_iff run.id id).0 (find-eq_some (has_id id) s.runs f).1 in
    let own = subst (λ k. get_run k s ≡ some run) (sym named) f in
    let (u, row, e, held, c, at) = end_run_completes run random now s own r in
    (
      u,
      row,
      rw (f, r, all_completed run.id s.registry n l a) e,
      subst (λ k. get_run k u ≡ some row) named held,
      c,
      at,
    )
