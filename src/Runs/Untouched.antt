-- ===== src/Runs/Untouched.antt =====
-- What `failPreparedRun` of src/registry.js leaves alone.
use mathlib.Core.List.{Memᴰ, not-mem-nil}
use codex_threadhub.Base.{
  ℕ, String, Bool, true, false, not, ◌||◌, any, Option, some, List, [], ◌∷◌, keep, Result, ok, err,
  ok_inj, ◌>>=◌, throw_if, throw_if-eq_ok, bind-eq_ok, ◌≡◌, refl, sym, ap, subst, ◌∙◌, arith, All,
  any-false→All, ◌=s=◌, inl, inr, if◌then◌else◌, Bool-cases, eq_iff, ◌⊎◌,
}
use codex_threadhub.Base.Order.{All-order_by}
use codex_threadhub.Base.Members.{All_of_Memᴰ, All-take, All-keep, All-both}
use codex_threadhub.Base.Table.{update_where}
use codex_threadhub.Registry.{Task, Registry, FailureRecord, record_event}
use codex_threadhub.Notices.{Board, Notice, NoticeError, create_notification}
use codex_threadhub.States.Machine.{no_options}
use codex_threadhub.States.Run.{RunStatus, run_in, is_terminal_run, move_run}
use codex_threadhub.States.Task.{is_terminal_task}
use codex_threadhub.Tasks.Rules.{UniqueIds, unique_row}
use codex_threadhub.Runs.Rows.{
  Run, Store, RunError, not_in_preparation, execution_started, get_run, allowed,
}
use codex_threadhub.Runs.Refresh.{newest_first, of_run, list_tasks, task_limit, posted}
use codex_threadhub.Runs.Prepared.{
  PreparationFailure, preparing_statuses, has_owner, is_unsafe, check_each, prepared_row, fail_one,
  fail_each, log_each, failed_store, preparation_record, preparation_notice, write_failure,
  fail_checked, fail_found, fail_prepared_run,
}

-- The tasks that are listed are rows of the Run.
abbrev pub Listed : String → List Task → Task → Type 0
Listed id rows t = Memᴰ t rows × (of_run id t ≡ true)

pub list_tasks-Listed :
    (id : String) (n : ℕ) (r : Registry) → All (Listed id r.tasks) (list_tasks id n r)
unfolding list_tasks
list_tasks-Listed id n r =
    let own = keep (of_run id) r.tasks in
    All-take (Listed id r.tasks) n (newest_first own) (
      All-order_by _ (Listed id r.tasks) own (
        All-keep (Listed id r.tasks) (of_run id) r.tasks
          (All_of_Memᴰ _ r.tasks (λ t m own. (m, own)))))

-- A row that an update does not match is still there.
update_where-Memᴰ :
    {A : Type 0} (p : A → Bool) (f : A → A) (xs : List A) {x : A}
    → p x ≡ false
    → Memᴰ x xs
    → Memᴰ x (update_where p f xs)
unfolding update_where
update_where-Memᴰ p f [] n m = absurd (not-mem-nil ∣ m ∣₁)
update_where-Memᴰ p f (y ∷ ys) {x} n (Memᴰ.head e) =
    let same = subst (λ z. p z ≡ false) e n in Memᴰ.head (e ∙ rw same refl)
update_where-Memᴰ p f (y ∷ ys) n (Memᴰ.tail m) = Memᴰ.tail (update_where-Memᴰ p f ys n m)

-- Writing over this task does not reach the row.
abbrev Misses : Task → Task → Type 0
Misses x t = (is_terminal_task t.status || not (x.id =s= t.id)) ≡ true

fail_each-Memᴰ :
    (f : FailureRecord) (now : ℕ) (tasks rows : List Task) (x : Task)
    → All (Misses x) tasks
    → Memᴰ x rows
    → Memᴰ x (fail_each f now tasks rows)
unfolding fail_each
fail_each-Memᴰ f now [] rows x a m = m
fail_each-Memᴰ f now (t ∷ tasks) rows x (h, hs) m =
    fail_each-Memᴰ f now tasks (fail_one f now t rows) x hs (go (is_terminal_task t.status) h)
  where
    go :
        (b : Bool)
        → (b || not (x.id =s= t.id)) ≡ true
        → Memᴰ x (if b then rows else update_where (λ y. y.id =s= t.id) (prepared_row f now) rows)
    go true h = m
    go false h = update_where-Memᴰ (λ y. y.id =s= t.id) (prepared_row f now) rows (ground arith) m

log_each-tasks : (tasks : List Task) (r : Registry) → (log_each tasks r).tasks ≡ r.tasks
unfolding log_each
log_each-tasks [] r = refl
log_each-tasks (t ∷ tasks) r = go (is_terminal_task t.status) (log_each-tasks tasks)
  where
    go :
        (b : Bool)
        → ((r : Registry) → (log_each tasks r).tasks ≡ r.tasks)
        → (log_each tasks (if b then r else record_event "task" t.id "task.failed" r)).tasks
          ≡ r.tasks
    go true ih = ih r
    go false ih = ih (record_event "task" t.id "task.failed" r)

posted-registry :
    (s u : Store) (r : Result NoticeError (Board × Option Notice))
    → posted s r ≡ ok u
    → s.registry ≡ u.registry
posted-registry s u (ok (board, row)) e = ap (λ (x : Store). x.registry) (ok_inj e)
posted-registry s u (err n) e = cc e

-- What a call that returns has done to the tables of tasks.
Wrote : PreparationFailure → ℕ → Store → Store → Run → Type 0
Wrote p now s u run =
    let tasks = list_tasks run.id task_limit s.registry in
    (s ≡ u)
    ⊎ (any is_unsafe tasks ≡ false)
      × ((failed_store (preparation_record p now) now run tasks s).registry ≡ u.registry)

fail_checked-registry :
    (p : PreparationFailure) (random : String) (now : ℕ) (s u : Store) (run : Run)
    (tasks : List Task)
    → fail_checked p random now s run tasks ≡ ok u
    → (failed_store (preparation_record p now) now run tasks s).registry ≡ u.registry
fail_checked-registry p random now s u run tasks e =
    let t = failed_store (preparation_record p now) now run tasks s in
    let (_, _, moved) =
      bind-eq_ok (check_each tasks)
        (λ _. allowed (move_run run.status RunStatus.failed no_options) >>= λ _.
          write_failure p random now s run tasks)
        e in
    let (_, _, written) =
      bind-eq_ok (allowed (move_run run.status RunStatus.failed no_options))
        (λ _. write_failure p random now s run tasks) moved in
    posted-registry t u (create_notification (preparation_notice run) random now t.board) written

fail_found-Wrote :
    (p : PreparationFailure) (random : String) (now : ℕ) (s u : Store) (run : Run)
    → fail_found p random now s (some run) ≡ ok u
    → Wrote p now s u run
unfolding Wrote
fail_found-Wrote p random now s u run e = go (is_terminal_run run.status) e
  where
    tasks : List Task
    tasks = list_tasks run.id task_limit s.registry

    late : Result RunError Store
    late = fail_checked p random now s run tasks

    go :
        (b : Bool)
        → (if b
            then ok s
            else throw_if (not (run_in preparing_statuses run.status)) not_in_preparation >>= λ _.
                throw_if (any is_unsafe tasks) execution_started >>= λ _. late)
          ≡ ok u
        → (s ≡ u)
          ⊎ (any is_unsafe tasks ≡ false)
            × ((failed_store (preparation_record p now) now run tasks s).registry ≡ u.registry)
    go true e = inl (ok_inj e)
    go false e =
        let (_, f) =
          throw_if-eq_ok (not (run_in preparing_statuses run.status)) not_in_preparation
            (throw_if (any is_unsafe tasks) execution_started >>= λ _. late) e in
        let (safe, g) = throw_if-eq_ok (any is_unsafe tasks) execution_started late f in
        inr (safe, fail_checked-registry p random now s u run tasks g)

-- A task that has ended, has begun, or is of another Run.
abbrev pub is_spared : String → Task → Bool
is_spared id t = is_terminal_task t.status || has_owner t || not (of_run id t)

spared-Misses :
    (id : String) (rows : List Task) (x t : Task)
    → UniqueIds rows
    → Memᴰ x rows
    → is_spared id x ≡ true
    → Listed id rows t
    → is_unsafe t ≡ false
    → Misses x t
spared-Misses id rows x t u m h (l, o) n = elim (Bool-cases (x.id =s= t.id)) [
  | inr other ↦ rw other (ground arith)
  | inl same ↦
      let e = unique_row rows u m l ((eq_iff x.id t.id).0 same) in
      let k = subst (λ y. is_spared id y ≡ true) e h in ground arith
]

-- A call that returns leaves every task as it was that has ended, that was claimed or has used an
-- attempt, or that is of another Run.
pub fail_prepared_run-spares :
    (id : String) (p : PreparationFailure) (random : String) (now : ℕ) (s u : Store) (run : Run)
    (x : Task)
    → get_run id s ≡ some run
    → UniqueIds s.registry.tasks
    → fail_prepared_run id p random now s ≡ ok u
    → Memᴰ x s.registry.tasks
    → is_spared run.id x ≡ true
    → Memᴰ x u.registry.tasks
unfolding fail_prepared_run Wrote
fail_prepared_run-spares id p random now s u run x f unique e m h =
    let rows = s.registry.tasks in
    let tasks = list_tasks run.id task_limit s.registry in
    let record_of = preparation_record p now in
    let found = subst (λ o. fail_found p random now s o ≡ ok u) f e in
    elim (fail_found-Wrote p random now s u run found) [
      | inl same ↦ subst (λ (v : Store). Memᴰ x v.registry.tasks) same m
      | inr (safe, same) ↦
          let missed =
            All-both (Listed run.id rows) (λ t. is_unsafe t ≡ false) (Misses x) tasks
              (λ t l n. spared-Misses run.id rows x t unique m h l n)
              (list_tasks-Listed run.id task_limit s.registry)
              (any-false→All is_unsafe tasks safe) in
          subst (λ (r : Registry). Memᴰ x r.tasks) same
            (subst (λ ts. Memᴰ x ts) (sym (log_each-tasks tasks _))
              (fail_each-Memᴰ record_of now tasks rows x missed m))
    ]
