-- ===== src/Runs/Events.antt =====
-- What the events of a release, and the update of a Run, leave in the registry (src/registry.js).
use codex_threadhub.Base.{
  length, keep, ◌=s=◌, ℕ, String, Option, none, some, List, [], ◌∷◌, Result, ok, err, ok_inj,
  bind-eq_ok, or_else, ◌≡◌, refl, sym, ap, ◌∙◌, inl, inr, Bool-cases,
}
use codex_threadhub.Registry.{Task, Registry, record_event}
use codex_threadhub.States.Task.{task_spelling}
use codex_threadhub.Runs.Rows.{
  status_event, Run, Store, RunError, RunChanges, get_run, check_status, changed_run, write_run,
  update_found, update_run,
}
use codex_threadhub.States.Machine.{no_options}
use codex_threadhub.States.Run.{RunStatus, is_run}
use Prim.Native.String
use codex_threadhub.Runs.Release.{
  release_each, oldest_first, staged_of, release_checked, check_release, release_staged_run,
  log_released, with_released, started, with_started, start_run,
}

abbrev pub with_tasks : List Task → Registry → Registry
with_tasks ts r = record r { tasks = ts }

-- What an event does not change.
module _ {B : Type 0} (g : Registry → B)
    (same : (a b c : String) (r : Registry) → g (record_event a b c r) ≡ g r) where
  log_released-same : (ts : List Task) (r : Registry) → g (log_released ts r) ≡ g r
  unfolding log_released
  log_released-same [] r = refl
  log_released-same (t ∷ ts) r =
      log_released-same ts
        (record_event "task" t.id (String.◌++◌ "task." (task_spelling t.status)) r)
      ∙ same "task" t.id (String.◌++◌ "task." (task_spelling t.status)) r

  write_run-same :
      (existing : Run) (status : RunStatus) (row : Run) (s : Store)
      → g (write_run existing status row s).registry ≡ g s.registry
  write_run-same existing status row s = elim (Bool-cases (is_run status existing.status)) [
    | inl y ↦ rw y refl
    | inr n ↦ rw n (same "run" existing.id (status_event status) s.registry)
  ]

  update_found-same :
      (o : Option Run) (c : RunChanges) (now : ℕ) (s u : Store) (row : Run)
      → update_found c no_options now s o ≡ ok (u, row)
      → g u.registry ≡ g s.registry
  update_found-same none c now s u row e = cc e
  update_found-same (some run) c now s u row e =
      let to = or_else c.status run.status in
      let written = changed_run c to now run in
      let (_, _, done) =
        bind-eq_ok (check_status run.status to no_options)
          (λ _. ok (write_run run to written s, written)) e in
      sym (ap (λ (p : Store × Run). g p.0.registry) (ok_inj done)) ∙ write_run-same run to written s

  with_started-same :
      (s : Store) (k : ℕ) (r : Result RunError (Store × Run))
      → ((u : Store) (row : Run) → r ≡ ok (u, row) → g u.registry ≡ g s.registry)
      → g (with_started s k r).0.registry ≡ g s.registry
  with_started-same s k (ok (u, row)) h = h u row refl
  with_started-same s k (err x) h = refl

  pub start_run-same :
      (id : String) (k now : ℕ) (s : Store) (o : Option Run)
      → g (start_run id k now s o).0.registry ≡ g s.registry
  unfolding update_run
  start_run-same id k now s none = refl
  start_run-same id k now s (some run) =
      with_started-same s k (update_run id (started now) no_options now s)
        (λ u row f. update_found-same (get_run id s) (started now) now s u row f)

  pub with_released-same :
      (id : String) (out : List Task × List Task) (s : Store)
      → g (with_released id out s).registry ≡ g (with_tasks out.0 s.registry)
  with_released-same id out s =
      same "system" id "run.automatically_started"
        (log_released out.1 (with_tasks out.0 s.registry))
      ∙ log_released-same out.1 (with_tasks out.0 s.registry)

-- The update of a Run leaves the tasks.
pub update_found-tasks :
    (o : Option Run) (c : RunChanges) (now : ℕ) (s u : Store) (row : Run)
    → update_found c no_options now s o ≡ ok (u, row)
    → u.registry.tasks ≡ s.registry.tasks
update_found-tasks = update_found-same (λ r. r.tasks) (λ a b c r. refl)

-- The registry without its tasks and its events, which no test of the gate reads.
abbrev pub core : Registry → Registry
core r = record r { tasks = []; events = [] }

release_checked-core :
    (id : String) (now : ℕ) (s : Store) (c : Result RunError (Unit {0}))
    → core (release_checked id now s c).0.registry ≡ core s.registry
release_checked-core id now s (err x) = refl
release_checked-core id now s (ok _) =
    let r = s.registry in
    let out = release_each r now (oldest_first (keep (staged_of id) r.tasks)) (r.tasks, []) in
    let t = with_released id out s in
    start_run-same core (λ a b c r. refl) id (length out.1) now t (get_run id t)
    ∙ with_released-same core (λ a b c r. refl) id out s

pub release_staged_run-core :
    (id : String) (now : ℕ) (s : Store)
    → core (release_staged_run id now s).0.registry ≡ core s.registry
unfolding release_staged_run
release_staged_run-core id now s = elim (Bool-cases (id =s= "")) [
  | inl y ↦ rw y refl
  | inr n ↦ rw n (release_checked-core id now s (check_release s.registry id (get_run id s)))
]
