-- ===== src/Runs/Release.antt =====
-- `releaseStagedRun` of src/registry.js. The properties `automaticallyStartedAt` and `startSource` of
-- the metadata of a task are left out. The release is committed before the Run is updated, so that
-- a call that throws there has released the tasks.
use codex_threadhub.Base.{
  ℕ, ◌+◌, String, Bool, false, not, ◌&&◌, Option, none, some, List, [], ◌∷◌, ◌++◌, any, find, keep,
  length, leb, is_none, ◌=s=◌, if◌then◌else◌, Result, ok, err, ◌>>=◌, throw_if,
}
use Prim.Native.String
use codex_threadhub.Base.Sql.{holds, eq}
use codex_threadhub.Base.Order.{order_by}
use codex_threadhub.Base.Table.{update_where, returned}
use codex_threadhub.Registry.{Task, Revision, GlobalRun, Manifest, Registry, record_event}
use codex_threadhub.States.Machine.{no_options}
use codex_threadhub.States.Run
use codex_threadhub.States.Task.{TaskStatus, is_task, task_spelling}
use codex_threadhub.Tasks.Guards.{handoffs_received, is_revision}
use codex_threadhub.Runs.Rows.{
  Run, Store, RunError, RunChanges, id_required, release_fenced, handoff_not_received, get_run,
  update_run,
}
use codex_threadhub.Runs.Refresh.{no_changes}

-- An id that is neither absent nor empty.
abbrev pub names_revision : Run → Bool
names_revision run =
    not (is_none run.global_run_revision_id)
    && not (holds (eq run.global_run_revision_id (some "")))

abbrev pub revision_of : Registry → Run → Option Revision
revision_of r run = find (λ v. holds (eq (some v.id) run.global_run_revision_id)) r.revisions

-- `getGlobalRun(revision.globalRunId)`, and what is asked of it.
abbrev pub is_at : Revision → Option GlobalRun → Bool
is_at v none = false
is_at v (some p) = is_revision p.current_revision v.revision && is_none p.cancellation_requested_at

abbrev pub global_run_of : Registry → Revision → Option GlobalRun
global_run_of r v = find (λ p. p.id =s= v.global_run_id) r.global_runs

-- A property that is absent differs from every column.
abbrev pub is_manifest : Run → Option Manifest → Bool
is_manifest run none = false
is_manifest run (some m) = holds (eq (some m.fingerprint) run.global_manifest_fingerprint)

abbrev pub manifest_of : Registry → Revision → String → Option Manifest
manifest_of r v id = find (λ m. m.revision_id =s= v.id && m.run_id =s= id) r.manifests

abbrev pub is_releasable : Registry → String → Run → Revision → Bool
is_releasable r id run v =
    v.status =s= "validated"
    && (is_at v (global_run_of r v)
        && (holds (eq v.graph_fingerprint run.global_graph_fingerprint)
            && (holds (eq (some v.authorization_fingerprint) run.global_authorization_fingerprint)
                && is_manifest run (manifest_of r v id))))

abbrev pub check_revision : Registry → String → Run → Option Revision → Result RunError (Unit {0})
check_revision r id run none = err release_fenced
check_revision r id run (some v) = throw_if (not (is_releasable r id run v)) release_fenced >>= λ _.
    throw_if (not (handoffs_received r v (some id))) handoff_not_received

abbrev pub check_release : Registry → String → Option Run → Result RunError (Unit {0})
check_release r id none = ok tt
check_release r id (some run) =
    if names_revision run then check_revision r id run (revision_of r run) else ok tt

abbrev pub is_staged : Task → Bool
is_staged t = is_task t.status TaskStatus.staged

abbrev pub staged_of : String → Task → Bool
staged_of id t = is_staged t && holds (eq t.metadata.run_id (some id))

-- `ORDER BY created_at`.
abbrev pub oldest_first : List Task → List Task
oldest_first ts = order_by (λ t x. leb t.created_at x.created_at) ts

abbrev pub has_dependency : Registry → Task → Bool
has_dependency r t = any (λ d. d.task_id =s= t.id) r.dependencies

abbrev pub released_row : Registry → ℕ → Task → Task
released_row r now t = record t {
  status = if has_dependency r t then TaskStatus.blocked else TaskStatus.queued;
  updated_at = now;
  version = t.version + 1;
}

abbrev pub with_row : Option Task → List Task → List Task
with_row none rows = rows
with_row (some t) rows = rows ++ (t ∷ [])

-- The rows of the table, and those that were released.
unfoldable pub release_each :
    Registry → ℕ → List Task → List Task × List Task → List Task × List Task
release_each r now [] out = out
release_each r now (t ∷ ts) (rows, released) =
    let p = λ (x : Task). x.id =s= t.id && is_staged x in
    let f = released_row r now in
    release_each r now ts (update_where p f rows, with_row (returned p f rows) released)

unfoldable pub log_released : List Task → Registry → Registry
log_released [] r = r
log_released (t ∷ ts) r =
    log_released ts (record_event "task" t.id (String.◌++◌ "task." (task_spelling t.status)) r)

abbrev pub with_released : String → List Task × List Task → Store → Store
with_released id (rows, released) s =
    let r = s.registry in
    record s {
      registry =
          record_event "system" id "run.automatically_started"
            (log_released released (record r { tasks = rows }));
    }

abbrev pub started : ℕ → RunChanges
started now = record no_changes {
  status = some Run.RunStatus.running;
  started_at = some (some now);
}

abbrev pub with_started : Store → ℕ → Result RunError (Store × Run) → Store × Result RunError ℕ
with_started s n (ok (t, run)) = (t, ok n)
with_started s n (err e) = (s, err e)

abbrev pub start_run : String → ℕ → ℕ → Store → Option Run → Store × Result RunError ℕ
start_run id n now s none = (s, ok n)
start_run id n now s (some run) = with_started s n (update_run id (started now) no_options now s)

abbrev pub release_tasks : String → ℕ → Store → Store × Result RunError ℕ
release_tasks id now s =
    let r = s.registry in
    let out = release_each r now (oldest_first (keep (staged_of id) r.tasks)) (r.tasks, []) in
    let t = with_released id out s in start_run id (length out.1) now t (get_run id t)

abbrev pub release_checked :
    String → ℕ → Store → Result RunError (Unit {0}) → Store × Result RunError ℕ
release_checked id now s (ok _) = release_tasks id now s
release_checked id now s (err e) = (s, err e)

-- The number of tasks that were released.
unfoldable pub release_staged_run : String → ℕ → Store → Store × Result RunError ℕ
unfolding release_each order_by log_released handoffs_received update_run
release_staged_run id now s =
    if id =s= ""
    then (s, err id_required)
    else release_checked id now s (check_release s.registry id (get_run id s))
