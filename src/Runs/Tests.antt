-- ===== src/Runs/Tests.antt =====
-- A Run of one task, through its end and after it.
use mathlib.Core.List.{Memᴰ}
use codex_threadhub.Base.{
  err, Result, map, ℕ, ◌≡◌, ◌≢◌, refl, true, none, some, List, [], ◌∷◌, All, Option, ok, String,
  arith,
}
use codex_threadhub.Base.Order.{order_by, insert_by}
use codex_threadhub.Base.Table.{update_where}
use codex_threadhub.States.Machine.{no_options, move}
use codex_threadhub.States.Run.{RunStatus, move_run}
use codex_threadhub.States.Task.{TaskStatus, move_task}
use codex_threadhub.States.Derive.{derive_run_status}
use codex_threadhub.States.Outcomes.{Succeeds}
use codex_threadhub.Notices.{
  NoticeKind, Notice, new_notice, insert_notice, create_notification, classify_run_notification,
  normalize_notification_kind,
}
use codex_threadhub.Registry.{Task, record_event}
use codex_threadhub.Tasks.Samples.{task_row, two_tasks, unique_two}
use codex_threadhub.Runs.Rows.{
  Run, RunError, not_in_preparation, Store, get_run, check_status, update_run, archive_run,
}
use codex_threadhub.Runs.Refresh.{
  list_tasks, of_run, no_changes, refresh_run, run_notice, notify_end,
}
use codex_threadhub.Runs.Prepared.{
  PreparationFailure, fail_prepared_run, check_each, fail_each, log_each,
}
use codex_threadhub.Runs.Calls.{RunCall, kept_store, run_run_call, run_run_calls}
use codex_threadhub.Runs.Final.{HasStatus}
use codex_threadhub.Runs.Kept.{run_run_calls-HasStatus}
use codex_threadhub.Runs.Untouched.{fail_prepared_run-spares}
use codex_threadhub.Runs.Completes.{refresh_run_completes}
use codex_threadhub.Runs.Verdicts.{refresh_run-completed}

abbrev run : Run
run = record {
  id = "r";
  request_key = none;
  plan_id = none;
  name = some "build";
  status = RunStatus.running;
  cwd = none;
  updated_at = 1;
  started_at = some 1;
  completed_at = none;
  archived_at = none;
  dispatch_phase = none;
  dispatch_error = none;
  failure = none;
  failure_history = [];
  global_run_revision_id = none;
  global_graph_fingerprint = none;
  global_authorization_fingerprint = none;
  global_manifest_fingerprint = none;
}

abbrev task : Task
task = record (task_row "a" TaskStatus.completed 1) { run_id = some "r" }

abbrev store : Store
store = record {
  runs = run ∷ [];
  registry = record two_tasks { tasks = task ∷ []; dependencies = []; events = [] };
  board = record { notices = []; events = [] };
}

abbrev finished : Run
finished = record run {
  status = RunStatus.completed;
  updated_at = 9;
  completed_at = some 9;
  dispatch_phase = some "completed";
}

abbrev notice : Notice
notice = new_notice (run_notice run NoticeKind.completed) NoticeKind.completed "n1" "r:completed" 9

abbrev ended : Store
ended =
    let r = record_event "run" "r" "run.completed" store.registry in
    record { runs = finished ∷ []; registry = r; board = insert_notice notice store.board }

-- The one task has succeeded, so that the Run is completed and that is notified.
refreshed : refresh_run "r" "n1" 9 store ≡ ok (ended, some finished)
unfolding refresh_run list_tasks order_by insert_by derive_run_status update_run check_status
    move_run move update_where classify_run_notification notify_end create_notification
    normalize_notification_kind
refreshed = refl

refresh_run-completed_example :
    (task ∷ [] ≢ []) × All (λ (t : Task). of_run "r" t ≡ true → Succeeds t.status) (task ∷ [])
refresh_run-completed_example =
    refresh_run-completed "r" "n1" 9 store ended run finished refl refl (omega arith) refreshed refl

-- A later attempt to fail it is refused, and a refresh changes nothing.
abbrev later : List (RunCall × ℕ)
later =
    (RunCall.updates "r" (record no_changes { status = some RunStatus.failed }) no_options, 10)
    ∷ (RunCall.archives "r", 11)
    ∷ (RunCall.refreshes "r" "n2", 12)
    ∷ []

archived :
    (run_run_calls later ended).runs
    ≡ record finished { updated_at = 11; archived_at = some 11 } ∷ []
unfolding run_run_calls run_run_call refresh_run list_tasks order_by insert_by derive_run_status
    update_run archive_run check_status move_run move update_where
archived = refl

run_run_calls-HasStatus_example :
    All (HasStatus "r" RunStatus.completed) (run_run_calls later ended).runs
run_run_calls-HasStatus_example =
    run_run_calls-HasStatus "r" RunStatus.completed later ended refl (refl, (refl, (refl, tt)))
      ((λ _. refl), tt)

-- A Run whose start failed, beside a task of another one.
abbrev prepared : Store
prepared = record store {
  runs = record run { status = RunStatus.preparing } ∷ [];
  registry = record two_tasks {
    tasks =
        task_row "a" TaskStatus.completed 1
        ∷ record (task_row "b" TaskStatus.queued 0) { run_id = some "r" }
        ∷ [];
  };
}

abbrev failure : PreparationFailure
failure = record {
  failure = record {
    type = none;
    category = none;
    stage = none;
    code = none;
    cause = none;
    message = some "no thread";
    retryable = true;
    next_action = none;
    at = none;
  };
  repairable = none;
}

abbrev runs_of : Result RunError Store → List (RunStatus × Option String)
runs_of (ok s) = map (λ (r : Run). (r.status, r.dispatch_error)) s.runs
runs_of (err e) = []

abbrev tasks_of : Result RunError Store → List (TaskStatus × Option String)
tasks_of (ok s) = map (λ (t : Task). (t.status, t.error)) s.registry.tasks
tasks_of (err e) = []

failed_preparation :
    (runs_of (fail_prepared_run "r" failure "n1" 9 prepared)
      ≡ (RunStatus.failed, some "no thread") ∷ [])
    × (tasks_of (fail_prepared_run "r" failure "n1" 9 prepared)
        ≡ (TaskStatus.completed, none) ∷ (TaskStatus.failed, some "no thread") ∷ [])
unfolding fail_prepared_run list_tasks order_by insert_by check_each fail_each log_each move_run
    move_task move update_where create_notification normalize_notification_kind
failed_preparation = (refl, refl)

-- A Run that is at work is not failed so.
not_in_preparation_stays : fail_prepared_run "r" failure "n1" 9 store ≡ err not_in_preparation
unfolding fail_prepared_run
not_in_preparation_stays = refl

abbrev unprepared : Store
unfolding fail_prepared_run
unprepared = kept_store prepared (fail_prepared_run "r" failure "n1" 9 prepared)

fails_preparation : fail_prepared_run "r" failure "n1" 9 prepared ≡ ok unprepared
unfolding fail_prepared_run list_tasks order_by insert_by check_each fail_each log_each move_run
    move_task move update_where create_notification normalize_notification_kind
fails_preparation = refl

fail_prepared_run-spares_example :
    Memᴰ (task_row "a" TaskStatus.completed 1) unprepared.registry.tasks
fail_prepared_run-spares_example =
    fail_prepared_run-spares "r" failure "n1" 9 prepared unprepared
      (record run { status = RunStatus.preparing }) (task_row "a" TaskStatus.completed 1) refl
      unique_two fails_preparation (Memᴰ.head refl) refl

refresh_run_completes_example :
    (u : Store) × (row : Run) × (refresh_run "r" "n1" 9 store ≡ ok (u, some row))
    × (get_run "r" u ≡ some row)
    × (row.status ≡ RunStatus.completed)
    × (row.completed_at ≡ some 9)
refresh_run_completes_example =
    refresh_run_completes "r" "n1" 9 store run refl refl (λ e. cc e) (omega arith) ((λ _. refl), tt)
