-- ===== src/Runs/Prepared.antt =====
-- `failPreparedRun` of src/registry.js: a Run that could not be started fails with its tasks, none of
-- which was executed. What a call that throws writes is rolled back.
use codex_threadhub.Base.{
  ℕ, ◌+◌, String, Bool, false, not, ◌&&◌, ◌||◌, Option, none, some, List, [], ◌∷◌, ◌++◌, any,
  or_else, or_option, ◌==◌, ◌=s=◌, if◌then◌else◌, Result, ok, err, ◌>>=◌, throw_if,
}
use Prim.Native.String.{◌++◌ as ◌<>◌}
use codex_threadhub.Base.Table.{update_where}
use codex_threadhub.Registry.{Task, Registry, FailureRecord, record_event}
use codex_threadhub.Retry.{Failure}
use codex_threadhub.Notices.{NoticeKind, kind_spelling, NoticeInput, create_notification}
use codex_threadhub.States.Machine.{StateError, no_options}
use codex_threadhub.States.Run.{RunStatus, run_in, is_terminal_run, move_run}
use codex_threadhub.States.Task.{TaskStatus, is_terminal_task, move_task}
use codex_threadhub.Runs.Rows.{
  Run, Store, RunError, not_found, not_in_preparation, execution_started, state, has_id, get_run,
  run_event, allowed,
}
use codex_threadhub.Runs.Refresh.{list_tasks, task_limit, posted}

-- The failure of a preparation; `repairable` is its own property.
pub record PreparationFailure : Type 0 where
  pub failure : Failure
  pub repairable : Option Bool

abbrev pub preparing_statuses : List RunStatus
preparing_statuses =
    RunStatus.preparing ∷ RunStatus.agents_prepared ∷ RunStatus.awaiting_user_start ∷ []

-- The truth of a text.
abbrev pub is_given : Option String → Bool
is_given none = false
is_given (some s) = not (s =s= "")

-- A claim has been made, or an agent chosen.
abbrev pub has_owner : Task → Bool
has_owner t =
    not (t.attempt == 0) || is_given t.worker_id || is_given t.claim_token || is_given t.agent_id

abbrev pub is_unsafe : Task → Bool
is_unsafe t = not (is_terminal_task t.status) && has_owner t

abbrev pub failure_cause : Failure → String
failure_cause f = or_else (or_option f.cause f.message) "Run preparation failed"

abbrev pub preparation_record : PreparationFailure → ℕ → FailureRecord
preparation_record p now =
    let f = p.failure in
    record {
      failure = record {
        type = some (or_else f.type "infrastructure");
        category = some (or_else f.category "environment");
        stage = some (or_else f.stage "orchestrator_kickoff");
        code = some (or_else f.code "RUN_PREPARATION_FAILED");
        cause = some (failure_cause f);
        message = some (or_else (or_option f.message f.cause) "Run preparation failed");
        retryable = f.retryable;
        next_action = some (or_else f.next_action "retry_run");
        at = some (or_else f.at now);
      };
      cause = some (failure_cause f);
      retryable = f.retryable;
      next_action = some (or_else f.next_action "retry_run");
      at = some (or_else f.at now);
      execution_fingerprint = none;
      budget = some (record { used = 0; max = 0; remaining = 0 });
      retry_safety = none;
      analysis = none;
    }

-- `transitionTask(task.status, "failed")`.
abbrev pub allowed_task : Result StateError TaskStatus → Result RunError (Unit {0})
allowed_task (ok s) = ok tt
allowed_task (err e) = err (state e)

unfoldable pub check_each : List Task → Result RunError (Unit {0})
unfolding move_task
check_each [] = ok tt
check_each (t ∷ tasks) =
    (if is_terminal_task t.status
      then ok tt
      else allowed_task (move_task t.status TaskStatus.failed no_options))
    >>= λ _. check_each tasks

-- The row that is written over that of the same id.
abbrev pub prepared_row : FailureRecord → ℕ → Task → Task
prepared_row f now t =
    let m = t.metadata in
    record t {
      status = TaskStatus.failed;
      error = f.cause;
      completed_at = some now;
      updated_at = now;
      worker_id = none;
      heartbeat_at = none;
      next_retry_at = none;
      claim_token = none;
      version = t.version + 1;
      metadata = record m {
        failure = some f;
        failure_history = t.metadata.failure_history ++ (f ∷ []);
      };
    }

abbrev pub fail_one : FailureRecord → ℕ → Task → List Task → List Task
fail_one f now t rows =
    if is_terminal_task t.status
    then rows
    else update_where (λ x. x.id =s= t.id) (prepared_row f now) rows

unfoldable pub fail_each : FailureRecord → ℕ → List Task → List Task → List Task
fail_each f now [] rows = rows
fail_each f now (t ∷ tasks) rows = fail_each f now tasks (fail_one f now t rows)

unfoldable pub log_each : List Task → Registry → Registry
log_each [] r = r
log_each (t ∷ tasks) r =
    log_each tasks
      (if is_terminal_task t.status then r else record_event "task" t.id "task.failed" r)

abbrev pub failed_run : FailureRecord → ℕ → Run → Run
failed_run f now run = record run {
  status = RunStatus.failed;
  completed_at = some now;
  updated_at = now;
  dispatch_phase = some "failed";
  dispatch_error = f.cause;
  failure = some f;
  failure_history = run.failure_history ++ (f ∷ []);
}

abbrev pub preparation_notice : Run → NoticeInput
preparation_notice run = record {
  id = none;
  project_key = some (or_else run.cwd "workspace");
  run_id = some run.id;
  task_id = none;
  kind = some (kind_spelling NoticeKind.failed);
  severity = none;
  title = some "작업 시작 실패";
  body = some (or_else run.name run.id <> " 작업을 시작하지 못했습니다. 실행 시도는 소비되지 않았습니다.");
  dedupe_key = some (run.id <> (":" <> kind_spelling NoticeKind.failed));
  metadata = none;
}

-- Both updates of the transaction, and the events behind it.
abbrev pub failed_store : FailureRecord → ℕ → Run → List Task → Store → Store
failed_store f now run tasks s =
    let r = s.registry in
    run_event run.id "run.failed" record s {
      runs = update_where (has_id run.id) (failed_run f now) s.runs;
      registry = log_each tasks (record r { tasks = fail_each f now tasks r.tasks });
    }

-- The writes, and the notification that follows them.
abbrev pub write_failure :
    PreparationFailure → String → ℕ → Store → Run → List Task → Result RunError Store
write_failure p random now s run tasks =
    let t = failed_store (preparation_record p now) now run tasks s in
    posted t (create_notification (preparation_notice run) random now t.board)

-- The transitions are checked before anything is written.
abbrev pub fail_checked :
    PreparationFailure → String → ℕ → Store → Run → List Task → Result RunError Store
fail_checked p random now s run tasks = check_each tasks >>= λ _.
    allowed (move_run run.status RunStatus.failed no_options) >>= λ _.
    write_failure p random now s run tasks

abbrev pub fail_found : PreparationFailure → String → ℕ → Store → Option Run → Result RunError Store
fail_found p random now s none = err not_found
fail_found p random now s (some run) =
    let tasks = list_tasks run.id task_limit s.registry in
    if is_terminal_run run.status
    then ok s
    else throw_if (not (run_in preparing_statuses run.status)) not_in_preparation >>= λ _.
        throw_if (any is_unsafe tasks) execution_started >>= λ _.
        fail_checked p random now s run tasks

unfoldable pub fail_prepared_run :
    String → PreparationFailure → String → ℕ → Store → Result RunError Store
unfolding check_each fail_each log_each list_tasks move_run create_notification
fail_prepared_run id p random now s = fail_found p random now s (get_run id s)
