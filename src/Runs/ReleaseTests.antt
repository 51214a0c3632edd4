-- ===== src/Runs/ReleaseTests.antt =====
-- The release of the staged tasks of a Run, alone and within a Global Run.
use codex_threadhub.Base.{
  ◌+◌, ◌&&◌, any, ◌=s=◌, ◌≡◌, refl, true, none, some, [], ◌∷◌, map, ok, err, if◌then◌else◌,
}
use codex_threadhub.Base.Sql.{holds, eq}
use codex_threadhub.Base.Order.{order_by, insert_by}
use codex_threadhub.Base.Table.{update_where, returned}
use codex_threadhub.States.Machine.{move}
use codex_threadhub.States.Run.{RunStatus, move_run}
use codex_threadhub.States.Task.{TaskStatus, is_task}
use codex_threadhub.States.GlobalRun.{GlobalRunStatus}
use codex_threadhub.Registry.{Task, Revision}
use codex_threadhub.Tasks.Guards.{gate_open, handoffs_received}
use codex_threadhub.Tasks.Samples.{task_row, two_tasks, unique_two}
use codex_threadhub.Runs.Rows.{Run, Store, release_fenced, check_status, update_run}
use codex_threadhub.Runs.Release.{release_each, log_released, release_staged_run}
use codex_threadhub.Runs.Released.{release_staged_run-tasks}
use codex_threadhub.Runs.Gate.{with_global_status, release_staged_run-gate_open}

abbrev run : Run
run = record {
  id = "run";
  request_key = none;
  plan_id = none;
  name = none;
  status = RunStatus.preparing;
  cwd = none;
  updated_at = 1;
  started_at = none;
  completed_at = none;
  archived_at = none;
  dispatch_phase = none;
  dispatch_error = none;
  failure = none;
  failure_history = [];
  global_run_revision_id = none;
  global_graph_fingerprint = none;
  global_authorization_fingerprint = none;
  global_manifest_fingerprint = none;
}

abbrev staged : Store
staged = record {
  runs = run ∷ [];
  registry = record two_tasks {
    tasks = task_row "a" TaskStatus.staged 0 ∷ task_row "b" TaskStatus.staged 0 ∷ [];
  };
  board = record { notices = []; events = [] };
}

released : (release_staged_run "run" 5 staged).1 ≡ ok 2
unfolding release_staged_run order_by insert_by release_each log_released update_run check_status
    move_run move update_where returned
released = refl

-- `b` waits for `a`.
released_statuses :
    map (λ (t : Task). t.status) (release_staged_run "run" 5 staged).0.registry.tasks
    ≡ TaskStatus.queued ∷ TaskStatus.blocked ∷ []
unfolding release_staged_run order_by insert_by release_each log_released update_run check_status
    move_run move update_where returned
released_statuses = refl

release_staged_run-tasks_example :
    (release_staged_run "run" 5 staged).0.registry.tasks
    ≡ map
        (λ t.
          if is_task t.status TaskStatus.staged && holds (eq t.metadata.run_id (some "run"))
          then record t {
            status =
                if any (λ d. d.task_id =s= t.id) staged.registry.dependencies
                then TaskStatus.blocked
                else TaskStatus.queued;
            updated_at = 5;
            version = t.version + 1;
          }
          else t)
        staged.registry.tasks
release_staged_run-tasks_example = release_staged_run-tasks "run" 5 2 staged unique_two released

abbrev member : Run
member = record run {
  global_run_revision_id = some "v1";
  global_graph_fingerprint = some "g";
  global_authorization_fingerprint = some "x";
  global_manifest_fingerprint = some "m";
}

abbrev member_task : Task
member_task =
    let t = task_row "a" TaskStatus.staged 0 in
    let m = t.metadata in
    record t {
      metadata = record m {
        global_run_revision_id = some "v1";
        global_graph_fingerprint = some "g";
        global_authorization_fingerprint = some "x";
        global_manifest_fingerprint = some "m";
      };
    }

abbrev revision : Revision
revision = record {
  id = "v1";
  global_run_id = "p";
  revision = 1;
  status = "validated";
  graph_fingerprint = some "g";
  authorization_fingerprint = "x";
}

abbrev global_store : Store
global_store = record staged {
  runs = member ∷ [];
  registry = record two_tasks {
    tasks = member_task ∷ [];
    revisions = revision ∷ [];
    global_runs =
        record {
          id = "p";
          status = GlobalRunStatus.preparing;
          current_revision = some 1;
          cancellation_requested_at = none;
        }
        ∷ [];
    manifests = record { revision_id = "v1"; run_id = "run"; fingerprint = "m" } ∷ [];
  };
}

released_member : (release_staged_run "run" 5 global_store).1 ≡ ok 1
unfolding release_staged_run order_by insert_by release_each log_released update_run check_status
    move_run move update_where returned handoffs_received
released_member = refl

release_staged_run-gate_open_example :
    gate_open
      (with_global_status "p" GlobalRunStatus.running
        (release_staged_run "run" 5 global_store).0.registry)
      member_task
    ≡ true
release_staged_run-gate_open_example =
    release_staged_run-gate_open "run" 5 1 global_store member member_task revision
      GlobalRunStatus.running refl refl refl released_member refl
      (record {
        of_run = refl;
        revision = refl;
        graph = refl;
        authorization = refl;
        manifest = refl;
      })

-- An older revision is fenced.
abbrev superseded : Store
superseded =
    let r = global_store.registry in
    record global_store {
      registry = record r {
        global_runs =
            record {
              id = "p";
              status = GlobalRunStatus.running;
              current_revision = some 2;
              cancellation_requested_at = none;
            }
            ∷ [];
      };
    }

fenced : release_staged_run "run" 5 superseded ≡ (superseded, err release_fenced)
unfolding release_staged_run
fenced = refl
