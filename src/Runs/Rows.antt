-- ===== src/Runs/Rows.antt =====
-- `updateRun`, `archiveRun` and `unarchiveRun` of src/registry.js. Of the metadata of a Run the
-- properties that these methods write are kept; the assignment to a project is left out.
use codex_threadhub.Base.{
  ℕ, String, Bool, not, ◌&&◌, Option, none, some, List, find, is_some, or_else, or_option, ◌=s=◌,
  if◌then◌else◌, Result, ok, err, ◌>>=◌, throw_if,
}
use Prim.Native.String
use codex_threadhub.Base.Table.{update_where}
use codex_threadhub.Registry.{Registry, FailureRecord, record_event}
use codex_threadhub.Notices.{Board, NoticeError}
use codex_threadhub.States.Machine.{StateError, Options}
use codex_threadhub.States.Run.{RunStatus, is_run, is_terminal_run, move_run, run_spelling}

pub record Run : Type 0 where
  pub id : String
  pub request_key : Option String
  pub plan_id : Option String
  pub name : Option String
  pub status : RunStatus
  pub cwd : Option String
  pub updated_at : ℕ
  pub started_at : Option ℕ
  pub completed_at : Option ℕ
  pub archived_at : Option ℕ
  pub dispatch_phase : Option String
  pub dispatch_error : Option String
  pub failure : Option FailureRecord
  pub failure_history : List FailureRecord
  pub global_run_revision_id : Option String
  pub global_graph_fingerprint : Option String
  pub global_authorization_fingerprint : Option String
  pub global_manifest_fingerprint : Option String

-- The tables that the methods touch.
pub record Store : Type 0 where
  pub runs : List Run
  pub registry : Registry
  pub board : Board

pub data RunError : Type 0 where
  not_found archive_active not_in_preparation execution_started id_required release_fenced :
      RunError
  handoff_not_received : RunError
  state : StateError → RunError
  notice : NoticeError → RunError

-- A property that is `none` is not changed; `started_at` and `completed_at` may be set to null.
pub record RunChanges : Type 0 where
  pub request_key : Option String
  pub plan_id : Option String
  pub name : Option String
  pub status : Option RunStatus
  pub cwd : Option String
  pub started_at : Option (Option ℕ)
  pub completed_at : Option (Option ℕ)

abbrev pub has_id : String → Run → Bool
has_id id run = run.id =s= id

abbrev pub get_run : String → Store → Option Run
get_run id s = find (has_id id) s.runs

abbrev pub run_event : String → String → Store → Store
run_event id type s = record s { registry = record_event "run" id type s.registry }

abbrev pub status_event : RunStatus → String
status_event status = String.◌++◌ "run." (run_spelling status)

abbrev pub changed_run : RunChanges → RunStatus → ℕ → Run → Run
changed_run c status now run = record run {
  request_key = or_option c.request_key run.request_key;
  plan_id = or_option c.plan_id run.plan_id;
  name = or_option c.name run.name;
  status = status;
  cwd = or_option c.cwd run.cwd;
  updated_at = now;
  started_at = or_else c.started_at run.started_at;
  completed_at = or_else c.completed_at run.completed_at;
  dispatch_phase =
      if is_terminal_run status then some (run_spelling status) else run.dispatch_phase;
}

abbrev pub allowed : Result StateError RunStatus → Result RunError (Unit {0})
allowed (ok s) = ok tt
allowed (err e) = err (state e)

-- `transitionRun` for a status that is another.
unfoldable pub check_status : RunStatus → RunStatus → Options → Result RunError (Unit {0})
unfolding move_run
check_status from to options = if is_run to from then ok tt else allowed (move_run from to options)

abbrev pub write_run : Run → RunStatus → Run → Store → Store
write_run existing status row s =
    let t = record s { runs = update_where (has_id existing.id) (λ _. row) s.runs } in
    if is_run status existing.status then t else run_event existing.id (status_event status) t

abbrev pub update_found :
    RunChanges → Options → ℕ → Store → Option Run → Result RunError (Store × Run)
update_found c options now s none = err not_found
update_found c options now s (some run) =
    let status = or_else c.status run.status in
    check_status run.status status options >>= λ _.
    ok (write_run run status (changed_run c status now run) s, changed_run c status now run)

unfoldable pub update_run :
    String → RunChanges → Options → ℕ → Store → Result RunError (Store × Run)
unfolding check_status
update_run id c options now s = update_found c options now s (get_run id s)

abbrev pub is_archived : Run → Bool
is_archived run = is_some run.archived_at

abbrev pub archived_run : Option ℕ → ℕ → Run → Run
archived_run at now run = record run { archived_at = at; updated_at = now }

abbrev pub archive_found : ℕ → Store → Option Run → Result RunError (Store × Run)
archive_found now s none = err not_found
archive_found now s (some run) =
    if is_archived run
    then ok (s, run)
    else throw_if (not (is_terminal_run run.status)) archive_active >>= λ _. ok (
      run_event run.id "run.archived" (record s {
        runs =
            update_where (λ x. has_id run.id x && not (is_archived x)) (archived_run (some now) now)
              s.runs;
      }),
      archived_run (some now) now run,
    )

unfoldable pub archive_run : String → ℕ → Store → Result RunError (Store × Run)
archive_run id now s = archive_found now s (get_run id s)

abbrev pub unarchive_found : ℕ → Store → Option Run → Result RunError (Store × Run)
unarchive_found now s none = err not_found
unarchive_found now s (some run) =
    if not (is_archived run)
    then ok (s, run)
    else throw_if (not (is_terminal_run run.status)) archive_active >>= λ _. ok (
      run_event run.id "run.unarchived" (record s {
        runs = update_where (λ x. has_id run.id x && is_archived x) (archived_run none now) s.runs;
      }),
      archived_run none now run,
    )

unfoldable pub unarchive_run : String → ℕ → Store → Result RunError (Store × Run)
unarchive_run id now s = unarchive_found now s (get_run id s)
