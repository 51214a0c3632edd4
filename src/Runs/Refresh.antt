-- ===== src/Runs/Refresh.antt =====
-- `listTasks` of a Run, and `refreshRun`, of src/registry.js. The projection of the result and the
-- refresh of a Global Run, which write other tables, are left out.
use codex_threadhub.Base.{
  ℕ, String, Bool, Option, none, some, List, map, keep, take, leb, or_else, if◌then◌else◌, Result,
  ok, err, ◌>>=◌,
}
use Prim.Native.String.{◌++◌ as ◌<>◌}
use codex_threadhub.Base.Order.{order_by}
use codex_threadhub.Base.Sql.{holds, eq}
use codex_threadhub.Registry.{Task, Registry}
use codex_threadhub.Notices.{
  Board, Notice, NoticeKind, NoticeError, kind_spelling, NoticeInput, classify_run_notification,
  create_notification,
}
use codex_threadhub.States.Machine.{no_options}
use codex_threadhub.States.Run.{RunStatus, is_run, is_terminal_run}
use codex_threadhub.States.Task.{TaskStatus}
use codex_threadhub.States.Derive.{derive_run_status}
use codex_threadhub.Runs.Rows.{Run, Store, RunError, RunChanges, notice, get_run, update_run}

-- `ORDER BY created_at DESC`.
abbrev pub newest_first : List Task → List Task
newest_first ts = order_by (λ t x. leb x.created_at t.created_at) ts

abbrev pub of_run : String → Task → Bool
of_run id t = holds (eq t.run_id (some id))

-- `this.listTasks({ runId, limit })`.
unfoldable pub list_tasks : String → ℕ → Registry → List Task
unfolding order_by
list_tasks id limit r = take limit (newest_first (keep (of_run id) r.tasks))

abbrev pub task_limit : ℕ
task_limit = 1000

abbrev pub statuses : List Task → List TaskStatus
statuses tasks = map (λ t. t.status) tasks

abbrev pub no_changes : RunChanges
no_changes = record {
  request_key = none;
  plan_id = none;
  name = none;
  status = none;
  cwd = none;
  started_at = none;
  completed_at = none;
}

abbrev pub end_changes : RunStatus → ℕ → RunChanges
end_changes status now = record no_changes { status = some status; completed_at = some (some now) }

abbrev pub title_of : NoticeKind → String
title_of NoticeKind.completed = "작업 완료"
title_of NoticeKind.policy_blocked = "정책으로 작업 중단"
title_of NoticeKind.attention_required = "판단 필요"
title_of NoticeKind.failed = "작업 실패"

abbrev pub body_of : NoticeKind → String → String
body_of NoticeKind.completed name = name <> " 작업이 완료되었습니다."
body_of NoticeKind.policy_blocked name = name <> " 작업이 권한 또는 정책 경계에서 중단되었습니다."
body_of NoticeKind.attention_required name = name <> " 작업을 계속하려면 사용자 판단이 필요합니다."
body_of NoticeKind.failed name = name <> " 작업 결과를 확인하세요."

abbrev pub run_notice : Run → NoticeKind → NoticeInput
run_notice run kind = record {
  id = none;
  project_key = some (or_else run.cwd "workspace");
  run_id = some run.id;
  task_id = none;
  kind = some (kind_spelling kind);
  severity = none;
  title = some (title_of kind);
  body = some (body_of kind (or_else run.name run.id));
  dedupe_key = some (run.id <> (":" <> kind_spelling kind));
  metadata = none;
}

abbrev pub posted : Store → Result NoticeError (Board × Option Notice) → Result RunError Store
posted s (ok (board, row)) = ok (record s { board = board })
posted s (err e) = err (notice e)

-- The notification of the end of a Run, if its end is notified.
unfoldable pub notify_end : Run → Option NoticeKind → String → ℕ → Store → Result RunError Store
unfolding create_notification
notify_end run none random now s = ok s
notify_end run (some kind) random now s =
    posted s (create_notification (run_notice run kind) random now s.board)

-- The update of a Run with a verdict, and its notification.
abbrev pub end_run : Run → RunStatus → String → ℕ → Store → Result RunError (Store × Option Run)
end_run run status random now s =
    update_run run.id (end_changes status now) no_options now s >>= λ (t, updated).
    notify_end updated
      (classify_run_notification updated.status (list_tasks run.id task_limit s.registry)) random
      now t
    >>= λ u. ok (u, some updated)

-- What a Run with a verdict does, where `run.status === status` has no effect.
abbrev pub settle :
    Run → Option RunStatus → String → ℕ → Store → Result RunError (Store × Option Run)
settle run none random now s = ok (s, some run)
settle run (some status) random now s =
    if is_run run.status status then ok (s, some run) else end_run run status random now s

abbrev pub refresh_found : String → ℕ → Store → Option Run → Result RunError (Store × Option Run)
refresh_found random now s none = ok (s, none)
refresh_found random now s (some run) =
    if is_terminal_run run.status
    then ok (s, some run)
    else settle run (derive_run_status (statuses (list_tasks run.id task_limit s.registry))) random
        now s

unfoldable pub refresh_run : String → String → ℕ → Store → Result RunError (Store × Option Run)
unfolding list_tasks derive_run_status update_run classify_run_notification notify_end
refresh_run id random now s = refresh_found random now s (get_run id s)
