-- ===== src/Dispatches/Cancel.antt =====
-- `requestTurnDispatchCancellation` of src/registry.js.
use codex_threadhub.Base.{
  throw_if, ◌>>=◌, ℕ, ◌+◌, String, Bool, not, ◌&&◌, ◌||◌, Option, some, List, [], ◌∷◌, keep, ◌==◌,
  ◌=s=◌, Result, ok, ◌>>=◌, throw_if,
}
use codex_threadhub.Base.Sql.{holds, eq}
use codex_threadhub.Base.Table.{update_where, returned}
use codex_threadhub.States.Dispatch.{cancelling}
use codex_threadhub.Dispatches.Rows.{Dispatch, Dispatches, is_active, log_dispatch, is_given}

pub record Parents : Type 0 where
  pub run_id : Option String
  pub task_id : Option String
  pub plan_id : Option String

abbrev parent_fits : Option String → Option String → Bool
parent_fits asked column = not (is_given asked) || holds (eq column asked)

-- The dispatches that a cancellation of the parents is about.
abbrev pub is_child : Parents → Dispatch → Bool
is_child p d =
    is_active d
    && (parent_fits p.run_id d.parent_run_id
        && (parent_fits p.task_id d.parent_task_id && parent_fits p.plan_id d.plan_id))

abbrev pub cancelled : ℕ → Dispatch → Dispatch
cancelled now d = record d {
  status = cancelling;
  cancellation_generation = d.cancellation_generation + 1;
  cancel_requested_at = some now;
  updated_at = now;
  version = d.version + 1;
}

-- `WHERE id = ? AND version = ?`, with the event for the row that was there.
abbrev pub cancel_one : ℕ → Dispatches → Dispatch → Dispatches
cancel_one now s d =
    let p = λ (x : Dispatch). x.id =s= d.id && x.version == d.version in
    (log_dispatch d.id "turn_dispatch.cancelling" s.events
      (update_where p (cancelled now) s.rows, returned p (cancelled now) s.rows)).0

unfoldable pub cancel_all : ℕ → List Dispatch → Dispatches → Dispatches
cancel_all now [] s = s
cancel_all now (d ∷ ds) s = cancel_all now ds (cancel_one now s d)

-- The TypeError of a call that names no parent.
pub data CancelError : Type 0 where
  parent_required : CancelError

unfoldable pub request_turn_dispatch_cancellation :
    Parents → ℕ → Dispatches → Result CancelError Dispatches
unfolding cancel_all
request_turn_dispatch_cancellation p now s =
    throw_if (not (is_given p.run_id || (is_given p.task_id || is_given p.plan_id))) parent_required
    >>= λ _. ok (cancel_all now (keep (is_child p) s.rows) s)
