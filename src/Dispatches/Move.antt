-- ===== src/Dispatches/Move.antt =====
-- `transitionTurnDispatch` of src/registry.js.
use Prim.Native.String
use codex_threadhub.Base.{
  ℕ, ◌+◌, String, Bool, true, false, not, ◌&&◌, ◌||◌, Option, none, some, ◌==◌, ◌=s=◌, is_none,
  or_else, or_option, if◌then◌else◌, Result, ok, err, ◌>>=◌, throw_if,
}
use codex_threadhub.Base.Sql.{holds, eq}
use codex_threadhub.Base.Table.{update_where, returned}
use codex_threadhub.States.Machine.{Options, StateError}
use codex_threadhub.States.Dispatch.{
  DispatchStatus, dispatch_spelling, is_terminal_dispatch, move_dispatch,
}
use codex_threadhub.Dispatches.Rows.{
  Dispatch, Dispatches, has_id, get_turn_dispatch, log_dispatch, is_given,
}

-- `changes.evidence.result` of an observed terminal turn.
pub record Observed : Type 0 where
  pub completion_method : Option String
  pub evidence_complete : Bool
  pub thread_id : Option (Option String)
  pub turn_id : Option String
  pub turn_status : Option String

pub record Changes : Type 0 where
  pub thread_id : Option String
  pub agent_id : Option String
  pub thread_action : Option String
  pub turn_id : Option String
  pub turn_status : Option String
  pub heartbeat_at : Option ℕ
  pub lease_expires_at : Option ℕ
  pub cancel_requested_at : Option ℕ
  pub deadline_at : Option ℕ
  pub started_at : Option ℕ
  pub terminal_at : Option ℕ
  pub last_probe_at : Option ℕ
  pub probe_count : Option ℕ
  pub reconciliation_decision : Option String
  pub failure : Option (Option String)
  pub evidence : Option String
  pub result : Option Observed

-- The options of a transition: the token and the generation that the caller saw.
pub record Fence : Type 0 where
  pub owner_token : Option String
  pub generation : Option ℕ
  pub options : Options

pub data DispatchError : Type 0 where
  not_found evidence_required : DispatchError
  state : StateError → DispatchError

abbrev is_same : Option String → Option String → Bool
is_same none none = true
is_same (some a) (some b) = a =s= b
is_same _ _ = false

-- A thread that the result leaves out matches none.
abbrev is_thread : Option (Option String) → Option String → Bool
is_thread none t = false
is_thread (some r) t = is_same r t

abbrev result_matches : Dispatch → DispatchStatus → Option Observed → Bool
result_matches d status none = false
result_matches d status (some o) =
    holds (eq o.completion_method (some "thread/read-recovery"))
    && (o.evidence_complete
        && (is_thread o.thread_id d.thread_id
            && (is_given o.turn_id
                && ((not (is_given d.turn_id) || is_same o.turn_id d.turn_id)
                    && holds (eq o.turn_status (some (dispatch_spelling status)))))))

abbrev pub has_evidence : Dispatch → DispatchStatus → Changes → Bool
has_evidence d status c =
    holds (eq c.reconciliation_decision (some "terminal_recovered"))
    && result_matches d status c.result

abbrev pub token_fits : Option String → Dispatch → Bool
token_fits token d = not (is_given token) || is_same d.owner_token token

abbrev pub generation_fits : Option ℕ → Dispatch → Bool
generation_fits none d = true
generation_fits (some g) d = d.cancellation_generation == g

-- The WHERE of the transition, on the version that was read.
abbrev pub transitionable : String → Fence → ℕ → Dispatch → Bool
transitionable id fence version d =
    has_id id d
    && (d.version == version
        && ((is_none fence.owner_token || holds (eq d.owner_token fence.owner_token))
            && generation_fits fence.generation d))

-- The columns that the caller leaves out keep what was read.
abbrev pub transitioned :
    (String → String → String) → Dispatch → DispatchStatus → Changes → ℕ → Dispatch → Dispatch
transitioned merged e status c now d = record d {
  status = status;
  thread_id = or_option c.thread_id e.thread_id;
  agent_id = or_option c.agent_id e.agent_id;
  thread_action = or_option c.thread_action e.thread_action;
  turn_id = or_option c.turn_id e.turn_id;
  turn_status = or_option c.turn_status e.turn_status;
  heartbeat_at = or_option c.heartbeat_at e.heartbeat_at;
  lease_expires_at = or_option c.lease_expires_at e.lease_expires_at;
  cancel_requested_at = or_option c.cancel_requested_at e.cancel_requested_at;
  deadline_at = or_else c.deadline_at e.deadline_at;
  started_at = or_option c.started_at e.started_at;
  terminal_at =
      if is_terminal_dispatch status then some (or_else c.terminal_at now) else e.terminal_at;
  last_probe_at = or_option c.last_probe_at e.last_probe_at;
  probe_count = or_else c.probe_count e.probe_count;
  reconciliation_decision = or_option c.reconciliation_decision e.reconciliation_decision;
  failure = or_else c.failure e.failure;
  evidence = merged e.evidence (or_else c.evidence "{}");
  updated_at = now;
  version = d.version + 1;
}

-- The row is compared with what the caller saw, and then once more in the WHERE.
abbrev pub transition_row :
    (String → String → String)
    → String
    → DispatchStatus
    → Changes
    → Fence
    → ℕ
    → Dispatches
    → Dispatch
    → Dispatches × Option Dispatch
transition_row merged id status c fence now s e =
    if not (token_fits fence.owner_token e) || not (generation_fits fence.generation e)
    then (s, none)
    else let p = transitionable id fence e.version in
      let f = transitioned merged e status c now in
      log_dispatch id (String.◌++◌ "turn_dispatch." (dispatch_spelling status)) s.events
        (update_where p f s.rows, returned p f s.rows)

abbrev pub from_move : Result StateError DispatchStatus → Result DispatchError (Unit {0})
from_move (ok s) = ok tt
from_move (err e) = err (state e)

abbrev pub transition_found :
    (String → String → String)
    → String
    → DispatchStatus
    → Changes
    → Fence
    → ℕ
    → Dispatches
    → Option Dispatch
    → Result DispatchError (Dispatches × Option Dispatch)
transition_found merged id status c fence now s none = err not_found
transition_found merged id status c fence now s (some e) =
    throw_if (fence.options.observed_terminal && not (has_evidence e status c)) evidence_required
    >>= λ _. from_move (move_dispatch e.status status fence.options) >>= λ _.
        ok (transition_row merged id status c fence now s e)

unfoldable pub transition_turn_dispatch :
    (String → String → String)
    → String
    → DispatchStatus
    → Changes
    → Fence
    → ℕ
    → Dispatches
    → Result DispatchError (Dispatches × Option Dispatch)
unfolding move_dispatch
transition_turn_dispatch merged id status c fence now s =
    transition_found merged id status c fence now s (get_turn_dispatch id s)
