-- ===== src/Dispatches/Tests.antt =====
-- A turn dispatch that is cancelled, and an instance of the theorem on it.
use mathlib.Core.List.{Memᴰ}
use codex_threadhub.Base.{◌≡◌, refl, arith, String, false, none, some, [], ◌∷◌, ok}
use codex_threadhub.Base.Table.{update_where, returned}
use codex_threadhub.States.Machine.{no_options}
use codex_threadhub.States.Dispatch.{DispatchStatus}
use codex_threadhub.Dispatches.Rows.{Dispatch, Dispatches}
use codex_threadhub.Dispatches.Move.{Changes, Fence, transition_turn_dispatch}
use codex_threadhub.Dispatches.Claim.{claimed, claim_turn_dispatch}
use codex_threadhub.Dispatches.Cancel.{
  Parents, cancelled, cancel_all, request_turn_dispatch_cancellation,
}
use codex_threadhub.Dispatches.Fenced.{DispatchCall, settled, run_dispatches}
use codex_threadhub.Dispatches.Barred.{cancellation_bars_transitions}

abbrev joined_evidence : String → String → String
joined_evidence a b = b

abbrev dispatch : Dispatch
dispatch = record {
  id = "d";
  subject_type = "task";
  subject_id = "t";
  purpose = "execution";
  revision = 1;
  parent_run_id = some "r";
  parent_task_id = some "t";
  plan_id = none;
  status = DispatchStatus.prepared;
  thread_id = none;
  agent_id = none;
  thread_action = none;
  turn_id = none;
  turn_status = none;
  owner_instance_id = none;
  owner_token = none;
  heartbeat_at = none;
  lease_expires_at = none;
  cancellation_generation = 0;
  cancel_requested_at = none;
  deadline_at = 100;
  started_at = none;
  terminal_at = none;
  last_probe_at = none;
  probe_count = 0;
  reconciliation_decision = none;
  failure = none;
  evidence = "{}";
  updated_at = 1;
  version = 0;
}

abbrev one_dispatch : Dispatches
one_dispatch = record { rows = dispatch ∷ []; events = [] }

abbrev parents : Parents
parents = record { run_id = some "r"; task_id = none; plan_id = none }

abbrev cancelled_dispatch : Dispatches
cancelled_dispatch = record {
  rows = cancelled 5 dispatch ∷ [];
  events =
      record {
        entity_type = "turn_dispatch";
        entity_id = "d";
        event_type = "turn_dispatch.cancelling";
      }
      ∷ [];
}

cancels_one : request_turn_dispatch_cancellation parents 5 one_dispatch ≡ ok cancelled_dispatch
unfolding request_turn_dispatch_cancellation cancel_all update_where returned
cancels_one = refl

claims_one :
    (claim_turn_dispatch "d" "host" "k" 10 false 2 one_dispatch).1
    ≡ some (claimed "host" "k" 10 2 dispatch)
unfolding claim_turn_dispatch update_where returned
claims_one = refl

-- The lease of the host that claimed the dispatch bars another host.
claims_twice :
    (claim_turn_dispatch "d" "other" "l" 10 false 3
      (claim_turn_dispatch "d" "host" "k" 10 false 2 one_dispatch).0).1
    ≡ none
unfolding claim_turn_dispatch update_where returned
claims_twice = refl

abbrev no_changes : Changes
no_changes = record {
  thread_id = none;
  agent_id = none;
  thread_action = none;
  turn_id = none;
  turn_status = none;
  heartbeat_at = none;
  lease_expires_at = none;
  cancel_requested_at = none;
  deadline_at = none;
  started_at = none;
  terminal_at = none;
  last_probe_at = none;
  probe_count = none;
  reconciliation_decision = none;
  failure = none;
  evidence = none;
  result = none;
}

abbrev old_fence : Fence
old_fence = record { owner_token = none; generation = some 0; options = no_options }

cancellation_bars_transitions_example :
    let t =
      run_dispatches joined_evidence
        (DispatchCall.claims "d" "host" "k" 10 false 6 ∷ [])
        cancelled_dispatch in
    settled t (
      transition_turn_dispatch joined_evidence "d" DispatchStatus.completed no_changes old_fence 7
        t)
    ≡ t
cancellation_bars_transitions_example =
    cancellation_bars_transitions joined_evidence parents 5 7 one_dispatch cancelled_dispatch
      dispatch (DispatchCall.claims "d" "host" "k" 10 false 6 ∷ []) DispatchStatus.completed
      no_changes old_fence (omega arith) (Memᴰ.head refl) refl cancels_one refl
