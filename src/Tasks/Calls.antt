-- ===== src/Tasks/Calls.antt =====
-- The calls by which the owner of a claim reports on its task, as one type.
use codex_threadhub.Base.{ℕ, String, Option, Result, ok, err}
use codex_threadhub.Retry.{Failure}
use codex_threadhub.States.Task.{TaskStatus}
use codex_threadhub.Registry.{Validation, Task, Registry}
use codex_threadhub.Tasks.Claim.{
  Binding, bind_claim, set_claim_turn, heartbeat_claim, mark_claim_agent_done,
  mark_claim_validating, mark_claim_integration_pending,
}
use codex_threadhub.Tasks.Complete.{TurnEnd, complete_claim, finish_turn_claim}
use codex_threadhub.Tasks.Finish.{FailureOptions, finish_failure_claim}
use codex_threadhub.Tasks.Validate.{finish_validation_claim, fail_claim}
use codex_threadhub.Tasks.Wait.{wait_claim_for_lease}

pub data Call : Type 0 where
  binds : Binding → Call
  sets_turn : Option String → Call
  heartbeats : Call
  ends_agent : Option String → Option String → Call
  validates : Call
  integrates : Option String → Call
  completes : Option String → Option String → Call
  ends_turn : TurnEnd → Call
  fails_with : Failure → FailureOptions → Call
  fails : String → Option Failure → Option TaskStatus → Call
  is_judged : Option Validation → Call
  waits : ℕ → Call

-- The registry after a call that may throw: a call that throws changes nothing.
abbrev pub after : Registry → Result String (Registry × Option Task) → Registry
after r (ok s) = s.0
after r (err e) = r

unfoldable pub run_call :
    (Validation → String) → String → String → String → ℕ → Call → Registry → Registry
run_call hash id worker token now (binds b) r = (bind_claim id worker token b now r).0
run_call hash id worker token now (sets_turn turn) r = (set_claim_turn id worker token turn now r).0
run_call hash id worker token now heartbeats r = (heartbeat_claim id worker token now r).0
run_call hash id worker token now (ends_agent output turn) r =
    (mark_claim_agent_done id worker token output turn now r).0
run_call hash id worker token now validates r = (mark_claim_validating id worker token now r).0
run_call hash id worker token now (integrates strategy) r =
    (mark_claim_integration_pending id worker token strategy now r).0
run_call hash id worker token now (completes output turn) r =
    (complete_claim id worker token output turn now r).0
run_call hash id worker token now (ends_turn e) r =
    after r (finish_turn_claim id worker token e now r)
run_call hash id worker token now (fails_with f o) r =
    (finish_failure_claim hash id worker token f o now r).0
run_call hash id worker token now (fails error f status) r =
    (fail_claim hash id worker token error f status now r).0
run_call hash id worker token now (is_judged v) r =
    (finish_validation_claim hash id worker token v now r).0
run_call hash id worker token now (waits delay) r =
    (wait_claim_for_lease hash id worker token delay now r).0
