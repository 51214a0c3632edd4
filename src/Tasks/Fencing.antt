-- ===== src/Tasks/Fencing.antt =====
-- A worker that does not hold the claim of a task changes nothing by what it reports.
use codex_threadhub.Base.{
  ℕ, ◌≡◌, refl, ap, String, Bool, true, false, ◌&&◌, Option, none, some, List, [], ◌∷◌, arith, any,
  leb, ◌-◌, and_mono, not, or_else, if◌then◌else◌, Bool-cases, inl, inr, Option-cases,
}
use codex_threadhub.Base.Table.{
  update_where_unmatched, returned_unmatched, find_unmatched, any_mono,
}
use codex_threadhub.States.Task.{TaskStatus, task_in}
use codex_threadhub.Retry.{Failure}
use codex_threadhub.Registry.{Validation, Task, Registry, get_task}
use codex_threadhub.Tasks.Claim.{
  update_tasks, log_if, owns, owned_in, executing, in_turn, bindable, integrable, acceptable,
  beaten, bound, turned, agent_ended, under_validation, under_integration, is_claim_owner,
  bind_claim, set_claim_turn, heartbeat_claim, mark_claim_agent_done, mark_claim_validating,
  mark_claim_integration_pending,
}
use codex_threadhub.Tasks.Complete.{
  TurnEnd, ended_row, ends_badly, completed_row, task_event, complete_claim, finish_turn_claim,
}
use codex_threadhub.Tasks.Finish.{FailureOptions, finish_failure_claim}
use codex_threadhub.Tasks.Validate.{
  accepted, warned, accepted_row, accept_found, validation_failure, validation_options,
  worker_failure, plain_options, finish_validation_claim, fail_claim,
}
use codex_threadhub.Tasks.Wait.{
  waiting_since, wait_limit, wait_expired, wait_options, waiting_row, wait_claim_for_lease,
}
use codex_threadhub.Tasks.Calls.{Call, after, run_call}

-- An update that matches no task leaves the registry as it is.
pub update_tasks_unmatched :
    (p : Task → Bool) (f : Task → Task) (r : Registry)
    → any p r.tasks ≡ false
    → update_tasks p f r ≡ (r, none)
update_tasks_unmatched p f r h =
    rw (update_where_unmatched p f r.tasks h, returned_unmatched p f r.tasks h)

abbrev Within : List TaskStatus → Type 0
Within ss = (s : TaskStatus) → task_in ss s ≡ true → task_in executing s ≡ true

module _ (id worker token : String) where
  -- Every set of statuses that a call asks for is part of the executing ones.
  owned_in-executing :
      (ss : List TaskStatus)
      → Within ss
      → (t : Task) → owned_in ss id worker token t ≡ true
      → owned_in executing id worker token t ≡ true
  owned_in-executing ss h t =
      and_mono (owns id worker token t) (task_in ss t.status) (task_in executing t.status)
        (h t.status)

  module _ (r : Registry) (stale : is_claim_owner id worker token r ≡ false) where
    unowned : any (owned_in executing id worker token) r.tasks ≡ false
    unfolding is_claim_owner
    unowned = stale

    update_unowned :
        (ss : List TaskStatus)
        → Within ss
        → (f : Task → Task) → update_tasks (owned_in ss id worker token) f r ≡ (r, none)
    update_unowned ss h f =
        update_tasks_unmatched (owned_in ss id worker token) f r
          (any_mono _ _ r.tasks (owned_in-executing ss h) unowned)

    finish_failure_claim_unowned :
        (hash : Validation → String) (f : Failure) (o : FailureOptions) (now : ℕ)
        → finish_failure_claim hash id worker token f o now r ≡ (r, none)
    unfolding finish_failure_claim
    finish_failure_claim_unowned hash f o now =
        rw (find_unmatched (owned_in executing id worker token) r.tasks unowned)

Within-turn : Within in_turn
Within-turn s h = ground arith

Within-bindable : Within bindable
Within-bindable s h = ground arith

Within-integrable : Within integrable
Within-integrable s h = ground arith

Within-agent_done : Within (TaskStatus.agent_done ∷ [])
Within-agent_done s h = ground arith

Within-acceptable : Within acceptable
Within-acceptable s h = ground arith

Within-running : Within (TaskStatus.running ∷ [])
Within-running s h = ground arith

module _ (hash : Validation → String) (id w k : String) (r : Registry)
    (h : is_claim_owner id w k r ≡ false) where
  integration_unowned :
      (s : Option String) (now : ℕ) → (mark_claim_integration_pending id w k s now r).0 ≡ r
  unfolding mark_claim_integration_pending
  integration_unowned s now = elim (Option-cases (get_task id r)) [
    | inl e ↦ rw (e, mark_claim_integration_pending)
    | inr (t, e) ↦
        rw (e, mark_claim_integration_pending)
          (ap (λ x. (log_if id "task.integration_pending" x).0)
            (update_unowned id w k r h integrable Within-integrable
              (under_integration s t.metadata now)))
  ]

  turn_unowned : (e : TurnEnd) (now : ℕ) → after r (finish_turn_claim id w k e now r) ≡ r
  unfolding finish_turn_claim
  turn_unowned e now = elim (Bool-cases (ends_badly e.status)) [
    | inl y ↦ rw y (
        ap (λ x. (log_if id (task_event e.status) x).0)
          (update_unowned id w k r h in_turn Within-turn (ended_row e now)))
    | inr n ↦ rw n
  ]

  accept_unowned :
      (v : Option Validation) (now : ℕ) (o : Option Task) → (accept_found id w k v now r o).0 ≡ r
  accept_unowned v now none = refl
  accept_unowned v now (some t) =
      ap
        (λ x.
          (log_if id (if accepted v then "task.completed" else "task.completed_with_warnings") x).0)
        (update_unowned id w k r h acceptable Within-acceptable (accepted_row v now t))

  validation_unowned :
      (v : Option Validation) (now : ℕ) → (finish_validation_claim hash id w k v now r).0 ≡ r
  unfolding finish_validation_claim
  validation_unowned v now = elim (Bool-cases (not (accepted v) && not (warned v))) [
    | inl y ↦ rw y (
        ap (λ x. x.0)
          (finish_failure_claim_unowned id w k r h hash (validation_failure v now)
            (validation_options v now) now))
    | inr n ↦ rw n (accept_unowned v now (get_task id r))
  ]

  wait_unowned : (delay now : ℕ) → (wait_claim_for_lease hash id w k delay now r).0 ≡ r
  unfolding wait_claim_for_lease
  wait_unowned delay now =
      let since = waiting_since (get_task id r) now in
      elim (Bool-cases (leb (wait_limit (get_task id r)) (now - since))) [
        | inl y ↦ rw y (
            ap (λ x. x.0)
              (finish_failure_claim_unowned id w k r h hash wait_expired wait_options now))
        | inr n ↦ rw n (
            ap (λ x. x.0)
              (update_unowned id w k r h (TaskStatus.running ∷ []) Within-running
                (waiting_row since delay now)))
      ]

-- Whatever a worker reports with a task's id, its own id and a token, it changes nothing unless
-- an executing task is claimed by that worker with that token.
pub run_call-not_owner :
    (hash : Validation → String) (id worker token : String) (now : ℕ) (c : Call) (r : Registry)
    → is_claim_owner id worker token r ≡ false
    → run_call hash id worker token now c r ≡ r
unfolding run_call bind_claim set_claim_turn heartbeat_claim mark_claim_agent_done
    mark_claim_validating complete_claim fail_claim
run_call-not_owner hash id w k now (Call.binds b) r h =
    ap (λ x. x.0) (update_unowned id w k r h bindable Within-bindable (bound b now))
run_call-not_owner hash id w k now (Call.sets_turn turn) r h =
    ap (λ x. x.0) (update_unowned id w k r h in_turn Within-turn (turned turn now))
run_call-not_owner hash id w k now Call.heartbeats r h =
    ap (λ x. x.0) (update_unowned id w k r h executing (λ s e. e) (beaten now))
run_call-not_owner hash id w k now (Call.ends_agent o turn) r h =
    ap (λ x. (log_if id "task.agent_done" x).0)
      (update_unowned id w k r h in_turn Within-turn (agent_ended o turn now))
run_call-not_owner hash id w k now Call.validates r h =
    ap (λ x. (log_if id "task.validating" x).0)
      (update_unowned id w k r h (TaskStatus.agent_done ∷ []) Within-agent_done
        (under_validation now))
run_call-not_owner hash id w k now (Call.integrates s) r h =
    integration_unowned hash id w k r h s now
run_call-not_owner hash id w k now (Call.completes o turn) r h =
    ap (λ x. (log_if id "task.completed" x).0)
      (update_unowned id w k r h bindable Within-bindable (completed_row o turn now))
run_call-not_owner hash id w k now (Call.ends_turn e) r h = turn_unowned hash id w k r h e now
run_call-not_owner hash id w k now (Call.fails_with f o) r h =
    ap (λ x. x.0) (finish_failure_claim_unowned id w k r h hash f o now)
run_call-not_owner hash id w k now (Call.fails e f s) r h =
    ap (λ x. x.0)
      (finish_failure_claim_unowned id w k r h hash (or_else f (worker_failure e now))
        (plain_options s) now)
run_call-not_owner hash id w k now (Call.is_judged v) r h = validation_unowned hash id w k r h v now
run_call-not_owner hash id w k now (Call.waits delay) r h = wait_unowned hash id w k r h delay now
