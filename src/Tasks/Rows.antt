-- ===== src/Tasks/Rows.antt =====
-- A rule for every call of Tasks/Calls: what each of their row updates guarantees of the row before
-- and after it holds of every row of the table.
use mathlib.Core.List.{Memᴰ}
use codex_threadhub.Base.{
  ℕ, ◌-◌, ◌≡◌, refl, sym, subst, eq_iff, ◌∙◌, String, Bool, true, not, ◌&&◌, Option, none, some,
  List, [], ◌∷◌, arith, find, leb, or_else, Bool-cases, Option-cases, inl, inr, if◌then◌else◌,
}
use mathlib.Core.Bool.{and-eq-true_iff}
use codex_threadhub.Base.Table.{update_where, find-eq_some}
use codex_threadhub.States.Task.{TaskStatus, task_in, execution_terminals, running, agent_done}
use codex_threadhub.Retry.{Failure}
use codex_threadhub.Registry.{Validation, Task, Registry, get_task}
use codex_threadhub.Tasks.Claim.{
  update_tasks, log_if, owns, owned_in, executing, in_turn, bindable, integrable, acceptable,
  beaten, bound, turned, agent_ended, under_validation, under_integration, bind_claim,
  set_claim_turn, heartbeat_claim, mark_claim_agent_done, mark_claim_validating,
  mark_claim_integration_pending,
}
use codex_threadhub.Tasks.Complete.{
  TurnEnd, ended_row, ends_badly, completed_row, task_event, complete_claim, finish_turn_claim,
}
use codex_threadhub.Tasks.Finish.{FailureOptions, failed_row, finish_found, finish_failure_claim}
use codex_threadhub.Tasks.Validate.{
  accepted, warned, accepted_row, accept_found, validation_failure, validation_options,
  worker_failure, plain_options, rejection_status, finish_validation_claim, fail_claim,
}
use codex_threadhub.Tasks.Wait.{
  waiting_since, wait_limit, wait_expired, wait_options, waiting_row, wait_claim_for_lease,
}
use codex_threadhub.Tasks.Calls.{Call, after, run_call}
use codex_threadhub.Tasks.Rules.{Rows, terminal_ok, call_ok, RowRules, UniqueIds, unique_row}

module _ (R : Task → Task → Type 0) (same : (t : Task) → R t t) where
  pub Rows-refl : (ts : List Task) → Rows R ts ts
  Rows-refl [] = tt
  Rows-refl (t ∷ ts) = (same t, Rows-refl ts)

  pub Rows-update_where :
      (p : Task → Bool) (f : Task → Task) (ts : List Task)
      → ((t : Task) → Memᴰ t ts → p t ≡ true → R t (f t))
      → Rows R ts (update_where p f ts)
  unfolding update_where
  Rows-update_where p f [] h = tt
  Rows-update_where p f (t ∷ ts) h =
      let rest = Rows-update_where p f ts (λ x m. h x (Memᴰ.tail m)) in
      elim (Bool-cases (p t)) [
        | inl y ↦ rw y (h t (Memᴰ.head refl) y, rest)
        | inr n ↦ rw n (same t, rest)
      ]

module _ {hash : Validation → String} {R : Task → Task → Type 0} (rules : RowRules hash R)
    (r : Registry) where
  -- An update of owned tasks, with or without its event.
  owned-Rows :
      (ss : List TaskStatus) (id w k : String) (f : Task → Task)
      → ((t : Task) → task_in ss t.status ≡ true → R t (f t))
      → Rows R r.tasks (update_tasks (owned_in ss id w k) f r).0.tasks
  owned-Rows ss id w k f h =
      Rows-update_where R rules.same (owned_in ss id w k) f r.tasks
        (λ t m e. h t ((and-eq-true_iff _ _).0 e).1)

  logged-Rows :
      (id type : String) (s : Registry × Option Task)
      → Rows R r.tasks s.0.tasks
      → Rows R r.tasks (log_if id type s).0.tasks
  logged-Rows id type (q, none) h = h
  logged-Rows id type (q, some t) h = h

  found-Rows :
      (id w k : String) (f : Failure) (o : FailureOptions) (now : ℕ) (x : Option Task)
      → UniqueIds r.tasks
      → terminal_ok o ≡ true
      → find (owned_in executing id w k) r.tasks ≡ x
      → Rows R r.tasks (finish_found hash id w k f o now r x).0.tasks
  found-Rows id w k f o now none u good e = Rows-refl R rules.same r.tasks
  found-Rows id w k f o now (some task) u good e =
      let (listed, owned) = find-eq_some (owned_in executing id w k) r.tasks e in
      let (mine, busy) = (and-eq-true_iff _ _).0 owned in
      logged-Rows id _ (update_tasks (owns id w k) (failed_row hash f o now) r) (
        Rows-update_where R rules.same (owns id w k) (failed_row hash f o now) r.tasks (λ t m h.
          let one = unique_row r.tasks u listed m (owner_id task mine ∙ sym (owner_id t h)) in
          rules.fails f o now t good (subst (λ z. task_in executing z.status ≡ true) one busy)))
    where
      owner_id : (t : Task) → owns id w k t ≡ true → t.id ≡ id
      owner_id t h = (eq_iff _ _).0 ((and-eq-true_iff _ _).0 h).0

  failure-Rows :
      (id w k : String) (f : Failure) (o : FailureOptions) (now : ℕ)
      → UniqueIds r.tasks
      → terminal_ok o ≡ true
      → Rows R r.tasks (finish_failure_claim hash id w k f o now r).0.tasks
  unfolding finish_failure_claim
  failure-Rows id w k f o now u good =
      found-Rows id w k f o now (find (owned_in executing id w k) r.tasks) u good refl

  integration-Rows :
      (id w k : String) (s : Option String) (now : ℕ)
      → Rows R r.tasks (mark_claim_integration_pending id w k s now r).0.tasks
  unfolding mark_claim_integration_pending
  integration-Rows id w k s now = elim (Option-cases (get_task id r)) [
    | inl e ↦ rw (e, mark_claim_integration_pending) (Rows-refl R rules.same r.tasks)
    | inr (t, e) ↦
        rw (e, mark_claim_integration_pending)
          (logged-Rows id "task.integration_pending"
            (update_tasks (owned_in integrable id w k) (under_integration s t.metadata now) r)
            (owned-Rows integrable id w k _ (rules.integrates s t.metadata now)))
  ]

  turn-Rows :
      (id w k : String) (e : TurnEnd) (now : ℕ)
      → Rows R r.tasks (after r (finish_turn_claim id w k e now r)).tasks
  unfolding finish_turn_claim
  turn-Rows id w k e now = elim (Bool-cases (ends_badly e.status)) [
    | inl y ↦ rw y (
        logged-Rows id (task_event e.status)
          (update_tasks (owned_in in_turn id w k) (ended_row e now) r)
          (owned-Rows in_turn id w k (ended_row e now) (λ t. rules.ends_turn e now t y)))
    | inr n ↦ rw n (Rows-refl R rules.same r.tasks)
  ]

  accept-Rows :
      (id w k : String) (v : Option Validation) (now : ℕ) (o : Option Task)
      → Rows R r.tasks (accept_found id w k v now r o).0.tasks
  accept-Rows id w k v now none = Rows-refl R rules.same r.tasks
  accept-Rows id w k v now (some task) =
      logged-Rows id (if accepted v then "task.completed" else "task.completed_with_warnings")
        (update_tasks (owned_in acceptable id w k) (accepted_row v now task) r)
        (owned-Rows acceptable id w k (accepted_row v now task) (rules.accepts v now task))

  validation-Rows :
      (id w k : String) (v : Option Validation) (now : ℕ)
      → UniqueIds r.tasks
      → Rows R r.tasks (finish_validation_claim hash id w k v now r).0.tasks
  unfolding finish_validation_claim
  validation-Rows id w k v now u = elim (Bool-cases (not (accepted v) && not (warned v))) [
    | inl y ↦ rw y (
        failure-Rows id w k (validation_failure v now) (validation_options v now) now u
          (rejection_ok (validation_failure v now)))
    | inr n ↦ rw n (accept-Rows id w k v now (get_task id r))
  ]
    where
      rejection_ok : (f : Failure) → task_in execution_terminals (rejection_status f) ≡ true
      rejection_ok f = ground arith

  wait-Rows :
      (id w k : String) (delay now : ℕ)
      → UniqueIds r.tasks
      → Rows R r.tasks (wait_claim_for_lease hash id w k delay now r).0.tasks
  unfolding wait_claim_for_lease
  wait-Rows id w k delay now u =
      let since = waiting_since (get_task id r) now in
      elim (Bool-cases (leb (wait_limit (get_task id r)) (now - since))) [
        | inl y ↦ rw y (failure-Rows id w k wait_expired wait_options now u refl)
        | inr n ↦ rw n (
            owned-Rows (running ∷ []) id w k (waiting_row since delay now)
              (rules.waits since delay now))
      ]

-- Every call is covered by the rules.
pub run_call-Rows :
    {hash : Validation → String} {R : Task → Task → Type 0} (rules : RowRules hash R)
    (id w k : String) (now : ℕ) (c : Call) (r : Registry)
    → UniqueIds r.tasks
    → call_ok c ≡ true
    → Rows R r.tasks (run_call hash id w k now c r).tasks
unfolding run_call bind_claim set_claim_turn heartbeat_claim mark_claim_agent_done
    mark_claim_validating complete_claim fail_claim
run_call-Rows rules id w k now (Call.binds b) r u good =
    owned-Rows rules r bindable id w k (bound b now) (rules.binds b now)
run_call-Rows rules id w k now (Call.sets_turn turn) r u good =
    owned-Rows rules r in_turn id w k (turned turn now) (rules.turns turn now)
run_call-Rows rules id w k now Call.heartbeats r u good =
    owned-Rows rules r executing id w k (beaten now) (rules.beats now)
run_call-Rows rules id w k now (Call.ends_agent o turn) r u good =
    logged-Rows rules r id "task.agent_done"
      (update_tasks (owned_in in_turn id w k) (agent_ended o turn now) r)
      (owned-Rows rules r in_turn id w k (agent_ended o turn now) (rules.ends o turn now))
run_call-Rows rules id w k now Call.validates r u good =
    logged-Rows rules r id "task.validating"
      (update_tasks (owned_in (agent_done ∷ []) id w k) (under_validation now) r)
      (owned-Rows rules r (agent_done ∷ []) id w k (under_validation now) (rules.validates now))
run_call-Rows rules id w k now (Call.integrates s) r u good = integration-Rows rules r id w k s now
run_call-Rows rules id w k now (Call.completes o turn) r u good =
    logged-Rows rules r id "task.completed"
      (update_tasks (owned_in bindable id w k) (completed_row o turn now) r)
      (owned-Rows rules r bindable id w k (completed_row o turn now) (rules.completes o turn now))
run_call-Rows rules id w k now (Call.ends_turn e) r u good = turn-Rows rules r id w k e now
run_call-Rows rules id w k now (Call.fails_with f o) r u good =
    failure-Rows rules r id w k f o now u good
run_call-Rows rules id w k now (Call.fails e f s) r u good =
    failure-Rows rules r id w k (or_else f (worker_failure e now)) (plain_options s) now u good
run_call-Rows rules id w k now (Call.is_judged v) r u good = validation-Rows rules r id w k v now u
run_call-Rows rules id w k now (Call.waits delay) r u good = wait-Rows rules r id w k delay now u
