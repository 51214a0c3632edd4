-- ===== src/Tasks/Legal.antt =====
-- The statuses that the calls of Tasks/Calls write are transitions of the task machine.
use codex_threadhub.Base.{
  ℕ, ◌≡◌, refl, ◌⊎◌, String, Bool, true, false, [], ◌∷◌, arith, inl, inr, or_else, if◌then◌else◌,
  ok,
}
use codex_threadhub.States.Machine.{no_options, move}
use codex_threadhub.States.Task.{
  TaskStatus, move_task, task_in, execution_terminals, running, agent_done, validating,
  integration_pending, retry_waiting, completed, completed_with_warnings, waiting_for_lease,
}
use codex_threadhub.Registry.{Validation, Task, Registry}
use codex_threadhub.Tasks.Claim.{executing, in_turn, bindable, integrable, acceptable}
use codex_threadhub.Tasks.Complete.{ends_badly}
use codex_threadhub.Tasks.Finish.{failed_row, decision_of}
use codex_threadhub.Tasks.Validate.{accepted}
use codex_threadhub.Tasks.Calls.{Call, run_call}
use codex_threadhub.Tasks.Rules.{Rows, RowRules, UniqueIds, call_ok}
use codex_threadhub.Tasks.Rows.{run_call-Rows}

-- The status is the same, or the task machine allows the transition, or integration is retried.
abbrev pub Legal : TaskStatus → TaskStatus → Type 0
Legal s u =
    (u ≡ s) ⊎ (move_task s u no_options ≡ ok u) ⊎ ((s ≡ integration_pending) × (u ≡ retry_waiting))

module _ (s : TaskStatus) where
  ends_legal : task_in in_turn s ≡ true → move_task s agent_done no_options ≡ ok agent_done
  unfolding move_task move
  ends_legal h = ground arith

  validates_legal :
      task_in (agent_done ∷ []) s ≡ true → move_task s validating no_options ≡ ok validating
  unfolding move_task move
  validates_legal h = ground arith

  integrates_legal :
      task_in integrable s ≡ true
      → move_task s integration_pending no_options ≡ ok integration_pending
  unfolding move_task move
  integrates_legal h = ground arith

  completes_legal : task_in bindable s ≡ true → move_task s completed no_options ≡ ok completed
  unfolding move_task move
  completes_legal h = ground arith

  accepts_legal :
      (b : Bool)
      → task_in acceptable s ≡ true
      → let u = if b then completed else completed_with_warnings in move_task s u no_options ≡ ok u
  unfolding move_task move
  accepts_legal true h = ground arith
  accepts_legal false h = ground arith

  waits_legal :
      task_in (running ∷ []) s ≡ true
      → move_task s waiting_for_lease no_options ≡ ok waiting_for_lease
  unfolding move_task move
  waits_legal h = ground arith

  ends_badly_legal :
      (u : TaskStatus)
      → ends_badly u ≡ true
      → task_in in_turn s ≡ true
      → move_task s u no_options ≡ ok u
  unfolding move_task move
  ends_badly_legal TaskStatus.failed h k = ground arith
  ends_badly_legal TaskStatus.interrupted h k = ground arith
  ends_badly_legal u h k = cc

  retry_legal :
      task_in executing s ≡ true
      → (move_task s retry_waiting no_options ≡ ok retry_waiting) ⊎ (s ≡ integration_pending)
  unfolding move_task move
  retry_legal h = ground arith

terminal_legal :
    (s u : TaskStatus)
    → task_in executing s ≡ true
    → task_in execution_terminals u ≡ true
    → move_task s u no_options ≡ ok u
unfolding move_task move
terminal_legal TaskStatus.running u h k = ground arith
terminal_legal TaskStatus.approval_waiting u h k = ground arith
terminal_legal TaskStatus.agent_done u h k = ground arith
terminal_legal TaskStatus.validating u h k = ground arith
terminal_legal TaskStatus.integration_pending u h k = ground arith
terminal_legal s u h k = cc

abbrev pub Moves : Task → Task → Type 0
Moves t u = Legal t.status u.status

allowed : {s u : TaskStatus} → move_task s u no_options ≡ ok u → Legal s u
allowed h = inr (inl h)

failed-Legal :
    (s u : TaskStatus) (b : Bool)
    → task_in executing s ≡ true
    → task_in execution_terminals u ≡ true
    → Legal s (if b then retry_waiting else u)
failed-Legal s u false e h = allowed (terminal_legal s u e h)
failed-Legal s u true e h = elim (retry_legal s e) [
  | inl y ↦ allowed y
  | inr y ↦ inr (inr (y, refl))
]

Moves-rules : (hash : Validation → String) → RowRules hash Moves
unfolding failed_row
Moves-rules hash = record {
  same = λ t. inl refl;
  binds = λ b now t h. inl refl;
  turns = λ x now t h. inl refl;
  beats = λ now t h. inl refl;
  ends = λ o x now t h. allowed (ends_legal t.status h);
  validates = λ now t h. allowed (validates_legal t.status h);
  integrates = λ s m now t h. allowed (integrates_legal t.status h);
  completes = λ o x now t h. allowed (completes_legal t.status h);
  ends_turn = λ e now t bad h. allowed (ends_badly_legal t.status e.status bad h);
  fails = λ f o now t good h.
      failed-Legal t.status (or_else o.terminal_status TaskStatus.failed)
        (decision_of hash f o.feedback t).retry h good;
  accepts = λ v now task t h. allowed (accepts_legal t.status (accepted v) h);
  waits = λ since delay now t h. allowed (waits_legal t.status h);
}

-- A call of a claim's owner moves each task of the table by a transition that the task machine
-- allows, or leaves its status, with one exception: a failure while the integration is pending may
-- be retried. The ids are unique, and a failure names a status in which an execution may end.
pub run_call-Legal :
    (hash : Validation → String) (id worker token : String) (now : ℕ) (c : Call) (r : Registry)
    → UniqueIds r.tasks
    → call_ok c ≡ true
    → Rows Moves r.tasks (run_call hash id worker token now c r).tasks
run_call-Legal hash = run_call-Rows (Moves-rules hash)
