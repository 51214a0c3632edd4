-- ===== src/Tasks/Attempts.antt =====
-- Every update that a claim or a report makes keeps the attempts of its task within the budget.
use codex_threadhub.Base.{
  ℕ, ◌+◌, ◌-◌, ◌≤◌, ◌<◌, ◌≡◌, refl, sym, ◌∙◌, ◌≢◌, subst, String, Bool, true, false, List, [], ◌∷◌,
  arith, All, Bool-cases, inl, inr, or_else, if◌then◌else◌,
}
use codex_threadhub.States.Task.{TaskStatus, task_in, execution_terminals, running, agent_done}
use codex_threadhub.Retry.{Failure}
use codex_threadhub.Retry.Laws.{decide_task_retry_iff}
use codex_threadhub.Registry.{Validation, Task, Registry}
use codex_threadhub.Tasks.Guards.{claimable, can_claim}
use codex_threadhub.Tasks.Claim.{
  claimed, update_tasks, claim_passed, executing, in_turn, integrable,
}
use codex_threadhub.Tasks.Complete.{ends_badly}
use codex_threadhub.Tasks.Finish.{FailureOptions, failed_row, decision_of}
use codex_threadhub.Tasks.Validate.{accepted}
use codex_threadhub.Tasks.Exclusive.{log_if-tasks, can_claim_facts}
use codex_threadhub.Tasks.Rules.{Rows, RowRules, UniqueIds, terminal_ok}
use codex_threadhub.Tasks.Rows.{Rows-update_where}

-- The budget of a task with the status, after so many attempts of at most so many.
abbrev pub WithinBudget : TaskStatus → ℕ → ℕ → Type 0
WithinBudget s n max =
    (n ≤ max) × (task_in claimable s ≡ true → n < max) × (task_in executing s ≡ true → 0 < n)

abbrev pub IsValid : Task → Type 0
IsValid t = WithinBudget t.status t.attempt t.max_attempts

-- What every update of a task keeps: its id, and its budget.
abbrev pub Keeps : Task → Task → Type 0
Keeps t u = (u.id ≡ t.id) × (IsValid t → IsValid u)

-- A status that is neither claimable nor executing asks for nothing but the bound.
ended_budget :
    (s : TaskStatus) (n max : ℕ)
    → task_in claimable s ≡ false
    → task_in executing s ≡ false
    → n ≤ max
    → WithinBudget s n max
ended_budget s n max c e h = (h, (λ x. cc), (λ x. cc))

-- An executing status may follow another.
executing_budget :
    (s u : TaskStatus) (n max : ℕ)
    → task_in executing s ≡ true
    → task_in executing u ≡ true
    → task_in claimable u ≡ false
    → WithinBudget s n max
    → WithinBudget u n max
executing_budget s u n max e e' c (h, w, p) = (h, (λ x. cc), (λ x. p e))

terminal_not :
    (s : TaskStatus)
    → task_in execution_terminals s ≡ true
    → (task_in claimable s ≡ false) × (task_in executing s ≡ false)
terminal_not s h = (ground arith, ground arith)

module _ (s : TaskStatus) where
  turn_executing : task_in in_turn s ≡ true → task_in executing s ≡ true
  turn_executing h = ground arith

  done_executing : task_in (agent_done ∷ []) s ≡ true → task_in executing s ≡ true
  done_executing h = ground arith

  integrable-executing : task_in integrable s ≡ true → task_in executing s ≡ true
  integrable-executing h = ground arith

  running_executing : task_in (running ∷ []) s ≡ true → task_in executing s ≡ true
  running_executing h = ground arith

  badly_not : ends_badly s ≡ true → (task_in claimable s ≡ false) × (task_in executing s ≡ false)
  badly_not h = (ground arith, ground arith)

accepted_budget :
    (b : Bool) (n max : ℕ)
    → n ≤ max
    → WithinBudget (if b then TaskStatus.completed else TaskStatus.completed_with_warnings) n max
accepted_budget true n max h = ended_budget TaskStatus.completed n max refl refl h
accepted_budget false n max h = ended_budget TaskStatus.completed_with_warnings n max refl refl h

-- An attempt that waits for a lease is given back.
released_budget :
    (s : TaskStatus) (n max : ℕ)
    → task_in executing s ≡ true
    → WithinBudget s n max
    → WithinBudget TaskStatus.waiting_for_lease (n - 1) max
released_budget s n max e (h, w, p) = let q = p e in (omega arith, (λ x. omega arith), (λ x. cc))

-- A failure frees the task for a retry only if its budget allows another attempt.
failed_budget :
    (hash : Validation → String) (f : Failure) (o : FailureOptions) (t : Task)
    → terminal_ok o ≡ true
    → IsValid t
    → WithinBudget
        (if (decision_of hash f o.feedback t).retry
          then TaskStatus.retry_waiting
          else or_else o.terminal_status TaskStatus.failed)
        t.attempt
        t.max_attempts
failed_budget hash f o t good (h, w, p) =
    elim (Bool-cases (decision_of hash f o.feedback t).retry) [
      | inl y ↦
          let (contract, retryable, left, mode) = (decide_task_retry_iff _ _ _ _).0 y in
          rw y (h, (λ x. omega arith), (λ x. cc))
      | inr n ↦
          let (c, e) = terminal_not (or_else o.terminal_status TaskStatus.failed) good in
          rw n (
            ended_budget (or_else o.terminal_status TaskStatus.failed) t.attempt t.max_attempts c e
              h)
    ]

pub Keeps-rules : (hash : Validation → String) → RowRules hash Keeps
unfolding failed_row
Keeps-rules hash = record {
  same = λ t. (refl, λ v. v);
  binds = λ b now t h. (refl, λ v. v);
  turns = λ x now t h. (refl, λ v. v);
  beats = λ now t h. (refl, λ v. v);
  ends = λ o x now t h.
      (refl, executing_budget t.status agent_done _ _ (turn_executing t.status h) refl refl);
  validates = λ now t h. (
    refl,
    executing_budget t.status TaskStatus.validating _ _ (done_executing t.status h) refl refl,
  );
  integrates = λ s m now t h. (
    refl,
    executing_budget t.status TaskStatus.integration_pending _ _ (integrable-executing t.status h)
        refl refl,
  );
  completes = λ o x now t h. (refl, λ v. ended_budget TaskStatus.completed _ _ refl refl v.0);
  ends_turn = λ e now t bad h.
      (refl, λ v. let (c, x) = badly_not e.status bad in ended_budget e.status _ _ c x v.0);
  fails = λ f o now t good h. (refl, failed_budget hash f o t good);
  accepts =
      λ v now task t h. (refl, λ b. accepted_budget (accepted v) t.attempt t.max_attempts b.0);
  waits = λ since delay now t h.
      (refl, released_budget t.status t.attempt t.max_attempts (running_executing t.status h));
}

pub Rows-IsValid : (ts us : List Task) → Rows Keeps ts us → All IsValid ts → All IsValid us
Rows-IsValid [] [] h v = tt
Rows-IsValid (t ∷ ts) (u ∷ us) ((e, k), h) (v, vs) = (k v, Rows-IsValid ts us h vs)
Rows-IsValid [] (u ∷ us) h v = absurd h
Rows-IsValid (t ∷ ts) [] h v = absurd h

Rows-ne :
    (t u : Task) (ts us : List Task)
    → u.id ≡ t.id
    → Rows Keeps ts us
    → All (λ x. x.id ≢ t.id) ts
    → All (λ x. x.id ≢ u.id) us
Rows-ne t u [] [] e h n = tt
Rows-ne t u (x ∷ ts) (y ∷ us) e ((d, k), h) (n, ns) =
    ((λ q. n (sym d ∙ q ∙ e)), Rows-ne t u ts us e h ns)
Rows-ne t u [] (y ∷ us) e h n = absurd h
Rows-ne t u (x ∷ ts) [] e h n = absurd h

pub Rows-UniqueIds : (ts us : List Task) → Rows Keeps ts us → UniqueIds ts → UniqueIds us
Rows-UniqueIds [] [] h u = tt
Rows-UniqueIds (t ∷ ts) (u ∷ us) ((e, k), h) (n, ns) =
    (Rows-ne t u ts us e h n, Rows-UniqueIds ts us h ns)
Rows-UniqueIds [] (u ∷ us) h v = absurd h
Rows-UniqueIds (t ∷ ts) [] h v = absurd h

claimed_budget :
    (s : TaskStatus) (n max : ℕ)
    → task_in claimable s ≡ true
    → WithinBudget s n max
    → WithinBudget running (n + 1) max
claimed_budget s n max c (h, w, p) = let q = w c in (omega arith, (λ x. cc), (λ x. omega arith))

claimed-Keeps :
    (worker token : String) (now : ℕ) (t : Task)
    → task_in claimable t.status ≡ true
    → Keeps t (claimed worker token now t)
claimed-Keeps worker token now t h = (refl, claimed_budget t.status t.attempt t.max_attempts h)

pub claim_passed-Keeps :
    (id worker token : String) (now : ℕ) (g : Registry)
    → Rows Keeps g.tasks (claim_passed id worker token now g).0.tasks
unfolding claim_passed
claim_passed-Keeps id worker token now g =
    let (same, e) =
      log_if-tasks id "task.claimed"
        (update_tasks (can_claim g id now) (claimed worker token now) g) refl in
    subst (Rows Keeps g.tasks) (sym same) (
      Rows-update_where Keeps (λ t. (refl, λ v. v)) (can_claim g id now) (claimed worker token now)
        g.tasks (λ t m h. claimed-Keeps worker token now t (can_claim_facts g id now t h).1))
