-- ===== src/Tasks/Claiming.antt =====
-- What a successful `claimTask` relied on, and what it leaves behind.
use codex_threadhub.Base.{
  ℕ, ◌+◌, ◌≡◌, refl, ap, ◌≢◌, ◌⊎◌, String, true, false, Option, none, some, arith, All, All-map,
  any-false→All, eq_iff, Result, ok, err, excluded,
}
use mathlib.Core.List.{Memᴰ}
use mathlib.Core.Bool.{and-eq-true_iff}
use codex_threadhub.Base.Sql.{eq-holds}
use codex_threadhub.Base.Table.{returned-eq_some}
use codex_threadhub.States.Task.{
  TaskStatus, running, completed, completed_with_warnings, task_in, is_terminal_task,
}
use codex_threadhub.Registry.{
  DependencyPolicy, all_success, all_terminal, on_failure, Metadata, Task, Registry,
}
use codex_threadhub.Tasks.Guards.{
  claimable, unmet, policy_of, dependencies_met, contract_validated, snapshot_valid, gate_open,
  is_due, can_claim,
}
use codex_threadhub.Tasks.Claim.{
  GlobalGate, pass_gate, claimed, log_if, claim_passed, claim_gated, claim_task,
}

-- How a dependency must have ended for a task of the policy to run.
abbrev pub Met : DependencyPolicy → TaskStatus → Type 0
Met all_success s = (s ≡ completed) ⊎ (s ≡ completed_with_warnings)
Met all_terminal s = is_terminal_task s ≡ true
Met on_failure s = is_terminal_task s ≡ true

abbrev pub DependenciesMet : Registry → Task → Type 0
DependenciesMet r t =
    All
      (λ d. d.task_id ≡ t.id → All (λ x. x.id ≡ d.depends_on → Met (policy_of t) x.status) r.tasks)
      r.dependencies

unmet-false : (p : DependencyPolicy) (s : TaskStatus) → unmet p s ≡ false → Met p s
unfolding unmet
unmet-false all_success s h = ground arith
unmet-false all_terminal s h = ground arith
unmet-false on_failure s h = ground arith

dependencies_met_sound :
    (r : Registry) (t : Task) → dependencies_met r t ≡ true → DependenciesMet r t
unfolding dependencies_met
dependencies_met_sound r t h =
    All-map _ _ r.dependencies
      (λ d e same.
        All-map _ _ r.tasks
          (λ x k at. unmet-false (policy_of t) x.status (excluded _ _ k ((eq_iff _ _).1 at)))
          (any-false→All _ r.tasks (excluded _ _ e ((eq_iff _ _).1 same))))
      (any-false→All _ r.dependencies (ground arith))

-- What holds of the row that a successful claim took, in the registry `r` that the gate left.
pub record Claimed (r : Registry) (id worker token : String) (now : ℕ) (old t : Task) : Type 0 where
  pub listed : Memᴰ old r.tasks
  pub named : old.id ≡ id
  pub waiting : task_in claimable old.status ≡ true
  pub validated : old.metadata.contract_status ≡ some "validated"
  pub same_contract :
      old.metadata.contract_fingerprint ≡ old.metadata.execution_contract_fingerprint
  pub has_contract : old.metadata.contract_fingerprint ≢ none
  pub snapshot : snapshot_valid r old.metadata ≡ true
  pub gate : gate_open r old ≡ true
  pub due : is_due old.next_retry_at now ≡ true
  pub dependencies : DependenciesMet r old
  pub status : t.status ≡ running
  pub owner : t.worker_id ≡ some worker
  pub fence : t.claim_token ≡ some token
  pub attempt : t.attempt ≡ old.attempt + 1

contract_facts :
    (m : Metadata)
    → contract_validated m ≡ true
    → (m.contract_status ≡ some "validated")
      × (m.contract_fingerprint ≡ m.execution_contract_fingerprint)
      × (m.contract_fingerprint ≢ none)
contract_facts m h =
    let (status, fingerprints) = (and-eq-true_iff _ _).0 h in
    let (same, present) =
      eq-holds m.contract_fingerprint m.execution_contract_fingerprint fingerprints in
    ((eq-holds _ _ status).0, same, present)

none≢some : {A : Type 0} {a : A} → ◌≡◌ {A = Option A} none (some a) → ⊥
none≢some h = cc

log_if-some :
    {A : Type 0} (id type : String) (s : Registry × Option A) {r' : Registry} {t : A}
    → log_if id type s ≡ (r', some t)
    → s.1 ≡ some t
log_if-some id type (r, none) h = cc
log_if-some id type (r, some a) h = ground arith

can_claim_sound :
    (g : Registry) (id worker token : String) (now : ℕ) (old t : Task)
    → Memᴰ old g.tasks
    → can_claim g id now old ≡ true
    → t ≡ claimed worker token now old
    → Claimed g id worker token now old t
unfolding can_claim
can_claim_sound g id worker token now old t m h e =
    let (named, h1) = (and-eq-true_iff _ _).0 h in
    let (waiting, h2) = (and-eq-true_iff _ _).0 h1 in
    let (contract, h3) = (and-eq-true_iff _ _).0 h2 in
    let (snapshot, h4) = (and-eq-true_iff _ _).0 h3 in
    let (gate, h5) = (and-eq-true_iff _ _).0 h4 in
    let (due, met) = (and-eq-true_iff _ _).0 h5 in
    let (validated, same, present) = contract_facts old.metadata contract in
    record {
      listed = m;
      named = (eq_iff _ _).0 named;
      waiting = waiting;
      validated = validated;
      same_contract = same;
      has_contract = present;
      snapshot = snapshot;
      gate = gate;
      due = due;
      dependencies = dependencies_met_sound g old met;
      status = ap (λ x. x.status) e;
      owner = ap (λ x. x.worker_id) e;
      fence = ap (λ x. x.claim_token) e;
      attempt = ap (λ x. x.attempt) e;
    }

claim_passed_row :
    (id worker token : String) (now : ℕ) (g : Registry) {r' : Registry} {t : Task}
    → claim_passed id worker token now g ≡ (r', some t)
    → (old : Task) × Memᴰ old g.tasks
      × (can_claim g id now old ≡ true)
      × (t ≡ claimed worker token now old)
unfolding claim_passed
claim_passed_row id worker token now g h =
    returned-eq_some (can_claim g id now) (claimed worker token now) g.tasks
      (log_if-some id "task.claimed" _ h)

claim_gated_safe :
    (id worker token : String) (now : ℕ) (r : Registry) (x : Result String Registry) {r' : Registry}
    {t : Task}
    → claim_gated id worker token now r x ≡ (r', some t)
    → (g : Registry) × (old : Task) × (x ≡ ok g) × Claimed g id worker token now old t
unfolding claim_gated
claim_gated_safe id worker token now r (err e) h = absurd (none≢some (ap (λ x. x.1) h))
claim_gated_safe id worker token now r (ok g) h =
    let (old, m, c, e) = claim_passed_row id worker token now g h in
    (g, old, refl, can_claim_sound g id worker token now old _ m c e)

-- A claim succeeds only for a task that waits, is due, has a validated contract and a validated
-- context, passes the gate of its Global Run and has its dependencies ended as its policy demands;
-- the task is then running, owned by the worker under the new token, with one more attempt.
pub claim_task_safe :
    (gate : GlobalGate) (id worker token : String) (now : ℕ) (r : Registry) {r' : Registry}
    {t : Task}
    → claim_task gate id worker token now r ≡ (r', some t)
    → (g : Registry) × (old : Task) × (pass_gate gate id r ≡ ok g)
      × Claimed g id worker token now old t
unfolding claim_task claim_gated
claim_task_safe gate id worker token now r h =
    claim_gated_safe id worker token now r (pass_gate gate id r) h
