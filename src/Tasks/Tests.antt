-- ===== src/Tasks/Tests.antt =====
-- Claims in the small registry, and instances of the theorems on claims.
use codex_threadhub.Base.{◌≡◌, refl, arith, String, false, none, some, List, [], ◌∷◌, All, ok}
use codex_threadhub.States.Task.{TaskStatus, queued}
use codex_threadhub.Registry.{Validation, Task, Registry}
use codex_threadhub.Tasks.Claim.{
  GlobalGate, pass_gate, claim_task, claim_gated, claim_passed, is_claim_owner,
}
use codex_threadhub.Tasks.Guards.{unmet, can_claim, dependencies_met, gate_open}
use codex_threadhub.Base.Table.{update_where, returned}
use codex_threadhub.Tasks.Calls.{Call, run_call}
use codex_threadhub.Tasks.Rules.{Rows}
use codex_threadhub.Tasks.Fencing.{run_call-not_owner}
use codex_threadhub.Tasks.Claiming.{Claimed, claim_task_safe}
use codex_threadhub.Tasks.Exclusive.{claim_task_exclusive}
use codex_threadhub.Tasks.Attempts.{IsValid}
use codex_threadhub.Tasks.Budget.{LeavesTasks, Move, run_protocol, run_protocol-IsValid}
use codex_threadhub.Tasks.Legal.{Moves, run_call-Legal}
use codex_threadhub.Tasks.Samples.{task_row, two_tasks, unique_two}

abbrev open_gate : GlobalGate
open_gate id r = ok r

abbrev digest : Validation → String
digest v = "digest"

open_gate-leaves : LeavesTasks open_gate
open_gate-leaves id r g h = ground arith

abbrev claimed_b : Task
claimed_b = record (task_row "b" TaskStatus.running 1) {
  worker_id = some "w";
  heartbeat_at = some 5;
  updated_at = 5;
  started_at = some 5;
  claim_token = some "k";
  version = 1;
}

abbrev claimed_tasks : Registry
claimed_tasks = record two_tasks {
  tasks = task_row "a" TaskStatus.completed 1 ∷ claimed_b ∷ [];
  events = record { entity_type = "task"; entity_id = "b"; event_type = "task.claimed" } ∷ [];
}

claim_of_b : claim_task open_gate "b" "w" "k" 5 two_tasks ≡ (claimed_tasks, some claimed_b)
unfolding claim_task claim_gated claim_passed can_claim dependencies_met gate_open unmet
    update_where returned
claim_of_b = refl

claim_of_a : (claim_task open_gate "a" "w" "k" 5 two_tasks).1 ≡ none
unfolding claim_task claim_gated claim_passed can_claim dependencies_met gate_open update_where
    returned
claim_of_a = refl

-- The task waits until its dependency is completed.
claim_too_early :
    let r = record two_tasks { tasks = task_row "a" queued 0 ∷ task_row "b" queued 0 ∷ [] } in
    (claim_task open_gate "b" "w" "k" 5 r).1 ≡ none
unfolding claim_task claim_gated claim_passed can_claim dependencies_met gate_open unmet
    update_where returned
claim_too_early = refl

not_owner : is_claim_owner "b" "w" "old" claimed_tasks ≡ false
unfolding is_claim_owner
not_owner = refl

run_call-not_owner_example :
    run_call digest "b" "w" "old" 9 (Call.completes (some "done") none) claimed_tasks
    ≡ claimed_tasks
run_call-not_owner_example =
    run_call-not_owner digest "b" "w" "old" 9 (Call.completes (some "done") none) claimed_tasks
      not_owner

claim_task_safe_example :
    (g : Registry) × (old : Task) × (pass_gate open_gate "b" two_tasks ≡ ok g)
    × Claimed g "b" "w" "k" 5 old claimed_b
claim_task_safe_example = claim_task_safe open_gate "b" "w" "k" 5 two_tasks claim_of_b

claim_task_exclusive_example :
    claim_task open_gate "b" "w2" "k2" 6 claimed_tasks ≡ (claimed_tasks, none)
claim_task_exclusive_example =
    claim_task_exclusive open_gate open_gate "b" "w" "k" "w2" "k2" 5 6 two_tasks claimed_tasks
      two_tasks claimed_tasks claimed_b unique_two refl claim_of_b refl refl

IsValid-two : All IsValid two_tasks.tasks
IsValid-two = (
  (omega arith, (λ e. cc), (λ e. omega arith)),
  ((omega arith, (λ e. omega arith), (λ e. cc)), tt),
)

abbrev history : List Move
history =
    Move.claims "b" "w" "k" 5
    ∷ Move.reports "b" "w" "k" 6 (Call.waits 1000)
    ∷ Move.claims "b" "w" "l" 2000
    ∷ Move.reports "b" "w" "l" 2001 (Call.fails "broken" none none)
    ∷ []

run_protocol-IsValid_example : All IsValid (run_protocol digest open_gate history two_tasks).tasks
run_protocol-IsValid_example =
    run_protocol-IsValid digest open_gate open_gate-leaves history two_tasks
      (refl, (refl, (refl, (refl, tt)))) unique_two IsValid-two

run_call-Legal_example :
    Rows Moves claimed_tasks.tasks
      (run_call digest "b" "w" "k" 6 (Call.ends_agent none none) claimed_tasks).tasks
run_call-Legal_example =
    run_call-Legal digest "b" "w" "k" 6 (Call.ends_agent none none) claimed_tasks unique_two refl
