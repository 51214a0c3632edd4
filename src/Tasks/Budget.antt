-- ===== src/Tasks/Budget.antt =====
-- The attempts of a task stay within its budget, through every history of claims and reports.
use codex_threadhub.Base.{
  ℕ, ◌≡◌, refl, subst, String, Bool, true, Option, none, some, List, [], ◌∷◌, arith, All, Result,
  ok, err,
}
use codex_threadhub.Registry.{Validation, Registry, get_task}
use codex_threadhub.Tasks.Claim.{
  GlobalGate, ask_gate, global_revision, pass_gate, claim_passed, claim_gated, claim_task,
}
use codex_threadhub.Tasks.Calls.{Call, run_call}
use codex_threadhub.Tasks.Rules.{Rows, UniqueIds, call_ok}
use codex_threadhub.Tasks.Rows.{Rows-refl, run_call-Rows}
use codex_threadhub.Tasks.Attempts.{
  IsValid, Keeps, Keeps-rules, Rows-IsValid, Rows-UniqueIds, claim_passed-Keeps,
}

-- A gate that may refuse, but leaves the tasks as they are.
abbrev pub LeavesTasks : GlobalGate → Type 0
LeavesTasks gate = (id : String) (r g : Registry) → gate id r ≡ ok g → g.tasks ≡ r.tasks

-- A worker claims a task by its id, its own id and a new token, or reports on one.
pub data Move : Type 0 where
  claims : String → String → String → ℕ → Move
  reports : String → String → String → ℕ → Call → Move

-- A report that names a status for its failure names one in which an execution may end.
abbrev pub move_ok : Move → Bool
move_ok (Move.claims id worker token now) = true
move_ok (Move.reports id worker token now c) = call_ok c

module _ (hash : Validation → String) (gate : GlobalGate) where
  unfoldable pub run_move : Move → Registry → Registry
  unfolding claim_task run_call
  run_move (Move.claims id worker token now) r = (claim_task gate id worker token now r).0
  run_move (Move.reports id worker token now c) r = run_call hash id worker token now c r

  unfoldable pub run_protocol : List Move → Registry → Registry
  unfolding run_move
  run_protocol [] r = r
  run_protocol (m ∷ ms) r = run_protocol ms (run_move m r)

  module _ (leaves : LeavesTasks gate) where
    ask_gate-tasks :
        (id : String) (r g : Registry) (v : Option String)
        → ask_gate gate id r v ≡ ok g
        → g.tasks ≡ r.tasks
    ask_gate-tasks id r g none h = ground arith
    ask_gate-tasks id r g (some v) h = leaves id r g h

    gated-Keeps :
        (id worker token : String) (now : ℕ) (r : Registry) (x : Result String Registry)
        → pass_gate gate id r ≡ x
        → Rows Keeps r.tasks (claim_gated id worker token now r x).0.tasks
    unfolding claim_gated
    gated-Keeps id worker token now r (err e) h = Rows-refl Keeps (λ t. (refl, λ v. v)) r.tasks
    gated-Keeps id worker token now r (ok g) h =
        subst (λ ts. Rows Keeps ts (claim_passed id worker token now g).0.tasks)
          (ask_gate-tasks id r g (global_revision (get_task id r)) h)
          (claim_passed-Keeps id worker token now g)

    run_move-Keeps :
        (m : Move) (r : Registry)
        → UniqueIds r.tasks
        → move_ok m ≡ true
        → Rows Keeps r.tasks (run_move m r).tasks
    unfolding run_move claim_task
    run_move-Keeps (Move.claims id worker token now) r u good =
        gated-Keeps id worker token now r (pass_gate gate id r) refl
    run_move-Keeps (Move.reports id worker token now c) r u good =
        run_call-Rows (Keeps-rules hash) id worker token now c r u good

    -- Whatever the workers claim and report, in any order, no task of the table has more attempts
    -- than its budget allows; a task that waits to be claimed has an attempt left, and one that is
    -- executing has used one. The gate leaves the tasks as they are, the ids are unique, the
    -- budgets are kept at the start, and a failure is ended by a status that ends an execution.
    pub run_protocol-IsValid :
        (ms : List Move) (r : Registry)
        → All (λ m. move_ok m ≡ true) ms
        → UniqueIds r.tasks
        → All IsValid r.tasks
        → All IsValid (run_protocol ms r).tasks
    unfolding run_protocol
    run_protocol-IsValid [] r good u v = v
    run_protocol-IsValid (m ∷ ms) r (g, good) u v =
        let h = run_move-Keeps m r u g in
        run_protocol-IsValid ms (run_move m r) good (Rows-UniqueIds _ _ h u) (Rows-IsValid _ _ h v)
