-- ===== src/Routing/Tests.antt =====
-- Decisions of the router, and instances of the theorems on them.
use codex_threadhub.Base.{String, true, false, none, some, List, [], ◌∷◌, ok, ◌≡◌, refl}
use codex_threadhub.Routing.{
  BudgetState, Candidate, WorkRequest, Request, reuse, fork, wait, unlimited, select,
}
use codex_threadhub.Routing.Selected.{IsJustified, select-IsJustified}
use codex_threadhub.Routing.Policy.{
  PlannedTask, DispatchPlan, medium, IsBounded, classify_task_graph, classify_task_graph-IsBounded,
}
use codex_threadhub.Routing.Lifecycle.{
  idle, compacted, superseded, archived, History, here, then_to, transition_thread_lifecycle,
}

abbrev change : WorkRequest
change = record {
  task_kind = some "implementation";
  side_effect_policy = some "workspace";
  mutates_workspace = true;
  capabilities = [];
  tools = [];
}

abbrev asked : Request
asked = record {
  work = change;
  reuse_existing = true;
  max_reuse_count = none;
  policy_max_reuse_count = none;
  budget_state = none;
  queue_when_busy = none;
}

abbrev worker : String → String → Candidate
worker id status = record {
  id = id;
  eligible = true;
  reaches = true;
  writer_available = true;
  status = status;
  reuse_count = 3;
  budget = none;
}

abbrev spent : BudgetState
spent = record unlimited { can_create_role = false; can_fork_lineage = false }

-- The best thread is busy: it is forked, or, without budget, the idle one is taken.
busy_forks : (select asked (worker "a" "running" ∷ worker "b" "idle" ∷ [])).0 ≡ fork
unfolding select
busy_forks = refl

idle_reused :
    select
      (record asked { budget_state = some spent })
      (worker "a" "running" ∷ worker "b" "idle" ∷ [])
    ≡ (reuse, some (worker "b" "idle"))
unfolding select
idle_reused = refl

busy_waits :
    (select (record asked { budget_state = some spent }) (worker "a" "running" ∷ [])).0 ≡ wait
unfolding select
busy_waits = refl

select-IsJustified_example :
    IsJustified asked
      (worker "b" "idle" ∷ [])
      (select asked (worker "b" "idle" ∷ [])).0
      (select asked (worker "b" "idle" ∷ [])).1
select-IsJustified_example = select-IsJustified asked (worker "b" "idle" ∷ [])

abbrev planned : List String → PlannedTask
planned depends_on = record { depends_on = depends_on; role = "coder"; workspace_mode = "worktree" }

abbrev dispatched : DispatchPlan
dispatched = record {
  dispatch_path = "orchestrated";
  level = medium;
  score = 50;
  task_count = 2;
  dependency_count = 1;
  role_count = 1;
  parallel_roots = 1;
  isolated_tasks = 2;
}

classified : classify_task_graph (planned [] ∷ planned ("a" ∷ []) ∷ []) "auto" ≡ ok dispatched
unfolding classify_task_graph
classified = refl

classify_task_graph-IsBounded_example : IsBounded dispatched
classify_task_graph-IsBounded_example =
    classify_task_graph-IsBounded (planned [] ∷ planned ("a" ∷ []) ∷ []) "auto" dispatched
      classified

superseded_thread : History compacted idle
unfolding transition_thread_lifecycle
superseded_thread = then_to (then_to (then_to here (superseded_step)) archived_step) idle_step
  where
    superseded_step : transition_thread_lifecycle compacted superseded ≡ ok superseded
    superseded_step = refl

    archived_step : transition_thread_lifecycle superseded archived ≡ ok archived
    archived_step = refl

    idle_step : transition_thread_lifecycle archived idle ≡ ok idle
    idle_step = refl
