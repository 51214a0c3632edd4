-- ===== src/Routing.antt =====
-- The choice of a thread for a task: `select` of src/router.js, isEphemeralTask of
-- src/thread-lifecycle.js, and src/dispatch-policy.js. The ranking is an input: each candidate says
-- whether it is eligible and whether its score reaches the minimum.
pub mod Lifecycle
pub mod Policy
pub mod Selected
pub mod Tests
use codex_threadhub.Base.{
  ℕ, String, Bool, true, false, not, ◌&&◌, ◌||◌, Option, none, some, List, [], ◌∷◌, any, keep, find,
  or_else, or_option, is_some, ltb, leb, ◌=s=◌, if◌then◌else◌,
}

pub record BudgetState : Type 0 where
  pub can_create_project : Bool
  pub can_create_role : Bool
  pub can_fork_lineage : Bool
  pub releasable_project_count : ℕ
  pub releasable_role_count : ℕ

-- An entry of the ranking; `budget` is the state that the request has for its agent.
pub record Candidate : Type 0 where
  pub id : String
  pub eligible : Bool
  pub reaches : Bool
  pub writer_available : Bool
  pub status : String
  pub reuse_count : ℕ
  pub budget : Option BudgetState

-- The contract that decides whether a task may run in an ephemeral thread.
pub record WorkRequest : Type 0 where
  pub task_kind : Option String
  pub side_effect_policy : Option String
  pub mutates_workspace : Bool
  pub capabilities : List String
  pub tools : List String

pub record Request : Type 0 where
  pub work : WorkRequest
  pub reuse_existing : Bool
  pub max_reuse_count : Option ℕ
  pub policy_max_reuse_count : Option ℕ
  pub budget_state : Option BudgetState
  pub queue_when_busy : Option Bool

pub data Decision : Type 0 where
  reuse fork spawn ephemeral wait blocked : Decision

abbrev pub one_of : List String → Option String → Bool
one_of names none = false
one_of names (some s) = any (λ n. n =s= s) names

abbrev pub is_empty {ℓ} : {A : Type ℓ} → List A → Bool
is_empty [] = true
is_empty (x ∷ xs) = false

unfoldable pub is_ephemeral_task : WorkRequest → Bool
is_ephemeral_task w =
    one_of ("analysis" ∷ "review" ∷ []) w.task_kind
    && one_of ("none" ∷ []) w.side_effect_policy
    && not w.mutates_workspace
    && is_empty w.capabilities
    && is_empty w.tools

-- `request.maxReuseCount ?? request.threadBudget?.policy?.maxReuseCount ?? 12`.
abbrev pub max_reuse : Request → ℕ
max_reuse r = or_else (or_option r.max_reuse_count r.policy_max_reuse_count) 12

abbrev pub lacks_capacity : Option BudgetState → Bool
lacks_capacity none = false
lacks_capacity (some b) =
    not b.can_create_project || not b.can_create_role || not b.can_fork_lineage

-- An idle candidate that is preferred, since there is no capacity for a fork.
unfoldable pub usable : Request → Candidate → Bool
usable r c =
    c.reaches
    && r.reuse_existing
    && c.writer_available
    && one_of ("idle" ∷ "available" ∷ []) (some c.status)
    && ltb c.reuse_count (max_reuse r)
    && lacks_capacity (or_option c.budget r.budget_state)

abbrev pub first_ranked : List Candidate → Option Candidate
first_ranked [] = none
first_ranked (c ∷ cs) = some c

abbrev pub eligible_ones : List Candidate → List Candidate
eligible_ones ranked = keep (λ c. c.eligible) ranked

unfoldable pub best_of : Request → List Candidate → Option Candidate
unfolding usable
best_of r ranked =
    or_option (find (usable r) (eligible_ones ranked)) (first_ranked (eligible_ones ranked))

abbrev pub unlimited : BudgetState
unlimited = record {
  can_create_project = true;
  can_create_role = true;
  can_fork_lineage = true;
  releasable_project_count = 0;
  releasable_role_count = 0;
}

abbrev pub budget_of : Option Candidate → Option BudgetState
budget_of none = none
budget_of (some c) = c.budget

abbrev pub budget_for : Request → Option Candidate → BudgetState
budget_for r best = or_else (or_option (budget_of best) r.budget_state) unlimited

abbrev pub can_create : BudgetState → Bool
can_create b = b.can_create_project && b.can_create_role

abbrev pub busy : Candidate → Bool
busy c = not (one_of ("idle" ∷ "available" ∷ "unknown" ∷ []) (some c.status))

abbrev pub rollover : Request → Candidate → Bool
rollover r c = r.reuse_existing && leb (max_reuse r) c.reuse_count

-- What holds of the selected candidate alone.
abbrev pub reusable : Request → Candidate → Bool
reusable r c = r.reuse_existing && not (rollover r c) && c.writer_available && not (busy c)

-- `capacityMayRecover`, where the counts are above 0.
abbrev pub may_recover : BudgetState → Bool
may_recover b =
    (not b.can_create_project || not b.can_create_role)
    && (b.can_create_project || ltb 0 b.releasable_project_count)
    && (b.can_create_role || ltb 0 b.releasable_role_count)

abbrev pub queues : Request → Bool
queues r = or_else r.queue_when_busy true

-- `wait`, or `blocked` where the wait would not end or is not allowed.
abbrev pub wait_or_block : Request → Bool → Decision
wait_or_block r temporary = if not temporary || not (queues r) then blocked else wait

abbrev pub decide_selected : Request → Candidate → BudgetState → Decision
decide_selected r c b =
    if reusable r c
    then reuse
    else if can_create b && b.can_fork_lineage
    then fork
    else wait_or_block r ((busy c || not c.writer_available) && not (rollover r c))

unfoldable pub decide_unselected : Request → BudgetState → Decision
unfolding is_ephemeral_task
decide_unselected r b =
    if can_create b
    then spawn
    else if is_ephemeral_task r.work
    then ephemeral
    else wait_or_block r (may_recover b)

abbrev pub decide_best : Request → Option Candidate → BudgetState → Decision
decide_best r none b = decide_unselected r b
decide_best r (some c) b = if c.reaches then decide_selected r c b else decide_unselected r b

-- The decision, and the candidate that it is about.
unfoldable pub select : Request → List Candidate → Decision × Option Candidate
unfolding best_of decide_unselected
select r ranked = let best = best_of r ranked in (decide_best r best (budget_for r best), best)
