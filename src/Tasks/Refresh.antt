-- ===== src/Tasks/Refresh.antt =====
-- `refreshBlockedTasks` of src/registry.js: rounds over the blocked tasks, until one fails none.
use Prim.Native.String
use codex_threadhub.Base.{
  ℕ, zero, suc, ◌+◌, String, Bool, false, ◌&&◌, ◌||◌, Option, none, some, List, [], ◌∷◌, map, any,
  find, keep, ◌=s=◌, if◌then◌else◌, Result, ok, err, ◌>>=◌,
}
use codex_threadhub.States.Machine.{StateError}
use codex_threadhub.States.Task.{TaskStatus, blocked, skipped, failed, task_spelling, is_task}
use codex_threadhub.Registry.{DependencyPolicy, all_success, Task, Dependency, Registry, get_task}
use codex_threadhub.Tasks.Guards.{policy_of}
use codex_threadhub.Tasks.Wait.{update_task}
use codex_threadhub.Tasks.Blocked.{is_failed, list_task_dependencies, blocked_decision}

-- `Dependency ${taskId} ended with ${status}`, of the first dependency that failed.
abbrev blame : Task → String
blame t =
    String.◌++◌ "Dependency "
      (String.◌++◌ t.id (String.◌++◌ " ended with " (task_spelling t.status)))

abbrev pub first_failed : String → List Dependency → List Task → Option String
first_failed id [] ts = none
first_failed id (d ∷ ds) ts =
    let rest = first_failed id ds ts in
    if d.task_id =s= id
    then elim (find (λ t. t.id =s= d.depends_on && is_failed t.status) ts) [
      | none ↦ rest
      | some t ↦ some (blame t)
    ]
    else rest

-- The columns that go with each of the three statuses.
abbrev pub decided : TaskStatus → Option String → ℕ → Task → Task
decided status why now t =
    if is_task status skipped
    then record t { output = some "Fallback was not required"; completed_at = some now }
    else if is_task status failed
    then record t { error = why; completed_at = some now }
    else record t { error = none }

-- The variables of the loop.
pub record Tally : Type 0 where
  pub registry : Registry
  pub queued : ℕ
  pub failed : ℕ
  pub again : Bool
  pub runs : List String

abbrev run_of : Option Task → Option String
run_of none = none
run_of (some t) = t.metadata.run_id

-- `affectedRunIds.add`.
abbrev add_run : Option String → List String → List String
add_run none runs = runs
add_run (some run) runs = if run =s= "" || any (λ x. x =s= run) runs then runs else run ∷ runs

abbrev pub found_policy : Option Task → DependencyPolicy
found_policy none = all_success
found_policy (some t) = policy_of t

abbrev pub tallied : TaskStatus → Option Task → Tally → Registry → Tally
tallied status task s r = record {
  registry = r;
  queued = if is_task status TaskStatus.queued then s.queued + 1 else s.queued;
  failed = if is_task status TaskStatus.failed then s.failed + 1 else s.failed;
  again = s.again || is_task status TaskStatus.failed;
  runs = if is_task status TaskStatus.queued then s.runs else add_run (run_of task) s.runs;
}

abbrev pub decide_one : String → ℕ → Tally → Option TaskStatus → Result (Option StateError) Tally
decide_one id now s none = ok s
decide_one id now s (some status) =
    let why = first_failed id s.registry.dependencies s.registry.tasks in
    update_task id status (decided status why now) now s.registry >>= λ x.
    ok (tallied status (get_task id s.registry) s x.0)

unfoldable pub refresh_one : ℕ → Tally → String → Result (Option StateError) Tally
unfolding blocked_decision list_task_dependencies update_task
refresh_one now s id = decide_one id now s (
    blocked_decision (found_policy (get_task id s.registry)) (list_task_dependencies id s.registry))

unfoldable pub refresh_each : ℕ → List String → Tally → Result (Option StateError) Tally
unfolding refresh_one
refresh_each now [] s = ok s
refresh_each now (id ∷ ids) s = refresh_one now s id >>= λ t. refresh_each now ids t

abbrev pub is_blocked : Task → Bool
is_blocked t = is_task t.status blocked

abbrev pub blocked_ids : Registry → List String
blocked_ids r = map (λ t. t.id) (keep is_blocked r.tasks)

abbrev pub started : Tally → Tally
started s = record s { again = false }

-- The `do … while`: `none` is a round too few.
unfoldable pub refresh_rounds : ℕ → ℕ → Tally → Option (Result (Option StateError) Tally)
unfolding refresh_each
refresh_rounds zero now s = none
refresh_rounds (suc n) now s = elim (refresh_each now (blocked_ids s.registry) (started s)) [
  | err e ↦ some (err e)
  | ok t ↦ let rest = refresh_rounds n now t in if t.again then rest else some (ok t)
]
