-- ===== src/Tasks/ReleaseTests.antt =====
-- Releases of blocked tasks, and instances of the theorems on them.
use codex_threadhub.Base.{
  Option, ℕ, Result, is_some, ◌↔◌, any, true, ℕ, ◌≡◌, refl, arith, false, none, some, [], ◌∷◌, ok,
}
use codex_threadhub.States.Task.{TaskStatus, queued, is_task, move_task}
use codex_threadhub.Registry.{all_success}
use codex_threadhub.Tasks.Guards.{policy_of, dependencies_met}
use codex_threadhub.Base.Table.{update_where}
use codex_threadhub.States.Machine.{StateError, move}
use codex_threadhub.Tasks.Wait.{update_task}
use codex_threadhub.Tasks.Refresh.{Tally, refresh_one, refresh_each, refresh_rounds}
use codex_threadhub.Tasks.Ends.{refresh_rounds_end}
use codex_threadhub.Tasks.Blocked.{
  blocked_decision, is_failed, list_task_dependencies, joined, matching, blocked_decision-none_iff,
  blocked_decision-dependencies_met,
}
use codex_threadhub.Tasks.Samples.{task_row, two_tasks, unique_two}

-- A task that waits for a skipped one is neither released nor failed.
stuck : blocked_decision all_success (TaskStatus.skipped ∷ TaskStatus.completed ∷ []) ≡ none
unfolding blocked_decision
stuck = refl

blocked_decision-none_iff_example :
    (blocked_decision all_success (TaskStatus.skipped ∷ []) ≡ none) ↔ (
      (all_success ≡ all_success)
      × (any is_failed (TaskStatus.skipped ∷ []) ≡ false)
      × (any (λ s. is_task s TaskStatus.skipped) (TaskStatus.skipped ∷ []) ≡ true))
blocked_decision-none_iff_example =
    blocked_decision-none_iff all_success (TaskStatus.skipped ∷ []) refl

release_of_b :
    blocked_decision
      (policy_of (task_row "b" TaskStatus.blocked 0))
      (list_task_dependencies "b" two_tasks)
    ≡ some queued
unfolding blocked_decision list_task_dependencies joined matching
release_of_b = refl

blocked_decision-dependencies_met_example :
    dependencies_met two_tasks (task_row "b" TaskStatus.blocked 0) ≡ true
blocked_decision-dependencies_met_example =
    blocked_decision-dependencies_met two_tasks (task_row "b" TaskStatus.blocked 0) release_of_b

abbrev tally : Tally
tally = record {
  registry = record two_tasks {
    tasks = task_row "a" TaskStatus.failed 1 ∷ task_row "b" TaskStatus.blocked 0 ∷ [];
  };
  queued = 0;
  failed = 0;
  again = false;
  runs = [];
}

-- The failure of `a` is passed on to `b` in the first round, and the second one ends the loop.
abbrev failed_count : Option (Result (Option StateError) Tally) → ℕ
failed_count (some (ok t)) = t.failed
failed_count _ = 0

passes_on : failed_count (refresh_rounds 2 7 tally) ≡ 1
unfolding refresh_rounds refresh_each refresh_one blocked_decision list_task_dependencies joined
    matching update_task move_task move update_where
passes_on = refl

refresh_rounds_end_example : is_some (refresh_rounds 2 7 tally) ≡ true
refresh_rounds_end_example = refresh_rounds_end 2 7 tally unique_two (omega arith)
