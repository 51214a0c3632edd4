-- ===== src/Progress/Totals.antt =====
-- What the counts of a Run add up to.
use codex_threadhub.Base.{
  ℕ, suc, ◌+◌, ◌≤◌, List, [], ◌∷◌, length, Bool, true, false, all, some, All→all, all→All, ◌≡◌, ◌≢◌,
  ◌↔◌, refl, ap, ◌∙◌, arith, Bool-cases, inl, inr,
}
use codex_threadhub.Base.Counts.{count}
use codex_threadhub.States.Task.{TaskStatus, staged, task_in, is_terminal_task, successful_tasks}
use codex_threadhub.States.Run.{RunStatus}
use codex_threadhub.States.Derive.{derive_run_status}
use codex_threadhub.States.Outcomes.{derive_run_status-completed_iff}
use codex_threadhub.Progress.{Counts, zeros, count_status, count_each, work_progress}

-- Each task stands in one class.
abbrev pub classes : Counts → ℕ
classes c =
    c.succeeded + c.rejected + c.failed + c.cancelled + c.skipped + c.attention + c.active
    + c.waiting + c.unknown

-- The tasks that the aggregate counts as successful.
abbrev pub successes : Counts → ℕ
successes c = c.succeeded + c.skipped

abbrev one_if : Bool → ℕ
one_if true = 1
one_if false = 0

-- What one task adds.
abbrev Adds : TaskStatus → Counts → Type 0
Adds s c =
    (classes (count_status s c) ≡ classes c + 1)
    × ((count_status s c).unknown ≡ c.unknown)
    × (successes (count_status s c) ≡ successes c + one_if (task_in successful_tasks s))
    × ((count_status s c).finished ≡ c.finished + one_if (is_terminal_task s))
    × ((count_status s c).warnings + c.succeeded ≤ c.warnings + (count_status s c).succeeded)

count_status-Adds : (s : TaskStatus) (c : Counts) → Adds s c
unfolding count_status
count_status-Adds staged c = omega arith
count_status-Adds s c = omega arith

-- What a list of tasks adds.
record Added (ss : List TaskStatus) (before after : Counts) : Type 0 where
  total : classes after ≡ classes before + length ss
  unknown : after.unknown ≡ before.unknown
  successful : successes after ≡ successes before + count (task_in successful_tasks) ss
  finished : after.finished ≡ before.finished + count is_terminal_task ss
  warned : after.warnings + before.succeeded ≤ before.warnings + after.succeeded

count_if :
    (p : TaskStatus → Bool) (s : TaskStatus) (ss : List TaskStatus)
    → count p (s ∷ ss) ≡ one_if (p s) + count p ss
count_if p s ss = elim (Bool-cases (p s)) [
  | inl y ↦ rw y (omega arith)
  | inr n ↦ rw n (omega arith)
]

count_each-Added : (ss : List TaskStatus) (c : Counts) → Added ss c (count_each ss c)
unfolding count_each
count_each-Added [] c = omega arith
count_each-Added (s ∷ ss) c =
    let (one, known, success, done, warned) = count_status-Adds s c in
    let rest = count_each-Added ss (count_status s c) in
    record {
      total = omega (arith, rest.total, one);
      unknown = rest.unknown ∙ known;
      successful =
          omega (arith, rest.successful, success, count_if (task_in successful_tasks) s ss);
      finished = omega (arith, rest.finished, done, count_if is_terminal_task s ss);
      warned = omega (arith, rest.warned, warned);
    }

-- The counts are those of the tasks, each in one class.
pub record IsPartition (ss : List TaskStatus) (total : ℕ) (p : Counts) : Type 0 where
  pub sum :
      p.succeeded + p.rejected + p.failed + p.cancelled + p.skipped + p.attention + p.active
        + p.waiting
      ≡ total
  pub known : p.unknown ≡ 0
  pub ended : p.finished ≡ count is_terminal_task ss
  pub warned : p.warnings ≤ p.succeeded

-- Every task is counted in one class, none as unknown: the succeeded, rejected, failed, cancelled and
-- skipped ones, those that want attention, and the active and waiting ones add up to the total. The
-- finished ones are the terminal ones, and the warnings are no more than the succeeded.
pub work_progress-IsPartition :
    (ss : List TaskStatus) → IsPartition ss (work_progress ss).0 (work_progress ss).1
unfolding work_progress
work_progress-IsPartition ss =
    let a = count_each-Added ss zeros in
    record {
      sum = omega (arith, a.total, a.unknown);
      known = omega (arith, a.unknown);
      ended = omega (arith, a.finished);
      warned = omega (arith, a.warned);
    }

all-count :
    (p : TaskStatus → Bool) (ss : List TaskStatus)
    → (count p ss ≤ length ss) × ((all p ss ≡ true) ↔ (count p ss ≡ length ss))
all-count p [] = (omega arith, (λ h. refl, λ h. refl))
all-count p (s ∷ ss) =
    let (less, same) = all-count p ss in
    elim (Bool-cases (p s)) [
      | inl y ↦ rw y (omega arith, (λ h. ap suc (same.0 h), λ h. same.1 (omega arith)))
      | inr n ↦ rw n (omega arith, (λ h. cc h, λ h. absurd (omega arith)))
    ]

-- The counts and the verdict on the Run agree: for a Run with tasks, the status is derived as
-- completed exactly when the succeeded and the skipped tasks are all of them.
pub work_progress-completed_iff :
    (ss : List TaskStatus)
    → ss ≢ []
    → (derive_run_status ss ≡ some RunStatus.completed)
      ↔ ((work_progress ss).1.succeeded + (work_progress ss).1.skipped ≡ (work_progress ss).0)
unfolding work_progress
work_progress-completed_iff ss some_task =
    let a = count_each-Added ss zeros in
    let (to, from) = derive_run_status-completed_iff ss in
    let (all_to, all_from) = (all-count (task_in successful_tasks) ss).1 in
    (
      λ h. omega (arith, a.successful, all_to (All→all (task_in successful_tasks) ss (to h).1)),
      λ h. from (
        some_task,
        all→All (task_in successful_tasks) ss (all_from (omega (arith, a.successful))),
      ),
    )
