-- ===== src/Progress/Tests.antt =====
-- The counts of a Run, and instances of the theorems on them.
use codex_threadhub.Base.{◌+◌, List, [], ◌∷◌, some, ◌≡◌, ◌↔◌, refl}
use codex_threadhub.States.Task.{TaskStatus, completed, completed_with_warnings, skipped, running}
use codex_threadhub.States.Run.{RunStatus}
use codex_threadhub.States.Derive.{derive_run_status}
use codex_threadhub.Progress.{zeros, work_progress}
use codex_threadhub.Progress.Totals.{work_progress-completed_iff}

abbrev four : List TaskStatus
four = completed ∷ completed_with_warnings ∷ skipped ∷ running ∷ []

counted :
    work_progress four
    ≡ (4, record zeros { finished = 3; succeeded = 2; warnings = 1; skipped = 1; active = 1 })
unfolding work_progress
counted = refl

work_progress-completed_iff_example :
    (derive_run_status four ≡ some RunStatus.completed)
    ↔ ((work_progress four).1.succeeded + (work_progress four).1.skipped ≡ (work_progress four).0)
work_progress-completed_iff_example = work_progress-completed_iff four (λ e. cc e)
