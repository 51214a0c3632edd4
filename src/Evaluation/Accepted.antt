-- ===== src/Evaluation/Accepted.antt =====
-- When the completion evaluator accepts a task.
use codex_threadhub.Base.{String, Bool, true, false, not, ◌&&◌, ◌||◌, all, is_none}
use codex_threadhub.Evaluation.Inputs.{
  Evidence, Decision, accept, accept_with_warnings, attention, reject,
}
use codex_threadhub.Evaluation.Ledgers.{resolved}
use codex_threadhub.Evaluation.Judgement.{untested}
use codex_threadhub.Evaluation.Settled.{settled}

abbrev pub is_accepted : Decision → Bool
is_accepted accept = true
is_accepted accept_with_warnings = true
is_accepted attention = false
is_accepted reject = false

-- All the evidence that a completed task needs.
abbrev pub complete : (String → Bool) → Evidence → Bool
complete is_artifact e =
    is_none e.failure
    && ((not e.strict || e.evidence_complete)
        && (not (untested e) && (all (resolved e) e.command_reviews && settled is_artifact e)))
