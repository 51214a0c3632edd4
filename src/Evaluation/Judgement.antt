-- ===== src/Evaluation/Judgement.antt =====
-- The verdict of src/completion-evaluator.js on the evidence.
use Prim.Native.String.{◌++◌ as ◌<>◌}
use codex_threadhub.Base.{
  String, Bool, true, false, not, ◌&&◌, ◌||◌, Option, none, some, List, [], ◌∷◌, map, any, keep,
  ◌=s=◌, if◌then◌else◌,
}
use codex_threadhub.Evaluation.Inputs.{
  ExecutionFailure, Validation, Evidence, Verdict, Ledger, is_text, is_unset, is_empty, accept,
  accept_with_warnings, attention, reject,
}
use codex_threadhub.Evaluation.Ledgers.{
  replay_safe, resolved, workspace_changed, workspace_unattributed, check_outputs, turn_ledger,
  reviewed_ledger, full_ledger,
}

abbrev pub validation_warns : Option Validation → Bool
validation_warns none = false
validation_warns (some v) = v.decision =s= "accept_with_warnings"

abbrev pub product_failure : Option Validation → Bool
product_failure none = false
product_failure (some v) = v.product_failure

unfoldable pub judge : Evidence → Ledger → Verdict
judge e l =
    if not (is_empty l.missing) || not (is_empty l.conflicting)
    then record {
      decision = reject;
      category =
          if any (λ n. n =s= "validation") l.conflicting && not (product_failure e.validation)
          then "validation"
          else "product";
      satisfied = l.satisfied;
      missing = l.missing;
      conflicting = l.conflicting;
      retryable = true;
      next_action = "rework";
    }
    else record {
      decision =
          if not (is_empty e.command_reviews) || validation_warns e.validation
          then accept_with_warnings
          else accept;
      category = "none";
      satisfied = l.satisfied;
      missing = l.missing;
      conflicting = l.conflicting;
      retryable = false;
      next_action = "none";
    }

abbrev pub attend :
    (category : String) (satisfied missing conflicting : List String) (retryable : Bool)
    (next_action : String)
    → Verdict
attend category satisfied missing conflicting retryable next_action = record {
  decision = attention;
  category = category;
  satisfied = satisfied;
  missing = missing;
  conflicting = conflicting;
  retryable = retryable;
  next_action = next_action;
}

-- The part behind the phase `execution`.
unfoldable pub judge_completion : (String → Bool) → Evidence → Verdict
unfolding resolved full_ledger judge
judge_completion is_artifact e =
    if any (λ r. not (resolved e r)) e.command_reviews
    then attend "validation" []
        (map (λ r. "command-review:" <> r.item_id)
          (keep (λ r. not (resolved e r)) e.command_reviews))
        [] false "inspect_execution_evidence"
    else if is_unset e.contract.mutates_workspace
        && workspace_changed e.workspace
        && workspace_unattributed e.workspace
    then attend "coordination"
        (check_outputs is_artifact e e.contract.outputs (reviewed_ledger e)).satisfied []
        ("unattributed-workspace-mutation" ∷ []) false "inspect_side_effects"
    else judge e (full_ledger is_artifact e)

abbrev pub unless_failed : Option ExecutionFailure → Verdict → Verdict
unless_failed none verdict = verdict
unless_failed (some f) verdict = record {
  decision = reject;
  category = f.category;
  satisfied = [];
  missing = [];
  conflicting = [];
  retryable = f.retryable;
  next_action = f.next_action;
}

-- A test task whose tests were not seen to pass.
abbrev pub untested : Evidence → Bool
untested e =
    is_text e.contract.task_kind "test"
    && e.strict
    && not (any (λ c. c.is_test && c.succeeded) e.commands)

-- The part behind the assessment of the result.
unfoldable pub judge_turn : (String → Bool) → Evidence → Verdict
unfolding judge_completion
judge_turn is_artifact e =
    if e.strict && not e.evidence_complete
    then attend "coordination" ("terminal-turn" ∷ []) ("complete-turn" ∷ []) []
        (replay_safe e.contract)
        (if replay_safe e.contract then "reconcile_dispatch" else "inspect_side_effects")
    else if untested e
    then attend "coordination"
        (if e.evidence_complete
          then "terminal-turn" ∷ "complete-turn" ∷ []
          else "terminal-turn" ∷ [])
        ((if any (λ c. c.is_test) e.commands then "test-exit-evidence" else "required-test-command")
          ∷ [])
        [] false "inspect_execution_evidence"
    else if e.execution_phase
    then record {
      decision = accept;
      category = "none";
      satisfied = (turn_ledger e).satisfied;
      missing = [];
      conflicting = [];
      retryable = false;
      next_action = "continue_completion";
    }
    else judge_completion is_artifact e

unfoldable pub evaluate_task_completion : (String → Bool) → Evidence → Verdict
unfolding judge_turn
evaluate_task_completion is_artifact e = unless_failed e.failure (judge_turn is_artifact e)
