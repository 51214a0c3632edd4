-- ===== src/Evaluation/Ledgers.antt =====
-- How src/completion-evaluator.js collects the evidence of a task.
use Prim.Native.String.{◌++◌ as ◌<>◌}
use codex_threadhub.Base.{
  or_else, String, Bool, true, false, not, ◌&&◌, ◌||◌, Option, none, some, List, [], ◌∷◌, any, keep,
  is_some, is_none, ◌==◌, ◌=s=◌, if◌then◌else◌,
}
use codex_threadhub.Evaluation.Inputs.{
  CommandReview, Duties, Assessment, Validation, WorkspaceEvidence, Postcondition, Evidence, Ledger,
  blank, satisfy, miss, conflict, is_text, is_set, is_unset, is_empty,
}

-- The contract has no side effect, so a lost turn may be dispatched again.
abbrev pub replay_safe : Duties → Bool
replay_safe c =
    is_unset c.mutates_workspace
    && (is_none c.side_effect_policy || is_text c.side_effect_policy "none")

-- A nonzero exit that no single review with evidence explains.
abbrev pub explained : List Assessment → CommandReview → Bool
explained [] r = false
explained (a ∷ []) r =
    a.exit_code == r.exit_code
    && (a.disposition =s= "expected_nonzero" || a.disposition =s= "optional_unavailable")
    && a.has_evidence
explained (a ∷ b ∷ rest) r = false

abbrev pub assessments_of : Option Validation → List Assessment
assessments_of none = []
assessments_of (some v) = v.command_assessments

unfoldable pub resolved : Evidence → CommandReview → Bool
resolved e r = explained (keep (λ a. a.item_id =s= r.item_id) (assessments_of e.validation)) r

abbrev pub workspace_changed : Option WorkspaceEvidence → Bool
workspace_changed none = false
workspace_changed (some w) = w.changed

abbrev pub workspace_available : Option WorkspaceEvidence → Bool
workspace_available none = false
workspace_available (some w) = w.available

abbrev pub workspace_unattributed : Option WorkspaceEvidence → Bool
workspace_unattributed none = false
workspace_unattributed (some w) = w.unattributed

abbrev pub is_change : String → Bool
is_change name = any (λ n. n =s= name) ("workspace-change" ∷ "patch" ∷ "commit" ∷ [])

-- Whether a name is that of an artifact is asked of a regular expression.
abbrev pub materialized : (String → Bool) → Evidence → String → Bool
materialized is_artifact e name =
    any (λ o. o.name =s= name && o.materialized && o.verified && o.has_hash && o.has_source)
      e.output_evidence
    || (not (is_artifact name) && e.reported name)

-- Whether a declared output is there.
unfoldable pub delivered : (String → Bool) → Evidence → String → Bool
delivered is_artifact e name =
    if name =s= "report"
    then e.has_report
    else if is_change name
    then is_set e.artifact_changed || workspace_changed e.workspace
    else materialized is_artifact e name

-- Whether its absence counts.
unfoldable pub demanded : Evidence → String → Bool
demanded e name =
    if name =s= "report"
    then true
    else if is_change name
    then e.strict || is_some e.artifact_changed || workspace_available e.workspace
    else e.strict

unfoldable pub check_output : (String → Bool) → Evidence → String → Ledger → Ledger
unfolding delivered demanded satisfy miss
check_output is_artifact e name l =
    if delivered is_artifact e name
    then satisfy ("output:" <> name) l
    else if demanded e name
    then miss ("output:" <> name) l
    else l

unfoldable pub check_outputs : (String → Bool) → Evidence → List String → Ledger → Ledger
unfolding check_output
check_outputs is_artifact e [] l = l
check_outputs is_artifact e (name ∷ names) l =
    check_outputs is_artifact e names (check_output is_artifact e name l)

unfoldable pub check_mutation : Evidence → Ledger → Ledger
unfolding conflict
check_mutation e l =
    if is_unset e.contract.mutates_workspace && workspace_changed e.workspace
    then conflict "unexpected-workspace-mutation" l
    else l

abbrev pub validation_accepts : Validation → Bool
validation_accepts v = v.decision =s= "accept" || v.decision =s= "accept_with_warnings"

unfoldable pub settle_validation : Option Validation → Ledger → Ledger
unfolding miss conflict satisfy
settle_validation none l = miss "validation" l
settle_validation (some v) l =
    if validation_accepts v then satisfy "validation" l else conflict "validation" l

unfoldable pub check_validation : Evidence → Ledger → Ledger
unfolding settle_validation
check_validation e l =
    if is_empty e.acceptance_criteria then l else settle_validation e.validation l

-- A strategy other than `none` is set.
abbrev pub integrates : Duties → Bool
integrates c =
    is_some c.integration_strategy
    && not (is_text c.integration_strategy "")
    && not (is_text c.integration_strategy "none")

unfoldable pub check_integration : Evidence → Ledger → Ledger
unfolding satisfy miss
check_integration e l =
    if integrates e.contract
    then if is_text (or_else e.integration none) "integrated" && is_set e.artifact_changed
      then satisfy "integration" l
      else if e.strict || is_some e.integration || is_some e.artifact_changed
      then miss "integration" l
      else l
    else l

unfoldable pub settle_postcondition : Option Postcondition → Ledger → Ledger
unfolding satisfy conflict
settle_postcondition none l = l
settle_postcondition (some p) l =
    if p.required
    then if p.passed
      then satisfy "destination-postcondition" l
      else conflict "destination-postcondition" l
    else l

-- The evidence in front of the review: the turn, and the commands.
abbrev pub turn_ledger : Evidence → Ledger
unfolding satisfy
turn_ledger e =
    let turn = satisfy "terminal-turn" blank in
    let complete = if e.evidence_complete then satisfy "complete-turn" turn else turn in
    if is_empty e.commands then complete else satisfy "command-ledger" complete

abbrev pub reviewed_ledger : Evidence → Ledger
unfolding satisfy
reviewed_ledger e =
    if is_empty e.command_reviews
    then turn_ledger e
    else satisfy "reviewed-nonzero-commands" (turn_ledger e)

unfoldable pub full_ledger : (String → Bool) → Evidence → Ledger
unfolding check_outputs check_mutation check_validation check_integration settle_postcondition
full_ledger is_artifact e = settle_postcondition e.postcondition (
    check_integration e (
      check_validation e
        (check_mutation e (check_outputs is_artifact e e.contract.outputs (reviewed_ledger e)))))
