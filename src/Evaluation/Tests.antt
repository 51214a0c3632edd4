-- ===== src/Evaluation/Tests.antt =====
-- Verdicts on evidence, and an instance of the theorem on them.
use codex_threadhub.Base.{String, Bool, true, false, none, some, [], ◌∷◌, ◌≡◌, refl}
use codex_threadhub.Evaluation.Inputs.{Evidence, Duties, Validation, accept}
use codex_threadhub.Evaluation.Judgement.{evaluate_task_completion}

abbrev duties : Duties
duties = record {
  task_kind = some "implementation";
  mutates_workspace = some true;
  side_effect_policy = some "workspace";
  integration_strategy = some "patch";
  outputs = "workspace-change" ∷ [];
}

abbrev approved : Validation
approved = record { decision = "accept"; product_failure = false; command_assessments = [] }

abbrev done : Evidence
done = record {
  failure = none;
  command_reviews = [];
  evidence_complete = true;
  strict = true;
  contract = duties;
  commands = record { is_test = false; succeeded = true } ∷ [];
  execution_phase = false;
  acceptance_criteria = "it parses" ∷ [];
  validation = some approved;
  artifact_changed = some true;
  workspace = none;
  postcondition = none;
  integration = some (some "integrated");
  has_report = true;
  reported = λ name. false;
  output_evidence = [];
}

abbrev no_artifact : String → Bool
no_artifact name = false

accepted_work : evaluate_task_completion no_artifact done ≡ record {
  decision = accept;
  category = "none";
  satisfied =
      "terminal-turn" ∷ "complete-turn" ∷ "command-ledger" ∷ "output:workspace-change"
      ∷ "validation" ∷ "integration" ∷ [];
  missing = [];
  conflicting = [];
  retryable = false;
  next_action = "none";
}
unfolding evaluate_task_completion
accepted_work = refl

-- Without its integration the work is done again; without the end of its turn it is inspected.
not_integrated :
    (evaluate_task_completion no_artifact (record done { integration = none })).missing
    ≡ "integration" ∷ []
unfolding evaluate_task_completion
not_integrated = refl

turn_lost :
    (evaluate_task_completion no_artifact (record done { evidence_complete = false })).next_action
    ≡ "inspect_side_effects"
unfolding evaluate_task_completion
turn_lost = refl
