-- ===== src/Evaluation/Inputs.antt =====
-- The inputs and the verdicts of src/completion-evaluator.js, and its lists of evidence.
use codex_threadhub.Base.{
  ℕ, String, Bool, true, false, not, Option, none, some, List, [], ◌∷◌, ◌++◌, ◌=s=◌,
}

-- What assessTaskResult returns, and the nonzero exits that it leaves to a review.
pub record ExecutionFailure : Type 0 where
  pub category : String
  pub retryable : Bool
  pub next_action : String

pub record CommandReview : Type 0 where
  pub item_id : String
  pub exit_code : ℕ

-- A command of the turn: whether it runs tests, and whether it ended with exit code 0.
pub record Command : Type 0 where
  pub is_test : Bool
  pub succeeded : Bool

-- The properties of the contract that are read.
pub record Duties : Type 0 where
  pub task_kind : Option String
  pub mutates_workspace : Option Bool
  pub side_effect_policy : Option String
  pub integration_strategy : Option String
  pub outputs : List String

pub record Assessment : Type 0 where
  pub item_id : String
  pub exit_code : ℕ
  pub disposition : String
  pub has_evidence : Bool

pub record Validation : Type 0 where
  pub decision : String
  pub product_failure : Bool
  pub command_assessments : List Assessment

-- `changed`, `available` and the rest say whether the property is `true`.
pub record WorkspaceEvidence : Type 0 where
  pub changed : Bool
  pub available : Bool
  pub unattributed : Bool

pub record Postcondition : Type 0 where
  pub required : Bool
  pub passed : Bool

pub record OutputEvidence : Type 0 where
  pub name : String
  pub materialized : Bool
  pub verified : Bool
  pub has_hash : Bool
  pub has_source : Bool

-- The options: what is absent is `none`; an integration that is there may lack a status, and an
-- artifact is whether it changed. `has_report` says that the output is not empty, and
-- `reported` which names it gives a value.
pub record Evidence : Type 0 where
  pub failure : Option ExecutionFailure
  pub command_reviews : List CommandReview
  pub evidence_complete : Bool
  pub strict : Bool
  pub contract : Duties
  pub commands : List Command
  pub execution_phase : Bool
  pub acceptance_criteria : List String
  pub validation : Option Validation
  pub artifact_changed : Option Bool
  pub workspace : Option WorkspaceEvidence
  pub postcondition : Option Postcondition
  pub integration : Option (Option String)
  pub has_report : Bool
  pub reported : String → Bool
  pub output_evidence : List OutputEvidence

pub data Decision : Type 0 where
  accept accept_with_warnings attention reject : Decision

pub record Verdict : Type 0 where
  pub decision : Decision
  pub category : String
  pub satisfied : List String
  pub missing : List String
  pub conflicting : List String
  pub retryable : Bool
  pub next_action : String

-- The three lists of evidence.
pub record Ledger : Type 0 where
  pub satisfied : List String
  pub missing : List String
  pub conflicting : List String

abbrev pub blank : Ledger
blank = record { satisfied = []; missing = []; conflicting = [] }

unfoldable pub satisfy : String → Ledger → Ledger
satisfy name l = record l { satisfied = l.satisfied ++ (name ∷ []) }

unfoldable pub miss : String → Ledger → Ledger
miss name l = record l { missing = l.missing ++ (name ∷ []) }

unfoldable pub conflict : String → Ledger → Ledger
conflict name l = record l { conflicting = l.conflicting ++ (name ∷ []) }

abbrev pub is_text : Option String → String → Bool
is_text none s = false
is_text (some t) s = t =s= s

abbrev pub is_set : Option Bool → Bool
is_set none = false
is_set (some b) = b

-- `=== false`.
abbrev pub is_unset : Option Bool → Bool
is_unset none = false
is_unset (some b) = not b

abbrev pub is_empty {ℓ} : {A : Type ℓ} → List A → Bool
is_empty [] = true
is_empty (x ∷ xs) = false
