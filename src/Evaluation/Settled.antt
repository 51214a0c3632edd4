-- ===== src/Evaluation/Settled.antt =====
-- What each step of the completion evaluator adds to the missing and the conflicting evidence.
use Prim.Native.String.{◌++◌ as ◌<>◌}
use codex_threadhub.Base.{
  or_else, String, Bool, true, false, not, ◌&&◌, ◌||◌, Option, none, some, List, [], ◌∷◌, ◌++◌, all,
  is_some, if◌then◌else◌, ◌≡◌, refl, sym, ◌∙◌, ap, arith, Bool-cases, inl, inr, and_false,
}
use codex_threadhub.Evaluation.Inputs.{
  Evidence, Validation, Postcondition, Ledger, satisfy, miss, conflict, is_text, is_set, is_unset,
  is_empty,
}
use codex_threadhub.Evaluation.Ledgers.{
  workspace_changed, delivered, demanded, check_output, check_outputs, check_mutation,
  validation_accepts, settle_validation, check_validation, integrates, check_integration,
  settle_postcondition, reviewed_ledger, full_ledger,
}

-- No evidence is missing, and none conflicts.
abbrev pub clean : Ledger → Bool
clean l = is_empty l.missing && is_empty l.conflicting

not_empty : (xs : List String) (x : String) → is_empty (xs ++ (x ∷ [])) ≡ false
not_empty [] x = refl
not_empty (y ∷ xs) x = refl

clean-miss : (name : String) (l : Ledger) → clean (miss name l) ≡ false
unfolding miss
clean-miss name l = rw (not_empty l.missing name) refl

clean-conflict : (name : String) (l : Ledger) → clean (conflict name l) ≡ false
unfolding conflict
clean-conflict name l = let e = not_empty l.conflicting name in ground arith

clean-satisfy : (name : String) (l : Ledger) → clean (satisfy name l) ≡ clean l
unfolding satisfy
clean-satisfy name l = refl

-- An output that is declared is there, or is not demanded.
abbrev pub output_settled : (String → Bool) → Evidence → String → Bool
output_settled is_artifact e name = delivered is_artifact e name || not (demanded e name)

abbrev pub untouched : Evidence → Bool
untouched e = not (is_unset e.contract.mutates_workspace && workspace_changed e.workspace)

abbrev pub accepted_by : Option Validation → Bool
accepted_by none = false
accepted_by (some v) = validation_accepts v

-- If there are criteria, a validation accepts.
abbrev pub validated : Evidence → Bool
validated e = is_empty e.acceptance_criteria || accepted_by e.validation

-- A strategy ends in a changed artifact that is integrated; only without strict evidence may it leave
-- no trace.
abbrev pub integrated : Evidence → Bool
integrated e =
    not (integrates e.contract)
    || (is_text (or_else e.integration none) "integrated" && is_set e.artifact_changed)
    || not (e.strict || is_some e.integration || is_some e.artifact_changed)

abbrev pub postcondition_holds : Option Postcondition → Bool
postcondition_holds none = true
postcondition_holds (some p) = not p.required || p.passed

and_true : (b : Bool) → (b && true) ≡ b
and_true true = refl
and_true false = refl

and_assoc : (a b c : Bool) → (a && b && c) ≡ (a && (b && c))
and_assoc true b c = refl
and_assoc false b c = refl

clean-check_output :
    (is_artifact : String → Bool) (e : Evidence) (name : String) (l : Ledger)
    → clean (check_output is_artifact e name l) ≡ (clean l && output_settled is_artifact e name)
unfolding check_output
clean-check_output is_artifact e name l = elim (Bool-cases (delivered is_artifact e name)) [
  | inl y ↦ rw y (clean-satisfy ("output:" <> name) l ∙ sym (and_true (clean l)))
  | inr n ↦ rw n (elim (Bool-cases (demanded e name)) [
    | inl y ↦ rw y (clean-miss ("output:" <> name) l ∙ sym (and_false (clean l)))
    | inr m ↦ rw m (sym (and_true (clean l)))
  ])
]

clean-check_outputs :
    (is_artifact : String → Bool) (e : Evidence) (names : List String) (l : Ledger)
    → clean (check_outputs is_artifact e names l)
      ≡ (clean l && all (output_settled is_artifact e) names)
unfolding check_outputs
clean-check_outputs is_artifact e [] l = ground arith
clean-check_outputs is_artifact e (name ∷ names) l =
    clean-check_outputs is_artifact e names (check_output is_artifact e name l)
    ∙ ap (λ b. b && all (output_settled is_artifact e) names)
        (clean-check_output is_artifact e name l)
    ∙ and_assoc (clean l) (output_settled is_artifact e name)
        (all (output_settled is_artifact e) names)

clean-check_mutation :
    (e : Evidence) (l : Ledger) → clean (check_mutation e l) ≡ (clean l && untouched e)
unfolding check_mutation
clean-check_mutation e l =
    elim (Bool-cases (is_unset e.contract.mutates_workspace && workspace_changed e.workspace)) [
      | inl y ↦ rw y (clean-conflict "unexpected-workspace-mutation" l ∙ sym (and_false (clean l)))
      | inr n ↦ rw n (sym (and_true (clean l)))
    ]

clean-settle_validation :
    (v : Option Validation) (l : Ledger)
    → clean (settle_validation v l) ≡ (clean l && accepted_by v)
unfolding settle_validation
clean-settle_validation none l = clean-miss "validation" l ∙ sym (and_false (clean l))
clean-settle_validation (some v) l = elim (Bool-cases (validation_accepts v)) [
  | inl y ↦ rw y (clean-satisfy "validation" l ∙ sym (and_true (clean l)))
  | inr n ↦ rw n (clean-conflict "validation" l ∙ sym (and_false (clean l)))
]

clean-check_validation :
    (e : Evidence) (l : Ledger) → clean (check_validation e l) ≡ (clean l && validated e)
unfolding check_validation
clean-check_validation e l = elim (Bool-cases (is_empty e.acceptance_criteria)) [
  | inl y ↦ rw y (sym (and_true (clean l)))
  | inr n ↦ rw n (clean-settle_validation e.validation l)
]

clean-check_integration :
    (e : Evidence) (l : Ledger) → clean (check_integration e l) ≡ (clean l && integrated e)
unfolding check_integration
clean-check_integration e l = elim (Bool-cases (integrates e.contract)) [
  | inr n ↦ rw n (sym (and_true (clean l)))
  | inl y ↦
      rw y
        (elim (Bool-cases
          (is_text (or_else e.integration none) "integrated" && is_set e.artifact_changed)) [
            | inl z ↦ rw z (clean-satisfy "integration" l ∙ sym (and_true (clean l)))
            | inr n ↦
                rw n
                  (elim (Bool-cases
                    (e.strict || is_some e.integration || is_some e.artifact_changed)) [
                      | inl z ↦ rw z (clean-miss "integration" l ∙ sym (and_false (clean l)))
                      | inr m ↦ rw m (sym (and_true (clean l)))
                    ])
          ])
]

clean-settle_postcondition :
    (p : Option Postcondition) (l : Ledger)
    → clean (settle_postcondition p l) ≡ (clean l && postcondition_holds p)
unfolding settle_postcondition
clean-settle_postcondition none l = sym (and_true (clean l))
clean-settle_postcondition (some p) l = settled p.required p.passed
  where
    settled :
        (required passed : Bool)
        → clean (
            if required
            then if passed
              then satisfy "destination-postcondition" l
              else conflict "destination-postcondition" l
            else l)
          ≡ (clean l && (not required || passed))
    settled true true = clean-satisfy "destination-postcondition" l ∙ sym (and_true (clean l))
    settled true false = clean-conflict "destination-postcondition" l ∙ sym (and_false (clean l))
    settled false passed = sym (and_true (clean l))

clean-turn_ledger : (e : Evidence) → clean (reviewed_ledger e) ≡ true
unfolding satisfy
clean-turn_ledger e = ground arith

-- All that the full ledger asks for.
abbrev pub settled : (String → Bool) → Evidence → Bool
settled is_artifact e =
    all (output_settled is_artifact e) e.contract.outputs
    && untouched e
    && validated e
    && integrated e
    && postcondition_holds e.postcondition

pub clean-full_ledger :
    (is_artifact : String → Bool) (e : Evidence)
    → clean (full_ledger is_artifact e) ≡ settled is_artifact e
unfolding full_ledger
clean-full_ledger is_artifact e =
    rw
      (
        clean-settle_postcondition e.postcondition,
        clean-check_integration e,
        clean-check_validation e,
        clean-check_mutation e,
        clean-check_outputs is_artifact e e.contract.outputs,
        clean-turn_ledger e,
      )
      refl
