-- ===== src/Contracts/Compiled.antt =====
-- What compileExecutionContract returns.
use codex_threadhub.Base.{
  String, true, false, Option, some, Result-cases, ok, bind-eq_ok, ◌≡◌, refl, subst, inl, inr,
  arith, eq_refl,
}
use codex_threadhub.Contracts.{
  Contract, Digest, is_digest, contract_fingerprint, unsigned, validate_execution_contract,
  assert_execution_contract,
}
use codex_threadhub.Contracts.Checked.{Valid, validate-Valid, Valid-validate}
use codex_threadhub.Contracts.Compile.{
  TaskRequest, Defaults, Matcher, resolve_contract, compile_execution_contract,
  compile_and_validate_execution_contract,
}

-- The fingerprint is one: twenty hexadecimal digits.
abbrev pub IsFingerprint : Digest → Type 0
IsFingerprint digest = (c : Contract) → is_digest (some (digest c)) ≡ true

abbrev pub signed : Digest → Contract → Contract
signed digest c = record c { fingerprint = some (contract_fingerprint digest c) }

signed-Valid :
    (digest : Digest) (c : Contract)
    → IsFingerprint digest
    → Valid c false
    → Valid (signed digest c) true
signed-Valid digest c hex v = record {
  fields = v.fields;
  joint = v.joint;
  signed = rw (hex (unsigned c)) refl;
}

signed_passes :
    (digest : Digest) (c : Contract)
    → IsFingerprint digest
    → validate_execution_contract c false ≡ ok c
    → assert_execution_contract digest (signed digest c) ≡ ok (signed digest c)
unfolding assert_execution_contract
signed_passes digest c hex h =
    let (v, _) = validate-Valid c false h in
    rw
      (
        Valid-validate (signed digest c) true (signed-Valid digest c hex v),
        eq_refl (contract_fingerprint digest c),
      )
      refl

module _ (digest : Digest) (matches : Matcher) (task : TaskRequest) (defaults : Defaults)
    (role : Option String) where
  pub compiled_from :
      {c : Contract}
      → compile_execution_contract digest matches task defaults role ≡ ok c
      → (d : Contract) × (resolve_contract matches task defaults role ≡ ok d)
        × (validate_execution_contract d false ≡ ok d)
        × (signed digest d ≡ c)
  unfolding compile_execution_contract
  compiled_from h =
      let (d, resolved, h1) = bind-eq_ok (resolve_contract matches task defaults role) _ h in
      let (e, checked, h2) = bind-eq_ok (validate_execution_contract d false) _ h1 in
      let (v, same) = validate-Valid d false checked in
      (d, resolved, Valid-validate d false v, ground arith)

  -- A contract that was compiled passes the checks that it is later asked for: compiling and then
  -- asserting gives what compiling gives, the errors included, if the digest is written as twenty
  -- hexadecimal digits.
  pub compile_and_validate-eq :
      IsFingerprint digest
      → compile_and_validate_execution_contract digest matches task defaults role
        ≡ compile_execution_contract digest matches task defaults role
  unfolding compile_and_validate_execution_contract
  compile_and_validate-eq hex =
      elim (Result-cases (compile_execution_contract digest matches task defaults role)) [
        | inl (c, h) ↦
            let (d, _, checked, same) = compiled_from h in
            let passed =
              subst (λ x. assert_execution_contract digest x ≡ ok x) same
                (signed_passes digest d hex checked) in
            rw (h, passed) refl
        | inr (e, h) ↦ rw h refl
      ]
