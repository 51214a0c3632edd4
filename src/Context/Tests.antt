-- ===== src/Context/Tests.antt =====
-- A context claim that supersedes another, and an instance of the theorem on it.
use codex_threadhub.Base.{◌≡◌, refl, String, some, [], ◌∷◌, err}
use codex_threadhub.Context.{
  Authority, ClaimStatus, candidate, active, superseded, ContextClaim, Claims, authority_downgrade,
  assert_can_supersede,
}

abbrev claim_of : String → Authority → ClaimStatus → ContextClaim
claim_of id authority status = record {
  id = id;
  scope = "project";
  project_id = some "p";
  subject = some "runtime";
  authority = authority;
  status = status;
  updated_at = 1;
}

abbrev two_claims : Claims
two_claims = record {
  rows =
      claim_of "new" Authority.user_explicit candidate
      ∷ claim_of "old" Authority.observed_thread active
      ∷ [];
  sources = record { claim_id = "new"; kind = "thread"; id = "t"; revision = "" } ∷ [];
  supersessions = [];
}

abbrev after : Claims
after = record two_claims {
  rows =
      (record (claim_of "new" Authority.user_explicit active) { updated_at = 5 })
      ∷ (record (claim_of "old" Authority.observed_thread superseded) { updated_at = 5 })
      ∷ [];
  supersessions = record { incoming = "new"; superseded = "old" } ∷ [];
}

downgrade :
    assert_can_supersede
      (claim_of "a" Authority.project_contract candidate)
      (some (claim_of "b" Authority.user_explicit active))
    ≡ err authority_downgrade
unfolding assert_can_supersede
downgrade = refl
