-- ===== src/Context.antt =====
-- src/context-claims.js, and `activateContextClaim` of src/registry.js. A status, a kind, a scope or
-- an authority of the enumerations is a constructor; the texts that `validateContextClaim` checks
-- are read by `read`.
use codex_threadhub.Base.{
  ℕ, String, Bool, true, false, not, ◌&&◌, ◌||◌, Option, none, some, List, [], ◌∷◌, any, all, find,
  ltb, ◌==◌, ◌=s=◌, is_none, if◌then◌else◌, Result, ok, err, ◌>>=◌, throw_if,
}
use codex_threadhub.Base.Table.{update_where}
pub mod Supersede
pub mod Written
mod Tests

pub data Authority : Type 0 where
  legacy_unverified model_inference observed_thread validated_task_result validated_artifact :
      Authority
  project_contract user_explicit : Authority

-- `AUTHORITY_RANK`: the place in the list.
abbrev pub authority_rank : Authority → ℕ
authority_rank legacy_unverified = 0
authority_rank model_inference = 1
authority_rank observed_thread = 2
authority_rank validated_task_result = 3
authority_rank validated_artifact = 4
authority_rank project_contract = 5
authority_rank user_explicit = 6

pub data ClaimStatus : Type 0 where
  candidate active disputed superseded expired rejected : ClaimStatus

abbrev pub status_code : ClaimStatus → ℕ
status_code candidate = 0
status_code active = 1
status_code disputed = 2
status_code superseded = 3
status_code expired = 4
status_code rejected = 5

abbrev pub status_in : List ClaimStatus → ClaimStatus → Bool
status_in xs s = any (λ x. status_code x == status_code s) xs

-- The columns of `context_claims` that decide; scope, project and subject are compared as texts.
pub record ContextClaim : Type 0 where
  pub id : String
  pub scope : String
  pub project_id : Option String
  pub subject : Option String
  pub authority : Authority
  pub status : ClaimStatus
  pub updated_at : ℕ

pub data ClaimError : Type 0 where
  target_missing target_inactive authority_downgrade scope_mismatch : ClaimError
  not_found not_activatable provenance_required : ClaimError

abbrev pub is_same : Option String → Option String → Bool
is_same none none = true
is_same (some a) (some b) = a =s= b
is_same _ _ = false

abbrev pub is_explicit : ContextClaim → Bool
is_explicit c = authority_rank c.authority == 6

unfoldable pub assert_can_supersede :
    ContextClaim → Option ContextClaim → Result ClaimError (Unit {0})
assert_can_supersede incoming none = err target_missing
assert_can_supersede incoming (some target) =
    if not (status_in (active ∷ disputed ∷ []) target.status)
    then err target_inactive
    else if is_explicit target && not (is_explicit incoming)
    then err authority_downgrade
    else if ltb (authority_rank incoming.authority) (authority_rank target.authority)
    then err authority_downgrade
    else if not (is_same incoming.project_id target.project_id)
        || (not (incoming.scope =s= target.scope) || not (is_same incoming.subject target.subject))
    then err scope_mismatch
    else ok tt

pub record Source : Type 0 where
  pub claim_id : String
  pub kind : String
  pub id : String
  pub revision : String

pub record Supersession : Type 0 where
  pub incoming : String
  pub superseded : String

pub record Claims : Type 0 where
  pub rows : List ContextClaim
  pub sources : List Source
  pub supersessions : List Supersession

abbrev pub has_id : String → ContextClaim → Bool
has_id id c = c.id =s= id

abbrev pub get_context_claim : String → Claims → Option ContextClaim
get_context_claim id s = find (has_id id) s.rows

abbrev pub has_source : String → Claims → Bool
has_source id s = any (λ x. x.claim_id =s= id) s.sources

-- `[...new Set(ids)]`, over the members seen so far.
unfoldable pub distinct : List String → List String → List String
distinct seen [] = []
distinct seen (x ∷ xs) =
    let skip = distinct seen xs in
    let take = x ∷ distinct (x ∷ seen) xs in if any (λ y. y =s= x) seen then skip else take

-- Every target is checked before anything is written.
unfoldable pub check_targets : ContextClaim → List String → Claims → Result ClaimError (Unit {0})
unfolding assert_can_supersede
check_targets claim [] s = ok tt
check_targets claim (t ∷ ts) s =
    let rest = check_targets claim ts s in
    assert_can_supersede claim (get_context_claim t s) >>= λ _. rest

abbrev pub activated : ℕ → ContextClaim → ContextClaim
activated now c = record c { status = active; updated_at = now }

abbrev pub retired : ℕ → ContextClaim → ContextClaim
retired now c = record c { status = superseded; updated_at = now }

-- `INSERT OR IGNORE`.
abbrev pub note_supersession : String → String → List Supersession → List Supersession
note_supersession id t xs =
    if any (λ x. x.incoming =s= id && x.superseded =s= t) xs
    then xs
    else record { incoming = id; superseded = t } ∷ xs

abbrev pub retire : String → ℕ → String → Claims → Claims
retire id now t s = record s {
  rows =
      update_where (λ c. has_id t c && status_in (active ∷ disputed ∷ []) c.status) (retired now)
        s.rows;
  supersessions = note_supersession id t s.supersessions;
}

unfoldable pub retire_all : String → ℕ → List String → Claims → Claims
unfolding update_where
retire_all id now [] s = s
retire_all id now (t ∷ ts) s = retire_all id now ts (retire id now t s)

abbrev pub activate : String → ℕ → Claims → Claims
activate id now s = record s {
  rows =
      update_where (λ c. has_id id c && status_in (candidate ∷ disputed ∷ []) c.status)
        (activated now) s.rows;
}

abbrev pub activate_found :
    String
    → List String
    → ℕ
    → Claims
    → Option ContextClaim
    → Result ClaimError (Claims × Option ContextClaim)
activate_found id targets now s none = err not_found
activate_found id targets now s (some claim) =
    throw_if (not (status_in (candidate ∷ disputed ∷ []) claim.status)) not_activatable >>= λ _.
    throw_if (not (has_source id s)) provenance_required >>= λ _.
    check_targets claim targets s >>= λ _.
    let after = retire_all id now targets (activate id now s) in
    ok (after, get_context_claim id after)

unfoldable pub activate_context_claim :
    String → List String → ℕ → Claims → Result ClaimError (Claims × Option ContextClaim)
unfolding distinct check_targets retire_all update_where
activate_context_claim id supersedes now s =
    activate_found id (distinct [] supersedes) now s (get_context_claim id s)
