-- ===== src/Context/Supersede.antt =====
-- What a context claim may supersede, and what its activation leaves.
use codex_threadhub.Base.{
  ℕ, ◌≤◌, ◌≡◌, ◌⊎◌, String, true, Option, some, List, [], ◌∷◌, All, map, any, ◌&&◌, ◌=s=◌,
  if◌then◌else◌,
}
use codex_threadhub.Context.{
  authority_rank, user_explicit, candidate, active, disputed, superseded, status_in, ContextClaim,
  Claims, is_same, has_source, get_context_claim, distinct, activate, retire_all,
}

-- The incoming claim outranks the target, or is as high, and speaks of the same thing.
pub record MaySupersede (incoming target : ContextClaim) : Type 0 where
  pub standing : (target.status ≡ active) ⊎ (target.status ≡ disputed)
  pub rank : authority_rank target.authority ≤ authority_rank incoming.authority
  pub explicit : target.authority ≡ user_explicit → incoming.authority ≡ user_explicit
  pub project : is_same incoming.project_id target.project_id ≡ true
  pub scope : incoming.scope ≡ target.scope
  pub subject : is_same incoming.subject target.subject ≡ true

-- The claim of the id is there, and the incoming claim may supersede it.
abbrev pub Target : ContextClaim → Claims → String → Type 0
Target claim s id = (t : ContextClaim) × (get_context_claim id s ≡ some t) × MaySupersede claim t

-- What an activation that returns relied on, and what it leaves: the claims of `s'`, and the row
-- `c` that it returns.
pub record Activated (id : String) (supersedes : List String) (now : ℕ) (s s' : Claims)
    (c : Option ContextClaim) (claim : ContextClaim) : Type 0 where
  pub found : get_context_claim id s ≡ some claim
  pub inactive : status_in (candidate ∷ disputed ∷ []) claim.status ≡ true
  pub provenance : has_source id s ≡ true
  pub targets : All (Target claim s) (distinct [] supersedes)
  pub rows :
      s'.rows
      ≡ map
          (λ c.
            if c.id =s= id && status_in (candidate ∷ disputed ∷ []) c.status
            then record c {
              status = if any (λ t. c.id =s= t) supersedes then superseded else active;
              updated_at = now;
            }
            else if any (λ t. c.id =s= t) supersedes && status_in (active ∷ disputed ∷ []) c.status
            then record c { status = superseded; updated_at = now }
            else c)
          s.rows
  pub noted :
      All
        (λ t. any (λ x. x.incoming =s= id && x.superseded =s= t) s'.supersessions ≡ true)
        (distinct [] supersedes)
  pub returned : c ≡ get_context_claim id s'

module _ (id : String) (supersedes : List String) (now : ℕ) (s : Claims) where
  abbrev after : Claims
  after = retire_all id now (distinct [] supersedes) (activate id now s)
