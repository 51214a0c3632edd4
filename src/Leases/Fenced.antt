-- ===== src/Leases/Fenced.antt =====
-- A lease that is granted bars others until its time is over.
use codex_threadhub.Base.{
  ℕ, ◌+◌, ◌≤◌, ◌<◌, ◌≡◌, refl, ap, subst, subst⁻¹, String, Bool, true, false, ◌||◌, Option, none,
  some, List, arith, eq_refl, inl, inr, ◌⊎◌, ◌=s=◌, or_else, Result, ok,
}
use codex_threadhub.Base.Counts.{count}
use codex_threadhub.Base.Table.{upsert}
use codex_threadhub.Base.Upsert.{upsert_refused, upsert-HeldBy, upsert-row}
use codex_threadhub.States.Machine.{move}
use codex_threadhub.States.Lease.{active, move_lease}
use codex_threadhub.Leases.Agent.{
  AgentLease, AgentLeases, is_of, is_free, granted, regranted, get_agent_lease, check_revival,
  log_agent, insert_agent_lease, acquire_agent_lease,
}
use codex_threadhub.Leases.Dashboard.{
  DashboardLease, of_project, may_open, opened, reopened, acquire_dashboard_lease,
}

-- No lease status bars a new lease by its transition.
check_revival_passes : (o : Option AgentLease) → check_revival o ≡ ok tt
unfolding check_revival move_lease move
check_revival_passes none = refl
check_revival_passes (some l) = ground arith

abbrev is_blank : String → String → String → Bool
is_blank agent owner token = agent =s= "" || (owner =s= "" || token =s= "")

acquire_agent_lease_given :
    (agent owner token metadata : String) (ttl_ms now : ℕ) (s : AgentLeases)
    → is_blank agent owner token ≡ false
    → acquire_agent_lease agent owner token metadata ttl_ms now s
      ≡ ok (insert_agent_lease (granted agent owner token metadata ttl_ms now) now s)
unfolding acquire_agent_lease
acquire_agent_lease_given agent owner token metadata ttl_ms now s h =
    rw (h, check_revival_passes (get_agent_lease agent s))

ok_injective : {A E : Type 0} {a b : A} → ◌≡◌ {A = Result E A} (ok a) (ok b) → a ≡ b
ok_injective h = cc h

log_agent-some :
    (agent type : String) (s s' : AgentLeases) (x : List AgentLease × Option AgentLease)
    {l : AgentLease}
    → log_agent agent type s.events x ≡ (s', some l)
    → x ≡ (s'.rows, some l)
log_agent-some agent type s s' (rows, none) h = cc h
log_agent-some agent type s s' (rows, some k) {l} h =
    let same : k ≡ l = cc (ap (λ z. z.1) h) in
    let kept : rows ≡ s'.rows = ap (λ z. z.0.rows) h in cc (same, kept)

granted_row :
    (agent owner token metadata : String) (ttl_ms now : ℕ) (l : AgentLease)
    → (l ≡ granted agent owner token metadata ttl_ms now)
      ⊎ ((x : AgentLease) × (is_of agent x ≡ true)
          × (l ≡ regranted (granted agent owner token metadata ttl_ms now) x))
    → (l.expires_at ≡ now + ttl_ms) × (l.status ≡ active)
granted_row agent owner token metadata ttl_ms now l (inl e) =
    (ap (λ z. z.expires_at) e, ap (λ z. z.status) e)
granted_row agent owner token metadata ttl_ms now l (inr (x, m, e)) =
    (ap (λ z. z.expires_at) e, ap (λ z. z.status) e)

live_not_free :
    (now : ℕ) (l : AgentLease) → l.status ≡ active → now < l.expires_at → is_free now l ≡ false
live_not_free now l e h = rw e (ground arith)

-- Once an agent is leased, every other lease of it is refused and changes nothing until its time is
-- over, whoever asks. An agent has one row, and the arguments are not empty.
pub acquire_agent_lease-fenced :
    (agent owner token owner' token' metadata metadata' : String) (ttl_ms ttl_ms' now now' : ℕ)
    (s s' : AgentLeases) (l : AgentLease)
    → is_blank agent owner token ≡ false
    → is_blank agent owner' token' ≡ false
    → count (is_of agent) s.rows ≤ 1
    → acquire_agent_lease agent owner token metadata ttl_ms now s ≡ ok (s', some l)
    → now' < now + ttl_ms
    → acquire_agent_lease agent owner' token' metadata' ttl_ms' now' s' ≡ ok (s', none)
acquire_agent_lease-fenced agent o k o' k' m m' ttl ttl' now now' s s' l b b' one h soon =
    let new = granted agent o k m ttl now in
    let got =
      subst (λ z. z ≡ ok (s', some l)) (acquire_agent_lease_given agent o k m ttl now s b) h in
    let row =
      log_agent-some agent "agent.leased" s s'
        (upsert (is_of agent) (is_free now) (regranted new) new s.rows) (ok_injective got) in
    let held =
      upsert-HeldBy (is_of agent) (is_free now) (regranted new) new s.rows (eq_refl agent)
        (λ x e. e) one row in
    let (until, busy) =
      granted_row agent o k m ttl now l
        (upsert-row (is_of agent) (is_free now) (regranted new) new s.rows row) in
    let new' = granted agent o' k' m' ttl' now' in
    let free = live_not_free now' l busy (subst⁻¹ (λ z. now' < z) until soon) in
    let refused =
      upsert_refused (is_of agent) (is_free now') (regranted new') new' l s'.rows held free in
    subst⁻¹ (λ z. z ≡ ok (s', none)) (acquire_agent_lease_given agent o' k' m' ttl' now' s' b')
      (ap (λ x. ok (log_agent agent "agent.leased" s'.events x)) refused)

acquire_dashboard_lease_given :
    (key owner : String) (token : Option String) (ttl_ms : Option ℕ) (random : String) (now : ℕ)
    (ls : List DashboardLease)
    → (key =s= "" || owner =s= "") ≡ false
    → let new = opened key owner (or_else token random) (or_else ttl_ms 30000) now in
      acquire_dashboard_lease key owner token ttl_ms random now ls
      ≡ ok (upsert (of_project key) (may_open owner now) (reopened new) new ls)
unfolding acquire_dashboard_lease
acquire_dashboard_lease_given key owner token ttl_ms random now ls h = rw h

opened_row :
    (key owner token : String) (ttl_ms now : ℕ) (l : DashboardLease)
    → (l ≡ opened key owner token ttl_ms now)
      ⊎ ((x : DashboardLease) × (of_project key x ≡ true)
          × (l ≡ reopened (opened key owner token ttl_ms now) x))
    → (l.expires_at ≡ now + ttl_ms) × (l.owner_id ≡ owner)
opened_row key owner token ttl_ms now l (inl e) = (ap (λ z. z.expires_at) e, ap (λ z. z.owner_id) e)
opened_row key owner token ttl_ms now l (inr (x, m, e)) =
    (ap (λ z. z.expires_at) e, ap (λ z. z.owner_id) e)

kept_not_open :
    (owner : String) (now : ℕ) (l : DashboardLease)
    → (l.owner_id =s= owner) ≡ false
    → now < l.expires_at
    → may_open owner now l ≡ false
kept_not_open owner now l other h = rw other (ground arith)

-- While the dashboard lease of a project runs, another owner is refused and changes nothing. A
-- project has one row, and the arguments are not empty.
pub acquire_dashboard_lease-fenced :
    (key owner owner' : String) (token token' : Option String) (ttl_ms ttl_ms' : Option ℕ)
    (random random' : String) (now now' : ℕ) (ls ls' : List DashboardLease) (l : DashboardLease)
    → (key =s= "" || owner =s= "") ≡ false
    → (key =s= "" || owner' =s= "") ≡ false
    → (owner =s= owner') ≡ false
    → count (of_project key) ls ≤ 1
    → acquire_dashboard_lease key owner token ttl_ms random now ls ≡ ok (ls', some l)
    → now' < now + or_else ttl_ms 30000
    → acquire_dashboard_lease key owner' token' ttl_ms' random' now' ls' ≡ ok (ls', none)
acquire_dashboard_lease-fenced key o o' t t' ttl ttl' x x' now now' ls ls' l b b' other one h soon =
    let new = opened key o (or_else t x) (or_else ttl 30000) now in
    let row = ok_injective (
      subst (λ z. z ≡ ok (ls', some l)) (acquire_dashboard_lease_given key o t ttl x now ls b) h) in
    let held =
      upsert-HeldBy (of_project key) (may_open o now) (reopened new) new ls (eq_refl key) (λ x e. e)
        one row in
    let (until, owned) =
      opened_row key o (or_else t x) (or_else ttl 30000) now l
        (upsert-row (of_project key) (may_open o now) (reopened new) new ls row) in
    let new' = opened key o' (or_else t' x') (or_else ttl' 30000) now' in
    let free =
      kept_not_open o' now' l (subst⁻¹ (λ z. (z =s= o') ≡ false) owned other)
        (subst⁻¹ (λ z. now' < z) until soon) in
    let refused =
      upsert_refused (of_project key) (may_open o' now') (reopened new') new' l ls' held free in
    subst⁻¹ (λ z. z ≡ ok (ls', none)) (acquire_dashboard_lease_given key o' t' ttl' x' now' ls' b')
      (ap ok refused)
