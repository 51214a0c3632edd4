-- ===== src/Leases/Dashboard.antt =====
-- The dashboard leases of src/registry.js. A call reads the clock once, the random token is an
-- argument, and a lease is deleted when it is released.
use codex_threadhub.Base.{
  ℕ, ◌+◌, String, Bool, not, ◌&&◌, ◌||◌, Option, List, any, find, keep, leb, ltb, ◌=s=◌, or_else,
  if◌then◌else◌, Result, ok, err,
}
use codex_threadhub.Base.Table.{update_where, returned, upsert}

pub record DashboardLease : Type 0 where
  pub project_key : String
  pub owner_id : String
  pub lease_token : String
  pub acquired_at : ℕ
  pub heartbeat_at : ℕ
  pub expires_at : ℕ

-- The TypeError of an absent project or owner.
pub data DashboardError : Type 0 where
  fields_required : DashboardError

abbrev pub of_project : String → DashboardLease → Bool
of_project key l = l.project_key =s= key

abbrev pub opened : String → String → String → ℕ → ℕ → DashboardLease
opened key owner token ttl_ms now = record {
  project_key = key;
  owner_id = owner;
  lease_token = token;
  acquired_at = now;
  heartbeat_at = now;
  expires_at = now + ttl_ms;
}

-- The owner may take its own lease again, and anyone a lease whose time is over.
abbrev pub may_open : String → ℕ → DashboardLease → Bool
may_open owner now l = l.owner_id =s= owner || leb l.expires_at now

abbrev pub reopened : DashboardLease → DashboardLease → DashboardLease
reopened new l = record new {
  project_key = l.project_key;
  acquired_at = if l.owner_id =s= new.owner_id then l.acquired_at else new.acquired_at;
}

unfoldable pub acquire_dashboard_lease :
    String
    → String
    → Option String
    → Option ℕ
    → String
    → ℕ
    → List DashboardLease
    → Result DashboardError (List DashboardLease × Option DashboardLease)
unfolding upsert
acquire_dashboard_lease key owner token ttl_ms random now ls =
    if key =s= "" || owner =s= ""
    then err fields_required
    else let new = opened key owner (or_else token random) (or_else ttl_ms 30000) now in
      ok (upsert (of_project key) (may_open owner now) (reopened new) new ls)

abbrev pub is_kept : String → String → String → DashboardLease → Bool
is_kept key owner token l = of_project key l && (l.owner_id =s= owner && l.lease_token =s= token)

abbrev pub is_live : String → String → String → ℕ → DashboardLease → Bool
is_live key owner token now l = is_kept key owner token l && ltb now l.expires_at

abbrev pub extended : ℕ → ℕ → DashboardLease → DashboardLease
extended now ttl_ms l = record l { heartbeat_at = now; expires_at = now + ttl_ms }

unfoldable pub renew_dashboard_lease :
    String
    → String
    → String
    → ℕ
    → ℕ
    → List DashboardLease
    → List DashboardLease × Option DashboardLease
renew_dashboard_lease key owner token ttl_ms now ls =
    let p = is_live key owner token now in
    let f = extended now ttl_ms in (update_where p f ls, returned p f ls)

-- A project has one row at most: `changes === 1` is that a row matched.
unfoldable pub release_dashboard_lease :
    String → String → String → List DashboardLease → List DashboardLease × Bool
release_dashboard_lease key owner token ls =
    (keep (λ l. not (is_kept key owner token l)) ls, any (is_kept key owner token) ls)

abbrev pub get_dashboard_lease : String → List DashboardLease → Option DashboardLease
get_dashboard_lease key ls = find (of_project key) ls
