-- ===== src/Dispatches/Claim.antt =====
-- `claimTurnDispatch` and `heartbeatTurnDispatch` of src/registry.js.
use codex_threadhub.Base.{
  ℕ, ◌+◌, String, Bool, true, not, ◌&&◌, ◌||◌, Option, none, some, leb, ltb, is_none, if◌then◌else◌,
}
use codex_threadhub.Base.Sql.{holds, eq}
use codex_threadhub.Base.Table.{update_where, returned}
use codex_threadhub.States.Dispatch.{is_terminal_dispatch}
use codex_threadhub.Dispatches.Rows.{
  Dispatch, Dispatches, has_id, get_turn_dispatch, is_active, log_dispatch, is_given,
}

abbrev after_now : Option ℕ → ℕ → Bool
after_now none now = true
after_now (some at) now = ltb now at

-- The instance that asks holds the dispatch, and its lease has not run out.
abbrev pub holds_already : String → ℕ → Dispatch → Bool
holds_already owner now d =
    holds (eq d.owner_instance_id (some owner))
    && (is_given d.owner_token && after_now d.lease_expires_at now)

abbrev lease_over : Option ℕ → ℕ → Bool
lease_over none now = true
lease_over (some at) now = leb at now

-- The WHERE of the claim.
abbrev pub claimable : String → String → ℕ → Bool → Dispatch → Bool
claimable id owner now force d =
    has_id id d
    && (is_active d
        && (is_none d.owner_token
            || (lease_over d.lease_expires_at now
                || (holds (eq d.owner_instance_id (some owner)) || force))))

abbrev pub claimed : String → String → ℕ → ℕ → Dispatch → Dispatch
claimed owner token ttl_ms now d = record d {
  owner_instance_id = some owner;
  owner_token = some token;
  heartbeat_at = some now;
  lease_expires_at = some (now + ttl_ms);
  updated_at = now;
  version = d.version + 1;
}

abbrev pub claim_row :
    String → String → String → ℕ → Bool → ℕ → Dispatches → Dispatches × Option Dispatch
claim_row id owner token ttl_ms force now s =
    let p = claimable id owner now force in
    let f = claimed owner token ttl_ms now in
    log_dispatch id "turn_dispatch.claimed" s.events (update_where p f s.rows, returned p f s.rows)

abbrev pub claim_found :
    String
    → String
    → String
    → ℕ
    → Bool
    → ℕ
    → Dispatches
    → Option Dispatch
    → Dispatches × Option Dispatch
claim_found id owner token ttl_ms force now s none = (s, none)
claim_found id owner token ttl_ms force now s (some d) =
    if is_terminal_dispatch d.status
    then (s, none)
    else if not force && holds_already owner now d
    then (s, some d)
    else claim_row id owner token ttl_ms force now s

unfoldable pub claim_turn_dispatch :
    String → String → String → ℕ → Bool → ℕ → Dispatches → Dispatches × Option Dispatch
claim_turn_dispatch id owner token ttl_ms force now s =
    claim_found id owner token ttl_ms force now s (get_turn_dispatch id s)

abbrev pub beating : String → String → String → Dispatch → Bool
beating id owner token d =
    has_id id d
    && (holds (eq d.owner_instance_id (some owner))
        && (holds (eq d.owner_token (some token)) && is_active d))

abbrev pub beaten : ℕ → ℕ → Dispatch → Dispatch
beaten ttl_ms now d = record d {
  heartbeat_at = some now;
  lease_expires_at = some (now + ttl_ms);
  updated_at = now;
  version = d.version + 1;
}

unfoldable pub heartbeat_turn_dispatch :
    String → String → String → ℕ → ℕ → Dispatches → Dispatches × Option Dispatch
heartbeat_turn_dispatch id owner token ttl_ms now s = (
  record s { rows = update_where (beating id owner token) (beaten ttl_ms now) s.rows },
  returned (beating id owner token) (beaten ttl_ms now) s.rows,
)
