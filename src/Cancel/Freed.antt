-- ===== src/Cancel/Freed.antt =====
-- What a cancelled task leaves behind: no lease of its own, and no dispatch that is not cancelling.
use codex_threadhub.Base.{
  ℕ, String, Bool, false, ◌&&◌, Option, none, some, List, [], ◌∷◌, find, ◌=s=◌, Result, ok, err,
  ◌≡◌, refl, sym, ap, subst, ◌∙◌, All, and_false,
}
use codex_threadhub.Base.Ensures.{
  Ensures, Ensures-ok, Ensures-err, Ensures-then, Ensures-bind, Ensures-mono,
}
use codex_threadhub.Base.Table.{update_where, returned}
use codex_threadhub.States.Machine.{move}
use codex_threadhub.States.Lease.{released, move_lease}
use codex_threadhub.Registry.{Event}
use codex_threadhub.Leases.Worktree.{
  Lease, Leases, LeaseError, check_move, has_key, releasable, ended, log_lease, release_lease,
}
use codex_threadhub.Leases.Agent.{
  AgentLease, AgentLeases, AgentLeaseError, is_held, ended_agent, log_agent, release_agent_lease,
}
use codex_threadhub.Cancel.{
  Plane, is_open, holds_agent, with_worktrees, release_worktrees, with_agent_leases, release_agents,
}
use codex_threadhub.Base.Sweep.{Covered, step-Covered, none-Covered}

-- The open worktree leases of a task.
abbrev pub holds_worktree : String → Lease → Bool
holds_worktree id l = l.owner_task_id =s= id && is_open l

abbrev pub releases : String → Lease → Lease → Bool
releases id l x = releasable l.key id l.owner_token x

log_lease-rows :
    (task type : String) (events : List Event) (rows : List Lease) (o : Option Lease)
    → (log_lease task type events (rows, o)).0.rows ≡ rows
log_lease-rows task type events rows none = refl
log_lease-rows task type events rows (some l) = refl

release_lease-Ensures :
    (P : List Lease → Type 0) (key id : String) (token : Option String) (now : ℕ) (s : Leases)
    → P (update_where (releasable key id token) (ended released now) s.rows)
    → Ensures (λ x. P x.0.rows) (release_lease key id none token now s)
unfolding release_lease
release_lease-Ensures P key id token now s h =
    let p = releasable key id token in
    let rows = update_where p (ended released now) s.rows in
    let back = returned p (ended released now) s.rows in
    Ensures-then (check_move (find (has_key key) s.rows) released)
      (λ _. ok (log_lease id "lease.released" s.events (rows, back)))
      (λ _ _.
        Ensures-ok _ (subst P (sym (log_lease-rows id "lease.released" s.events rows back)) h))

-- Of the tables only that of the worktree leases is written.
with_worktrees-Ensures :
    (P : List Lease → Type 0) (p : Plane) (r : Result LeaseError (Leases × Option Lease))
    → Ensures (λ x. P x.0.rows) r
    → Ensures
        (λ q. (record p { worktrees = q.worktrees } ≡ q) × P q.worktrees.rows)
        (with_worktrees p r)
with_worktrees-Ensures P p (ok x) h = Ensures-ok _ (refl, h.at x refl)
with_worktrees-Ensures P p (err e) h = Ensures-err _

-- The loop frees the leases that the list covers.
abbrev pub FreesWorktrees : String → List Lease → Plane → Plane → Type 0
FreesWorktrees id ls p q =
    (record p { worktrees = q.worktrees } ≡ q)
    × (All (Covered (holds_worktree id) (releases id) ls) p.worktrees.rows
        → All (λ x. holds_worktree id x ≡ false) q.worktrees.rows)

pub release_worktrees-Ensures :
    (id : String) (ls : List Lease) (now : ℕ) (p : Plane)
    → Ensures (FreesWorktrees id ls p) (release_worktrees id ls now p)
unfolding release_worktrees
release_worktrees-Ensures id [] now p =
    Ensures-ok _ (refl, none-Covered (holds_worktree id) (releases id) p.worktrees.rows)
release_worktrees-Ensures id (l ∷ ls) now p =
    let Step = λ (rows : List Lease).
      All (Covered (holds_worktree id) (releases id) (l ∷ ls)) p.worktrees.rows
      → All (Covered (holds_worktree id) (releases id) ls) rows in
    let one = release_lease-Ensures Step l.key id l.owner_token now p.worktrees (
      step-Covered (holds_worktree id) (releases id) l ls (ended released now) p.worktrees.rows
        (λ x. and_false (x.owner_task_id =s= id))) in
    Ensures-bind (with_worktrees p (release_lease l.key id none l.owner_token now p.worktrees))
      (λ x. release_worktrees id ls now x) (with_worktrees-Ensures Step p _ one)
      (λ q (same, step).
        Ensures-mono _
          (λ u (frame, freed). (
            ap (λ (y : Plane). record y { worktrees = u.worktrees }) same ∙ frame,
            λ a. freed (step a),
          ))
          (release_worktrees-Ensures id ls now q))

abbrev pub releases_agent : String → AgentLease → AgentLease → Bool
releases_agent id l x = is_held l.agent_id id l.owner_token x

log_agent-rows :
    (agent type : String) (events : List Event) (rows : List AgentLease) (o : Option AgentLease)
    → (log_agent agent type events (rows, o)).0.rows ≡ rows
log_agent-rows agent type events rows none = refl
log_agent-rows agent type events rows (some l) = refl

release_agent_lease-Ensures :
    (P : List AgentLease → Type 0) (agent id token : String) (now : ℕ) (s : AgentLeases)
    → P (update_where (is_held agent id token) (ended_agent released now) s.rows)
    → Ensures (λ x. P x.0.rows) (release_agent_lease agent id token released now s)
unfolding release_agent_lease move_lease move
release_agent_lease-Ensures P agent id token now s h =
    let p = is_held agent id token in
    let rows = update_where p (ended_agent released now) s.rows in
    let back = returned p (ended_agent released now) s.rows in
    Ensures-ok _ (subst P (sym (log_agent-rows agent "agent.lease_released" s.events rows back)) h)

with_agent_leases-Ensures :
    (P : List AgentLease → Type 0) (p : Plane)
    (r : Result AgentLeaseError (AgentLeases × Option AgentLease))
    → Ensures (λ x. P x.0.rows) r
    → Ensures
        (λ q. (record p { agent_leases = q.agent_leases } ≡ q) × P q.agent_leases.rows)
        (with_agent_leases p r)
with_agent_leases-Ensures P p (ok x) h = Ensures-ok _ (refl, h.at x refl)
with_agent_leases-Ensures P p (err e) h = Ensures-err _

abbrev pub FreesAgents : String → List AgentLease → Plane → Plane → Type 0
FreesAgents id ls p q =
    (record p { agent_leases = q.agent_leases } ≡ q)
    × (All (Covered (holds_agent id) (releases_agent id) ls) p.agent_leases.rows
        → All (λ x. holds_agent id x ≡ false) q.agent_leases.rows)

pub release_agents-Ensures :
    (id : String) (ls : List AgentLease) (now : ℕ) (p : Plane)
    → Ensures (FreesAgents id ls p) (release_agents id ls now p)
unfolding release_agents
release_agents-Ensures id [] now p =
    Ensures-ok _ (refl, none-Covered (holds_agent id) (releases_agent id) p.agent_leases.rows)
release_agents-Ensures id (l ∷ ls) now p =
    let Step = λ (rows : List AgentLease).
      All (Covered (holds_agent id) (releases_agent id) (l ∷ ls)) p.agent_leases.rows
      → All (Covered (holds_agent id) (releases_agent id) ls) rows in
    let call_of = release_agent_lease l.agent_id id l.owner_token released now p.agent_leases in
    let one = release_agent_lease-Ensures Step l.agent_id id l.owner_token now p.agent_leases (
      step-Covered (holds_agent id) (releases_agent id) l ls (ended_agent released now)
        p.agent_leases.rows (λ x. and_false (x.owner_task_id =s= id))) in
    Ensures-bind (with_agent_leases p call_of) (λ x. release_agents id ls now x)
      (with_agent_leases-Ensures Step p call_of one)
      (λ q (same, step).
        Ensures-mono _
          (λ u (frame, freed). (
            ap (λ (y : Plane). record y { agent_leases = u.agent_leases }) same ∙ frame,
            λ a. freed (step a),
          ))
          (release_agents-Ensures id ls now q))
