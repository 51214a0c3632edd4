-- ===== src/Agents/Recovers.antt =====
-- The recovery of expired leases returns, and leaves no lease that is over.
use codex_threadhub.Base.{
  ℕ, String, Bool, true, false, Option, none, some, List, [], ◌∷◌, keep, length, Result, ok, err,
  is_ok, Result-cases, returns_rules, ◌>>=◌, ◌≡◌, refl, subst, ap, arith, All, inl, inr, eq_refl,
}
use codex_threadhub.Base.Ensures.{
  Ensures, Ensures-ok, Ensures-err, Ensures-if, Ensures-then, Ensures-bind,
}
use codex_threadhub.Base.Members.{Memᴰ-keep, All-keep, All_of_Memᴰ}
use codex_threadhub.Base.Sweep.{Covered, step-Covered, none-Covered, all-Covered}
use codex_threadhub.States.Machine.{no_options, move}
use codex_threadhub.States.Lease.{LeaseStatus, active, expired, is_lease, move_lease}
use codex_threadhub.States.Agent.{active_agents, agent_in}
use codex_threadhub.Leases.Agent.{AgentLease, ended_agent}
use codex_threadhub.Agents.{Agent, Agents, AgentError, get_agent, update_agent}
use codex_threadhub.Agents.Idle.{update_agent-is_ok}
use codex_threadhub.Agents.Expired.{
  Pool, is_over, is_active_of, lapsed_leases, recovered, with_agents, idle_if_active, log_expired,
  allowed, recover_lease, recover_each, recover_expired_agent_leases,
}

abbrev ends : AgentLease → AgentLease → Bool
ends l x = is_active_of l.agent_id x

with_agents-Ensures :
    (p : Pool) (r : Result AgentError Agents) → Ensures (λ q. p.leases ≡ q.leases) (with_agents p r)
with_agents-Ensures p (ok s) = Ensures-ok _ refl
with_agents-Ensures p (err e) = Ensures-err _

-- Only the leases of the agent change.
idle_if_active-Ensures :
    (id : String) (now : ℕ) (p : Pool) (o : Option Agent)
    → Ensures (λ q. p.leases ≡ q.leases) (idle_if_active id now p o)
idle_if_active-Ensures id now p none = Ensures-ok _ refl
idle_if_active-Ensures id now p (some a) =
    Ensures-if (agent_in active_agents a.status) _ _ (λ _. with_agents-Ensures p _)
      (λ _. Ensures-ok _ refl)

recover_lease-Ensures :
    (l : AgentLease) (ls : List AgentLease) (now : ℕ) (p : Pool)
    → All (Covered (is_over now) ends (l ∷ ls)) p.leases.rows
    → Ensures (λ q. All (Covered (is_over now) ends ls) q.leases.rows) (recover_lease l now p)
unfolding recover_lease
recover_lease-Ensures l ls now p a =
    let q = lapsed_leases l.agent_id now p in
    let covered =
      step-Covered (is_over now) ends l ls (ended_agent expired now) p.leases.rows (λ x. refl) a in
    Ensures-then (allowed (move_lease l.status expired no_options))
      (λ _. idle_if_active l.agent_id now q (get_agent l.agent_id q.agents) >>= λ u.
        ok (log_expired l.agent_id u))
      (λ _ _.
        Ensures-bind (idle_if_active l.agent_id now q (get_agent l.agent_id q.agents))
          (λ u. ok (log_expired l.agent_id u))
          (idle_if_active-Ensures l.agent_id now q (get_agent l.agent_id q.agents))
          (λ u same.
            Ensures-ok _ (subst (λ s. All (Covered (is_over now) ends ls) s.rows) same covered)))

recover_each-Ensures :
    (ls : List AgentLease) (now : ℕ) (p : Pool)
    → All (Covered (is_over now) ends ls) p.leases.rows
    → Ensures (λ q. All (λ l. is_over now l ≡ false) q.leases.rows) (recover_each ls now p)
unfolding recover_each
recover_each-Ensures [] now p a = Ensures-ok _ (none-Covered (is_over now) ends p.leases.rows a)
recover_each-Ensures (l ∷ ls) now p a =
    Ensures-bind (recover_lease l now p) (λ q. recover_each ls now q)
      (recover_lease-Ensures l ls now p a) (λ q c. recover_each-Ensures ls now q c)

-- A lease that is over may expire.
may_expire :
    (s : LeaseStatus)
    → is_lease s active ≡ true
    → is_ok (allowed (move_lease s expired no_options)) ≡ true
unfolding move_lease move
may_expire LeaseStatus.active h = refl
may_expire LeaseStatus.released h = cc h
may_expire LeaseStatus.expired h = refl

idles :
    (id : String) (now : ℕ) (p : Pool) (a : Agent)
    → get_agent id p.agents ≡ some a
    → is_ok (with_agents p (update_agent id (recovered now) now p.agents)) ≡ true
idles id now p a f =
    go (update_agent id (recovered now) now p.agents)
      (update_agent-is_ok id (recovered now) now p.agents a f (inr refl))
  where
    go : (r : Result AgentError Agents) → is_ok r ≡ true → is_ok (with_agents p r) ≡ true
    go (ok s) k = refl
    go (err x) k = cc k

idle_if_active-is_ok :
    (id : String) (now : ℕ) (p : Pool) (o : Option Agent)
    → get_agent id p.agents ≡ o
    → is_ok (idle_if_active id now p o) ≡ true
idle_if_active-is_ok id now p none f = refl
idle_if_active-is_ok id now p (some a) f = search (returns_rules, idles id now p a)

recover_lease-is_ok :
    (l : AgentLease) (now : ℕ) (p : Pool)
    → is_lease l.status active ≡ true
    → is_ok (recover_lease l now p) ≡ true
unfolding recover_lease
recover_lease-is_ok l now p h = search (returns_rules, may_expire l.status, idles_found)
  where
    idles_found :
        is_ok (
          idle_if_active l.agent_id now
            (lapsed_leases l.agent_id now p)
            (get_agent l.agent_id p.agents))
        ≡ true
    idles_found =
        idle_if_active-is_ok l.agent_id now (lapsed_leases l.agent_id now p)
          (get_agent l.agent_id p.agents) refl

recover_each-is_ok :
    (ls : List AgentLease) (now : ℕ) (p : Pool)
    → All (λ l. is_lease l.status active ≡ true) ls
    → is_ok (recover_each ls now p) ≡ true
unfolding recover_each
recover_each-is_ok [] now p a = refl
recover_each-is_ok (l ∷ ls) now p (h, hs) =
    search
      (returns_rules, recover_lease-is_ok l now p h, λ (q : Pool). recover_each-is_ok ls now q hs)

over_active :
    (now : ℕ) (rows : List AgentLease)
    → All (λ l. is_lease l.status active ≡ true) (keep (is_over now) rows)
over_active now rows =
    All-keep (λ l. is_lease l.status active ≡ true) (is_over now) rows
      (All_of_Memᴰ _ rows (λ l m over. ground arith))

own_lease : (now : ℕ) (l : AgentLease) → is_over now l ≡ true → ends l l ≡ true
own_lease now l h =
    let held : is_lease l.status active ≡ true = ground arith in rw (eq_refl l.agent_id, held) refl

over-Covered :
    (now : ℕ) (rows : List AgentLease)
    → All (Covered (is_over now) ends (keep (is_over now) rows)) rows
over-Covered now rows =
    all-Covered (is_over now) ends (keep (is_over now) rows) rows
      (λ x m h. (x, Memᴰ-keep (is_over now) rows m h, own_lease now x h))

-- The recovery of expired leases on agents always returns, with the number of the active leases whose
-- time was over, and leaves no lease that is active and over.
pub recover_expired_agent_leases-recovers :
    (now : ℕ) (p : Pool)
    → (q : Pool) × (recover_expired_agent_leases now p
        ≡ ok (q, length (keep (is_over now) p.leases.rows)))
      × All (λ l. is_over now l ≡ false) q.leases.rows
unfolding recover_expired_agent_leases
recover_expired_agent_leases-recovers now p =
    let ls = keep (is_over now) p.leases.rows in
    elim (Result-cases (recover_each ls now p)) [
      | inl (q, e) ↦
          (q, rw e refl, (recover_each-Ensures ls now p (over-Covered now p.leases.rows)).at q e)
      | inr (x, e) ↦
          absurd (cc (ap is_ok e, recover_each-is_ok ls now p (over_active now p.leases.rows)))
    ]
