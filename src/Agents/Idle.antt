-- ===== src/Agents/Idle.antt =====
-- An agent that is there can always be set to idle.
use codex_threadhub.Base.{
  any, ℕ, String, true, false, Option, none, some, or_else, is_ok, ok, ◌≡◌, refl, sym, subst, arith,
  ◌⊎◌, inl, inr, Bool-cases, not, ◌&&◌,
}
use codex_threadhub.States.Machine.{Options, no_options, move}
use codex_threadhub.States.Agent.{AgentStatus, active_agents, agent_in}
use codex_threadhub.Routing.Lifecycle.{LifecycleStatus, same_lifecycle, lifecycle_moves}
use codex_threadhub.Agents.{
  Agent, ThreadLifecycle, Agents, AgentChanges, check_status, follows, merged, projected,
  move_thread_lifecycle, project_lifecycle, lifted, write_agent, get_agent, get_thread_lifecycle,
  update_found, update_agent,
}

check_status-idle : (s : AgentStatus) (o : Options) → check_status s AgentStatus.idle o ≡ ok tt
unfolding check_status move
check_status-idle AgentStatus.unknown o = ground arith
check_status-idle s o = ground arith

check_status-same : (s : AgentStatus) (o : Options) → check_status s s o ≡ ok tt
unfolding check_status
check_status-same AgentStatus.unknown o = refl
check_status-same s o = refl

-- A lifecycle that follows the agent may go to either of the two statuses.
lifecycle_moves_on :
    (from to : LifecycleStatus)
    → follows from ≡ true
    → (to ≡ LifecycleStatus.active) ⊎ (to ≡ LifecycleStatus.idle)
    → same_lifecycle from to ≡ false
    → any (same_lifecycle to) (lifecycle_moves from) ≡ true
lifecycle_moves_on LifecycleStatus.candidate to f h n = ground arith
lifecycle_moves_on from to f h n = ground arith

projected_cases :
    (s : AgentStatus)
    → (projected s ≡ LifecycleStatus.active) ⊎ (projected s ≡ LifecycleStatus.idle)
projected_cases s = elim (Bool-cases (agent_in active_agents s)) [
  | inl y ↦ inl (rw y refl)
  | inr n ↦ inr (rw n refl)
]

move_thread_lifecycle-is_ok :
    (l : ThreadLifecycle) (s : AgentStatus) (now : ℕ) (a : Agents)
    → follows l.status ≡ true
    → is_ok (lifted (move_thread_lifecycle l (projected s) now a)) ≡ true
unfolding move_thread_lifecycle
move_thread_lifecycle-is_ok l s now a f =
    elim (Bool-cases (same_lifecycle l.status (projected s))) [
      | inl y ↦ rw y refl
      | inr n ↦ rw (n, lifecycle_moves_on l.status (projected s) f (projected_cases s) n) refl
    ]

project_lifecycle-is_ok :
    (s : AgentStatus) (now : ℕ) (a : Agents) (o : Option ThreadLifecycle)
    → is_ok (lifted (project_lifecycle (projected s) now a o)) ≡ true
project_lifecycle-is_ok s now a none = refl
project_lifecycle-is_ok s now a (some l) =
    elim (Bool-cases (follows l.status && not (same_lifecycle l.status (projected s)))) [
      | inl y ↦ rw y (move_thread_lifecycle-is_ok l s now a (ground arith))
      | inr n ↦ rw n refl
    ]

update_found-is_ok :
    (c : AgentChanges) (now : ℕ) (s : Agents) (a : Agent)
    → (c.status ≡ none) ⊎ (c.status ≡ some AgentStatus.idle)
    → is_ok (update_found c now s (some a)) ≡ true
update_found-is_ok c now s a h =
    let to = or_else c.status a.status in
    let o = or_else c.options no_options in
    let u = write_agent (merged c now a) s in
    let passes : check_status a.status to o ≡ ok tt = elim h [
      | inl e ↦
          subst (λ x. check_status a.status (or_else x a.status) o ≡ ok tt) (sym e)
            (check_status-same a.status o)
      | inr e ↦
          subst (λ x. check_status a.status (or_else x a.status) o ≡ ok tt) (sym e)
            (check_status-idle a.status o)
    ] in
    rw passes (project_lifecycle-is_ok to now u (get_thread_lifecycle a.id u))

-- An update of an agent that is there returns, where it leaves the status or sets it to idle.
pub update_agent-is_ok :
    (id : String) (c : AgentChanges) (now : ℕ) (s : Agents) (a : Agent)
    → get_agent id s ≡ some a
    → (c.status ≡ none) ⊎ (c.status ≡ some AgentStatus.idle)
    → is_ok (update_agent id c now s) ≡ true
unfolding update_agent
update_agent-is_ok id c now s a f h = rw f (update_found-is_ok c now s a h)
