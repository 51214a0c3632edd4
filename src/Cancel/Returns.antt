-- ===== src/Cancel/Returns.antt =====
-- Cancelling a task that is there returns: none of the calls in it throws.
use codex_threadhub.Base.{
  ℕ, String, Bool, true, false, Option, none, some, List, [], ◌∷◌, find, ◌=s=◌, is_ok, Result, ok,
  err, ok_inj, returns_rules, ◌⊎◌, ◌≡◌, refl, ap, subst, inl, inr,
}
use codex_threadhub.States.Machine.{move}
use codex_threadhub.States.Task.{TaskStatus, is_terminal_task}
use codex_threadhub.States.Lease.{LeaseStatus, released, move_lease}
use codex_threadhub.States.Transitions.{move_task-canceled}
use codex_threadhub.Registry.{Task, get_task}
use codex_threadhub.Tasks.Wait.{update_task}
use codex_threadhub.Dispatches.Cancel.{CancelError, request_turn_dispatch_cancellation}
use codex_threadhub.Runs.Rows.{Store}
use codex_threadhub.Dispatches.Rows.{Dispatches}
use codex_threadhub.Leases.Worktree.{list_leases, Lease, check_move, has_key, release_lease}
use codex_threadhub.Leases.Agent.{AgentLease, release_agent_lease}
use codex_threadhub.Agents.{
  Agent, AgentChanges, Agents, AgentError, get_agent, update_agent, no_agent_changes,
}
use codex_threadhub.States.Agent.{AgentStatus}
use codex_threadhub.Agents.Idle.{update_agent-is_ok}
use codex_threadhub.Cancel.{
  Plane, by_task, with_dispatches, cancel_dispatches, leases_listed, canceled_columns, with_task,
  with_agents, update_if_found, touch_agent, cancel_row, with_worktrees, release_worktrees,
  release_agents, idle_changes, idle_agents, free_all, cancel_leased, cancel_open, cancel_task,
}

cancel_dispatches-is_ok :
    (requested : Bool) (id : String) (now : ℕ) (p : Plane)
    → (requested ≡ true) ⊎ ((id =s= "") ≡ false)
    → is_ok (cancel_dispatches requested (by_task id) now p) ≡ true
unfolding request_turn_dispatch_cancellation
cancel_dispatches-is_ok true id now p h = refl
cancel_dispatches-is_ok false id now p (inl h) = cc h
cancel_dispatches-is_ok false id now p (inr h) = rw h refl

update_if_found-is_ok :
    (id : String) (c : AgentChanges) (now : ℕ) (p : Plane) (o : Option Agent)
    → get_agent id p.agents ≡ o
    → (c.status ≡ none) ⊎ (c.status ≡ some AgentStatus.idle)
    → is_ok (update_if_found id c now p o) ≡ true
update_if_found-is_ok id c now p none e h = refl
update_if_found-is_ok id c now p (some a) e h =
    go (update_agent id c now p.agents) (update_agent-is_ok id c now p.agents a e h)
  where
    go : (r : Result AgentError Agents) → is_ok r ≡ true → is_ok (with_agents p r) ≡ true
    go (ok s) k = refl
    go (err x) k = cc k

touch_found-is_ok :
    (id : String) (now : ℕ) (p : Plane)
    → is_ok (
        update_if_found id
          (record no_agent_changes { last_task_at = some now })
          now
          p
          (get_agent id p.agents))
      ≡ true
touch_found-is_ok id now p =
    update_if_found-is_ok id (record no_agent_changes { last_task_at = some now }) now p
      (get_agent id p.agents) refl (inl refl)

touch_agent-is_ok : (o : Option String) (now : ℕ) (p : Plane) → is_ok (touch_agent o now p) ≡ true
touch_agent-is_ok none now p = refl
touch_agent-is_ok (some id) now p = search (returns_rules, touch_found-is_ok)

idle_found-is_ok :
    (id : String) (now : ℕ) (p : Plane)
    → is_ok (update_if_found id idle_changes now p (get_agent id p.agents)) ≡ true
idle_found-is_ok id now p =
    update_if_found-is_ok id idle_changes now p (get_agent id p.agents) refl (inr refl)

idle_agents-is_ok : (ids : List String) (now : ℕ) (p : Plane) → is_ok (idle_agents ids now p) ≡ true
unfolding idle_agents
idle_agents-is_ok [] now p = refl
idle_agents-is_ok (id ∷ ids) now p = search (returns_rules, idle_found-is_ok, idle_agents-is_ok ids)

-- A lease may be released whatever its status is.
releasable : (l : Lease) (s : LeaseStatus) → l.status ≡ s → check_move (some l) released ≡ ok tt
unfolding check_move move_lease move
releasable l LeaseStatus.active e = rw e refl
releasable l LeaseStatus.released e = rw e refl
releasable l LeaseStatus.expired e = rw e refl

check_move-released : (o : Option Lease) → check_move o released ≡ ok tt
unfolding check_move
check_move-released none = refl
check_move-released (some l) = releasable l l.status refl

release_lease-is_ok :
    (key id : String) (token : Option String) (now : ℕ) (p : Plane)
    → is_ok (with_worktrees p (release_lease key id none token now p.worktrees)) ≡ true
unfolding release_lease
release_lease-is_ok key id token now p =
    rw (check_move-released (find (has_key key) p.worktrees.rows)) refl

release_worktrees-is_ok :
    (id : String) (ls : List Lease) (now : ℕ) (p : Plane)
    → is_ok (release_worktrees id ls now p) ≡ true
unfolding release_worktrees
release_worktrees-is_ok id [] now p = refl
release_worktrees-is_ok id (l ∷ ls) now p =
    search (returns_rules, release_lease-is_ok, release_worktrees-is_ok id ls)

release_agents-is_ok :
    (id : String) (ls : List AgentLease) (now : ℕ) (p : Plane)
    → is_ok (release_agents id ls now p) ≡ true
unfolding release_agents release_agent_lease move_lease move
release_agents-is_ok id [] now p = refl
release_agents-is_ok id (l ∷ ls) now p = search (returns_rules, release_agents-is_ok id ls)

update_canceled-is_ok :
    (id : String) (now : ℕ) (p : Plane) (t : Task)
    → get_task id p.store.registry ≡ some t
    → is_terminal_task t.status ≡ false
    → is_ok (
        with_task p
          (update_task id TaskStatus.canceled (canceled_columns now) now p.store.registry))
      ≡ true
unfolding update_task
update_canceled-is_ok id now p t f n = rw (f, move_task-canceled t.status n) refl

cancel_row-is_ok :
    (id : String) (now : ℕ) (p : Plane) (t : Task)
    → get_task id p.store.registry ≡ some t
    → is_terminal_task t.status ≡ false
    → is_ok (cancel_row id now p) ≡ true
unfolding cancel_row
cancel_row-is_ok id now p t f n =
    search (returns_rules, update_canceled-is_ok id now p t, touch_agent-is_ok)

free_all-is_ok :
    (id : String) (leases : List Lease) (agents : List AgentLease) (ids : List String) (now : ℕ)
    (p : Plane)
    → is_ok (free_all id leases agents ids now p) ≡ true
free_all-is_ok id leases agents ids now p =
    search (returns_rules, release_worktrees-is_ok, release_agents-is_ok, idle_agents-is_ok)

cancel_leased-is_ok :
    (id : String) (now : ℕ) (p : Plane) (t : Task)
    → get_task id p.store.registry ≡ some t
    → is_terminal_task t.status ≡ false
    → is_ok (cancel_leased id now t p) ≡ true
unfolding list_leases
cancel_leased-is_ok id now p t f n =
    search (returns_rules, cancel_row-is_ok id now (leases_listed id now p) t, free_all-is_ok)

-- Cancelling the dispatches leaves the tasks.
cancel_dispatches-store :
    (requested : Bool) (id : String) (now : ℕ) (p q : Plane)
    → cancel_dispatches requested (by_task id) now p ≡ ok q
    → p.store ≡ q.store
cancel_dispatches-store true id now p q e = ap (λ (x : Plane). x.store) (ok_inj e)
cancel_dispatches-store false id now p q e =
    go (request_turn_dispatch_cancellation (by_task id) now p.dispatches) e
  where
    go : (r : Result CancelError Dispatches) → with_dispatches p r ≡ ok q → p.store ≡ q.store
    go (ok s) e = ap (λ (x : Plane). x.store) (ok_inj e)
    go (err x) e = cc e

cancel_open-is_ok :
    (id : String) (requested : Bool) (now : ℕ) (p : Plane) (t : Task)
    → (requested ≡ true) ⊎ ((id =s= "") ≡ false)
    → get_task id p.store.registry ≡ some t
    → is_terminal_task t.status ≡ false
    → is_ok (cancel_open id requested now t p) ≡ true
cancel_open-is_ok id requested now p t h f n =
    search (returns_rules, cancel_dispatches-is_ok, cancel_leased-is_ok, found_then)
  where
    found_then :
        (q : Plane)
        → cancel_dispatches requested (by_task id) now p ≡ ok q
        → get_task id q.store.registry ≡ some t
    found_then q e =
        subst (λ (s : Store). get_task id s.registry ≡ some t)
          (cancel_dispatches-store requested id now p q e) f

-- Cancelling a task that is there returns, whatever its leases, its dispatches and its agents are,
-- where its id is not empty or its dispatches were cancelled before.
pub cancel_task-is_ok :
    (id : String) (requested : Bool) (now : ℕ) (p : Plane) (t : Task)
    → (requested ≡ true) ⊎ ((id =s= "") ≡ false)
    → get_task id p.store.registry ≡ some t
    → is_ok (cancel_task id requested now p) ≡ true
unfolding cancel_task
cancel_task-is_ok id requested now p t h f =
    rw f (search (returns_rules, cancel_open-is_ok id requested now p t))
