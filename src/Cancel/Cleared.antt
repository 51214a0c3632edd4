-- ===== src/Cancel/Cleared.antt =====
-- A cancelled task: its row, its leases and its dispatches.
use codex_threadhub.Base.{
  ℕ, String, Bool, true, false, Option, none, some, List, [], ◌∷◌, ◌=s=◌, Result, ok, err, ◌>>=◌,
  ◌≡◌, refl, sym, ap, subst, ◌∙◌, All, eq_iff,
}
use codex_threadhub.Base.Ensures.{
  Ensures, Ensures-ok, Ensures-err, Ensures-if, Ensures-then, Ensures-bind, Ensures-mono,
}
use codex_threadhub.Runs.Rows.{Store}
use codex_threadhub.Base.Table.{update_where, find-eq_some}
use codex_threadhub.States.Machine.{StateError, no_options}
use codex_threadhub.States.Task.{TaskStatus, is_task, move_task}
use codex_threadhub.Registry.{Task, Registry, get_task}
use codex_threadhub.Tasks.Wait.{checked, updated_row, with_event, update_found, update_task}
use codex_threadhub.Leases.Worktree.{Lease, list_leases}
use codex_threadhub.Leases.Agent.{AgentLease}
use codex_threadhub.Agents.{Agent, Agents, AgentError, AgentChanges, get_agent}
use codex_threadhub.Cancel.{
  Plane, holds_agent, canceled_columns, with_task, with_agents, update_if_found, touch_agent,
  cancel_row, release_worktrees, release_agents, idle_changes, idle_agents, free_all, leases_listed,
  open_leases, held_agents, add_ids, first_id, cancel_leased,
}
use codex_threadhub.Base.Sweep.{Covered}
use codex_threadhub.Cancel.Freed.{
  holds_worktree, releases, releases_agent, FreesWorktrees, FreesAgents, release_worktrees-Ensures,
  release_agents-Ensures,
}

-- Of the tables only that of the agents is written.
abbrev pub OnlyAgents : Plane → Plane → Type 0
OnlyAgents p q = record p { agents = q.agents } ≡ q

with_agents-Ensures :
    (p : Plane) (r : Result AgentError Agents) → Ensures (OnlyAgents p) (with_agents p r)
with_agents-Ensures p (ok s) = Ensures-ok _ refl
with_agents-Ensures p (err e) = Ensures-err _

update_if_found-Ensures :
    (id : String) (c : AgentChanges) (now : ℕ) (p : Plane) (o : Option Agent)
    → Ensures (OnlyAgents p) (update_if_found id c now p o)
update_if_found-Ensures id c now p none = Ensures-ok _ refl
update_if_found-Ensures id c now p (some a) = with_agents-Ensures p _

touch_agent-Ensures :
    (o : Option String) (now : ℕ) (p : Plane) → Ensures (OnlyAgents p) (touch_agent o now p)
touch_agent-Ensures none now p = Ensures-ok _ refl
touch_agent-Ensures (some id) now p =
    Ensures-if (id =s= "") _ _ (λ _. Ensures-ok _ refl)
      (λ _. update_if_found-Ensures id _ now p (get_agent id p.agents))

idle_agents-Ensures :
    (ids : List String) (now : ℕ) (p : Plane) → Ensures (OnlyAgents p) (idle_agents ids now p)
unfolding idle_agents
idle_agents-Ensures [] now p = Ensures-ok _ refl
idle_agents-Ensures (id ∷ ids) now p =
    Ensures-bind (update_if_found id idle_changes now p (get_agent id p.agents))
      (λ x. idle_agents ids now x) (update_if_found-Ensures id idle_changes now p _)
      (λ q same.
        Ensures-mono _ (λ u frame. ap (λ (y : Plane). record y { agents = u.agents }) same ∙ frame)
          (idle_agents-Ensures ids now q))

-- Every row of the id is the one that is returned.
abbrev pub IsWritten : String → TaskStatus → Task → Registry → Registry → Type 0
IsWritten id status row r u =
    (row.status ≡ status)
    × (row.id ≡ id)
    × (update_where (λ x. x.id =s= id) (λ _. row) r.tasks ≡ u.tasks)

with_event-tasks :
    (same : Bool) (id : String) (status : TaskStatus) (r : Registry)
    → r.tasks ≡ (with_event same id status r).tasks
with_event-tasks true id status r = refl
with_event-tasks false id status r = refl

update_found-Ensures :
    (id : String) (status : TaskStatus) (change : Task → Task) (now : ℕ) (r : Registry) (t : Task)
    → (change t).id ≡ id
    → Ensures (λ x. IsWritten id status x.1 r x.0) (update_found id status change now r (some t))
update_found-Ensures id status change now r t named =
    let new = updated_row status change now t in
    let w = record r { tasks = update_where (λ x. x.id =s= id) (λ _. new) r.tasks } in
    let same = is_task t.status status in
    Ensures-then (checked (move_task t.status status no_options))
      (λ _. ok (with_event same id status w, new))
      (λ _ _. Ensures-ok _ (refl, named, with_event-tasks same id status w))

update_task-Ensures :
    (id : String) (now : ℕ) (r : Registry) (t : Task)
    → get_task id r ≡ some t
    → Ensures
        (λ x. IsWritten id TaskStatus.canceled x.1 r x.0)
        (update_task id TaskStatus.canceled (canceled_columns now) now r)
unfolding update_task
update_task-Ensures id now r t f =
    let change = canceled_columns now in
    subst
      (λ o.
        Ensures (λ (x : Registry × Task). IsWritten id TaskStatus.canceled x.1 r x.0)
          (update_found id TaskStatus.canceled change now r o))
      (sym f)
      (update_found-Ensures id TaskStatus.canceled change now r t
        ((eq_iff t.id id).0 (find-eq_some (λ x. x.id =s= id) r.tasks f).1))

-- The task is written over in its table, and of the other tables only that of the agents may change.
abbrev pub IsCanceled : String → Plane → Plane × Task → Type 0
IsCanceled id p x =
    (record p { store = x.0.store; agents = x.0.agents } ≡ x.0)
    × IsWritten id TaskStatus.canceled x.1 p.store.registry x.0.store.registry
    × (p.store.runs ≡ x.0.store.runs)

with_task-Ensures :
    (id : String) (p : Plane) (r : Result (Option StateError) (Registry × Task))
    → Ensures (λ x. IsWritten id TaskStatus.canceled x.1 p.store.registry x.0) r
    → Ensures (IsCanceled id p) (with_task p r)
with_task-Ensures id p (ok x) h = Ensures-ok _ (refl, h.at x refl, refl)
with_task-Ensures id p (err e) h = Ensures-err _

touched-IsCanceled :
    (id : String) (p q : Plane) (x : Plane × Task)
    → IsCanceled id p x
    → OnlyAgents x.0 q
    → IsCanceled id p (q, x.1)
touched-IsCanceled id p q x (frame, written, runs) only =
    let store = ap (λ (y : Plane). y.store) only in
    (
      subst (λ z. record p { store = z; agents = q.agents } ≡ q) store
          (ap (λ (y : Plane). record y { agents = q.agents }) frame ∙ only),
      subst (λ (z : Store). IsWritten id TaskStatus.canceled x.1 p.store.registry z.registry) store
          written,
      runs ∙ ap (λ (z : Store). z.runs) store,
    )

pub cancel_row-Ensures :
    (id : String) (now : ℕ) (p : Plane) (t : Task)
    → get_task id p.store.registry ≡ some t
    → Ensures (IsCanceled id p) (cancel_row id now p)
unfolding cancel_row
cancel_row-Ensures id now p t f =
    Ensures-bind
      (with_task p (update_task id TaskStatus.canceled (canceled_columns now) now p.store.registry))
      (λ (y : Plane × Task). touch_agent y.1.agent_id now y.0 >>= λ u. ok (u, y.1))
      (with_task-Ensures id p _ (update_task-Ensures id now p.store.registry t f))
      (λ x h.
        Ensures-bind (touch_agent x.1.agent_id now x.0) (λ u. ok (u, x.1))
          (touch_agent-Ensures x.1.agent_id now x.0)
          (λ u only. Ensures-ok _ (touched-IsCanceled id p u x h only)))

-- What is left of a cancelled task: its rows, with the one that is returned, and its leases.
pub record IsCleared (id : String) (row : Task) (q : Plane) : Type 0 where
  pub canceled : row.status ≡ TaskStatus.canceled
  pub rows : All (λ x. (x.id =s= id) ≡ true → x ≡ row) q.store.registry.tasks
  pub worktrees : All (λ l. holds_worktree id l ≡ false) q.worktrees.rows
  pub agents : All (λ l. holds_agent id l ≡ false) q.agent_leases.rows

-- The lists that cover the leases of the task free them, and the tasks and dispatches stay.
abbrev pub Frees : String → List Lease → List AgentLease → Plane → Plane → Type 0
Frees id leases agents p q =
    (p.store ≡ q.store)
    × (p.dispatches ≡ q.dispatches)
    × (All (Covered (holds_worktree id) (releases id) leases) p.worktrees.rows
        → All (λ l. holds_worktree id l ≡ false) q.worktrees.rows)
    × (All (Covered (holds_agent id) (releases_agent id) agents) p.agent_leases.rows
        → All (λ l. holds_agent id l ≡ false) q.agent_leases.rows)

freed_all :
    (id : String) (leases : List Lease) (agents : List AgentLease) (p q u v : Plane)
    → FreesWorktrees id leases p q
    → FreesAgents id agents q u
    → OnlyAgents u v
    → Frees id leases agents p v
freed_all id leases agents p q u v (f, freed) (g, given) h = (
  ap (λ (y : Plane). y.store) f ∙ ap (λ (y : Plane). y.store) g ∙ ap (λ (y : Plane). y.store) h,
  ap (λ (y : Plane). y.dispatches) f
      ∙ ap (λ (y : Plane). y.dispatches) g
      ∙ ap (λ (y : Plane). y.dispatches) h,
  λ a.
      subst (λ (y : Plane). All (λ l. holds_worktree id l ≡ false) y.worktrees.rows) h
        (subst (λ (y : Plane). All (λ l. holds_worktree id l ≡ false) y.worktrees.rows) g
          (freed a)),
  λ b.
      subst (λ (y : Plane). All (λ l. holds_agent id l ≡ false) y.agent_leases.rows) h
        (given (
          subst
            (λ (y : Plane).
              All (Covered (holds_agent id) (releases_agent id) agents) y.agent_leases.rows)
            f b)),
)

pub free_all-Ensures :
    (id : String) (leases : List Lease) (agents : List AgentLease) (ids : List String) (now : ℕ)
    (p : Plane)
    → Ensures (Frees id leases agents p) (free_all id leases agents ids now p)
free_all-Ensures id leases agents ids now p =
    Ensures-bind (release_worktrees id leases now p)
      (λ x. release_agents id agents now x >>= λ u. idle_agents ids now u)
      (release_worktrees-Ensures id leases now p)
      (λ q f.
        Ensures-bind (release_agents id agents now q) (λ u. idle_agents ids now u)
          (release_agents-Ensures id agents now q)
          (λ u g.
            Ensures-mono (idle_agents ids now u) (λ v h. freed_all id leases agents p q u v f g h)
              (idle_agents-Ensures ids now u)))

-- What the tables are between the update of the task and the end.
abbrev pub Cancels : String → ℕ → Plane → Plane × Task → Type 0
Cancels id now p x =
    (u : Plane) × IsCanceled id (leases_listed id now p) (u, x.1)
    × Frees id (open_leases id now p) (held_agents id p) u x.0

pub cancel_leased-Ensures :
    (id : String) (now : ℕ) (p : Plane) (t : Task)
    → get_task id p.store.registry ≡ some t
    → Ensures (Cancels id now p) (cancel_leased id now t p)
unfolding list_leases
cancel_leased-Ensures id now p t f =
    let leases = open_leases id now p in
    let agents = held_agents id p in
    let ids = add_ids agents (first_id t.agent_id) in
    Ensures-bind (cancel_row id now (leases_listed id now p))
      (λ (y : Plane × Task). free_all id leases agents ids now y.0 >>= λ v. ok (v, y.1))
      (cancel_row-Ensures id now (leases_listed id now p) t f)
      (λ x h.
        Ensures-bind (free_all id leases agents ids now x.0) (λ v. ok (v, x.1))
          (free_all-Ensures id leases agents ids now x.0) (λ v k. Ensures-ok _ (x.0, h, k)))
