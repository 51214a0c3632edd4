-- ===== src/Cancel/Rows.antt =====
-- What cancelling one task does to the tables of tasks and Runs.
use codex_threadhub.Base.{ℕ, String, true, some, ◌≡◌, refl, subst}
use codex_threadhub.Base.Ensures.{Ensures, Ensures-ok, Ensures-if, Ensures-mono}
use codex_threadhub.States.Task.{TaskStatus, is_terminal_task}
use codex_threadhub.Registry.{Task, Registry, get_task}
use codex_threadhub.Leases.Worktree.{list_leases}
use codex_threadhub.Runs.Rows.{Store}
use codex_threadhub.Cancel.{Plane, cancel_leased, cancel_task}
use codex_threadhub.Cancel.Cleared.{IsWritten, cancel_leased-Ensures}

-- The task had ended before, or all its rows are written over.
pub data Ended (id : String) (r u : Registry) : Type 0 where
  before :
      (t : Task)
      → get_task id r ≡ some t
      → is_terminal_task t.status ≡ true
      → r.tasks ≡ u.tasks
      → Ended id r u
  now_canceled : (row : Task) → IsWritten id TaskStatus.canceled row r u → Ended id r u

abbrev Ends : String → Store → Store → Type 0
Ends id s u = Ended id s.registry u.registry × (s.runs ≡ u.runs)

cancel_leased-Ends :
    (id : String) (now : ℕ) (p : Plane) (t : Task)
    → get_task id p.store.registry ≡ some t
    → Ensures (λ x. Ends id p.store x.0.store) (cancel_leased id now t p)
unfolding list_leases
cancel_leased-Ends id now p t f =
    Ensures-mono (cancel_leased id now t p)
      (λ x (u, (frame, written, runs), (store, _, _, _)).
        subst (Ends id p.store) store (now_canceled x.1 written, runs))
      (cancel_leased-Ensures id now p t f)

pub cancel_task-Ends :
    (id : String) (now : ℕ) (p : Plane) (t : Task)
    → get_task id p.store.registry ≡ some t
    → Ensures (λ x. Ends id p.store x.0.store) (cancel_task id true now p)
unfolding cancel_task
cancel_task-Ends id now p t f = rw f (
    Ensures-if (is_terminal_task t.status) _ _ (λ h. Ensures-ok _ (before t f h refl, refl))
      (λ _. cancel_leased-Ends id now p t f))
