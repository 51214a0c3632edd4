-- ===== src/Cancel/Barred.antt =====
-- `cancelTask` from its beginning to its end.
use codex_threadhub.Base.{
  ℕ, ◌≤◌, String, Bool, true, false, not, ◌&&◌, Option, none, some, List, [], ◌∷◌, keep, length,
  ◌=s=◌, ◌==◌, is_ok, Result, Result-cases, ok, err, ◌≡◌, refl, ap, subst, ◌∙◌, arith, All, inl,
  inr, eq_refl, and_false,
}
use codex_threadhub.Base.Ensures.{
  Ensures, Ensures-ok, Ensures-err, Ensures-throw_if, Ensures-bind, Ensures-mono,
}
use codex_threadhub.Base.Members.{Memᴰ-keep, All_of_Memᴰ}
use codex_threadhub.Base.Table.{update_where, returned}
use codex_threadhub.States.Task.{is_terminal_task}
use codex_threadhub.States.Dispatch.{DispatchStatus, is_dispatch}
use codex_threadhub.Registry.{Task, get_task}
use codex_threadhub.Dispatches.Rows.{Dispatch, Dispatches, log_dispatch}
use codex_threadhub.Dispatches.Cancel.{
  Parents, CancelError, parent_required, is_child, cancelled, cancel_one, cancel_all,
  request_turn_dispatch_cancellation,
}
use codex_threadhub.Leases.Worktree.{is_listed, list_leases}
use codex_threadhub.Runs.Rows.{Store}
use codex_threadhub.Cancel.{
  Plane, by_task, with_dispatches, holds_agent, owned_by, open_leases, held_agents, cancel_leased,
  cancel_open, cancel_task,
}
use codex_threadhub.Base.Sweep.{Covered, step-Covered, none-Covered, all-Covered, All-update_split}
use codex_threadhub.Cancel.Freed.{holds_worktree, releases, releases_agent}
use codex_threadhub.Cancel.Returns.{cancel_task-is_ok}
use codex_threadhub.Cancel.Listed.{open_leases-Covered, held_agents-Covered}
use codex_threadhub.Cancel.Cleared.{IsCleared, cancel_leased-Ensures}

written-rows :
    (id : String) (row : Task) (ts : List Task)
    → All (λ x. (x.id =s= id) ≡ true → x ≡ row) (update_where (λ x. x.id =s= id) (λ _. row) ts)
written-rows id row ts =
    All-update_split (λ _. Unit) (λ x. (x.id =s= id) ≡ true → x ≡ row) (λ x. x.id =s= id) (λ _. row)
      ts (λ x h _ _. refl) (λ x n _ h. absurd (cc (n, h))) (All_of_Memᴰ (λ _. Unit) ts (λ _ _. tt))

cancel_leased-IsCleared :
    (id : String) (now : ℕ) (p : Plane) (t : Task)
    → get_task id p.store.registry ≡ some t
    → length (keep (is_listed (owned_by id)) p.worktrees.rows) ≤ 100
    → Ensures
        (λ x. IsCleared id x.1 x.0 × (p.dispatches ≡ x.0.dispatches))
        (cancel_leased id now t p)
unfolding list_leases
cancel_leased-IsCleared id now p t f l =
    Ensures-mono (cancel_leased id now t p)
      (λ (x : Plane × Task) (u, (frame, (canceled, _, tasks), _), (store, dispatches, free, give)).
        (
          record {
            canceled = canceled;
            rows =
                subst (λ (s : Store). All (λ t. (t.id =s= id) ≡ true → t ≡ x.1) s.registry.tasks)
                  store
                  (subst (All (λ t. (t.id =s= id) ≡ true → t ≡ x.1)) tasks
                    (written-rows id x.1 p.store.registry.tasks));
            worktrees = free (
                subst
                  (λ (y : Plane).
                    All (Covered (holds_worktree id) (releases id) (open_leases id now p))
                      y.worktrees.rows)
                  frame (open_leases-Covered id now p l));
            agents = give (
                subst
                  (λ (y : Plane).
                    All (Covered (holds_agent id) (releases_agent id) (held_agents id p))
                      y.agent_leases.rows)
                  frame (held_agents-Covered id p));
          },
          ap (λ (y : Plane). y.dispatches) frame ∙ dispatches,
        ))
      (cancel_leased-Ensures id now p t f)

-- A dispatch of the parents that is active, and not cancelling.
abbrev pub goes_on : Parents → Dispatch → Bool
goes_on parents d = is_child parents d && not (is_dispatch d.status DispatchStatus.cancelling)

abbrev pub is_version : Dispatch → Dispatch → Bool
is_version d x = x.id =s= d.id && x.version == d.version

cancel_one-rows :
    (now : ℕ) (s : Dispatches) (d : Dispatch)
    → update_where (is_version d) (cancelled now) s.rows ≡ (cancel_one now s d).rows
cancel_one-rows now s d = go (returned (is_version d) (cancelled now) s.rows)
  where
    go :
        (o : Option Dispatch)
        → update_where (is_version d) (cancelled now) s.rows
          ≡ (log_dispatch d.id "turn_dispatch.cancelling" s.events
              (update_where (is_version d) (cancelled now) s.rows, o)).0.rows
    go none = refl
    go (some x) = refl

cancel_all-stops :
    (parents : Parents) (now : ℕ) (ds : List Dispatch) (s : Dispatches)
    → All (Covered (goes_on parents) is_version ds) s.rows
    → All (λ d. goes_on parents d ≡ false) (cancel_all now ds s).rows
unfolding cancel_all
cancel_all-stops parents now [] s a = none-Covered (goes_on parents) is_version s.rows a
cancel_all-stops parents now (d ∷ ds) s a = cancel_all-stops parents now ds (cancel_one now s d) (
    subst (All (Covered (goes_on parents) is_version ds)) (cancel_one-rows now s d) (
      step-Covered (goes_on parents) is_version d ds (cancelled now) s.rows
        (λ x. and_false (is_child parents (cancelled now x))) a))

-- A cancellation that returns leaves no dispatch of its parents that goes on.
request-stops :
    (parents : Parents) (now : ℕ) (s : Dispatches)
    → Ensures
        (λ u. All (λ d. goes_on parents d ≡ false) u.rows)
        (request_turn_dispatch_cancellation parents now s)
unfolding request_turn_dispatch_cancellation
request-stops parents now s =
    let ds = keep (is_child parents) s.rows in
    Ensures-throw_if _ parent_required (ok (cancel_all now ds s)) (λ _. Ensures-ok _ (
      cancel_all-stops parents now ds s (
        all-Covered (goes_on parents) is_version ds s.rows
          (λ x m h. (x, Memᴰ-keep (is_child parents) s.rows m (ground arith), own_version x)))))
  where
    own_version : (x : Dispatch) → is_version x x ≡ true
    own_version x = let own = eq_refl x.id in ground arith

with_dispatches-Ensures :
    (P : Dispatches → Type 0) (p : Plane) (r : Result CancelError Dispatches)
    → Ensures P r
    → Ensures
        (λ q. (record p { dispatches = q.dispatches } ≡ q) × P q.dispatches)
        (with_dispatches p r)
with_dispatches-Ensures P p (ok s) h = Ensures-ok _ (refl, h.at s refl)
with_dispatches-Ensures P p (err e) h = Ensures-err _

abbrev Clears : String → Plane × Task → Type 0
Clears id x = IsCleared id x.1 x.0 × All (λ d. goes_on (by_task id) d ≡ false) x.0.dispatches.rows

cancel_open-IsCleared :
    (id : String) (now : ℕ) (p : Plane) (t : Task)
    → get_task id p.store.registry ≡ some t
    → length (keep (is_listed (owned_by id)) p.worktrees.rows) ≤ 100
    → Ensures (Clears id) (cancel_open id false now t p)
cancel_open-IsCleared id now p t f l =
    let Stopped = λ (s : Dispatches). All (λ d. goes_on (by_task id) d ≡ false) s.rows in
    Ensures-bind
      (with_dispatches p (request_turn_dispatch_cancellation (by_task id) now p.dispatches))
      (λ q. cancel_leased id now t q)
      (with_dispatches-Ensures Stopped p _ (request-stops (by_task id) now p.dispatches))
      (λ q (same, stopped).
        Ensures-mono (cancel_leased id now t q)
          (λ x (cleared, dispatches). (cleared, subst Stopped dispatches stopped))
          (cancel_leased-IsCleared id now q t
            (subst (λ (y : Plane). get_task id y.store.registry ≡ some t) same f)
            (subst (λ (y : Plane). length (keep (is_listed (owned_by id)) y.worktrees.rows) ≤ 100)
              same l)))

cancel_task-IsCleared :
    (id : String) (now : ℕ) (p : Plane) (t : Task)
    → get_task id p.store.registry ≡ some t
    → is_terminal_task t.status ≡ false
    → length (keep (is_listed (owned_by id)) p.worktrees.rows) ≤ 100
    → Ensures (Clears id) (cancel_task id false now p)
unfolding cancel_task
cancel_task-IsCleared id now p t f n l = rw (f, n) (cancel_open-IsCleared id now p t f l)

-- Cancelling a task that has not ended, whose id is not empty and which has at most 100 worktree
-- leases, since no more are listed, returns the canceled task: every row of its id is that one, it
-- holds no open worktree lease and no active agent lease, and each of its dispatches that is still
-- active is cancelling.
pub cancel_task-clears :
    (id : String) (now : ℕ) (p : Plane) (t : Task)
    → (id =s= "") ≡ false
    → get_task id p.store.registry ≡ some t
    → is_terminal_task t.status ≡ false
    → length (keep (is_listed (owned_by id)) p.worktrees.rows) ≤ 100
    → (q : Plane) × (row : Task) × (cancel_task id false now p ≡ ok (q, row))
      × IsCleared id row q
      × All (λ d. goes_on (by_task id) d ≡ false) q.dispatches.rows
cancel_task-clears id now p t h f n l = elim (Result-cases (cancel_task id false now p)) [
  | inl ((q, row), e) ↦
      let (cleared, stopped) = (cancel_task-IsCleared id now p t f n l).at (q, row) e in
      (q, row, e, cleared, stopped)
  | inr (x, e) ↦ let k = cancel_task-is_ok id false now p t (inr h) f in absurd (cc (ap is_ok e, k))
]
