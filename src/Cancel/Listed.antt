-- ===== src/Cancel/Listed.antt =====
-- The leases that are listed before a task is cancelled cover those that it holds.
use codex_threadhub.Base.{
  ℕ, ◌≤◌, String, Option, Bool, true, false, ◌||◌, none, some, List, [], ◌∷◌, keep, length, take,
  ◌=s=◌, is_none, ◌≡◌, refl, sym, subst, ◌∙◌, arith, All, Bool-cases, inl, inr, eq_refl,
}
use codex_threadhub.Base.Sql.{holds, eq}
use codex_threadhub.Base.Order.{length-order_by, Memᴰ-order_by}
use codex_threadhub.Base.Members.{Memᴰ-keep, Memᴰ-take}
use codex_threadhub.Base.Table.{update_where}
use codex_threadhub.Leases.Worktree.{Lease, overdue, lapsed, is_listed, newest_first, list_leases}
use codex_threadhub.States.Lease.{active, is_lease}
use codex_threadhub.Leases.Agent.{AgentLease}
use codex_threadhub.Cancel.{
  Plane, is_open, owned_by, open_leases, leases_listed, holds_agent, held_agents,
}
use codex_threadhub.Base.Sweep.{Covered, all-Covered}
use codex_threadhub.Cancel.Freed.{holds_worktree, releases, releases_agent}

-- The update of the overdue leases changes no owner.
length-keep-lapsed :
    (id : String) (now : ℕ) (xs : List Lease)
    → length (keep (is_listed (owned_by id)) (update_where (overdue now) (lapsed now) xs))
      ≡ length (keep (is_listed (owned_by id)) xs)
unfolding update_where
length-keep-lapsed id now [] = refl
length-keep-lapsed id now (x ∷ xs) = elim (Bool-cases (overdue now x)) [
  | inl y ↦ rw y (ground (arith, length-keep-lapsed id now xs))
  | inr n ↦ rw n (ground (arith, length-keep-lapsed id now xs))
]

token_self : (o : Option String) → (is_none o || holds (eq o o)) ≡ true
token_self none = refl
token_self (some t) = eq_refl t

-- A lease is released by its own key, owner and token.
releases_self : (id : String) (x : Lease) → holds_worktree id x ≡ true → releases id x x ≡ true
releases_self id x h =
    let own = eq_refl x.key in
    let token = token_self x.owner_token in
    let mine : (x.owner_task_id =s= id) ≡ true = ground arith in
    let free : is_open x ≡ true = ground arith in rw (own, mine, free, token) refl

held_self : (id : String) (x : AgentLease) → holds_agent id x ≡ true → releases_agent id x x ≡ true
held_self id x h =
    let own = eq_refl x.agent_id in
    let token = eq_refl x.owner_token in
    let mine : (x.owner_task_id =s= id) ≡ true = ground arith in
    let held : is_lease x.status active ≡ true = ground arith in rw (own, mine, token, held) refl

listed : (id : String) (x : Lease) → holds_worktree id x ≡ true → is_listed (owned_by id) x ≡ true
listed id x h =
    let mine : (x.owner_task_id =s= id) ≡ true = ground arith in rw mine (go (id =s= ""))
  where
    go : (b : Bool) → (b || true) ≡ true
    go true = refl
    go false = refl

opened : (id : String) (x : Lease) → holds_worktree id x ≡ true → is_open x ≡ true
opened id x h = ground arith

pub open_leases-Covered :
    (id : String) (now : ℕ) (p : Plane)
    → length (keep (is_listed (owned_by id)) p.worktrees.rows) ≤ 100
    → All
        (Covered (holds_worktree id) (releases id) (open_leases id now p))
        (leases_listed id now p).worktrees.rows
unfolding list_leases
open_leases-Covered id now p l =
    let rows = update_where (overdue now) (lapsed now) p.worktrees.rows in
    all-Covered (holds_worktree id) (releases id) (open_leases id now p) rows (λ x m h. (
      x,
      Memᴰ-keep is_open (take 100 (newest_first (keep (is_listed (owned_by id)) rows)))
          (Memᴰ-take 100 (newest_first (keep (is_listed (owned_by id)) rows))
            (subst (λ n. n ≤ 100)
              (sym (
                length-order_by _ (keep (is_listed (owned_by id)) rows)
                ∙ length-keep-lapsed id now p.worktrees.rows))
              l)
            (Memᴰ-order_by _ (keep (is_listed (owned_by id)) rows)
              (Memᴰ-keep (is_listed (owned_by id)) rows m (listed id x h))))
          (opened id x h),
      releases_self id x h,
    ))

pub held_agents-Covered :
    (id : String) (p : Plane)
    → All (Covered (holds_agent id) (releases_agent id) (held_agents id p)) p.agent_leases.rows
held_agents-Covered id p =
    all-Covered (holds_agent id) (releases_agent id) (held_agents id p) p.agent_leases.rows
      (λ x m h. (x, Memᴰ-keep (holds_agent id) p.agent_leases.rows m h, held_self id x h))
