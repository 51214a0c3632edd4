-- ===== src/Leases/Kept.antt =====
-- A worktree lease stays with the task that acquired it until that task releases it.
use mathlib.Core.Bool.{and-eq-true_iff}
use codex_threadhub.Base.{
  ℕ, ◌≡◌, refl, sym, ap, subst, String, Bool, true, false, not, ◌&&◌, ◌||◌, Option, none, some,
  List, [], ◌∷◌, arith, any, All, ◌∙◌, ◌>>=◌, Bool-cases, eq_iff, inl, inr, find, or_else, ◌=s=◌,
  Result, ok, err,
}
use codex_threadhub.Base.Table.{
  update_where, returned, upsert, upsert_into, All-update_where, any-update_where,
}
use codex_threadhub.States.Lease.{LeaseStatus, active, released, is_lease}
use codex_threadhub.Leases.Worktree.{
  Lease, Leases, LeaseRequest, LeaseError, ListOptions, is_given, has_key, check_move, requested,
  taken_over, log_lease, insert_lease, acquire_lease, renewable, renewed, renew_lease, releasable,
  ended, release_lease, overdue, lapsed, list_leases,
}

pub data LeaseCall : Type 0 where
  acquires : LeaseRequest → ℕ → LeaseCall
  renews : String → String → ℕ → Option String → ℕ → LeaseCall
  releases : String → String → Option LeaseStatus → Option String → ℕ → LeaseCall
  lists : ListOptions → ℕ → LeaseCall

-- A call that throws changes nothing.
abbrev pub settled : Leases → Result LeaseError (Leases × Option Lease) → Leases
settled s (ok x) = x.0
settled s (err e) = s

unfoldable pub run_lease_call : LeaseCall → Leases → Leases
unfolding acquire_lease renew_lease release_lease list_leases
run_lease_call (LeaseCall.acquires q now) s = settled s (acquire_lease q now s)
run_lease_call (LeaseCall.renews key owner ttl_ms token now) s =
    (renew_lease key owner ttl_ms token now s).0
run_lease_call (LeaseCall.releases key owner status token now) s =
    settled s (release_lease key owner status token now s)
run_lease_call (LeaseCall.lists o now) s = (list_leases o now s).0

unfoldable pub run_lease_calls : List LeaseCall → Leases → Leases
unfolding run_lease_call
run_lease_calls [] s = s
run_lease_calls (c ∷ cs) s = run_lease_calls cs (run_lease_call c s)

-- The task holds the key: its row is the task's, and is not released.
abbrev pub TaskHolds : String → String → Lease → Type 0
TaskHolds key owner l =
    has_key key l ≡ true → (l.owner_task_id ≡ owner) × (is_lease l.status released ≡ false)

abbrev pub Holds : String → String → Leases → Type 0
Holds key owner s = (any (has_key key) s.rows ≡ true) × All (TaskHolds key owner) s.rows

-- Any call but the owner's release of the key.
abbrev pub spares : String → String → LeaseCall → Bool
spares key owner (LeaseCall.releases k o status token now) = not (k =s= key && o =s= owner)
spares key owner _ = true

true≢false : {b : Bool} → b ≡ true → b ≡ false → ⊥
true≢false p q = cc

module _ (key owner : String) where
  updated-Holds :
      (p : Lease → Bool) (f : Lease → Lease) (s : Leases)
      → ((l : Lease) → (f l).key ≡ l.key)
      → ((l : Lease) → p l ≡ true → TaskHolds key owner l → TaskHolds key owner (f l))
      → Holds key owner s
      → Holds key owner (record s { rows = update_where p f s.rows })
  updated-Holds p f s same keeps (found, all) = (
    any-update_where (has_key key) p f s.rows (λ l. ap (λ k. k =s= key) (same l)) ∙ found,
    All-update_where (TaskHolds key owner) p f s.rows keeps all,
  )

  logged-Holds :
      (task type : String) (s : Leases) (rows : List Lease) (o : Option Lease)
      → Holds key owner (record s { rows = rows })
      → Holds key owner (log_lease task type s.events (rows, o)).0
  logged-Holds task type s rows none h = h
  logged-Holds task type s rows (some l) h = h

  checked-Holds :
      (s : Leases) (x : Result LeaseError (Unit {0})) (y : Leases × Option Lease)
      → Holds key owner s
      → Holds key owner y.0
      → Holds key owner (settled s (x >>= λ _. ok y))
  checked-Holds s (ok tt) y h k = k
  checked-Holds s (err e) y h k = h

  -- A row that is not released is not overwritten, and the row of a new key is another's.
  inserted-Holds :
      (k task : String) (new : Lease) (s : Leases) (b : Bool)
      → any (has_key k) s.rows ≡ b
      → new.key ≡ k
      → Holds key owner s
      → Holds key owner
          (log_lease task "lease.acquired" s.events (
            upsert_into b
              (has_key k)
              (λ l. is_lease l.status released)
              (taken_over new)
              new
              s.rows)).0
  inserted-Holds k task new s true e fits h = logged-Holds task "lease.acquired" s _ _ (
      updated-Holds (λ l. has_key k l && is_lease l.status released) (taken_over new) s (λ l. refl)
        (λ l free holds mine.
          let (owned, busy) = holds mine in
          let (named, unheld) =
            (and-eq-true_iff (has_key k l) (is_lease l.status released)).0 free in
          cc (busy, unheld))
        h)
  inserted-Holds k task new s false e fits (found, all) =
      logged-Holds task "lease.acquired" s (new ∷ s.rows) (some new)
        (rw found (ground arith), ((λ mine. another mine), all))
    where
      another : {P : Type 0} → has_key key new ≡ true → P
      another mine =
          let same = sym fits ∙ (eq_iff _ _).0 mine in
          let gone = subst (λ z. any (has_key z) s.rows ≡ false) same e in
          absurd (true≢false found gone)

  acquired-Holds :
      (q : LeaseRequest) (now : ℕ) (s : Leases)
      → Holds key owner s
      → Holds key owner (settled s (acquire_lease q now s))
  unfolding acquire_lease upsert
  acquired-Holds q now s h =
      elim (Bool-cases (not (is_given q.key) || not (is_given q.owner_task_id))) [
        | inl y ↦ rw y h
        | inr n ↦
            let k = or_else q.key "" in
            let task = or_else q.owner_task_id "" in
            rw n (
              checked-Holds s (check_move (find (has_key k) s.rows) active)
                (insert_lease k task q now s) h
                (inserted-Holds k task (requested k task q now) s (any (has_key k) s.rows) refl refl
                  h))
      ]

  renewed-Holds :
      (k o : String) (ttl_ms : ℕ) (token : Option String) (now : ℕ) (s : Leases)
      → Holds key owner s
      → Holds key owner (renew_lease k o ttl_ms token now s).0
  unfolding renew_lease
  renewed-Holds k o ttl_ms token now s =
      updated-Holds (renewable k o token) (renewed now ttl_ms) s (λ l. refl) (λ l p h. h)

  listed-Holds :
      (o : ListOptions) (now : ℕ) (s : Leases)
      → Holds key owner s
      → Holds key owner (list_leases o now s).0
  unfolding list_leases
  listed-Holds o now s =
      updated-Holds (overdue now) (lapsed now) s (λ l. refl) (λ l p h mine. ((h mine).0, refl))

  -- The release of a row that the task holds is the task's release of the key.
  same_release :
      (k o : String) (token : Option String) (l : Lease)
      → releasable k o token l ≡ true
      → has_key key l ≡ true
      → l.owner_task_id ≡ owner
      → (k =s= key && o =s= owner) ≡ true
  same_release k o token l p mine owned =
      let (named, rest) = (and-eq-true_iff _ _).0 p in
      let (asked, more) = (and-eq-true_iff _ _).0 rest in
      let keys : k ≡ key = sym ((eq_iff l.key k).0 named) ∙ (eq_iff l.key key).0 mine in
      let owners : o ≡ owner = sym ((eq_iff l.owner_task_id o).0 asked) ∙ owned in
      (and-eq-true_iff (k =s= key) (o =s= owner)).1
        ((eq_iff k key).1 keys, (eq_iff o owner).1 owners)

  released-Holds :
      (k o : String) (status : Option LeaseStatus) (token : Option String) (now : ℕ) (s : Leases)
      → (k =s= key && o =s= owner) ≡ false
      → Holds key owner s
      → Holds key owner (settled s (release_lease k o status token now s))
  unfolding release_lease
  released-Holds k o status token now s other h =
      let to = or_else status released in
      let p = releasable k o token in
      checked-Holds s (check_move (find (has_key k) s.rows) to)
        (log_lease o "lease.released" s.events
          (update_where p (ended to now) s.rows, returned p (ended to now) s.rows))
        h
        (logged-Holds o "lease.released" s (update_where p (ended to now) s.rows)
          (returned p (ended to now) s.rows)
          (updated-Holds p (ended to now) s (λ l. refl)
            (λ l e holds mine.
              absurd (true≢false (same_release k o token l e mine (holds mine).0) other))
            h))

  call-Holds :
      (c : LeaseCall) (s : Leases)
      → spares key owner c ≡ true
      → Holds key owner s
      → Holds key owner (run_lease_call c s)
  unfolding run_lease_call
  call-Holds (LeaseCall.acquires q now) s e h = acquired-Holds q now s h
  call-Holds (LeaseCall.renews k o ttl_ms token now) s e h = renewed-Holds k o ttl_ms token now s h
  call-Holds (LeaseCall.releases k o status token now) s e h =
      released-Holds k o status token now s (ground arith) h
  call-Holds (LeaseCall.lists o now) s e h = listed-Holds o now s h

-- While a task holds the key of a worktree, no sequence of acquisitions, renewals, releases by
-- others and listings takes it away, expired or not: afterwards a row of the key is there, and each
-- such row is the task's and is not released.
pub run_lease_calls-Holds :
    (key owner : String) (cs : List LeaseCall) (s : Leases)
    → All (λ c. spares key owner c ≡ true) cs
    → Holds key owner s
    → Holds key owner (run_lease_calls cs s)
unfolding run_lease_calls
run_lease_calls-Holds key owner [] s e h = h
run_lease_calls-Holds key owner (c ∷ cs) s (e, es) h =
    run_lease_calls-Holds key owner cs (run_lease_call c s) es (call-Holds key owner c s e h)
