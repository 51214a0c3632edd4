-- ===== src/Queue/Calls.antt =====
-- The histories of the project queue, and the order in which it hands out its items.
use mathlib.Core.List.{Memᴰ}
use codex_threadhub.Base.{
  All-map, ℕ, ◌≤◌, ◌≡◌, sym, ap, String, true, not, ◌||◌, Option, none, some, List, [], ◌∷◌, All,
  eq_refl, ◌∙◌, Bool-cases, inl, inr, find, or_else, ◌+◌, Bool, refl, map, ◌=s=◌, if◌then◌else◌,
}
use codex_threadhub.Base.Table.{update_where, returned-eq_some}
use codex_threadhub.Base.Counts.{count_unique}
use codex_threadhub.Queue.{
  leased, Item, QueueInput, is_given, enqueue_project_preparation, recover_project_queue, is_ready,
  first, leased_item, lease_found, claim_project_preparation, has_id, holds_item,
  complete_project_preparation, fail_project_preparation,
}
use codex_threadhub.Queue.Ready.{MayLease, ready-MayLease, MayLease-ready}
use codex_threadhub.Queue.OneLease.{
  IsValid, kept, Soonest, first-Soonest, claim-IsValid, completed-IsValid, fail_found-IsValid,
  insert-IsValid, recovered-IsValid,
}

pub data QueueCall : Type 0 where
  enqueues : QueueInput → ℕ → QueueCall
  recovers : ℕ → QueueCall
  claims : String → String → ℕ → ℕ → QueueCall
  completes : String → String → String → ℕ → QueueCall
  fails : String → String → String → String → ℕ → ℕ → QueueCall

module _ (prefix : String → String) where
  unfoldable pub run_queue_call : QueueCall → List Item → List Item
  unfolding enqueue_project_preparation recover_project_queue claim_project_preparation
      complete_project_preparation fail_project_preparation
  run_queue_call (QueueCall.enqueues input now) xs =
      kept xs (enqueue_project_preparation prefix input now xs)
  run_queue_call (QueueCall.recovers now) xs = recover_project_queue now xs
  run_queue_call (QueueCall.claims worker token now lease_ms) xs =
      (claim_project_preparation worker token now lease_ms xs).0
  run_queue_call (QueueCall.completes id worker token now) xs =
      (complete_project_preparation id worker token now xs).0
  run_queue_call (QueueCall.fails id worker token error delay now) xs =
      (fail_project_preparation id worker token error delay now xs).0

  unfoldable pub run_queue : List QueueCall → List Item → List Item
  unfolding run_queue_call
  run_queue [] xs = xs
  run_queue (c ∷ cs) xs = run_queue cs (run_queue_call c xs)

  enqueue-IsValid :
      (input : QueueInput) (now : ℕ) (xs : List Item)
      → IsValid xs
      → IsValid (kept xs (enqueue_project_preparation prefix input now xs))
  unfolding enqueue_project_preparation
  enqueue-IsValid input now xs v =
      elim (Bool-cases (not (is_given input.run_id) || not (is_given input.project_key))) [
        | inl y ↦ rw y v
        | inr n ↦
            let run = or_else input.run_id "" in
            rw n (
              insert-IsValid (or_else input.id (prefix run)) run (or_else input.project_key "")
                input now xs v)
      ]

  call-IsValid : (c : QueueCall) (xs : List Item) → IsValid xs → IsValid (run_queue_call c xs)
  unfolding run_queue_call fail_project_preparation
  call-IsValid (QueueCall.enqueues input now) xs v = enqueue-IsValid input now xs v
  call-IsValid (QueueCall.recovers now) xs v = recovered-IsValid now xs v
  call-IsValid (QueueCall.claims worker token now lease_ms) xs v =
      claim-IsValid worker token now lease_ms xs v
  call-IsValid (QueueCall.completes id worker token now) xs v =
      completed-IsValid id worker token now xs v
  call-IsValid (QueueCall.fails id worker token error delay now) xs v =
      fail_found-IsValid id worker token error delay now xs (find (holds_item id worker token) xs) v

  -- Whatever is enqueued, recovered, claimed, completed and failed, in any order and at any times,
  -- a queue that had unique ids and at most one leased item of each project has so afterwards.
  pub run_queue-IsValid :
      (cs : List QueueCall) (xs : List Item) → IsValid xs → IsValid (run_queue cs xs)
  unfolding run_queue
  run_queue-IsValid [] xs v = v
  run_queue-IsValid (c ∷ cs) xs v = run_queue-IsValid cs (run_queue_call c xs) (call-IsValid c xs v)

-- What a claim takes from the queue `xs` in which the expired leases have been recovered, and the
-- queue `zs` that it leaves.
pub record Leased (xs zs : List Item) (worker token : String) (now lease_ms : ℕ) (q x : Item)
    : Type 0 where
  pub listed : Memᴰ q xs
  pub ready : MayLease xs now q
  pub soonest : All (λ y. MayLease xs now y → q.sequence ≤ y.sequence) xs
  pub row : x ≡ record q {
    status = leased;
    lease_owner = some worker;
    lease_token = some token;
    lease_expires_at = some (now + lease_ms);
    attempt = q.attempt + 1;
    updated_at = now;
  }
  pub table : zs ≡ map (λ y. if y.id =s= q.id then x else y) xs

-- An update that makes the same row of every row that it matches.
replaced :
    (p : Item → Bool) (f : Item → Item) (x : Item) (xs : List Item)
    → ((y : Item) → Memᴰ y xs → p y ≡ true → f y ≡ x)
    → update_where p f xs ≡ map (λ y. if p y then x else y) xs
unfolding update_where
replaced p f x [] h = refl
replaced p f x (y ∷ ys) h =
    let rest = replaced p f x ys (λ z m e. h z (Memᴰ.tail m) e) in
    elim (Bool-cases (p y)) [
      | inl e ↦ rw (e, h y (Memᴰ.head refl) e, rest) refl
      | inr n ↦ rw (n, rest) refl
    ]

found-Leased :
    (worker token : String) (now lease_ms : ℕ) (xs : List Item) (o : Option Item) {x : Item}
    → IsValid xs
    → Soonest (is_ready xs now) xs o
    → (lease_found worker token now lease_ms xs o).1 ≡ some x
    → (q : Item) × Leased xs
        (lease_found worker token now lease_ms xs o).0
        worker
        token
        now
        lease_ms
        q
        x
found-Leased worker token now lease_ms xs none v s h = cc
found-Leased worker token now lease_ms xs (some q) {x} (ids, one) (m, ready, least) h =
    let f = leased_item worker token now lease_ms in
    let (y, n, named, e) = returned-eq_some (has_id q.id) f xs h in
    let only : (z : Item) → Memᴰ z xs → has_id q.id z ≡ true → q ≡ z =
      λ z k w. count_unique (has_id q.id) xs m k (eq_refl q.id) w (ids q.id) in
    let row : x ≡ f q = e ∙ ap f (sym (only y n named)) in
    (
      q,
      record {
        listed = m;
        ready = ready-MayLease xs now q ready;
        soonest =
            All-map (λ y. is_ready xs now y ≡ true → q.sequence ≤ y.sequence)
              (λ y. MayLease xs now y → q.sequence ≤ y.sequence) xs
              (λ y h k. h (MayLease-ready xs now y k)) least;
        row = row;
        table = replaced (has_id q.id) f x xs (λ z k w. ap f (sym (only z k w)) ∙ sym row);
      },
    )

-- A claim of a valid queue, whose expired leases are recovered first, takes an item that waits, is
-- due and belongs to a project of which nothing is leased, and no such item has a lower sequence. It
-- returns that item leased to the worker under the token, with one attempt more and a lease that
-- ends after the given time, and the queue that it leaves holds this row in the place of the item
-- and every other row of the recovered queue as it was.
pub claim_project_preparation-Leased :
    (worker token : String) (now lease_ms : ℕ) (xs : List Item) {x : Item}
    → IsValid xs
    → (claim_project_preparation worker token now lease_ms xs).1 ≡ some x
    → (q : Item) × Leased
        (recover_project_queue now xs)
        (claim_project_preparation worker token now lease_ms xs).0
        worker
        token
        now
        lease_ms
        q
        x
unfolding claim_project_preparation
claim_project_preparation-Leased worker token now lease_ms xs v h =
    let ys = recover_project_queue now xs in
    found-Leased worker token now lease_ms ys (first (is_ready ys now) ys)
      (recovered-IsValid now xs v) (first-Soonest (is_ready ys now) ys) h
