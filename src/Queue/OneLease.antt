-- ===== src/Queue/OneLease.antt =====
-- No project has two leased preparations.
use mathlib.Core.List.{Memᴰ}
use mathlib.Core.Bool.{and-eq-true_iff}
use codex_threadhub.Base.{
  ℕ, suc, ◌+◌, ◌≤◌, ◌≡◌, refl, subst, String, Bool, true, false, ◌&&◌, Option, none, some, List, [],
  ◌∷◌, arith, any, All, All-map, Bool-cases, eq_iff, eq_refl, inl, inr, leb, leb→le, ◌=s=◌,
  if◌then◌else◌, Result, ok, err,
}
use codex_threadhub.Base.Table.{update_where}
use codex_threadhub.Base.Counts.{
  count, count_mono, count_only, count-update_where, count-update_where_le,
}
use codex_threadhub.Queue.{
  leased, is_status, Item, QueueInput, QueueError, insert_item, refreshed_item, is_expired,
  recovered, recover_project_queue, has_lease, is_ready, first, sooner, leased_item, lease_found,
  claim_project_preparation, has_id, holds_item, holds_leased, completed_item,
  complete_project_preparation, failed_item, fail_found,
}

-- The item is leased and belongs to the project.
abbrev pub leased_of : String → Item → Bool
leased_of key x = is_status x.status leased && x.project_key =s= key

-- The ids are unique, and no project has two leased items.
abbrev pub IsValid : List Item → Type 0
IsValid xs =
    ((id : String) → count (has_id id) xs ≤ 1) × ((key : String) → count (leased_of key) xs ≤ 1)

-- An update that keeps ids and projects and leases nothing keeps the queue valid.
unleased-IsValid :
    (p : Item → Bool) (f : Item → Item) (xs : List Item)
    → ((x : Item) → (f x).id ≡ x.id)
    → ((key : String) (x : Item) → leased_of key (f x) ≡ true → leased_of key x ≡ true)
    → IsValid xs
    → IsValid (update_where p f xs)
unleased-IsValid p f xs same frees (ids, one) = (
  (λ id.
      let less =
        count-update_where_le (has_id id) p f xs
          (λ x w h. subst (λ z. (z =s= id) ≡ true) (same x) h) in
      let most = ids id in omega arith),
  (λ key.
      let less = count-update_where_le (leased_of key) p f xs (λ x w h. frees key x h) in
      let most = one key in omega arith),
)

-- What `first` finds: the soonest row that passes the test, if one does.
abbrev pub Soonest : (Item → Bool) → List Item → Option Item → Type 0
Soonest p xs none = All (λ x. p x ≡ false) xs
Soonest p xs (some q) =
    Memᴰ q xs × (p q ≡ true) × All (λ x. p x ≡ true → q.sequence ≤ x.sequence) xs

skipped :
    (p : Item → Bool) (x : Item) (xs : List Item) (o : Option Item)
    → p x ≡ false
    → Soonest p xs o
    → Soonest p (x ∷ xs) o
skipped p x xs none n h = (n, h)
skipped p x xs (some q) n (m, y, least) = (Memᴰ.tail m, y, ((λ e. cc), least))

chosen :
    (p : Item → Bool) (x : Item) (xs : List Item) (o : Option Item)
    → p x ≡ true
    → Soonest p xs o
    → Soonest p (x ∷ xs) (sooner x o)
chosen p x xs none y h = (Memᴰ.head refl, y, ((λ e. omega arith), All-map _ _ xs (λ z n e. cc) h))
chosen p x xs (some q) y (m, z, least) = elim (Bool-cases (leb x.sequence q.sequence)) [
  | inl e ↦
      let less = leb→le x.sequence q.sequence e in
      rw e (
        Memᴰ.head refl,
        y,
        ((λ k. omega arith), All-map _ _ xs (λ w le k. let l = le k in omega arith) least),
      )
  | inr n ↦ rw n (Memᴰ.tail m, z, ((λ k. ground arith), least))
]

pub first-Soonest : (p : Item → Bool) (xs : List Item) → Soonest p xs (first p xs)
unfolding first
first-Soonest p [] = tt
first-Soonest p (x ∷ xs) = elim (Bool-cases (p x)) [
  | inl y ↦ rw y (chosen p x xs (first p xs) y (first-Soonest p xs))
  | inr n ↦ rw n (skipped p x xs (first p xs) n (first-Soonest p xs))
]

pub recovered-IsValid :
    (now : ℕ) (xs : List Item) → IsValid xs → IsValid (recover_project_queue now xs)
unfolding recover_project_queue
recovered-IsValid now xs =
    unleased-IsValid (is_expired now) (recovered now) xs (λ x. refl) (λ key x h. cc)

-- A ready item belongs to a project of which nothing is leased.
has_lease-count :
    (key : String) (xs : List Item) → has_lease key xs ≡ false → count (leased_of key) xs ≡ 0
has_lease-count key [] h = refl
has_lease-count key (x ∷ xs) h = ground (arith, has_lease-count key xs)

module _ (worker token : String) (now lease_ms : ℕ) (xs : List Item) (q : Item) where
  abbrev leasing : List Item
  leasing = update_where (has_id q.id) (leased_item worker token now lease_ms) xs

  -- The leased rows of the project afterwards: those before, and the row that was leased.
  leasing-count :
      (key : String)
      → count (leased_of key) leasing
        ≤ count (leased_of key) xs + count (λ x. has_id q.id x && x.project_key =s= key) xs
  leasing-count key =
      count-update_where (leased_of key) (λ x. x.project_key =s= key) (has_id q.id)
        (leased_item worker token now lease_ms) xs (λ x w h. h)

  leasing-IsValid : Memᴰ q xs → has_lease q.project_key xs ≡ false → IsValid xs → IsValid leasing
  leasing-IsValid m free (ids, one) = (
    (λ id.
        let less =
          count-update_where_le (has_id id) (has_id q.id) (leased_item worker token now lease_ms) xs
            (λ x w h. h) in
        let most = ids id in omega arith),
    (λ key.
        let less = leasing-count key in
        let most = ids q.id in
        let was = one key in
        elim (Bool-cases (q.project_key =s= key)) [
          | inl same ↦
              let none_yet =
                subst (λ k. count (leased_of k) xs ≡ 0) ((eq_iff _ _).0 same)
                  (has_lease-count q.project_key xs free) in
              let few =
                count_mono (λ x. has_id q.id x && x.project_key =s= key) (has_id q.id) xs
                  (λ x h. ((and-eq-true_iff _ _).0 h).0) in
              omega arith
          | inr other ↦
              let few =
                count_only (has_id q.id) (λ x. x.project_key =s= key) xs m (eq_refl q.id) other
                  most in
              omega arith
        ]),
  )

ready_free :
    (xs : List Item) (now : ℕ) (q : Item)
    → is_ready xs now q ≡ true
    → has_lease q.project_key xs ≡ false
ready_free xs now q h = ground arith

lease_found-IsValid :
    (worker token : String) (now lease_ms : ℕ) (xs : List Item) (o : Option Item)
    → Soonest (is_ready xs now) xs o
    → IsValid xs
    → IsValid (lease_found worker token now lease_ms xs o).0
lease_found-IsValid worker token now lease_ms xs none s v = v
lease_found-IsValid worker token now lease_ms xs (some q) (m, ready, least) v =
    leasing-IsValid worker token now lease_ms xs q m (ready_free xs now q ready) v

pub claim-IsValid :
    (worker token : String) (now lease_ms : ℕ) (xs : List Item)
    → IsValid xs
    → IsValid (claim_project_preparation worker token now lease_ms xs).0
unfolding claim_project_preparation
claim-IsValid worker token now lease_ms xs v =
    let ys = recover_project_queue now xs in
    lease_found-IsValid worker token now lease_ms ys (first (is_ready ys now) ys)
      (first-Soonest (is_ready ys now) ys) (recovered-IsValid now xs v)

pub completed-IsValid :
    (id worker token : String) (now : ℕ) (xs : List Item)
    → IsValid xs
    → IsValid (complete_project_preparation id worker token now xs).0
unfolding complete_project_preparation
completed-IsValid id worker token now xs =
    unleased-IsValid (holds_leased id worker token) (completed_item now) xs (λ x. refl)
      (λ key x h. cc)

pub fail_found-IsValid :
    (id worker token error : String) (delay now : ℕ) (xs : List Item) (o : Option Item)
    → IsValid xs
    → IsValid (fail_found id worker token error delay now xs o).0
fail_found-IsValid id worker token error delay now xs none v = v
fail_found-IsValid id worker token error delay now xs (some c) v =
    unleased-IsValid (holds_item id worker token) (failed_item c error delay now) xs (λ x. refl)
      (λ key x h. ground arith) v

unused_id :
    (id : String) (xs : List Item) → any (λ x. x.id =s= id) xs ≡ false → count (has_id id) xs ≡ 0
unused_id id [] h = refl
unused_id id (x ∷ xs) h = ground (arith, unused_id id xs)

new_id :
    (id : String) (xs : List Item)
    → any (λ x. x.id =s= id) xs ≡ false
    → ((i : String) → count (has_id i) xs ≤ 1)
    → (i : String) → (if id =s= i then suc (count (has_id i) xs) else count (has_id i) xs) ≤ 1
new_id id xs m ids i = elim (Bool-cases (id =s= i)) [
  | inl y ↦
      let none_yet = subst (λ k. count (has_id k) xs ≡ 0) ((eq_iff _ _).0 y) (unused_id id xs m) in
      rw y (omega arith)
  | inr n ↦ rw n (ids i)
]

-- A call that throws changes nothing.
abbrev pub kept : List Item → Result QueueError (List Item) → List Item
kept xs (ok ys) = ys
kept xs (err e) = xs

pub insert-IsValid :
    (id run key : String) (input : QueueInput) (now : ℕ) (xs : List Item)
    → IsValid xs
    → IsValid (kept xs (insert_item id run key input now xs))
insert-IsValid id run key input now xs (ids, one) =
    elim (Bool-cases (any (λ x. x.run_id =s= run) xs)) [
      | inl y ↦ rw y (
          unleased-IsValid (λ x. x.run_id =s= run) (refreshed_item input now) xs (λ x. refl)
            (λ key x h. h) (ids, one))
      | inr n ↦ elim (Bool-cases (any (λ x. x.id =s= id) xs)) [
        | inl y ↦ rw (n, y) (ids, one)
        | inr m ↦ rw (n, m) (new_id id xs m ids, one)
      ]
    ]
