-- ===== src/Queue/Ready.antt =====
-- Which items `claimProjectPreparation` of src/registry.js may lease.
use codex_threadhub.Base.{
  subst, leb→le, arith, false, ◌&&◌, ◌⊎◌, ℕ, ◌≤◌, ◌≡◌, String, true, ◌||◌, Option, none, some, List,
  [], ◌∷◌, All, inl, inr, Bool, refl, ◌=s=◌,
}
use codex_threadhub.Queue.{
  queued, retry_waiting, QueueStatus, is_status, is_due, has_lease, leased, Item, is_ready,
}

-- The condition of the query: the item waits, its time has come, and nothing of its project is leased.
pub record MayLease (xs : List Item) (now : ℕ) (q : Item) : Type 0 where
  pub waits : (q.status ≡ queued) ⊎ (q.status ≡ retry_waiting)
  pub due : (at : ℕ) → q.not_before ≡ some at → at ≤ now
  pub free : All (λ y. (y.project_key =s= q.project_key && is_status y.status leased) ≡ false) xs

waiting_status :
    (s : QueueStatus)
    → (is_status s queued || is_status s retry_waiting) ≡ true
    → (s ≡ queued) ⊎ (s ≡ retry_waiting)
waiting_status s h = ground arith

is_waiting :
    (s : QueueStatus)
    → (s ≡ queued) ⊎ (s ≡ retry_waiting)
    → (is_status s queued || is_status s retry_waiting) ≡ true
is_waiting s (inl e) = rw e refl
is_waiting s (inr e) = rw e refl

due_before : (o : Option ℕ) (now : ℕ) → is_due o now ≡ true → (at : ℕ) → o ≡ some at → at ≤ now
due_before o now h at e = leb→le at now (subst (λ o. is_due o now ≡ true) e h)

is_due_before : (o : Option ℕ) (now : ℕ) → ((at : ℕ) → o ≡ some at → at ≤ now) → is_due o now ≡ true
is_due_before none now h = refl
is_due_before (some n) now h = let k = h n refl in ground arith

both_false : (a b : Bool) → (a || b) ≡ false → (a ≡ false) × (b ≡ false)
both_false false b h = (refl, h)
both_false true b h = cc h

free_of :
    (key : String) (xs : List Item)
    → has_lease key xs ≡ false
    → All (λ y. (y.project_key =s= key && is_status y.status leased) ≡ false) xs
free_of key [] h = tt
free_of key (y ∷ ys) h =
    let (here, rest) = both_false (y.project_key =s= key && is_status y.status leased) _ h in
    (here, free_of key ys rest)

none_leased :
    (key : String) (xs : List Item)
    → All (λ y. (y.project_key =s= key && is_status y.status leased) ≡ false) xs
    → has_lease key xs ≡ false
none_leased key [] h = refl
none_leased key (y ∷ ys) (h, hs) = rw (h, none_leased key ys hs) refl

pub ready-MayLease :
    (xs : List Item) (now : ℕ) (q : Item) → is_ready xs now q ≡ true → MayLease xs now q
ready-MayLease xs now q h = record {
  waits = waiting_status q.status (ground arith);
  due = due_before q.not_before now (ground arith);
  free = free_of q.project_key xs (ground arith);
}

pub MayLease-ready :
    (xs : List Item) (now : ℕ) (q : Item) → MayLease xs now q → is_ready xs now q ≡ true
MayLease-ready xs now q m =
    rw
      (
        is_waiting q.status m.waits,
        is_due_before q.not_before now m.due,
        none_leased q.project_key xs m.free,
      )
      refl
