-- ===== src/Routing/Selected.antt =====
-- What a decision of the router rests on.
use mathlib.Core.List.{Memᴰ}
use mathlib.Core.List.Memᴰ
use codex_threadhub.Base.{
  ℕ, Bool, true, false, not, ◌&&◌, ◌||◌, Option, none, some, List, [], ◌∷◌, keep, find, or_option,
  leb, ◌<◌, ◌≡◌, refl, sym, subst, arith, Bool-cases, inl, inr, if◌then◌else◌,
}
use codex_threadhub.Base.Table.{find-eq_some}
use codex_threadhub.Routing.{
  BudgetState, Candidate, Request, Decision, reuse, fork, spawn, ephemeral, wait, blocked,
  is_ephemeral_task, max_reuse, usable, first_ranked, eligible_ones, best_of, budget_for,
  can_create, busy, rollover, reusable, may_recover, queues, wait_or_block, decide_selected,
  decide_unselected, decide_best, select,
}

-- The candidate stands in the ranking, and it is eligible.
pub record IsEligible (ranked : List Candidate) (c : Candidate) : Type 0 where
  pub listed : Memᴰ c ranked
  pub eligible : c.eligible ≡ true

module _ (p : Candidate → Bool) where
  kept-listed :
      (xs : List Candidate) {c : Candidate} → Memᴰ c (keep p xs) → Memᴰ c xs × (p c ≡ true)
  kept-listed [] m = absurd (Memᴰ.not-nil m)
  kept-listed (x ∷ xs) {c} m = elim (Bool-cases (p x)) [
    | inl y ↦ here y (kept-listed xs) (rw y at m)
    | inr n ↦ let (l, h) = kept-listed xs (rw n at m) in (Memᴰ.tail l, h)
  ]
    where
      here :
          p x ≡ true
          → (Memᴰ c (keep p xs) → Memᴰ c xs × (p c ≡ true))
          → Memᴰ c (x ∷ keep p xs)
          → Memᴰ c (x ∷ xs) × (p c ≡ true)
      here y rest (Memᴰ.head e) = (Memᴰ.head e, subst (λ z. p z ≡ true) (sym e) y)
      here y rest (Memᴰ.tail l) = let (m, h) = rest l in (Memᴰ.tail m, h)

first_ranked-listed : (xs : List Candidate) {c : Candidate} → first_ranked xs ≡ some c → Memᴰ c xs
first_ranked-listed [] h = cc h
first_ranked-listed (x ∷ xs) {c} h = Memᴰ.head (let e : x ≡ c = ground arith in sym e)

preferred :
    (r : Request) (xs : List Candidate) (o : Option Candidate) {c : Candidate}
    → find (usable r) xs ≡ o
    → or_option o (first_ranked xs) ≡ some c
    → Memᴰ c xs
preferred r xs none e h = first_ranked-listed xs h
preferred r xs (some d) {c} e h =
    let same : d ≡ c = ground arith in subst (λ x. Memᴰ x xs) same (find-eq_some (usable r) xs e).0

best_of-IsEligible :
    (r : Request) (ranked : List Candidate) {c : Candidate}
    → best_of r ranked ≡ some c
    → IsEligible ranked c
unfolding best_of
best_of-IsEligible r ranked {c} h =
    let (m, y) =
      kept-listed (λ x. x.eligible) ranked
        (preferred r (eligible_ones ranked) (find (usable r) (eligible_ones ranked)) refl h) in
    record { listed = m; eligible = y }

-- What a decision demands of the best candidate and of the budget.
abbrev Rests : Request → Option Candidate → BudgetState → Decision → Type 0
Rests r best b reuse =
    (c : Candidate) × (best ≡ some c) × (c.reaches ≡ true) × (reusable r c ≡ true)
Rests r best b fork =
    (c : Candidate) × (best ≡ some c)
    × (c.reaches ≡ true)
    × (can_create b && b.can_fork_lineage ≡ true)
Rests r best b spawn = can_create b ≡ true
Rests r best b ephemeral = (can_create b ≡ false) × (is_ephemeral_task r.work ≡ true)
Rests r best b wait = (can_create b && b.can_fork_lineage ≡ false) × (queues r ≡ true)
Rests r best b blocked = can_create b && b.can_fork_lineage ≡ false

waits-Rests :
    (r : Request) (best : Option Candidate) (b : BudgetState) (temporary : Bool)
    → (can_create b && b.can_fork_lineage) ≡ false
    → Rests r best b (wait_or_block r temporary)
waits-Rests r best b true h = elim (Bool-cases (queues r)) [ inl y ↦ rw y (h, y) | inr n ↦ rw n h ]
waits-Rests r best b false h = h

unselected-Rests :
    (r : Request) (best : Option Candidate) (b : BudgetState)
    → Rests r best b (decide_unselected r b)
unfolding decide_unselected
unselected-Rests r best b = elim (Bool-cases (can_create b)) [
  | inl y ↦ rw y y
  | inr n ↦ rw n (elim (Bool-cases (is_ephemeral_task r.work)) [
    | inl y ↦ rw y (n, y)
    | inr m ↦ rw m (waits-Rests r best b (may_recover b) (rw n refl))
  ])
]

selected-Rests :
    (r : Request) (c : Candidate) (b : BudgetState)
    → c.reaches ≡ true
    → Rests r (some c) b (decide_selected r c b)
selected-Rests r c b h = elim (Bool-cases (reusable r c)) [
  | inl y ↦ rw y (c, refl, h, y)
  | inr n ↦ rw n (elim (Bool-cases (can_create b && b.can_fork_lineage)) [
    | inl y ↦ rw y (c, refl, h, y)
    | inr m ↦
        rw m (waits-Rests r (some c) b ((busy c || not c.writer_available) && not (rollover r c)) m)
  ])
]

best-Rests :
    (r : Request) (best : Option Candidate) (b : BudgetState)
    → Rests r best b (decide_best r best b)
best-Rests r none b = unselected-Rests r none b
best-Rests r (some c) b = split c.reaches refl
  where
    split :
        (x : Bool)
        → c.reaches ≡ x
        → Rests r (some c) b (if x then decide_selected r c b else decide_unselected r b)
    split true y = selected-Rests r c b y
    split false n = unselected-Rests r (some c) b

reusable-free :
    (x roll w z : Bool)
    → (x && not roll && w && not z) ≡ true
    → (x ≡ true) × (roll ≡ false) × (w ≡ true) × (z ≡ false)
reusable-free x roll w z h = (ground arith, ground arith, ground arith, ground arith)

reuse_left : (x : Bool) (n m : ℕ) → x ≡ true → (x && leb m n) ≡ false → n < m
reuse_left x n m y h = ground arith

-- The thread is one of the ranking, and may take the task as it is.
pub record IsFree (r : Request) (ranked : List Candidate) (c : Candidate) : Type 0 where
  pub eligible : IsEligible ranked c
  pub reaches : c.reaches ≡ true
  pub asked : r.reuse_existing ≡ true
  pub writer : c.writer_available ≡ true
  pub idle : busy c ≡ false
  pub left : c.reuse_count < max_reuse r

-- What each decision rests on.
pub record IsJustified (r : Request) (ranked : List Candidate) (d : Decision)
    (best : Option Candidate) : Type 0 where
  pub reuses : d ≡ reuse → (c : Candidate) × (best ≡ some c) × IsFree r ranked c
  pub forks :
      d ≡ fork
      → (c : Candidate) × (best ≡ some c)
        × IsEligible ranked c
        × (c.reaches ≡ true)
        × ((can_create (budget_for r best) && (budget_for r best).can_fork_lineage) ≡ true)
  pub spawns : d ≡ spawn → can_create (budget_for r best) ≡ true
  pub ephemerals :
      d ≡ ephemeral → (can_create (budget_for r best) ≡ false) × (is_ephemeral_task r.work ≡ true)
  pub waits :
      d ≡ wait
      → ((can_create (budget_for r best) && (budget_for r best).can_fork_lineage) ≡ false)
        × (queues r ≡ true)
  pub blocks :
      d ≡ blocked → (can_create (budget_for r best) && (budget_for r best).can_fork_lineage) ≡ false

-- A decision of the router rests on the ranking and on the budget. A thread is reused only if it is
-- an eligible one of the ranking that reaches the minimum, reuse is asked for, no other task writes to
-- it, it is not busy, and its reuses are below the maximum. A thread is forked only for such an
-- eligible one and within the budget for threads and forks; one is spawned only within the budget for
-- threads; an ephemeral one is used only for work without effects and if that budget is spent. The
-- task waits, which the policy must allow, or is blocked only if the budget is spent.
pub select-IsJustified :
    (r : Request) (ranked : List Candidate)
    → IsJustified r ranked (select r ranked).0 (select r ranked).1
unfolding select
select-IsJustified r ranked =
    let best = best_of r ranked in
    let rests = best-Rests r best (budget_for r best) in
    record {
      reuses = λ e.
          let (c, same, reaches, free) = subst (Rests r best (budget_for r best)) e rests in
          let (asked, left, writer, idle) =
            reusable-free r.reuse_existing (rollover r c) c.writer_available (busy c) free in
          (
            c,
            same,
            record {
              eligible = best_of-IsEligible r ranked same;
              reaches = reaches;
              asked = asked;
              writer = writer;
              idle = idle;
              left = reuse_left r.reuse_existing c.reuse_count (max_reuse r) asked left;
            },
          );
      forks = λ e.
          let (c, same, reaches, room) = subst (Rests r best (budget_for r best)) e rests in
          (c, same, best_of-IsEligible r ranked same, reaches, room);
      spawns = λ e. subst (Rests r best (budget_for r best)) e rests;
      ephemerals = λ e. subst (Rests r best (budget_for r best)) e rests;
      waits = λ e. subst (Rests r best (budget_for r best)) e rests;
      blocks = λ e. subst (Rests r best (budget_for r best)) e rests;
    }
