-- ===== src/Tasks/Exclusive.antt =====
-- One claim of a task at a time.
use codex_threadhub.Base.{
  ℕ, ◌≡◌, refl, sym, ap, subst, subst⁻¹, ◌∙◌, ◌≢◌, inl, inr, String, Bool, true, false, Option,
  none, some, List, [], ◌∷◌, arith, any, All, All-Memᴰ, All-map, Bool-cases, eq_iff, ok,
}
use mathlib.Core.Bool.{and-eq-true_iff}
use codex_threadhub.Base.Table.{update_where, returned, returned-eq_some}
use codex_threadhub.States.Task.{task_in}
use codex_threadhub.Registry.{Task, Registry}
use codex_threadhub.Tasks.Guards.{claimable, can_claim}
use codex_threadhub.Tasks.Claim.{
  GlobalGate, pass_gate, claimed, log_if, claim_passed, claim_gated, claim_task,
}
use codex_threadhub.Tasks.Rules.{UniqueIds}
use codex_threadhub.Tasks.Fencing.{update_tasks_unmatched}

-- No row with the id waits to be claimed.
abbrev pub NoneWaits : String → List Task → Type 0
NoneWaits id ts = All (λ x. x.id ≡ id → task_in claimable x.status ≡ false) ts

pub can_claim_facts :
    (g : Registry) (id : String) (now : ℕ) (t : Task)
    → can_claim g id now t ≡ true
    → (t.id ≡ id) × (task_in claimable t.status ≡ true)
unfolding can_claim
can_claim_facts g id now t h =
    let (named, h1) = (and-eq-true_iff _ _).0 h in
    ((eq_iff _ _).0 named, ((and-eq-true_iff _ _).0 h1).0)

unclaimed_rows :
    (g : Registry) (id : String) (now : ℕ) (ts : List Task)
    → NoneWaits id ts
    → any (can_claim g id now) ts ≡ false
unclaimed_rows g id now [] h = refl
unclaimed_rows g id now (t ∷ ts) (h, hs) = elim (Bool-cases (can_claim g id now t)) [
  | inl y ↦
      let (named, waits) = can_claim_facts g id now t y in
      let busy = h named in absurd (true≢false waits busy)
  | inr n ↦ rw n (unclaimed_rows g id now ts hs)
]
  where
    true≢false : {b : Bool} → b ≡ true → b ≡ false → ⊥
    true≢false p q = cc

module _ (g : Registry) (id worker token : String) (now : ℕ) where
  abbrev after_claim : List Task → List Task
  after_claim ts = update_where (can_claim g id now) (claimed worker token now) ts

  -- Rows with another id are not touched, whatever they wait for.
  others_wait : (ts : List Task) → All (λ x. x.id ≢ id) ts → NoneWaits id (after_claim ts)
  unfolding update_where
  others_wait [] h = tt
  others_wait (t ∷ ts) (h, hs) = elim (Bool-cases (can_claim g id now t)) [
    | inl y ↦ absurd (h (can_claim_facts g id now t y).0)
    | inr n ↦ rw n ((λ e. absurd (h e)), others_wait ts hs)
  ]

  claimed_waits :
      (ts : List Task) {t : Task}
      → UniqueIds ts
      → returned (can_claim g id now) (claimed worker token now) ts ≡ some t
      → NoneWaits id (after_claim ts)
  unfolding update_where returned
  claimed_waits [] u h = tt
  claimed_waits (t ∷ ts) {t = found} (u, us) h = elim (Bool-cases (can_claim g id now t)) [
    | inl y ↦
        let same = (can_claim_facts g id now t y).0 in
        rw y (
          (λ e. refl),
          others_wait ts (All-map (λ x. x.id ≢ t.id) _ ts (λ x k e. k (e ∙ sym same)) u),
        )
    | inr n ↦
        let later : returned (can_claim g id now) (claimed worker token now) ts ≡ some found =
          ground arith in
        let (x, m, c, e) =
          returned-eq_some (can_claim g id now) (claimed worker token now) ts later in
        let named = (can_claim_facts g id now x c).0 in
        rw n (
          (λ same. absurd (All-Memᴰ (λ z. z.id ≢ t.id) ts u m (named ∙ sym same))),
          claimed_waits ts us later,
        )
  ]

claim_passed_busy :
    (id worker token : String) (now : ℕ) (g : Registry)
    → NoneWaits id g.tasks
    → claim_passed id worker token now g ≡ (g, none)
unfolding claim_passed
claim_passed_busy id worker token now g h = ap (log_if id "task.claimed") (
    update_tasks_unmatched (can_claim g id now) (claimed worker token now) g
      (unclaimed_rows g id now g.tasks h))

pub log_if-tasks :
    {A : Type 0} (id type : String) (s : Registry × Option A) {r : Registry} {o : Option A}
    → log_if id type s ≡ (r, o)
    → (r.tasks ≡ s.0.tasks) × (s.1 ≡ o)
log_if-tasks id type (q, none) e = (sym (ap (λ x. x.0.tasks) e), ap (λ x. x.1) e)
log_if-tasks id type (q, some a) e = (sym (ap (λ x. x.0.tasks) e), ap (λ x. x.1) e)

claim_passed_waits :
    (id worker token : String) (now : ℕ) (g r' : Registry) (t : Task)
    → UniqueIds g.tasks
    → claim_passed id worker token now g ≡ (r', some t)
    → NoneWaits id r'.tasks
unfolding claim_passed
claim_passed_waits id worker token now g r' t u h =
    let (same, found) = log_if-tasks id "task.claimed" _ h in
    subst (NoneWaits id) (sym same) (claimed_waits g id worker token now g.tasks u found)

-- In the registry that a successful claim leaves, a claim of that task by any worker at any time is
-- refused, and changes nothing but what its gate did. The ids are unique, and the second gate leaves
-- the tasks as they are.
pub claim_task_exclusive :
    (gate gate' : GlobalGate) (id worker token worker' token' : String) (now now' : ℕ)
    (r r' g g' : Registry) (t : Task)
    → UniqueIds g.tasks
    → pass_gate gate id r ≡ ok g
    → claim_task gate id worker token now r ≡ (r', some t)
    → pass_gate gate' id r' ≡ ok g'
    → g'.tasks ≡ r'.tasks
    → claim_task gate' id worker' token' now' r' ≡ (g', none)
unfolding claim_task claim_gated
claim_task_exclusive gate gate' id w k w' k' now now' r r' g g' t u p h p' same =
    let passed = subst (λ x. claim_gated id w k now r x ≡ (r', some t)) p h in
    let busy = claim_passed_waits id w k now g r' t u passed in
    subst⁻¹ (λ x. claim_gated id w' k' now' r' x ≡ (g', none)) p'
      (claim_passed_busy id w' k' now' g' (subst⁻¹ (NoneWaits id) same busy))
