-- ===== src/Routing/Lifecycle.antt =====
-- The lifecycle of a thread, in src/thread-lifecycle.js.
use codex_threadhub.Base.{
  Bool, true, List, [], ◌∷◌, any, ◌==◌, ℕ, if◌then◌else◌, Result, ok, err, ◌≡◌, refl, sym, subst,
  arith, ◌⊎◌, inl, inr,
}

pub data LifecycleStatus : Type 0 where
  candidate active idle compacted superseded archived : LifecycleStatus

abbrev pub lifecycle_code : LifecycleStatus → ℕ
lifecycle_code candidate = 0
lifecycle_code active = 1
lifecycle_code idle = 2
lifecycle_code compacted = 3
lifecycle_code superseded = 4
lifecycle_code archived = 5

abbrev pub same_lifecycle : LifecycleStatus → LifecycleStatus → Bool
same_lifecycle a b = lifecycle_code a == lifecycle_code b

-- `TRANSITIONS`.
abbrev pub lifecycle_moves : LifecycleStatus → List LifecycleStatus
lifecycle_moves candidate = active ∷ idle ∷ archived ∷ []
lifecycle_moves active = idle ∷ []
lifecycle_moves idle = active ∷ compacted ∷ superseded ∷ archived ∷ []
lifecycle_moves compacted = superseded ∷ archived ∷ []
lifecycle_moves superseded = archived ∷ []
lifecycle_moves archived = idle ∷ []

pub data LifecycleError : Type 0 where
  illegal_transition : LifecycleStatus → LifecycleStatus → LifecycleError

-- Both statuses are known by their type.
unfoldable pub transition_thread_lifecycle :
    LifecycleStatus → LifecycleStatus → Result LifecycleError LifecycleStatus
transition_thread_lifecycle from to =
    if same_lifecycle from to
    then ok to
    else if any (same_lifecycle to) (lifecycle_moves from)
    then ok to
    else err (illegal_transition from to)

-- A history of a thread, of the transitions that are permitted.
pub data History : LifecycleStatus → LifecycleStatus → Type 0 where
  here : {s : LifecycleStatus} → History s s
  then_to :
      {s t u : LifecycleStatus} → History s t → transition_thread_lifecycle t u ≡ ok u → History s u

-- The statuses of a thread that is no longer routed to, before it is archived.
abbrev pub is_retired : LifecycleStatus → Bool
is_retired s = any (same_lifecycle s) (compacted ∷ superseded ∷ [])

retired_step :
    (s t : LifecycleStatus)
    → is_retired s ≡ true
    → transition_thread_lifecycle s t ≡ ok t
    → (is_retired t ≡ true) ⊎ (t ≡ archived)
unfolding transition_thread_lifecycle
retired_step compacted compacted h e = inl refl
retired_step compacted t h e = ground arith
retired_step superseded t h e = ground arith
retired_step s t h e = ground arith

-- The path through the archive.
pub data Passed : LifecycleStatus → LifecycleStatus → Type 0 where
  through : {s t : LifecycleStatus} → History s archived → History archived t → Passed s t

-- A thread that was compacted or superseded takes up work again only through the archive.
pub retired_through_archive :
    {s t : LifecycleStatus} → is_retired s ≡ true → History s t → (is_retired t ≡ true) ⊎ Passed s t
retired_through_archive h here = inl h
retired_through_archive {s} h (then_to {t} {u} past step) = elim (retired_through_archive h past) [
  | inr (through a b) ↦ inr (through a (then_to b step))
  | inl still ↦ elim (retired_step t u still step) [
    | inl y ↦ inl y
    | inr e ↦
        inr (
          through (subst (History s) e (then_to past step)) (subst (History archived) (sym e) here))
  ]
]
