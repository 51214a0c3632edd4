-- ===== src/States/Outcomes.antt =====
-- What the aggregates of src/domain-states.js mean, and how its semantic tables classify a status.
use codex_threadhub.Base.{
  ◌≡◌, refl, ◌≢◌, ◌↔◌, Bool, true, false, none, some, List, [], ◌∷◌, arith, any, all, All, all→All,
  All→all, ◌||◌, ◌&&◌, not, keep, if◌then◌else◌, sym, ◌∙◌, ◌=s=◌,
}
use codex_threadhub.States.Task.{
  TaskStatus, task_in, is_task, is_terminal_task, successful_tasks, failed_tasks,
}
use codex_threadhub.States.Run.{RunStatus, is_run, is_terminal_run}
use codex_threadhub.States.GlobalRun.{GlobalRunStatus}
use codex_threadhub.States.Semantics.{task_semantics}
use codex_threadhub.States.Derive.{
  derive_run_status, Membership, is_required, derive_global_run_status,
}

abbrev pub Succeeds : TaskStatus → Type 0
Succeeds s = task_in successful_tasks s ≡ true

-- A terminal task that neither failed nor was canceled has succeeded, and conversely.
successful_terminal :
    (s : TaskStatus)
    → task_in successful_tasks s ≡ (
        is_terminal_task s && (not (task_in failed_tasks s) && not (is_task s TaskStatus.canceled)))
successful_terminal TaskStatus.staged = refl
successful_terminal _ = refl

module _ {A : Type 0} (p q r w : A → Bool)
    (h : (x : A) → w x ≡ (p x && (not (q x) && not (r x)))) where
  all-split : (xs : List A) → all w xs ≡ (all p xs && (not (any q xs) && not (any r xs)))
  all-split [] = refl
  all-split (x ∷ xs) = ground (arith, h x, all-split xs)

abbrev pub is_canceled : TaskStatus → Bool
is_canceled s = is_task s TaskStatus.canceled

verdict :
    (b f c : Bool)
    → ((if not b
          then none
          else if f
          then some RunStatus.failed
          else if c
          then some RunStatus.cancelled
          else some RunStatus.completed)
        ≡ some RunStatus.completed)
      ↔ ((b && (not f && not c)) ≡ true)
verdict b f c = ground arith

-- A Run is derived as completed exactly when it has a task and every task succeeded.
pub derive_run_status-completed_iff :
    (ts : List TaskStatus)
    → (derive_run_status ts ≡ some RunStatus.completed) ↔ ((ts ≢ []) × All Succeeds ts)
unfolding derive_run_status
derive_run_status-completed_iff [] = (λ e. cc, λ (n, _). absurd (n refl))
derive_run_status-completed_iff (t ∷ ts) =
    let split =
      all-split is_terminal_task (task_in failed_tasks) is_canceled (task_in successful_tasks)
        successful_terminal (t ∷ ts) in
    let (to, from) =
      verdict (all is_terminal_task (t ∷ ts)) (any (task_in failed_tasks) (t ∷ ts))
        (any is_canceled (t ∷ ts)) in
    (
      λ e. (λ n. cc, all→All (task_in successful_tasks) (t ∷ ts) (split ∙ to e)),
      λ (_, a). from (sym split ∙ All→all (task_in successful_tasks) (t ∷ ts) a),
    )

other_verdicts :
    (b f c : Bool)
    → let derived =
        if not b
        then none
        else if f
        then some RunStatus.failed
        else if c
        then some RunStatus.cancelled
        else some RunStatus.completed in
      ((derived ≡ none) ↔ (b ≡ false))
      × ((derived ≡ some RunStatus.failed) ↔ ((b ≡ true) × (f ≡ true)))
      × ((derived ≡ some RunStatus.cancelled) ↔ ((b ≡ true) × (f ≡ false) × (c ≡ true)))
other_verdicts b f c = ground arith

-- For a Run with tasks there is no verdict exactly while a task is not terminal; it failed exactly
-- if all are terminal and one failed; and it was cancelled exactly if all are terminal, none failed
-- and one was canceled.
pub derive_run_status-other_iff :
    (ts : List TaskStatus)
    → ts ≢ []
    → ((derive_run_status ts ≡ none) ↔ (all is_terminal_task ts ≡ false))
      × ((derive_run_status ts ≡ some RunStatus.failed)
          ↔ ((all is_terminal_task ts ≡ true) × (any (task_in failed_tasks) ts ≡ true)))
      × ((derive_run_status ts ≡ some RunStatus.cancelled) ↔ (
          (all is_terminal_task ts ≡ true)
          × (any (task_in failed_tasks) ts ≡ false)
          × (any is_canceled ts ≡ true)))
unfolding derive_run_status
derive_run_status-other_iff [] n = absurd (n refl)
derive_run_status-other_iff (t ∷ ts) n =
    other_verdicts (all is_terminal_task (t ∷ ts)) (any (task_in failed_tasks) (t ∷ ts))
      (any is_canceled (t ∷ ts))

abbrev not_completed : Membership → Bool
not_completed m = not (is_run m.status RunStatus.completed)

any-keep :
    {A : Type 0} (p q : A → Bool) (xs : List A) → any p (keep q xs) ≡ any (λ x. q x && p x) xs
any-keep p q [] = refl
any-keep p q (x ∷ xs) = ground (arith, any-keep p q xs)

global_verdict :
    (b c a f : Bool)
    → ((if not b
          then none
          else if c
          then some GlobalRunStatus.cancelled
          else if a
          then some GlobalRunStatus.attention_required
          else if f
          then some GlobalRunStatus.failed
          else some GlobalRunStatus.completed)
        ≡ some GlobalRunStatus.completed)
      ↔ ((b ≡ true) × (c ≡ false) × (a ≡ false) × (f ≡ false))
global_verdict b c a f = ground arith

-- A Global Run is derived as completed exactly when it has members, all of them are terminal, no
-- cancellation was requested, none needs attention, and no required member ended otherwise than
-- completed. Optional members may have failed.
pub derive_global_run_status-completed_iff :
    (ms : List Membership) (c : Bool)
    → (derive_global_run_status ms c ≡ some GlobalRunStatus.completed) ↔ (
        (ms ≢ [])
        × (all (λ m. is_terminal_run m.status) ms ≡ true)
        × (c ≡ false)
        × (any (λ m. m.attention_required) ms ≡ false)
        × (any (λ m. is_required m && not (is_run m.status RunStatus.completed)) ms ≡ false))
unfolding derive_global_run_status
derive_global_run_status-completed_iff [] c = (λ e. cc, λ h. absurd (h.0 refl))
derive_global_run_status-completed_iff (m ∷ ms) c =
    let swap = any-keep not_completed is_required (m ∷ ms) in
    let (to, from) =
      global_verdict (all (λ x. is_terminal_run x.status) (m ∷ ms)) c
        (any (λ x. x.attention_required) (m ∷ ms))
        (any not_completed (keep is_required (m ∷ ms))) in
    (
      λ e. let (b, n, a, f) = to e in ((λ z. cc), b, n, a, sym swap ∙ f),
      λ (_, b, n, a, f). from (b, n, a, swap ∙ f),
    )

abbrev pub one_of : Bool → Bool → Bool → Bool
one_of a b c = (a && (not b && not c)) || (not a && (b && not c)) || (not a && (not b && c))

-- Each Task status is terminal, active or waiting, and only one of them; a successful status and
-- one that needs attention are terminal; and a status that retries automatically is waiting.
pub task_semantics-coherent :
    (s : TaskStatus)
    → let t = task_semantics s in
      ((one_of t.terminal t.active t.waiting
          && (not t.success || t.terminal)
          && (not t.attention || t.terminal)
          && (not (t.retry =s= "automatic") || t.waiting)
          && (not t.success || t.retry =s= "none"))
        ≡ true)
unfolding task_semantics
task_semantics-coherent TaskStatus.staged = refl
task_semantics-coherent _ = refl
