-- ===== src/Tasks/Blocked.antt =====
-- What `refreshBlockedTasks` of src/registry.js decides of a blocked task from the statuses of its
-- dependencies, which it reads by `listTaskDependencies`.
use codex_threadhub.Base.{
  ◌≡◌, ◌↔◌, refl, sym, ap, ◌∙◌, String, Bool, true, false, not, ◌&&◌, ◌||◌, Option, none, some,
  List, [], ◌∷◌, arith, any, all, Bool-cases, inl, inr, ◌=s=◌, if◌then◌else◌,
}
use codex_threadhub.States.Task.{
  TaskStatus, queued, skipped, failed, canceled, completed, completed_with_warnings, failed_tasks,
  task_in, is_task, is_terminal_task,
}
use codex_threadhub.Registry.{
  DependencyPolicy, all_success, all_terminal, on_failure, Task, Dependency, Registry,
}
use codex_threadhub.Tasks.Guards.{unmet, policy_of, dependencies_met}

-- The rows of one dependency in the join, before those of the others.
unfoldable pub matching : String → List Task → List TaskStatus → List TaskStatus
matching id [] rest = rest
matching id (x ∷ xs) rest =
    let more = matching id xs rest in if x.id =s= id then x.status ∷ more else more

unfoldable pub joined : String → List Dependency → List Task → List TaskStatus
unfolding matching
joined id [] ts = []
joined id (d ∷ ds) ts =
    let rest = joined id ds ts in
    let here = matching d.depends_on ts rest in if d.task_id =s= id then here else rest

-- `listTaskDependencies`, of which the statuses decide.
unfoldable pub list_task_dependencies : String → Registry → List TaskStatus
unfolding joined
list_task_dependencies id r = joined id r.dependencies r.tasks

-- `failedDependencyStatuses`.
abbrev pub is_failed : TaskStatus → Bool
is_failed s = task_in failed_tasks s || is_task s canceled

abbrev pub is_completed : TaskStatus → Bool
is_completed s = task_in (completed ∷ completed_with_warnings ∷ []) s

-- The chain of conditions: the status that a blocked task gets, or none if it stays blocked.
unfoldable pub blocked_decision : DependencyPolicy → List TaskStatus → Option TaskStatus
blocked_decision on_failure ss =
    if all is_terminal_task ss then some (if any is_failed ss then queued else skipped) else none
blocked_decision all_terminal ss = if all is_terminal_task ss then some queued else none
blocked_decision all_success ss =
    if any is_failed ss then some failed else if all is_completed ss then some queued else none

module _ (q u : TaskStatus → Bool) where
  any-not-all :
      (ss : List TaskStatus) → ((s : TaskStatus) → u s ≡ not (q s)) → any u ss ≡ not (all q ss)
  any-not-all [] h = refl
  any-not-all (s ∷ ss) h = ground (arith, h s, any-not-all ss h)

  none_of_both :
      (ss : List TaskStatus)
      → ((s : TaskStatus) → q s ≡ true → u s ≡ false)
      → all q ss ≡ true
      → any u ss ≡ false
  none_of_both [] h a = refl
  none_of_both (s ∷ ss) h a =
      let first : q s ≡ true = ground arith in
      let rest = none_of_both ss h (ground arith) in let k = h s first in rw (k, rest) refl

completed_not_failed : (s : TaskStatus) → is_completed s ≡ true → is_failed s ≡ false
completed_not_failed s h = ground arith

-- A blocked task is queued exactly when its policy is met by every dependency, and under on_failure
-- only if one of them failed.
pub blocked_decision-queued_iff :
    (p : DependencyPolicy) (ss : List TaskStatus)
    → (blocked_decision p ss ≡ some queued)
      ↔ ((any (unmet p) ss ≡ false) × (p ≡ on_failure → any is_failed ss ≡ true))
unfolding blocked_decision unmet
blocked_decision-queued_iff all_success ss =
    let e = any-not-all is_completed (unmet all_success) ss (λ s. refl) in
    let k = none_of_both is_completed is_failed ss completed_not_failed in
    (
      (λ h. (ground arith, λ x. cc)),
      (λ h.
          let met = h.0 in
          let done : all is_completed ss ≡ true = ground arith in
          let fine = k done in ground arith),
    )
blocked_decision-queued_iff all_terminal ss =
    let e = any-not-all is_terminal_task (unmet all_terminal) ss (λ s. refl) in
    ((λ h. (ground arith, λ x. cc)), (λ h. ground arith))
blocked_decision-queued_iff on_failure ss =
    let e = any-not-all is_terminal_task (unmet on_failure) ss (λ s. refl) in
    ((λ h. (ground arith, λ x. ground arith)), (λ h. let f = h.1 refl in ground arith))

-- A terminal status that is neither failed nor completed is `skipped`.
skipped_or :
    (s : TaskStatus)
    → is_terminal_task s ≡ true
    → is_failed s ≡ false
    → not (is_completed s) ≡ is_task s skipped
skipped_or s h n = ground arith

module _ (ended bad done left : TaskStatus → Bool) where
  left_over :
      (ss : List TaskStatus)
      → ((s : TaskStatus) → ended s ≡ true → bad s ≡ false → not (done s) ≡ left s)
      → all ended ss ≡ true
      → any bad ss ≡ false
      → any left ss ≡ not (all done ss)
  left_over [] f h n = refl
  left_over (s ∷ ss) f h n =
      let here = f s (ground arith) (ground arith) in
      let rest = left_over ss f (ground arith) (ground arith) in ground arith

-- When every dependency has ended, a blocked task stays blocked exactly if its policy is all_success,
-- no dependency failed or was canceled, and one was skipped.
pub blocked_decision-none_iff :
    (p : DependencyPolicy) (ss : List TaskStatus)
    → all is_terminal_task ss ≡ true
    → (blocked_decision p ss ≡ none)
      ↔ ((p ≡ all_success) × (any is_failed ss ≡ false) × (any (λ s. is_task s skipped) ss ≡ true))
unfolding blocked_decision
blocked_decision-none_iff all_success ss h = elim (Bool-cases (any is_failed ss)) [
  | inl y ↦ rw y ((λ e. cc), (λ e. cc))
  | inr n ↦
      let k =
        left_over is_terminal_task is_failed is_completed (λ s. is_task s skipped) ss skipped_or h
          n in
      rw n ((λ e. (refl, refl, ground arith)), (λ e. let left = e.2 in ground arith))
]
blocked_decision-none_iff all_terminal ss h = rw h ((λ e. cc), (λ e. cc))
blocked_decision-none_iff on_failure ss h = rw h ((λ e. cc), (λ e. cc))

any-matching :
    (u : TaskStatus → Bool) (id : String) (ts : List Task) (rest : List TaskStatus)
    → any u (matching id ts rest) ≡ (any (λ x. x.id =s= id && u x.status) ts || any u rest)
unfolding matching
any-matching u id [] rest = refl
any-matching u id (x ∷ ts) rest = ground (arith, any-matching u id ts rest)

any-joined :
    (u : TaskStatus → Bool) (id : String) (ds : List Dependency) (ts : List Task)
    → any u (joined id ds ts)
      ≡ any (λ d. d.task_id =s= id && any (λ x. x.id =s= d.depends_on && u x.status) ts) ds
unfolding joined
any-joined u id [] ts = refl
any-joined u id (d ∷ ds) ts =
    let rest = any-joined u id ds ts in
    elim (Bool-cases (d.task_id =s= id)) [
      | inl y ↦ rw y (
          any-matching u d.depends_on ts (joined id ds ts)
          ∙ ap (λ z. any (λ x. x.id =s= d.depends_on && u x.status) ts || z) rest)
      | inr n ↦ rw n rest
    ]

-- A task that is released from `blocked` passes the condition of claimTask on its dependencies.
pub blocked_decision-dependencies_met :
    (r : Registry) (t : Task)
    → blocked_decision (policy_of t) (list_task_dependencies t.id r) ≡ some queued
    → dependencies_met r t ≡ true
unfolding list_task_dependencies dependencies_met
blocked_decision-dependencies_met r t h =
    let met =
      ((blocked_decision-queued_iff (policy_of t) (joined t.id r.dependencies r.tasks)).0 h).0 in
    let same = any-joined (unmet (policy_of t)) t.id r.dependencies r.tasks in
    ap not (sym same ∙ met)
