-- ===== src/Tasks/Rounds.antt =====
-- The rounds of `refreshBlockedTasks` end: each but the last leaves fewer tasks blocked.
use codex_threadhub.Base.{
  ℕ, suc, ◌≤◌, ◌≡◌, ◌≢◌, ◌⊎◌, refl, sym, subst, subst⁻¹, ◌∙◌, String, Bool, true, false, Option,
  none, some, List, [], ◌∷◌, arith, All, All-map, All-Memᴰ, Bool-cases, eq_iff, inl, inr, ◌=s=◌, ok,
  ok_inj, bind-eq_ok,
}
use codex_threadhub.Base.Counts.{count, count-update_where_lt}
use codex_threadhub.Base.Table.{update_where, find-eq_some, All-update_where}
use codex_threadhub.States.Machine.{no_options}
use codex_threadhub.States.Task.{TaskStatus, blocked, is_task, move_task}
use codex_threadhub.Registry.{DependencyPolicy, Task, Registry, get_task}
use codex_threadhub.Tasks.Wait.{update_task, update_found, updated_row, with_event, checked}
use codex_threadhub.Tasks.Blocked.{blocked_decision, list_task_dependencies}
use codex_threadhub.Tasks.Rules.{UniqueIds}
use codex_threadhub.Tasks.Refresh.{
  decided, first_failed, found_policy, Tally, tallied, decide_one, refresh_one, refresh_each,
  is_blocked,
}

abbrev has_id : String → Task → Bool
has_id id t = t.id =s= id

-- Every row of the id is blocked.
abbrev pub AllBlocked : String → List Task → Type 0
AllBlocked id ts = All (λ t. has_id id t ≡ true → is_blocked t ≡ true) ts

decision_unblocks :
    (p : DependencyPolicy) (ss : List TaskStatus) {s : TaskStatus}
    → blocked_decision p ss ≡ some s
    → is_task s blocked ≡ false
unfolding blocked_decision
decision_unblocks p ss h = ground arith

decided_id :
    (s : TaskStatus) (why : Option String) (now : ℕ) (t : Task) → (decided s why now t).id ≡ t.id
decided_id s why now t = ground arith

with_event-tasks :
    (same : Bool) (id : String) (s : TaskStatus) (r : Registry)
    → (with_event same id s r).tasks ≡ r.tasks
with_event-tasks true id s r = refl
with_event-tasks false id s r = refl

-- What an update that returns has written.
record Written (id : String) (s : TaskStatus) (r : Registry) (q : Registry) : Type 0 where
  old : Task
  row : Task
  found : get_task id r ≡ some old
  tasks : q.tasks ≡ update_where (has_id id) (λ _. row) r.tasks
  status : row.status ≡ s
  named : row.id ≡ id

update_found-Written :
    (id : String) (s : TaskStatus) (why : Option String) (now : ℕ) (r : Registry) (o : Option Task)
    {x : Registry × Task}
    → get_task id r ≡ o
    → update_found id s (decided s why now) now r o ≡ ok x
    → Written id s r x.0
update_found-Written id s why now r none e h = cc h
update_found-Written id s why now r (some t) {x} e h =
    let (u, fine, done) = bind-eq_ok (checked (move_task t.status s no_options)) _ h in
    let (listed, named) = find-eq_some (λ z. z.id =s= id) r.tasks e in
    let row = updated_row s (decided s why now) now t in
    let made : Registry × Task = (
      with_event (is_task t.status s) id s
          (record r { tasks = update_where (has_id id) (λ _. row) r.tasks }),
      row,
    ) in
    let same : made ≡ x = ok_inj done in
    subst (λ z. Written id s r z.0) same
      (record {
        old = t;
        row = row;
        found = e;
        tasks = with_event-tasks (is_task t.status s) id s _;
        status = refl;
        named = decided_id s why now t ∙ (eq_iff t.id id).0 named;
      })

pub UniqueIds-update_where :
    (p : Task → Bool) (f : Task → Task) (ts : List Task)
    → ((t : Task) → p t ≡ true → (f t).id ≡ t.id)
    → UniqueIds ts
    → UniqueIds (update_where p f ts)
unfolding update_where
UniqueIds-update_where p f [] same u = tt
UniqueIds-update_where p f (t ∷ ts) same (n, u) = (
  elim (Bool-cases (p t)) [
    | inl y ↦ rw y (All-map _ _ (update_where p f ts) (λ x k e. k (e ∙ same t y)) others)
    | inr m ↦ rw m others
  ],
  UniqueIds-update_where p f ts same u,
)
  where
    others : All (λ x. x.id ≢ t.id) (update_where p f ts)
    others = All-update_where (λ x. x.id ≢ t.id) p f ts (λ x y k e. k (sym (same x y) ∙ e)) n

-- The number of blocked tasks.
abbrev pub blocked_count : Registry → ℕ
blocked_count r = count is_blocked r.tasks

-- What a part of a round does to the tasks, where the ids in `done` are those it is about.
pub record Progress (s t : Tally) : Type 0 where
  pub fewer : blocked_count t.registry ≤ blocked_count s.registry
  pub again :
      t.again ≡ true
      → (s.again ≡ true) ⊎ (suc (blocked_count t.registry) ≤ blocked_count s.registry)
  pub unique : UniqueIds s.registry.tasks → UniqueIds t.registry.tasks

abbrev Leaves : String → Tally → Tally → Type 0
Leaves id s t =
    (j : String) → j ≢ id → AllBlocked j s.registry.tasks → AllBlocked j t.registry.tasks

Progress-refl : (s : Tally) → Progress s s
Progress-refl s = record { fewer = omega arith; again = λ h. inl h; unique = λ u. u }

Progress-trans : (s t u : Tally) → Progress s t → Progress t u → Progress s u
Progress-trans s t u p q =
    let a = p.fewer in
    let b = q.fewer in
    record {
      fewer = omega arith;
      again = λ h. elim (q.again h) [
        | inl k ↦ elim (p.again k) [ inl l ↦ inl l | inr l ↦ inr (omega arith) ]
        | inr k ↦ inr (omega arith)
      ];
      unique = λ v. q.unique (p.unique v);
    }

Written-Progress :
    (id : String) (st : TaskStatus) (o : Option Task) (s : Tally) (q : Registry)
    → is_task st blocked ≡ false
    → AllBlocked id s.registry.tasks
    → Written id st s.registry q
    → Progress s (tallied st o s q) × Leaves id s (tallied st o s q)
Written-Progress id st o s q off all w =
    let row_off : is_blocked w.row ≡ false =
      subst⁻¹ (λ z. is_task z blocked ≡ false) w.status off in
    let (listed, named) = find-eq_some (λ z. z.id =s= id) s.registry.tasks w.found in
    let was =
      All-Memᴰ (λ t. has_id id t ≡ true → is_blocked t ≡ true) s.registry.tasks all listed named in
    let less =
      count-update_where_lt is_blocked (has_id id) (λ _. w.row) s.registry.tasks listed named was
        (λ x y. row_off) in
    let strict =
      subst⁻¹ (λ z. suc (count is_blocked z) ≤ count is_blocked s.registry.tasks) w.tasks less in
    (
      record {
        fewer = omega arith;
        again = λ h. inr strict;
        unique = λ u. subst⁻¹ UniqueIds w.tasks (
            UniqueIds-update_where (has_id id) (λ _. w.row) s.registry.tasks
              (λ t y. w.named ∙ sym ((eq_iff t.id id).0 y)) u);
      },
      (λ j other h. subst⁻¹ (AllBlocked j) w.tasks (
          All-update_where (λ t. has_id j t ≡ true → is_blocked t ≡ true) (has_id id) (λ _. w.row)
            s.registry.tasks
            (λ x y k mine. absurd (other (sym ((eq_iff w.row.id j).0 mine) ∙ w.named))) h)),
    )

decide_one-Progress :
    (id : String) (now : ℕ) (s t : Tally) (p : DependencyPolicy) (ss : List TaskStatus)
    (o : Option TaskStatus)
    → blocked_decision p ss ≡ o
    → AllBlocked id s.registry.tasks
    → decide_one id now s o ≡ ok t
    → Progress s t × Leaves id s t
unfolding update_task
decide_one-Progress id now s t p ss none e all h =
    let same : s ≡ t = ok_inj h in
    subst (λ z. Progress s z × Leaves id s z) same (Progress-refl s, (λ j other k. k))
decide_one-Progress id now s t p ss (some st) e all h =
    let r = s.registry in
    let why = first_failed id r.dependencies r.tasks in
    let (x, wrote, done) =
      bind-eq_ok (update_found id st (decided st why now) now r (get_task id r))
        (λ x. ok (tallied st (get_task id r) s x.0)) h in
    subst (λ z. Progress s z × Leaves id s z) (ok_inj done)
      (Written-Progress id st (get_task id r) s x.0 (decision_unblocks p ss e) all
        (update_found-Written id st why now r (get_task id r) refl wrote))

-- The ids differ, and every row of theirs is blocked.
abbrev pub Apart : List String → Type 0
Apart [] = Unit
Apart (i ∷ ids) = All (λ j. j ≢ i) ids × Apart ids

abbrev pub Pending : List String → List Task → Type 0
Pending ids ts = All (λ i. AllBlocked i ts) ids × Apart ids

pub refresh_each-Progress :
    (now : ℕ) (ids : List String) (s t : Tally)
    → Pending ids s.registry.tasks
    → refresh_each now ids s ≡ ok t
    → Progress s t
unfolding refresh_each refresh_one
refresh_each-Progress now [] s t p h = subst (Progress s) (ok_inj h) (Progress-refl s)
refresh_each-Progress now (id ∷ ids) s t ((all, alls), (apart, aparts)) h =
    let (m, one, rest) = bind-eq_ok (refresh_one now s id) (λ x. refresh_each now ids x) h in
    let (first, leaves) =
      decide_one-Progress id now s m (found_policy (get_task id s.registry))
        (list_task_dependencies id s.registry)
        (blocked_decision (found_policy (get_task id s.registry))
          (list_task_dependencies id s.registry))
        refl all one in
    Progress-trans s m t first
      (refresh_each-Progress now ids m t (others m leaves ids apart alls, aparts) rest)
  where
    others :
        (m : Tally)
        → Leaves id s m
        → (js : List String) → All (λ j. j ≢ id) js
        → All (λ i. AllBlocked i s.registry.tasks) js
        → All (λ i. AllBlocked i m.registry.tasks) js
    others m leaves [] n k = tt
    others m leaves (j ∷ js) (n, ns) (k, ks) = (leaves j n k, others m leaves js ns ks)
