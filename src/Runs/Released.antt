-- ===== src/Runs/Released.antt =====
-- What `releaseStagedRun` of src/registry.js does to the tasks, and when it may.
use mathlib.Core.List.{Memᴰ}
use codex_threadhub.Base.{
  leb, ℕ, ◌+◌, String, Bool, true, false, ◌&&◌, ◌||◌, some, List, [], ◌∷◌, map, any, keep, length,
  Result, ok, err, ◌≡◌, refl, sym, subst, ◌∙◌, arith, ◌=s=◌, inl, inr, if◌then◌else◌, Bool-cases,
  eq_iff, eq_refl,
}
use codex_threadhub.Base.Sql.{holds, eq}
use codex_threadhub.Base.Order.{any-order_by}
use codex_threadhub.Base.Members.{any-keep}
use codex_threadhub.Base.Table.{
  map_same, map-update_where, any-true, any-Memᴰ, update_where, returned,
}
use codex_threadhub.Registry.{Task, Registry}
use codex_threadhub.States.Task.{TaskStatus, is_task}
use codex_threadhub.Tasks.Rules.{UniqueIds, unique_row}
use codex_threadhub.Runs.Rows.{Store, RunError, id_required, get_run}
use codex_threadhub.Runs.Release.{
  is_staged, staged_of, oldest_first, has_dependency, released_row, with_row, release_each,
  with_released, release_checked, check_release, release_staged_run,
}
use codex_threadhub.Runs.Events.{start_run-same, with_released-same}

module _ {A : Type 0} where
  map-same : (g h : A → A) (xs : List A) → ((x : A) → Memᴰ x xs → g x ≡ h x) → map g xs ≡ map h xs
  map-same g h [] e = refl
  map-same g h (x ∷ xs) e =
      rw (e x (Memᴰ.head refl), map-same g h xs (λ y m. e y (Memᴰ.tail m))) refl

module _ (r : Registry) (now : ℕ) where
  not_staged : (t : Task) → is_staged (released_row r now t) ≡ false
  not_staged t = elim (Bool-cases (has_dependency r t)) [ inl y ↦ rw y refl | inr n ↦ rw n refl ]

  -- What the updates for these rows make of a row.
  abbrev after : List Task → Task → Task
  after ls t = if is_staged t && any (λ l. t.id =s= l.id) ls then released_row r now t else t

  after_none : (t : Task) → after [] t ≡ t
  after_none t = elim (Bool-cases (is_staged t)) [ inl y ↦ rw y refl | inr n ↦ rw n refl ]

  after_step :
      (l : Task) (ls : List Task) (t : Task)
      → after ls (if t.id =s= l.id && is_staged t then released_row r now t else t)
        ≡ after (l ∷ ls) t
  after_step l ls t = go (t.id =s= l.id) (is_staged t) refl
    where
      go :
          (a b : Bool)
          → is_staged t ≡ b
          → after ls (if a && b then released_row r now t else t)
            ≡ (if b && (a || any (λ l. t.id =s= l.id) ls) then released_row r now t else t)
      go true true e = rw (not_staged t) refl
      go true false e = rw e refl
      go false true e = rw e refl
      go false false e = rw e refl

  release_each-rows :
      (ls rows out : List Task) → (release_each r now ls (rows, out)).0 ≡ map (after ls) rows
  unfolding release_each
  release_each-rows [] rows out = sym (map_same (after []) rows after_none)
  release_each-rows (l ∷ ls) rows out =
      let p = λ (x : Task). x.id =s= l.id && is_staged x in
      let f = released_row r now in
      release_each-rows ls (update_where p f rows) (with_row (returned p f rows) out)
      ∙ map-update_where (after ls) (after (l ∷ ls)) p f rows (after_step l ls)

-- The rows that are listed are the staged ones of the Run.
listed_after :
    (r : Registry) (now : ℕ) (id : String) (t : Task)
    → UniqueIds r.tasks
    → Memᴰ t r.tasks
    → after r now (oldest_first (keep (staged_of id) r.tasks)) t
      ≡ (if staged_of id t then released_row r now t else t)
listed_after r now id t u m =
    go (is_staged t) (any (λ l. t.id =s= l.id) (oldest_first (keep (staged_of id) r.tasks))) refl (
      any-order_by (λ u x. leb u.created_at x.created_at) (λ l. t.id =s= l.id)
        (keep (staged_of id) r.tasks)
      ∙ any-keep (λ l. t.id =s= l.id) (staged_of id) r.tasks)
  where
    same : Task → Bool
    same x = staged_of id x && t.id =s= x.id

    listed : any same r.tasks ≡ true → staged_of id t ≡ true
    listed h =
        let (x, k, e) = any-true same r.tasks h in
        let one = unique_row r.tasks u m k ((eq_iff t.id x.id).0 (ground arith)) in
        subst (λ y. staged_of id y ≡ true) (sym one) (ground arith)

    found : staged_of id t ≡ true → any same r.tasks ≡ true
    found h = any-Memᴰ same r.tasks m (rw (h, eq_refl t.id) refl)

    go :
        (a b : Bool)
        → is_staged t ≡ a
        → b ≡ any (λ x. staged_of id x && t.id =s= x.id) r.tasks
        → (if a && b then released_row r now t else t)
          ≡ (if a && holds (eq t.metadata.run_id (some id)) then released_row r now t else t)
    go false b e h = refl
    go true true e h =
        let k = listed (sym h) in
        let mine : holds (eq t.metadata.run_id (some id)) ≡ true = ground arith in rw mine refl
    go true false e h = elim (Bool-cases (holds (eq t.metadata.run_id (some id)))) [
      | inl y ↦ let k = found (rw (e, y) refl) in absurd (cc (h, k))
      | inr n ↦ rw n refl
    ]

release_checked-tasks :
    (id : String) (now n : ℕ) (s : Store) (c : Result RunError (Unit {0}))
    → UniqueIds s.registry.tasks
    → (release_checked id now s c).1 ≡ ok n
    → (release_checked id now s c).0.registry.tasks
      ≡ map (λ t. if staged_of id t then released_row s.registry now t else t) s.registry.tasks
release_checked-tasks id now n s (err x) u e = cc e
release_checked-tasks id now n s (ok _) u e =
    let r = s.registry in
    let ls = oldest_first (keep (staged_of id) r.tasks) in
    let out = release_each r now ls (r.tasks, []) in
    let t = with_released id out s in
    start_run-same (λ r. r.tasks) (λ a b c r. refl) id (length out.1) now t (get_run id t)
    ∙ with_released-same (λ r. r.tasks) (λ a b c r. refl) id out s
    ∙ release_each-rows r now ls r.tasks []
    ∙ map-same (after r now ls) (λ t. if staged_of id t then released_row r now t else t) r.tasks
        (λ t m. listed_after r now id t u m)

-- A release that returns leaves each task as it was, except that a staged one that names the Run in
-- its metadata is `blocked` if the table of dependencies has a row of it and `queued` if not, with
-- the time of the release as that of its update and a version higher by one.
pub release_staged_run-tasks :
    (id : String) (now n : ℕ) (s : Store)
    → UniqueIds s.registry.tasks
    → (release_staged_run id now s).1 ≡ ok n
    → (release_staged_run id now s).0.registry.tasks
      ≡ map
          (λ t.
            if is_task t.status TaskStatus.staged && holds (eq t.metadata.run_id (some id))
            then record t {
              status =
                  if any (λ d. d.task_id =s= t.id) s.registry.dependencies
                  then TaskStatus.blocked
                  else TaskStatus.queued;
              updated_at = now;
              version = t.version + 1;
            }
            else t)
          s.registry.tasks
unfolding release_staged_run
release_staged_run-tasks id now n s u e = go (id =s= "") e
  where
    late : Store × Result RunError ℕ
    late = release_checked id now s (check_release s.registry id (get_run id s))

    go :
        (b : Bool)
        → (if b then (s, err id_required) else late).1 ≡ ok n
        → (if b then (s, err id_required) else late).0.registry.tasks
          ≡ map (λ t. if staged_of id t then released_row s.registry now t else t) s.registry.tasks
    go true e = cc e
    go false e = release_checked-tasks id now n s (check_release s.registry id (get_run id s)) u e
