-- ===== src/Routing/Policy.antt =====
-- classifyTaskGraph of src/dispatch-policy.js, without the texts of its reasons.
use codex_threadhub.Base.{
  ◌⊎◌, refl, Bool-cases, inl, inr, ℕ, suc, ◌+◌, ◌-◌, ◌*◌, ◌≤◌, String, Bool, not, ◌&&◌, ◌||◌, List,
  [], ◌∷◌, any, length, leb, ◌==◌, ◌=s=◌, if◌then◌else◌, Result, ok, ◌>>=◌, throw_if,
  throw_if-eq_ok, ok_inj, ◌≡◌, ◌↔◌, subst, arith,
}
use codex_threadhub.Base.Counts.{count}

-- A role or a mode that is missing is empty.
pub record PlannedTask : Type 0 where
  pub depends_on : List String
  pub role : String
  pub workspace_mode : String

pub data Level : Type 0 where
  low medium high : Level

pub record DispatchPlan : Type 0 where
  pub dispatch_path : String
  pub level : Level
  pub score : ℕ
  pub task_count : ℕ
  pub dependency_count : ℕ
  pub role_count : ℕ
  pub parallel_roots : ℕ
  pub isolated_tasks : ℕ

pub data PolicyError : Type 0 where
  unsupported_mode : String → PolicyError

abbrev pub modes : List String
modes = "auto" ∷ "direct" ∷ "orchestrated" ∷ []

unfoldable pub count_dependencies : List PlannedTask → ℕ
count_dependencies [] = 0
count_dependencies (t ∷ tasks) = length t.depends_on + count_dependencies tasks

-- The size of the set of the roles that are not empty.
unfoldable pub count_roles : List PlannedTask → ℕ
count_roles [] = 0
count_roles (t ∷ tasks) =
    let rest = count_roles tasks in
    if t.role =s= "" || any (λ u. u.role =s= t.role) tasks then rest else suc rest

abbrev pub is_isolated : PlannedTask → Bool
is_isolated t = t.workspace_mode =s= "worktree"

abbrev pub is_root : PlannedTask → Bool
is_root t = length t.depends_on == 0

abbrev pub min : ℕ → ℕ → ℕ
min a b = if leb a b then a else b

-- `Math.max(0, n - 1)` is `n - 1` on natural numbers.
unfoldable pub score_of : List PlannedTask → ℕ
unfolding count_dependencies count_roles
score_of tasks = min 100 (
    (length tasks - 1) * 22
    + count_dependencies tasks * 12
    + (count_roles tasks - 1) * 10
    + count is_isolated tasks * 8
    + (count is_root tasks - 1) * 6)

abbrev pub level_of : ℕ → Level
level_of score = if leb 65 score then high else if leb 25 score then medium else low

unfoldable pub inferred_path : List PlannedTask → String
unfolding count_dependencies
inferred_path tasks =
    if length tasks == 1 && count_dependencies tasks == 0 then "direct" else "orchestrated"

unfoldable pub classify_task_graph : List PlannedTask → String → Result PolicyError DispatchPlan
unfolding score_of inferred_path
classify_task_graph tasks mode =
    throw_if (not (any (λ m. m =s= mode) modes)) (unsupported_mode mode) >>= λ _. ok record {
      dispatch_path = if mode =s= "auto" then inferred_path tasks else mode;
      level = level_of (score_of tasks);
      score = score_of tasks;
      task_count = length tasks;
      dependency_count = count_dependencies tasks;
      role_count = count_roles tasks;
      parallel_roots = count is_root tasks;
      isolated_tasks = count is_isolated tasks;
    }

count-le-length : (p : PlannedTask → Bool) (tasks : List PlannedTask) → count p tasks ≤ length tasks
count-le-length p [] = omega arith
count-le-length p (t ∷ tasks) = ground (arith, count-le-length p tasks)

count_roles-le-length : (tasks : List PlannedTask) → count_roles tasks ≤ length tasks
unfolding count_roles
count_roles-le-length [] = omega arith
count_roles-le-length (t ∷ tasks) = ground (arith, count_roles-le-length tasks)

-- Tasks that are not roots have a dependency.
others-le-dependencies :
    (tasks : List PlannedTask) → length tasks ≤ count is_root tasks + count_dependencies tasks
unfolding count_dependencies
others-le-dependencies [] = omega arith
others-le-dependencies (t ∷ tasks) = ground (arith, others-le-dependencies tasks)

-- The numbers stay within their bounds.
pub record IsBounded (d : DispatchPlan) : Type 0 where
  pub score : d.score ≤ 100
  pub roles : d.role_count ≤ d.task_count
  pub roots : d.parallel_roots ≤ d.task_count
  pub isolated : d.isolated_tasks ≤ d.task_count
  pub dependent : d.task_count ≤ d.parallel_roots + d.dependency_count
  pub high_if : (d.level ≡ high) ↔ (65 ≤ d.score)
  pub low_if : (d.level ≡ low) ↔ (d.score + 1 ≤ 25)
  pub explained :
      (d.score ≡ 100)
      ⊎ (d.score
          ≡ (d.task_count - 1) * 22
            + d.dependency_count * 12
            + (d.role_count - 1) * 10
            + d.isolated_tasks * 8
            + (d.parallel_roots - 1) * 6)
  pub several : 2 ≤ d.task_count → 25 ≤ d.score
  pub many : 4 ≤ d.task_count → d.level ≡ high
  pub single : d.task_count ≡ 1 → d.dependency_count ≡ 0 → d.level ≡ low

score-le : (n : ℕ) → min 100 n ≤ 100
score-le n = ground arith

score_of-le : (tasks : List PlannedTask) → score_of tasks ≤ 100
unfolding score_of
score_of-le tasks = score-le (
    (length tasks - 1) * 22
    + count_dependencies tasks * 12
    + (count_roles tasks - 1) * 10
    + count is_isolated tasks * 8
    + (count is_root tasks - 1) * 6)

min-either : (n : ℕ) → (min 100 n ≡ 100) ⊎ (min 100 n ≡ n)
min-either n = elim (Bool-cases (leb 100 n)) [ inl y ↦ inl (rw y refl) | inr m ↦ inr (rw m refl) ]

score_of-explained :
    (tasks : List PlannedTask)
    → (score_of tasks ≡ 100)
      ⊎ (score_of tasks
          ≡ (length tasks - 1) * 22
            + count_dependencies tasks * 12
            + (count_roles tasks - 1) * 10
            + count is_isolated tasks * 8
            + (count is_root tasks - 1) * 6)
unfolding score_of
score_of-explained tasks = min-either _

min-above : (k n : ℕ) → k ≤ 100 → k ≤ n → k ≤ min 100 n
min-above k n h l = ground arith

min-below : (k n : ℕ) → n ≤ k → min 100 n + 1 ≤ k + 1
min-below k n h = ground arith

level-high : (n : ℕ) → (level_of n ≡ high) ↔ (65 ≤ n)
level-high n = (λ e. ground arith, λ h. ground arith)

level-low : (n : ℕ) → (level_of n ≡ low) ↔ (n + 1 ≤ 25)
level-low n = (λ e. ground arith, λ h. ground arith)

score_of-several : (tasks : List PlannedTask) → 2 ≤ length tasks → 25 ≤ score_of tasks
unfolding score_of
score_of-several tasks h =
    let k = others-le-dependencies tasks in
    min-above 25
      ((length tasks - 1) * 22
        + count_dependencies tasks * 12
        + (count_roles tasks - 1) * 10
        + count is_isolated tasks * 8
        + (count is_root tasks - 1) * 6)
      (omega arith) (omega arith)

score_of-many : (tasks : List PlannedTask) → 4 ≤ length tasks → 65 ≤ score_of tasks
unfolding score_of
score_of-many tasks h =
    min-above 65
      ((length tasks - 1) * 22
        + count_dependencies tasks * 12
        + (count_roles tasks - 1) * 10
        + count is_isolated tasks * 8
        + (count is_root tasks - 1) * 6)
      (omega arith) (omega arith)

score_of-single :
    (tasks : List PlannedTask)
    → length tasks ≡ 1
    → count_dependencies tasks ≡ 0
    → score_of tasks + 1 ≤ 25
unfolding score_of
score_of-single tasks h k =
    let roles = count_roles-le-length tasks in
    let roots = count-le-length is_root tasks in
    let isolated = count-le-length is_isolated tasks in
    min-below 24
      ((length tasks - 1) * 22
        + count_dependencies tasks * 12
        + (count_roles tasks - 1) * 10
        + count is_isolated tasks * 8
        + (count is_root tasks - 1) * 6)
      (omega arith)

-- A dispatch keeps its bounds: the score is at most 100, and below that it is the weighted sum of the
-- counts that the dispatch reports; roles, parallel roots and isolated tasks are no more than the
-- tasks, and the tasks no more than the roots and the dependencies together; the level is high from
-- a score of 65 on, and low below 25. Two tasks or more score at least 25, four or more are always of
-- level high, and a single task without a dependency is of level low.
pub classify_task_graph-IsBounded :
    (tasks : List PlannedTask) (mode : String) (d : DispatchPlan)
    → classify_task_graph tasks mode ≡ ok d
    → IsBounded d
unfolding classify_task_graph
classify_task_graph-IsBounded tasks mode d h =
    let (_, h1) = throw_if-eq_ok (not (any (λ m. m =s= mode) modes)) (unsupported_mode mode) _ h in
    subst IsBounded (ok_inj h1) record {
      score = score_of-le tasks;
      roles = count_roles-le-length tasks;
      roots = count-le-length is_root tasks;
      isolated = count-le-length is_isolated tasks;
      dependent = others-le-dependencies tasks;
      high_if = level-high (score_of tasks);
      low_if = level-low (score_of tasks);
      explained = score_of-explained tasks;
      several = score_of-several tasks;
      many = λ h. (level-high (score_of tasks)).1 (score_of-many tasks h);
      single = λ h k. (level-low (score_of tasks)).1 (score_of-single tasks h k);
    }
