-- ===== src/Graph/Tasks.antt =====
-- validateTaskGraph of src/registry.js.
pub mod Index
pub mod Checked
pub mod Valid
use codex_threadhub.Base.{
  String, Bool, not, ◌||◌, List, [], ◌∷◌, map, Option, none, some, find, Result, ok, err, ◌>>=◌,
  throw_if, ◌=s=◌,
}
use codex_threadhub.Graph.Walk.{has}
use codex_threadhub.Graph.Search.{Marks, Refusal, search}

-- A text that is missing is empty, since both are refused; so is a list that is missing.
pub record GraphTask : Type 0 where
  pub id : String
  pub prompt : String
  pub depends_on : List String

pub data GraphError : Type 0 where
  tasks_required fields_required : GraphError
  duplicate_id unknown_dependency self_dependency : String → GraphError
  search_refused : Refusal → GraphError

abbrev pub ids_of : List GraphTask → List String
ids_of tasks = map (λ t. t.id) tasks

-- `byId`, the newest entry first.
unfoldable pub index_tasks : List GraphTask → List GraphTask → Result GraphError (List GraphTask)
index_tasks by_id [] = ok by_id
index_tasks by_id (t ∷ tasks) = throw_if (t.id =s= "" || t.prompt =s= "") fields_required >>= λ _.
    throw_if (has (ids_of by_id) t.id) (duplicate_id t.id) >>= λ _. index_tasks (t ∷ by_id) tasks

unfoldable pub check_each : List GraphTask → String → List String → Result GraphError (Unit {0})
check_each by_id id [] = ok tt
check_each by_id id (d ∷ ds) = throw_if (not (has (ids_of by_id) d)) (unknown_dependency d) >>= λ _.
    throw_if (d =s= id) (self_dependency id) >>= λ _. check_each by_id id ds

unfoldable pub check_dependencies : List GraphTask → List GraphTask → Result GraphError (Unit {0})
unfolding check_each
check_dependencies by_id [] = ok tt
check_dependencies by_id (t ∷ tasks) =
    check_each by_id t.id t.depends_on >>= λ _. check_dependencies by_id tasks

abbrev pub depends_of : Option GraphTask → List String
depends_of none = []
depends_of (some t) = t.depends_on

-- `byId.get(taskId).dependsOn ?? []`.
abbrev pub dependencies_of : List GraphTask → String → List String
dependencies_of tasks id = depends_of (find (λ t. t.id =s= id) tasks)

abbrev pub verdict : Result Refusal Marks → Result GraphError (Unit {0})
verdict (ok marks) = ok tt
verdict (err r) = err (search_refused r)

abbrev pub is_empty : List GraphTask → Bool
is_empty [] = Bool.true
is_empty (t ∷ tasks) = Bool.false

unfoldable pub validate_task_graph : List GraphTask → Result GraphError (Unit {0})
unfolding index_tasks check_dependencies search
validate_task_graph tasks = throw_if (is_empty tasks) tasks_required >>= λ _.
    index_tasks [] tasks >>= λ by_id.
    check_dependencies by_id tasks >>= λ _. verdict (search (dependencies_of by_id) (ids_of tasks))
