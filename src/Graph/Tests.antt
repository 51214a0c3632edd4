-- ===== src/Graph/Tests.antt =====
-- Graphs of tasks and of projects, and instances of the theorems on them.
use codex_threadhub.Base.{String, List, [], ◌∷◌, none, some, ok, err, true, ◌≡◌, ◌↔◌, refl}
use codex_threadhub.Graph.Walk.{Walk}
use codex_threadhub.Graph.Search.{cycle_at}
use codex_threadhub.Graph.Tasks.{
  GraphTask, search_refused, duplicate_id, unknown_dependency, dependencies_of, validate_task_graph,
}
use codex_threadhub.Graph.Tasks.Valid.{
  IsTaskGraph, validate_task_graph_iff, validate_task_graph-cycle,
}
use codex_threadhub.Graph.Projects
use codex_threadhub.Graph.Projects.{
  ProjectRun, CrossEdge, consumers_of, validate_global_project_graph, index_projects, add_edges,
}
use codex_threadhub.Graph.Projects.Accepted.{IsProjectGraph, validate_global_project_graph_iff}

abbrev job : String → List String → GraphTask
job id depends_on = record { id = id; prompt = "do it"; depends_on = depends_on }

abbrev diamond : List GraphTask
diamond = job "d" ("b" ∷ "c" ∷ []) ∷ job "b" ("a" ∷ []) ∷ job "c" ("a" ∷ []) ∷ job "a" [] ∷ []

abbrev ring : List GraphTask
ring = job "a" ("c" ∷ []) ∷ job "b" ("a" ∷ []) ∷ job "c" ("b" ∷ []) ∷ []

diamond_accepted : validate_task_graph diamond ≡ ok tt
unfolding validate_task_graph
diamond_accepted = refl

ring_refused : validate_task_graph ring ≡ err (search_refused (cycle_at "a"))
unfolding validate_task_graph
ring_refused = refl

refusals :
    (validate_task_graph (job "a" [] ∷ job "a" [] ∷ []) ≡ err (duplicate_id "a"))
    × (validate_task_graph (job "a" ("b" ∷ []) ∷ []) ≡ err (unknown_dependency "b"))
unfolding validate_task_graph
refusals = (refl, refl)

validate_task_graph_iff_example : (validate_task_graph diamond ≡ ok tt) ↔ IsTaskGraph diamond
validate_task_graph_iff_example = validate_task_graph_iff diamond

diamond-IsTaskGraph : IsTaskGraph diamond
diamond-IsTaskGraph = validate_task_graph_iff_example.0 diamond_accepted

validate_task_graph-cycle_example :
    (id : String) × (cycle_at "a" ≡ cycle_at id) × Walk (dependencies_of ring) id id
validate_task_graph-cycle_example = validate_task_graph-cycle ring (cycle_at "a") ring_refused

abbrev project : String → ProjectRun
project id = record { run_id = id; membership = none }

abbrev feeds : String → String → CrossEdge
feeds a b = record {
  id = "dep";
  producer_run_id = a;
  consumer_run_id = b;
  condition = some "all_terminal";
}

abbrev two_projects : List ProjectRun
two_projects = project "api" ∷ project "web" ∷ []

chain_accepted : validate_global_project_graph two_projects (feeds "api" "web" ∷ []) ≡ ok true
unfolding validate_global_project_graph
chain_accepted = refl

loop_refused :
    validate_global_project_graph two_projects (feeds "api" "web" ∷ feeds "web" "api" ∷ [])
    ≡ err (Projects.search_refused (cycle_at "api"))
unfolding validate_global_project_graph
loop_refused = refl

validate_global_project_graph_iff_example :
    (validate_global_project_graph two_projects (feeds "api" "web" ∷ []) ≡ ok true)
    ↔ IsProjectGraph two_projects (feeds "api" "web" ∷ [])
validate_global_project_graph_iff_example =
    validate_global_project_graph_iff two_projects (feeds "api" "web" ∷ [])
