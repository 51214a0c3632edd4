-- ===== src/Graph/Projects.antt =====
-- validateGlobalProjectGraph of src/global-runs.js.
pub mod Index
pub mod Accepted
use codex_threadhub.Base.{
  String, Bool, not, ◌||◌, ◌&&◌, List, [], ◌∷◌, ◌++◌, map, keep, Option, Result, ok, err, ◌>>=◌,
  throw_if, or_else, ◌=s=◌, any,
}
use codex_threadhub.Graph.Walk.{has}
use codex_threadhub.Graph.Search.{Marks, Refusal, search}

-- A missing id is empty.
pub record ProjectRun : Type 0 where
  pub run_id : String
  pub membership : Option String

pub record CrossEdge : Type 0 where
  pub id : String
  pub producer_run_id : String
  pub consumer_run_id : String
  pub condition : Option String

pub data ProjectGraphError : Type 0 where
  projects_required project_id_required membership_invalid unknown_run self_dependency
        condition_invalid :
      ProjectGraphError
  duplicate_project : String → ProjectGraphError
  search_refused : Refusal → ProjectGraphError

abbrev pub membership_kinds : List String
membership_kinds = "required" ∷ "optional" ∷ []

abbrev pub dependency_conditions : List String
dependency_conditions = "all_success" ∷ "all_terminal" ∷ "on_failure" ∷ []

-- The set `ids`, the newest first.
unfoldable pub index_projects :
    List String → List ProjectRun → Result ProjectGraphError (List String)
index_projects ids [] = ok ids
index_projects ids (p ∷ projects) = throw_if (p.run_id =s= "") project_id_required >>= λ _.
    throw_if (has ids p.run_id) (duplicate_project p.run_id) >>= λ _.
    throw_if (not (has membership_kinds (or_else p.membership "required"))) membership_invalid
    >>= λ _. index_projects (p.run_id ∷ ids) projects

-- Each dependency that passes adds its consumer to the edges of its producer.
unfoldable pub add_edges :
    List String → List CrossEdge → List CrossEdge → Result ProjectGraphError (List CrossEdge)
add_edges ids edges [] = ok edges
add_edges ids edges (d ∷ dependencies) =
    throw_if (d.id =s= "" || not (has ids d.producer_run_id) || not (has ids d.consumer_run_id))
      unknown_run
    >>= λ _. throw_if (d.producer_run_id =s= d.consumer_run_id) self_dependency >>= λ _.
        throw_if (not (has dependency_conditions (or_else d.condition "all_success")))
          condition_invalid
        >>= λ _. add_edges ids (edges ++ (d ∷ [])) dependencies

-- `edges.get(id)`.
abbrev pub consumers_of : List CrossEdge → String → List String
consumers_of edges id = map (λ d. d.consumer_run_id) (keep (λ d. d.producer_run_id =s= id) edges)

abbrev pub verdict : Result Refusal Marks → Result ProjectGraphError Bool
verdict (ok marks) = ok Bool.true
verdict (err r) = err (search_refused r)

abbrev pub is_empty : List ProjectRun → Bool
is_empty [] = Bool.true
is_empty (p ∷ projects) = Bool.false

unfoldable pub validate_global_project_graph :
    List ProjectRun → List CrossEdge → Result ProjectGraphError Bool
unfolding index_projects add_edges search
validate_global_project_graph projects dependencies =
    throw_if (is_empty projects) projects_required >>= λ _. index_projects [] projects >>= λ ids.
    add_edges ids [] dependencies >>= λ edges.
    verdict (search (consumers_of edges) (map (λ p. p.run_id) projects))
