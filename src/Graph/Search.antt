-- ===== src/Graph/Search.antt =====
-- The depth-first search of validateTaskGraph and of validateGlobalProjectGraph.
use codex_threadhub.Base.{
  ℕ, zero, suc, String, List, [], ◌∷◌, Result, ok, err, ◌>>=◌, not, keep, length, ◌=s=◌,
  if◌then◌else◌,
}
use codex_threadhub.Graph.Walk.{has}

-- The two sets of the search.
pub record Marks : Type 0 where
  pub visiting : List String
  pub visited : List String

abbrev pub blank : Marks
blank = record { visiting = []; visited = [] }

-- The search stands at an id that it is still visiting; fuel is a bound on the depth of the calls.
pub data Refusal : Type 0 where
  cycle_at : String → Refusal
  out_of_fuel : Refusal

-- `for (const id of ids) visit(id);`.
unfoldable pub visit_each :
    (String → Marks → Result Refusal Marks) → List String → Marks → Result Refusal Marks
visit_each visit_one [] s = ok s
visit_each visit_one (id ∷ ids) s = visit_one id s >>= λ t. visit_each visit_one ids t

abbrev pub enter : String → Marks → Marks
enter id s = record s { visiting = id ∷ s.visiting }

abbrev pub leave : String → Marks → Marks
leave id s = record {
  visiting = keep (λ other. not (other =s= id)) s.visiting;
  visited = id ∷ s.visited;
}

unfoldable pub visit : (String → List String) → ℕ → String → Marks → Result Refusal Marks
visit children zero id s = err out_of_fuel
visit children (suc fuel) id s =
    let inside =
      visit_each (visit children fuel) (children id) (enter id s) >>= λ t. ok (leave id t) in
    if has s.visiting id then err (cycle_at id) else if has s.visited id then ok s else inside

-- The search from every node, with fuel for a chain through all of them.
unfoldable pub search : (String → List String) → List String → Result Refusal Marks
unfolding visit_each visit
search children nodes = visit_each (visit children (suc (length nodes))) nodes blank
