-- ===== src/States/Agent.antt =====
-- The Agent states of src/domain-states.js.
use codex_threadhub.Base.{
  ℕ, String, ◌≡◌, refl, Bool, ◌||◌, List, [], ◌∷◌, if◌then◌else◌, Option, none, some, any, ◌=s=◌,
  Result,
}
use codex_threadhub.States.Machine.{Machine, Options, StateError, get_elem?, has, same, transition}

pub data AgentStatus : Type 0 where
  unknown available idle leased running validating approval_waiting : AgentStatus

abbrev pub agent_statuses : List AgentStatus
agent_statuses = unknown ∷ available ∷ idle ∷ leased ∷ running ∷ validating ∷ approval_waiting ∷ []

abbrev pub agent_spelling : AgentStatus → String
agent_spelling unknown = "unknown"
agent_spelling available = "available"
agent_spelling idle = "idle"
agent_spelling leased = "leased"
agent_spelling running = "running"
agent_spelling validating = "validating"
agent_spelling approval_waiting = "approval_waiting"

abbrev pub agent_code : AgentStatus → ℕ
agent_code unknown = 0
agent_code available = 1
agent_code idle = 2
agent_code leased = 3
agent_code running = 4
agent_code validating = 5
agent_code approval_waiting = 6

abbrev pub agent_moves : AgentStatus → List AgentStatus
agent_moves unknown = available ∷ idle ∷ leased ∷ running ∷ approval_waiting ∷ []
agent_moves available = unknown ∷ idle ∷ leased ∷ running ∷ approval_waiting ∷ []
agent_moves idle = unknown ∷ available ∷ leased ∷ running ∷ validating ∷ approval_waiting ∷ []
agent_moves leased = unknown ∷ available ∷ idle ∷ running ∷ approval_waiting ∷ []
agent_moves running = unknown ∷ available ∷ idle ∷ validating ∷ approval_waiting ∷ []
agent_moves validating = unknown ∷ available ∷ idle ∷ running ∷ approval_waiting ∷ []
agent_moves approval_waiting = unknown ∷ available ∷ idle ∷ running ∷ validating ∷ []

pub agent_listed : (s : AgentStatus) → get_elem? agent_statuses (agent_code s) ≡ some s
agent_listed unknown = refl
agent_listed _ = refl

abbrev pub agent_machine : Machine AgentStatus
agent_machine = record {
  entity = "Agent";
  label = "Agent";
  statuses = agent_statuses;
  spelling = agent_spelling;
  code = agent_code;
  moves = agent_moves;
  listed = agent_listed;
}

abbrev pub active_agents : List AgentStatus
active_agents = leased ∷ running ∷ validating ∷ approval_waiting ∷ []

abbrev pub is_agent : AgentStatus → AgentStatus → Bool
is_agent = same agent_machine

abbrev pub agent_in : List AgentStatus → AgentStatus → Bool
agent_in = has agent_machine

-- `normalizeAgentStatus`: a status of the App Server, which may be missing, with its active flags.
unfoldable pub normalize_agent_status : Option String → List String → String
normalize_agent_status none flags = "unknown"
normalize_agent_status (some status) flags =
    if status =s= "notLoaded"
    then "available"
    else if status =s= "systemError"
    then "unknown"
    else if status =s= "active"
    then if any (λ f. f =s= "waitingOnApproval") flags
        || any (λ f. f =s= "waitingOnUserInput") flags
      then "approval_waiting"
      else "running"
    else status

unfoldable pub transition_agent : String → String → Options → Result StateError AgentStatus
unfolding transition
transition_agent = transition agent_machine
