-- ===== src/Tasks/Claim.antt =====
-- `claimTask` and the methods by which the owner of a claim reports on its task.
use codex_threadhub.Base.{
  ℕ, ◌+◌, String, Bool, ◌&&◌, Option, none, some, List, [], ◌∷◌, any, ◌=s=◌, is_some, or_option,
  Result, ok, err,
}
use codex_threadhub.Base.Sql.{holds, eq}
use codex_threadhub.Base.Table.{update_where, returned}
use codex_threadhub.States.Task.{
  TaskStatus, running, approval_waiting, agent_done, validating, integration_pending, task_in,
}
use codex_threadhub.Registry.{Metadata, Task, Registry, record_event, get_task}
use codex_threadhub.Tasks.Guards.{can_claim}

-- An UPDATE of the tasks, with the row that it returns.
abbrev pub update_tasks : (Task → Bool) → (Task → Task) → Registry → Registry × Option Task
update_tasks p f r = (record r { tasks = update_where p f r.tasks }, returned p f r.tasks)

-- The event is recorded only if a row was returned.
abbrev pub log_if : {A : Type 0} → String → String → Registry × Option A → Registry × Option A
log_if id type (r, none) = (r, none)
log_if id type (r, some t) = (record_event "task" id type r, some t)

abbrev pub claimed : String → String → ℕ → Task → Task
claimed worker token now t = record t {
  status = running;
  worker_id = some worker;
  heartbeat_at = some now;
  updated_at = now;
  started_at = or_option t.started_at (some now);
  attempt = t.attempt + 1;
  next_retry_at = none;
  error = none;
  claim_token = some token;
  version = t.version + 1;
}

-- `assertGlobalTaskGate` is an argument: it may refuse, and may itself update the registry.
abbrev pub GlobalGate : Type 0
GlobalGate = String → Registry → Result String Registry

abbrev pub global_revision : Option Task → Option String
global_revision none = none
global_revision (some t) = t.metadata.global_run_revision_id

-- The gate is asked only about a task of a Global Run.
abbrev pub ask_gate : GlobalGate → String → Registry → Option String → Result String Registry
ask_gate gate id r none = ok r
ask_gate gate id r (some v) = gate id r

abbrev pub pass_gate : GlobalGate → String → Registry → Result String Registry
pass_gate gate id r = ask_gate gate id r (global_revision (get_task id r))

-- The UPDATE, after the gate.
unfoldable pub claim_passed : String → String → String → ℕ → Registry → Registry × Option Task
unfolding can_claim
claim_passed id worker token now g =
    log_if id "task.claimed" (update_tasks (can_claim g id now) (claimed worker token now) g)

unfoldable pub claim_gated :
    String → String → String → ℕ → Registry → Result String Registry → Registry × Option Task
unfolding claim_passed
claim_gated id worker token now r (err e) =
    (record_event "task" id "task.global_claim_fenced" r, none)
claim_gated id worker token now r (ok g) = claim_passed id worker token now g

unfoldable pub claim_task :
    GlobalGate → String → String → String → ℕ → Registry → Registry × Option Task
unfolding claim_gated
claim_task gate id worker token now r = claim_gated id worker token now r (pass_gate gate id r)

-- `id = ? AND worker_id = ? AND claim_token = ?`.
abbrev pub owns : String → String → String → Task → Bool
owns id worker token t =
    t.id =s= id && (holds (eq t.worker_id (some worker)) && holds (eq t.claim_token (some token)))

-- An owned task in one of the statuses.
abbrev pub owned_in : List TaskStatus → String → String → String → Task → Bool
owned_in statuses id worker token t = owns id worker token t && task_in statuses t.status

abbrev pub executing : List TaskStatus
executing = running ∷ approval_waiting ∷ agent_done ∷ validating ∷ integration_pending ∷ []

-- The statuses in which a claim may submit a turn, be bound, be integrated or be accepted.
abbrev pub in_turn : List TaskStatus
in_turn = running ∷ approval_waiting ∷ []

abbrev pub bindable : List TaskStatus
bindable = running ∷ approval_waiting ∷ integration_pending ∷ []

abbrev pub integrable : List TaskStatus
integrable = running ∷ validating ∷ []

abbrev pub acceptable : List TaskStatus
acceptable = validating ∷ integration_pending ∷ []

pub record Binding : Type 0 where
  pub source_thread_id : Option String
  pub agent_id : Option String
  pub mode : Option String
  pub routing : Option String

-- The columns that a sign of life writes.
abbrev pub beaten : ℕ → Task → Task
beaten now t = record t { heartbeat_at = some now; updated_at = now; version = t.version + 1 }

abbrev pub bound : Binding → ℕ → Task → Task
bound b now t =
    let u = beaten now t in
    record u {
      source_thread_id = b.source_thread_id;
      agent_id = b.agent_id;
      mode = b.mode;
      routing = b.routing;
      started_at = or_option t.started_at (some now);
    }

unfoldable pub bind_claim :
    String → String → String → Binding → ℕ → Registry → Registry × Option Task
bind_claim id worker token b now = update_tasks (owned_in bindable id worker token) (bound b now)

-- The Boolean result of the methods that count the changed rows.
abbrev pub changed : {A : Type 0} → Registry × Option A → Registry × Bool
changed (r, t) = (r, is_some t)

abbrev pub turned : Option String → ℕ → Task → Task
turned turn now t = let u = beaten now t in record u { turn_id = turn }

unfoldable pub set_claim_turn :
    String → String → String → Option String → ℕ → Registry → Registry × Bool
set_claim_turn id worker token turn now r =
    changed (update_tasks (owned_in in_turn id worker token) (turned turn now) r)

unfoldable pub heartbeat_claim : String → String → String → ℕ → Registry → Registry × Bool
heartbeat_claim id worker token now r =
    changed (update_tasks (owned_in executing id worker token) (beaten now) r)

unfoldable pub is_claim_owner : String → String → String → Registry → Bool
is_claim_owner id worker token r = any (owned_in executing id worker token) r.tasks

abbrev pub agent_ended : Option String → Option String → ℕ → Task → Task
agent_ended output turn now t =
    let u = beaten now t in
    record u { status = agent_done; output = output; turn_id = or_option turn t.turn_id }

unfoldable pub mark_claim_agent_done :
    String → String → String → Option String → Option String → ℕ → Registry → Registry × Option Task
mark_claim_agent_done id worker token output turn now r =
    log_if id "task.agent_done"
      (update_tasks (owned_in in_turn id worker token) (agent_ended output turn now) r)

abbrev pub under_validation : ℕ → Task → Task
under_validation now t = let u = beaten now t in record u { status = validating }

unfoldable pub mark_claim_validating :
    String → String → String → ℕ → Registry → Registry × Option Task
mark_claim_validating id worker token now r =
    log_if id "task.validating"
      (update_tasks (owned_in (agent_done ∷ []) id worker token) (under_validation now) r)

-- The metadata is read before the update and written as a whole.
abbrev pub under_integration : Option String → Metadata → ℕ → Task → Task
under_integration strategy m now t =
    let u = beaten now t in
    record u { status = integration_pending; metadata = record m { integration = some strategy } }

unfoldable pub mark_claim_integration_pending :
    String → String → String → Option String → ℕ → Registry → Registry × Option Task
mark_claim_integration_pending id worker token strategy now r = elim (get_task id r) [
  | none ↦ (r, none)
  | some task ↦ log_if id "task.integration_pending" (
      update_tasks (owned_in integrable id worker token)
        (under_integration strategy task.metadata now) r)
]
