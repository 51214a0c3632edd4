-- ===== src/Registry.antt =====
-- The tables of src/registry.js that the modelled methods read and write, and the event log. A
-- timestamp is a number of milliseconds: the source compares ISO texts of one width, in whose order
-- they stand. The clock and the random tokens are arguments of the methods.
use codex_threadhub.Base.{ℕ, String, Bool, Option, List, ◌∷◌, find, ◌=s=◌}
use codex_threadhub.Retry.{Failure}
use codex_threadhub.States.Task.{TaskStatus}
use codex_threadhub.States.GlobalRun.{GlobalRunStatus}

pub data DependencyPolicy : Type 0 where
  all_success all_terminal on_failure : DependencyPolicy

pub record Budget : Type 0 where
  pub used : ℕ
  pub max : ℕ
  pub remaining : ℕ

pub record RetrySafety : Type 0 where
  pub allowed : Bool
  pub reason : String
  pub mode : String

-- What the end of an executed attempt adds to the record of its failure.
pub record Analysis : Type 0 where
  pub requested_action : String
  pub exhausted : Bool
  pub duplicate_feedback : Bool
  pub feedback_hash : Option String
  pub same_configuration : Bool
  pub prompt_changed : Bool

-- The record of a failed attempt in a task's `metadata`: the failure with what was decided of it.
-- A property that a method does not write is `none`.
pub record FailureRecord : Type 0 where
  pub failure : Failure
  pub cause : Option String
  pub retryable : Bool
  pub next_action : Option String
  pub at : Option ℕ
  pub execution_fingerprint : Option String
  pub budget : Option Budget
  pub retry_safety : Option RetrySafety
  pub analysis : Option Analysis

-- What a validator reports of a task.
pub record Validation : Type 0 where
  pub decision : Option String
  pub summary : Option String
  pub failure_kind : Option String
  pub unmet_criteria : List String

pub record CurrentRework : Type 0 where
  pub feedback : Validation
  pub feedback_hash : Option String
  pub from_attempt : ℕ
  pub scheduled_at : ℕ

pub record Rework : Type 0 where
  pub feedback_hashes : List String
  pub feedback_revision : ℕ
  pub current : Option CurrentRework

-- The properties of `metadata_json` that the modelled methods use.
pub record Metadata : Type 0 where
  pub contract_status : Option String
  pub contract_fingerprint : Option String
  pub execution_contract_fingerprint : Option String
  pub nested_contract_fingerprint : Option String
  pub context_snapshot_id : Option String
  pub context_snapshot_fingerprint : Option String
  pub global_run_revision_id : Option String
  pub global_graph_fingerprint : Option String
  pub global_authorization_fingerprint : Option String
  pub global_manifest_fingerprint : Option String
  pub dependency_policy : Option DependencyPolicy
  pub run_id : Option String
  pub waiting_since : Option ℕ
  pub timeout_ms : Option ℕ
  pub integration : Option (Option String)
  pub validation_in_progress : Bool
  pub validation : Option Validation
  pub failure : Option FailureRecord
  pub failure_history : List FailureRecord
  pub rework : Option Rework

pub record Task : Type 0 where
  pub id : String
  pub run_id : Option String
  pub status : TaskStatus
  pub source_thread_id : Option String
  pub agent_id : Option String
  pub mode : Option String
  pub routing : Option String
  pub output : Option String
  pub error : Option String
  pub turn_id : Option String
  pub created_at : ℕ
  pub started_at : Option ℕ
  pub completed_at : Option ℕ
  pub updated_at : ℕ
  pub worker_id : Option String
  pub heartbeat_at : Option ℕ
  pub attempt : ℕ
  pub max_attempts : ℕ
  pub retry_delay_ms : ℕ
  pub next_retry_at : Option ℕ
  pub claim_token : Option String
  pub version : ℕ
  pub metadata : Metadata

-- `task_dependencies`.
pub record Dependency : Type 0 where
  pub task_id : String
  pub depends_on : String

pub record Snapshot : Type 0 where
  pub id : String
  pub status : String
  pub fingerprint : Option String

pub record Revision : Type 0 where
  pub id : String
  pub global_run_id : String
  pub revision : ℕ
  pub status : String
  pub graph_fingerprint : Option String
  pub authorization_fingerprint : String

pub record GlobalRun : Type 0 where
  pub id : String
  pub status : GlobalRunStatus
  pub current_revision : Option ℕ
  pub cancellation_requested_at : Option ℕ

pub record Manifest : Type 0 where
  pub revision_id : String
  pub run_id : String
  pub fingerprint : String

pub record CrossDependency : Type 0 where
  pub id : String
  pub revision_id : String
  pub consumer_run_id : String
  pub status : String
  pub fingerprint : String

pub record Handoff : Type 0 where
  pub dependency_id : String
  pub status : String
  pub dependency_fingerprint : String
  pub fingerprint : String
  pub content_hash : String
  pub receipt_hash : Option String
  pub validated_fingerprint : Option String
  pub validated_content_hash : Option String
  pub validated_receipt_hash : Option String

pub record Event : Type 0 where
  pub entity_type : String
  pub entity_id : String
  pub event_type : String

pub record Registry : Type 0 where
  pub tasks : List Task
  pub dependencies : List Dependency
  pub snapshots : List Snapshot
  pub revisions : List Revision
  pub global_runs : List GlobalRun
  pub manifests : List Manifest
  pub cross_dependencies : List CrossDependency
  pub handoffs : List Handoff
  pub events : List Event

-- `recordEvent`, newest first and without its payload.
abbrev pub record_event : String → String → String → Registry → Registry
record_event entity id type r = record r {
  events = record { entity_type = entity; entity_id = id; event_type = type } ∷ r.events;
}

-- `getTask`: the row with the primary key.
abbrev pub get_task : String → Registry → Option Task
get_task id r = find (λ t. t.id =s= id) r.tasks
