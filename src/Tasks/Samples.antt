-- ===== src/Tasks/Samples.antt =====
-- A small registry of two tasks, of which the second waits for the first.
use codex_threadhub.Base.{eq_iff, true, ℕ, ◌≡◌, String, false, none, some, [], ◌∷◌}
use codex_threadhub.States.Task.{TaskStatus, queued}
use codex_threadhub.Registry.{Metadata, Task, Registry}
use codex_threadhub.Tasks.Rules.{UniqueIds}

abbrev pub empty_metadata : Metadata
empty_metadata = record {
  contract_status = some "validated";
  contract_fingerprint = some "f";
  execution_contract_fingerprint = some "f";
  nested_contract_fingerprint = none;
  context_snapshot_id = none;
  context_snapshot_fingerprint = none;
  global_run_revision_id = none;
  global_graph_fingerprint = none;
  global_authorization_fingerprint = none;
  global_manifest_fingerprint = none;
  dependency_policy = none;
  run_id = some "run";
  waiting_since = none;
  timeout_ms = none;
  integration = none;
  validation_in_progress = false;
  validation = none;
  failure = none;
  failure_history = [];
  rework = none;
}

abbrev pub task_row : String → TaskStatus → ℕ → Task
task_row id status attempt = record {
  id = id;
  run_id = some "run";
  status = status;
  source_thread_id = none;
  agent_id = none;
  mode = none;
  routing = none;
  output = none;
  error = none;
  turn_id = none;
  created_at = 1;
  started_at = none;
  completed_at = none;
  updated_at = 1;
  worker_id = none;
  heartbeat_at = none;
  attempt = attempt;
  max_attempts = 2;
  retry_delay_ms = 100;
  next_retry_at = none;
  claim_token = none;
  version = 0;
  metadata = empty_metadata;
}

-- `b` waits for `a`, which is completed.
abbrev pub two_tasks : Registry
two_tasks = record {
  tasks = task_row "a" TaskStatus.completed 1 ∷ task_row "b" queued 0 ∷ [];
  dependencies = record { task_id = "b"; depends_on = "a" } ∷ [];
  snapshots = [];
  revisions = [];
  global_runs = [];
  manifests = [];
  cross_dependencies = [];
  handoffs = [];
  events = [];
}

pub unique_two : UniqueIds two_tasks.tasks
unique_two = (((λ e. false≢true ((eq_iff "b" "a").1 e)), tt), (tt, tt))
  where
    false≢true : false ≡ true → ⊥
    false≢true h = cc
