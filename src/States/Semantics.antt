-- ===== src/States/Semantics.antt =====
-- `SEMANTIC_TABLES` and `statusSemantics` of src/domain-states.js.
use codex_threadhub.Base.{
  String, Bool, false, ◌||◌, [], ◌∷◌, if◌then◌else◌, ◌=s=◌, Result, ok, err, ◌>>=◌,
}
use codex_threadhub.States.Machine.{Machine, StateError, entity_invalid, assert_known}
use codex_threadhub.States.Run
use codex_threadhub.States.Run.{RunStatus, run_in}
use codex_threadhub.States.GlobalRun
use codex_threadhub.States.GlobalRun.{GlobalRunStatus, global_run_in}
use codex_threadhub.States.Task
use codex_threadhub.States.Task.{TaskStatus, task_in}
use codex_threadhub.States.Agent
use codex_threadhub.States.Agent.{AgentStatus, agent_in}
use codex_threadhub.States.Lease
use codex_threadhub.States.Lease.{LeaseStatus, lease_in}
use codex_threadhub.States.Delivery
use codex_threadhub.States.Delivery.{DeliveryStatus, delivery_in}
use codex_threadhub.States.Dispatch
use codex_threadhub.States.Dispatch.{DispatchStatus, dispatch_in}

pub record Semantics : Type 0 where
  pub terminal : Bool
  pub success : Bool
  pub active : Bool
  pub waiting : Bool
  pub attention : Bool
  pub retry : String
  pub recovery : String

unfoldable pub global_run_semantics : GlobalRunStatus → Semantics
global_run_semantics s = record {
  terminal = GlobalRun.is_terminal_global_run s;
  success = GlobalRun.is_global_run s GlobalRunStatus.completed;
  active = global_run_in GlobalRun.active_global_runs s;
  waiting =
      global_run_in
        (GlobalRunStatus.accepted ∷ GlobalRunStatus.resolving_context ∷ GlobalRunStatus.planning
          ∷ GlobalRunStatus.preparing ∷ GlobalRunStatus.waiting ∷ [])
        s;
  attention = GlobalRun.is_global_run s GlobalRunStatus.attention_required;
  retry =
      if global_run_in (GlobalRunStatus.failed ∷ GlobalRunStatus.attention_required ∷ []) s
      then "new_revision"
      else "none";
  recovery =
      if global_run_in
        (GlobalRunStatus.resolving_context ∷ GlobalRunStatus.planning ∷ GlobalRunStatus.preparing
          ∷ [])
        s
      then "resume_pre_side_effect"
      else if global_run_in (GlobalRunStatus.running ∷ GlobalRunStatus.waiting ∷ []) s
      then "derive_from_project_runs"
      else "none";
}

unfoldable pub run_semantics : RunStatus → Semantics
run_semantics s = record {
  terminal = Run.is_terminal_run s;
  success = Run.is_run s RunStatus.completed;
  active = run_in Run.active_runs s;
  waiting = run_in (RunStatus.draft ∷ RunStatus.accepted ∷ RunStatus.awaiting_user_start ∷ []) s;
  attention = Run.is_run s RunStatus.failed;
  retry = if Run.is_run s RunStatus.failed then "manual" else "none";
  recovery = if run_in Run.active_runs s then "derive_from_tasks" else "none";
}

unfoldable pub task_semantics : TaskStatus → Semantics
task_semantics s = record {
  terminal = Task.is_terminal_task s;
  success = task_in Task.successful_tasks s;
  active = task_in Task.active_tasks s;
  waiting = task_in Task.waiting_tasks s;
  attention = task_in Task.attention_tasks s;
  retry =
      if task_in Task.retryable_tasks s
      then "automatic"
      else if task_in Task.repairable_tasks s
      then "repair"
      else "none";
  recovery =
      if Task.is_task s TaskStatus.integration_pending
        || Task.is_task s TaskStatus.recovery_attention
      then "manual_attention"
      else if task_in Task.active_tasks s
      then "reconcile"
      else "none";
}

unfoldable pub agent_semantics : AgentStatus → Semantics
agent_semantics s = record {
  terminal = false;
  success = agent_in (AgentStatus.available ∷ AgentStatus.idle ∷ []) s;
  active = agent_in Agent.active_agents s;
  waiting = agent_in (AgentStatus.unknown ∷ AgentStatus.available ∷ AgentStatus.idle ∷ []) s;
  attention = false;
  retry = "none";
  recovery = if agent_in Agent.active_agents s then "lease_reconcile" else "none";
}

unfoldable pub lease_semantics : LeaseStatus → Semantics
lease_semantics s = record {
  terminal = lease_in Lease.terminal_leases s;
  success = Lease.is_lease s LeaseStatus.released;
  active = Lease.is_lease s LeaseStatus.active;
  waiting = false;
  attention = Lease.is_lease s LeaseStatus.expired;
  retry = if Lease.is_lease s LeaseStatus.expired then "reacquire" else "none";
  recovery = if Lease.is_lease s LeaseStatus.active then "ttl_fence" else "none";
}

unfoldable pub delivery_semantics : DeliveryStatus → Semantics
delivery_semantics s = record {
  terminal = Delivery.is_terminal_delivery s;
  success = delivery_in (DeliveryStatus.direct_delivered ∷ DeliveryStatus.delivered ∷ []) s;
  active = Delivery.is_delivery s DeliveryStatus.delivering;
  waiting = delivery_in Delivery.waiting_deliveries s;
  attention = Delivery.is_delivery s DeliveryStatus.pending_attention;
  retry =
      if delivery_in (DeliveryStatus.retry_waiting ∷ DeliveryStatus.pending_attention ∷ []) s
      then "bounded"
      else "none";
  recovery =
      if Delivery.is_delivery s DeliveryStatus.delivering
      then "return_to_retry_waiting"
      else "none";
}

unfoldable pub dispatch_semantics : DispatchStatus → Semantics
dispatch_semantics s = record {
  terminal = Dispatch.is_terminal_dispatch s;
  success = Dispatch.is_dispatch s DispatchStatus.completed;
  active = dispatch_in Dispatch.active_dispatches s;
  waiting =
      dispatch_in
        (DispatchStatus.prepared ∷ DispatchStatus.thread_acquiring ∷ DispatchStatus.thread_created
          ∷ DispatchStatus.turn_submitting ∷ DispatchStatus.cancelling ∷ [])
        s;
  attention = Dispatch.is_dispatch s DispatchStatus.recovery_attention;
  retry =
      if dispatch_in (DispatchStatus.failed ∷ DispatchStatus.interrupted ∷ []) s
      then "policy_decision"
      else "none";
  recovery =
      if dispatch_in
        (DispatchStatus.turn_submitting ∷ DispatchStatus.turn_running ∷ DispatchStatus.cancelling
          ∷ [])
        s
      then "thread_read_reconcile"
      else if dispatch_in Dispatch.active_dispatches s
      then "resume_fenced"
      else "none";
}

abbrev of_status : {S : Type 0} → Machine S → (S → Semantics) → String → Result StateError Semantics
of_status m table status = assert_known m status >>= λ s. ok (table s)

-- The lookup by the names of the entity and of the status.
unfoldable pub status_semantics : String → String → Result StateError Semantics
unfolding assert_known global_run_semantics run_semantics task_semantics agent_semantics
    lease_semantics delivery_semantics dispatch_semantics
status_semantics entity status =
    if entity =s= "global_run"
    then of_status GlobalRun.global_run_machine global_run_semantics status
    else if entity =s= "run"
    then of_status Run.run_machine run_semantics status
    else if entity =s= "task"
    then of_status Task.task_machine task_semantics status
    else if entity =s= "agent"
    then of_status Agent.agent_machine agent_semantics status
    else if entity =s= "lease"
    then of_status Lease.lease_machine lease_semantics status
    else if entity =s= "delivery"
    then of_status Delivery.delivery_machine delivery_semantics status
    else if entity =s= "turn_dispatch"
    then of_status Dispatch.dispatch_machine dispatch_semantics status
    else err (entity_invalid entity)
