-- ===== src/Tasks/Guards.antt =====
-- The WHERE conditions of `claimTask` and `listRunnableTasks` in src/registry.js.
use codex_threadhub.Base.{
  ℕ, String, Bool, true, false, not, ◌&&◌, ◌||◌, Option, none, some, List, [], ◌∷◌, find, any, leb,
  ◌==◌, ◌=s=◌, is_none, or_else,
}
use codex_threadhub.Base.Sql.{Truth, holds, eq, neg, or}
use codex_threadhub.States.Task.{
  TaskStatus, queued, retry_waiting, waiting_for_lease, completed, completed_with_warnings, task_in,
  is_terminal_task,
}
use codex_threadhub.States.GlobalRun.{GlobalRunStatus, global_run_in}
use codex_threadhub.Registry.{
  DependencyPolicy, all_success, all_terminal, on_failure, Metadata, Task, Revision, GlobalRun,
  CrossDependency, Handoff, Registry,
}

abbrev pub claimable : List TaskStatus
claimable = queued ∷ retry_waiting ∷ waiting_for_lease ∷ []

-- `next_retry_at IS NULL OR next_retry_at <= ?`.
abbrev pub is_due : Option ℕ → ℕ → Bool
is_due none now = true
is_due (some at) now = leb at now

-- A dependency that has not ended as the task's policy demands.
unfoldable pub unmet : DependencyPolicy → TaskStatus → Bool
unmet all_success status = not (task_in (completed ∷ completed_with_warnings ∷ []) status)
unmet all_terminal status = not (is_terminal_task status)
unmet on_failure status = not (is_terminal_task status)

abbrev pub policy_of : Task → DependencyPolicy
policy_of t = or_else t.metadata.dependency_policy all_success

-- `NOT EXISTS (SELECT 1 FROM task_dependencies d JOIN tasks dependency …)`.
unfoldable pub dependencies_met : Registry → Task → Bool
unfolding unmet
dependencies_met r t = not (
    any
      (λ d.
        d.task_id =s= t.id
        && any (λ x. x.id =s= d.depends_on && unmet (policy_of t) x.status) r.tasks)
      r.dependencies)

abbrev pub contract_validated : Metadata → Bool
contract_validated m =
    holds (eq m.contract_status (some "validated"))
    && holds (eq m.contract_fingerprint m.execution_contract_fingerprint)

-- No snapshot is named, or the one that is named is validated and has the recorded fingerprint.
abbrev pub snapshot_valid : Registry → Metadata → Bool
snapshot_valid r m =
    is_none m.context_snapshot_id
    || any
        (λ s.
          holds (eq (some s.id) m.context_snapshot_id)
          && (s.status =s= "validated" && holds (eq s.fingerprint m.context_snapshot_fingerprint)))
        r.snapshots

-- A column of the left join: NULL where no handoff was found.
abbrev column : (Handoff → Option String) → Option Handoff → Option String
column f none = none
column f (some h) = f h

-- What makes a cross-project dependency bar its consumer.
unfoldable pub cross_barred : Option Handoff → CrossDependency → Truth
cross_barred h d = or (some (not (d.status =s= "satisfied"))) (
    or (neg (eq (column (λ x. some x.status) h) (some "received"))) (
      or (neg (eq (column (λ x. some x.dependency_fingerprint) h) (some d.fingerprint))) (
        or (neg (eq (column (λ x. some x.fingerprint) h) (column (λ x. x.validated_fingerprint) h)))
          (or
            (neg
              (eq (column (λ x. some x.content_hash) h) (column (λ x. x.validated_content_hash) h)))
            (or
              (neg (eq (column (λ x. x.receipt_hash) h) (column (λ x. x.validated_receipt_hash) h)))
              (some (is_none (column (λ x. x.receipt_hash) h))))))))

abbrev handoff_of : Registry → CrossDependency → Option Handoff
handoff_of r d = find (λ h. h.dependency_id =s= d.id) r.handoffs

unfoldable pub handoffs_received : Registry → Revision → Option String → Bool
unfolding cross_barred
handoffs_received r v run = not (
    any
      (λ d.
        d.revision_id =s= v.id
        && (holds (eq (some d.consumer_run_id) run) && holds (cross_barred (handoff_of r d) d)))
      r.cross_dependencies)

-- `current_revision = revision`, which NULL is not.
abbrev pub is_revision : Option ℕ → ℕ → Bool
is_revision none n = false
is_revision (some k) n = k == n

abbrev pub is_current : Revision → GlobalRun → Bool
is_current v p =
    p.id =s= v.global_run_id
    && (is_revision p.current_revision v.revision
        && (global_run_in (GlobalRunStatus.running ∷ GlobalRunStatus.waiting ∷ []) p.status
            && is_none p.cancellation_requested_at))

unfoldable pub gate_open : Registry → Task → Bool
unfolding handoffs_received
gate_open r t =
    is_none t.metadata.global_run_revision_id
    || any
        (λ v.
          holds (eq (some v.id) t.metadata.global_run_revision_id)
          && (v.status =s= "validated"
              && (any (is_current v) r.global_runs
                  && (holds (eq v.graph_fingerprint t.metadata.global_graph_fingerprint)
                      && (holds (
                            eq (some v.authorization_fingerprint)
                              t.metadata.global_authorization_fingerprint)
                          && (any
                                (λ m.
                                  m.revision_id =s= v.id
                                  && (holds (eq (some m.run_id) t.run_id)
                                      && holds (
                                          eq (some m.fingerprint)
                                            t.metadata.global_manifest_fingerprint)))
                                r.manifests
                              && handoffs_received r v t.run_id))))))
        r.revisions

-- The whole condition of `claimTask`.
unfoldable pub can_claim : Registry → String → ℕ → Task → Bool
unfolding gate_open dependencies_met
can_claim r id now t =
    t.id =s= id
    && (task_in claimable t.status
        && (contract_validated t.metadata
            && (snapshot_valid r t.metadata
                && (gate_open r t && (is_due t.next_retry_at now && dependencies_met r t)))))
