-- ===== src/Execution/Reconciler.antt =====
-- execution/reconciler.go: a round of the reconciler, which repairs what a lost message or a worker
-- that died has left. The parts that it shares with a worker are those of `Worker`.
pub mod Rearmed
use miletos.Common.{ℕ, String, Bool, true, false, Option, none, some, List, [], ◌∷◌}
use miletos.Workflow.{Workflow}
use miletos.Execution.{
  NodeStatus, node_pending, node_ready, node_queued, node_running, node_retry_pending,
  node_succeeded, node_failed, node_skipped, node_cancelled, node_timed_out, NodeJob,
  is_terminal_execution_status,
}
use miletos.Execution.Store.{ExecutionRow, NodeRow, StoreError, state_transition, not_found}
use miletos.Execution.Store.Outbox.{ensure_retry_command}
use miletos.Execution.Store.Repairs.{
  ReconciliationThresholds, find_stale_nodes, repair_queued_node_command,
}
use miletos.Execution.Store.Executions.{find_by_id}
use miletos.Execution.Scheduler.Programs.{
  Program, End, value, error, exhausted, ◌>>=◌, ◌>>◌, pure, raise, call,
}
use miletos.Execution.Scheduler.Ready.{complete_node}
use miletos.Execution.Processor.{Worker, persist_interrupted}
use miletos.Execution.Processor.Consumer.{complete}

pub record Reconciler (V : Type 0) : Type 0 where
  pub worker : Worker V
  pub thresholds : ReconciliationThresholds
  pub thresholds_after : ReconciliationThresholds
  pub current_timestamp : ℕ
  pub now : ℕ
  pub command_topic : String
  pub new_message_id : NodeRow V → String
  pub unwrap_summary : Option V → V

abbrev pub is_state_transition : StoreError → Bool
is_state_transition state_transition = true
is_state_transition _ = false

module _ {V : Type 0} where
  abbrev pub reconciled_job : Reconciler V → ExecutionRow V → NodeRow V → NodeJob V
  reconciled_job c e node = record {
    company_id = node.company_id;
    workflow_id = e.workflow_id;
    execution_id = node.execution_id;
    node_id = node.node_id;
    node_execution_id = node.id;
    attempt = node.attempt;
    correlation_id = e.correlation_id;
    origin = e.origin;
    payload = c.unwrap_summary node.input;
  }

  abbrev pub ensure_retry : Reconciler V → NodeRow V → NodeJob V → Option ℕ → Program V (Unit {0})
  ensure_retry c node job none = raise state_transition
  ensure_retry c node job (some t) =
      call (ensure_retry_command (c.new_message_id node) c.now job c.command_topic t)

  -- The switch on the status of the node.
  abbrev pub reconcile_status :
      Reconciler V → NodeRow V → NodeJob V → NodeStatus → Program V (Unit {0})
  reconcile_status c node job node_queued =
      call (repair_queued_node_command (c.new_message_id node) c.now node job c.command_topic c.now)
      >>= λ repaired. pure tt
  reconcile_status c node job node_retry_pending = ensure_retry c node job node.next_attempt_at
  reconcile_status c node job node_running =
      persist_interrupted c.worker job >> complete c.worker job
  reconcile_status c node job _ = pure tt

  abbrev pub reconcile_workflow :
      Reconciler V → NodeRow V → NodeJob V → Option (Workflow V) → Program V (Unit {0})
  reconcile_workflow c node job none = raise not_found
  reconcile_workflow c node job (some w) = reconcile_status c node job node.status

  abbrev pub reconcile_execution : Reconciler V → NodeRow V → ExecutionRow V → Program V (Unit {0})
  reconcile_execution c node e = elim (is_terminal_execution_status e.status) [
    | true ↦ pure tt
    | false ↦
        reconcile_workflow c node (reconciled_job c e node)
          (c.worker.stored_workflow (reconciled_job c e node))
  ]

  -- `reconcileNode`
  unfoldable pub reconcile_node : Reconciler V → NodeRow V → Program V (Unit {0})
  unfolding find_by_id repair_queued_node_command persist_interrupted complete_node
      ensure_retry_command
  reconcile_node c node =
      call (find_by_id node.company_id node.execution_id) >>= reconcile_execution c node

  -- A state transition that was refused is no error of the round.
  abbrev pub tolerate : Program V (Unit {0}) → Program V (Unit {0})
  tolerate m s = elim (m s).1 [
    | value x ↦ ((m s).0, value x)
    | exhausted ↦ ((m s).0, exhausted)
    | error e ↦ elim (is_state_transition e) [
      | true ↦ ((m s).0, value tt)
      | false ↦ ((m s).0, error e)
    ]
  ]

  unfoldable pub reconcile_all : Reconciler V → List (NodeRow V) → Program V (Unit {0})
  unfolding reconcile_node
  reconcile_all c [] = pure tt
  reconcile_all c (node ∷ nodes) = tolerate (reconcile_node c node) >> reconcile_all c nodes

  -- The second look at the stale nodes, which only refreshes the executions.
  abbrev pub look_again : Reconciler V → Program V (Unit {0})
  look_again c =
      call (find_stale_nodes c.thresholds_after c.current_timestamp 1) >>= λ found. pure tt

  abbrev pub reconcile_found : Reconciler V → List (NodeRow V) → Program V (Unit {0})
  reconcile_found c nodes = reconcile_all c nodes >> look_again c

  -- `RunOnce`
  unfoldable pub run_once : Reconciler V → Program V (Unit {0})
  unfolding find_stale_nodes reconcile_all
  run_once c = call (find_stale_nodes c.thresholds c.current_timestamp 100) >>= reconcile_found c
