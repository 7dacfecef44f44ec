-- ===== src/Execution/Store/Nodes.antt =====
-- execution/repository/node_repository.go: how a node is found, queued and skipped.
use miletos.Common.{
  ℕ, suc, String, Bool, ◌&&◌, Option, none, some, find_where, nat_eq, string_eq, ◌==◌,
}
use miletos.Execution.{node_queued, node_skipped, SkipReason, no_failure, NodeJob}
use miletos.Execution.Store.{
  ExecutionRow, NodeRow, not_found, state_transition, Tx, require, read, pure, throw, update_nodes,
  ◌>>=◌, ◌>>◌,
}
use miletos.Execution.Store.Observations.{record_event}
use miletos.Execution.Store.Outbox.{persist_node_command, node_command_operation_key}
use miletos.Execution.Store.Statuses.{
  is_pending, is_commandable, is_queueable, is_skipped, coalesce, skip_reason_of,
}

module _ {V : Type 0} where
  abbrev pub at_node : String → String → String → NodeRow V → Bool
  at_node company_id execution_id node_id r =
      r.company_id == company_id && r.execution_id == execution_id && r.node_id == node_id

  abbrev pub or_not_found : {A : Type 0} → Option A → Tx V A
  or_not_found none = throw not_found
  or_not_found (some a) = pure a

  -- `FindNode`
  unfoldable pub find_node : String → String → String → Tx V (NodeRow V)
  find_node company_id execution_id node_id = do
    found ← read (λ s. find_where (at_node company_id execution_id node_id) s.nodes)
    or_not_found found

  -- The row of a node's execution id.
  unfoldable pub find_node_by_id : String → String → String → Tx V (NodeRow V)
  find_node_by_id company_id execution_id id = do
    found ← read (λ s.
        find_where (λ r. r.company_id == company_id && r.execution_id == execution_id && r.id == id)
          s.nodes)
    or_not_found found

  abbrev pub queue_row : ℕ → Option V → NodeRow V → NodeRow V
  queue_row now input r = record r {
    status = node_queued;
    ready_at = coalesce r.ready_at now;
    queued_at = some now;
    next_attempt_at = none;
    input = input;
    updated_at = now;
    lock_version = suc r.lock_version;
  }

  -- `COALESCE($5, input_summary)`
  abbrev pub or_input : Option V → Option V → Option V
  or_input none old = old
  or_input (some v) old = some v

  abbrev pub queueable_at : String → String → String → NodeRow V → Bool
  queueable_at company_id execution_id node_id r =
      at_node company_id execution_id node_id r && is_queueable r.status

  -- `MarkNodeQueued`
  unfoldable pub mark_node_queued :
      ℕ → String → String → String → Option V → Tx V (Option (NodeRow V))
  unfolding update_nodes record_event find_node
  mark_node_queued now company_id execution_id node_id payload = do
    affected ←
        update_nodes (queueable_at company_id execution_id node_id)
          (λ r. queue_row now (or_input payload r.input) r)
    elim affected [
      | ℕ.zero ↦ pure none
      | suc n ↦ do
        node ← find_node company_id execution_id node_id
        record_event execution_id node.id "NODE_QUEUED" "" "QUEUED"
        pure (some node)
    ]

  abbrev pub commandable_at : String → String → String → NodeRow V → Bool
  commandable_at company_id execution_id node_id r =
      at_node company_id execution_id node_id r && is_commandable r.status

  abbrev pub job_of : ExecutionRow V → NodeRow V → V → NodeJob V
  job_of e node payload = record {
    company_id = e.company_id;
    workflow_id = e.workflow_id;
    execution_id = e.id;
    node_id = node.node_id;
    node_execution_id = node.id;
    attempt = node.attempt;
    correlation_id = e.correlation_id;
    origin = e.origin;
    payload = payload;
  }

  -- `QueueNodeCommand`: the node's row and its command are written together.
  unfoldable pub queue_node_command :
      String → ℕ → ExecutionRow V → String → V → String → Tx V (Option (NodeRow V))
  unfolding update_nodes find_node_by_id record_event persist_node_command
  queue_node_command message_id now e node_id payload destination = do
    returned ← read (λ s. find_where (commandable_at e.company_id e.id node_id) s.nodes)
    affected ←
        update_nodes (commandable_at e.company_id e.id node_id) (queue_row now (some payload))
    elim returned [
      | none ↦ pure none
      | some row ↦ do
        node ← find_node_by_id e.company_id e.id row.id
        let job = job_of e node payload
        record_event e.id node.id "NODE_QUEUED" "" "QUEUED"
        persist_node_command message_id now job node.attempt
            (node_command_operation_key job node.attempt) destination now
        pure (some node)
    ]

  abbrev pub skippable_at : String → String → String → NodeRow V → Bool
  skippable_at company_id execution_id node_id r =
      at_node company_id execution_id node_id r && is_pending r.status

  abbrev pub skip_row : ℕ → SkipReason → NodeRow V → NodeRow V
  skip_row now reason r = record r {
    status = node_skipped;
    finished_at = some now;
    updated_at = now;
    output = none;
    failure = some (record no_failure { skip_reason = reason });
    lock_version = suc r.lock_version;
  }

  -- `MarkNodeSkipped`: a node that is skipped already is left as it is.
  unfoldable pub mark_node_skipped : ℕ → String → String → String → SkipReason → Tx V (Unit {0})
  unfolding update_nodes find_node record_event
  mark_node_skipped now company_id execution_id node_id skip_reason = do
    pending ← read (λ s. find_where (skippable_at company_id execution_id node_id) s.nodes)
    affected ←
        update_nodes (skippable_at company_id execution_id node_id)
          (skip_row now (skip_reason_of skip_reason))
    elim pending [
      | none ↦ do
        state ← find_node company_id execution_id node_id
        require (is_skipped state.status) state_transition
      | some node ↦ record_event execution_id node.id "NODE_SKIPPED" "PENDING" "SKIPPED"
    ]
