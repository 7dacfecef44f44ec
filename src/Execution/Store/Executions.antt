-- ===== src/Execution/Store/Executions.antt =====
-- execution/repository/execution_repository.go: the life of an execution. Creation under an
-- idempotency key, which fills another table, is left out.
use miletos.Common.{
  ℕ, suc, String, Bool, true, false, not, ◌&&◌, ◌||◌, Option, none, some, List, [], ◌∷◌, any,
  find_where, nat_eq, string_eq, ◌==◌, if◌then◌else◌,
}
use miletos.Workflow.{WorkflowNode, Workflow}
use miletos.Execution.{
  ExecutionStatus, execution_created, execution_validating, execution_rejected, execution_queued,
  execution_running, execution_succeeded, execution_failed, execution_cancelled,
  execution_timed_out, node_pending, ExecutionOrigin,
}
use miletos.Execution.Store.{
  StoredOutput, ExecutionRow, NodeRow, state_transition, duplicate_key, Tx, require, read, modify,
  pure, update_executions, ◌>>=◌, ◌>>◌,
}
use miletos.Execution.Store.Observations.{record_event, record_log}
use miletos.Execution.Store.Nodes.{or_not_found}
use miletos.Execution.Store.Statuses.{coalesce}

abbrev pub status_name : ExecutionStatus → String
status_name execution_created = "CREATED"
status_name execution_validating = "VALIDATING"
status_name execution_rejected = "REJECTED"
status_name execution_queued = "QUEUED"
status_name execution_running = "RUNNING"
status_name execution_succeeded = "SUCCEEDED"
status_name execution_failed = "FAILED"
status_name execution_cancelled = "CANCELLED"
status_name execution_timed_out = "TIMED_OUT"

abbrev pub is_created : ExecutionStatus → Bool
is_created s = status_name s == "CREATED"

-- `status IN ('CREATED', 'QUEUED')`
abbrev pub is_startable : ExecutionStatus → Bool
is_startable s = status_name s == "CREATED" || status_name s == "QUEUED"

-- `status IN ('SUCCEEDED', 'FAILED', 'CANCELLED', 'TIMED_OUT')`: REJECTED is not in the list.
abbrev pub is_final : ExecutionStatus → Bool
is_final execution_succeeded = true
is_final execution_failed = true
is_final execution_cancelled = true
is_final execution_timed_out = true
is_final _ = false

abbrev pub is_failed_execution : ExecutionStatus → Bool
is_failed_execution s = status_name s == "FAILED"

module _ {V : Type 0} where
  abbrev pub at_execution : String → String → ExecutionRow V → Bool
  at_execution company_id execution_id e = e.company_id == company_id && e.id == execution_id

  -- `FindByID`
  unfoldable pub find_by_id : String → String → Tx V (ExecutionRow V)
  find_by_id company_id execution_id = do
    found ← read (λ s. find_where (at_execution company_id execution_id) s.executions)
    or_not_found found

  abbrev pub new_execution : ℕ → Workflow V → ExecutionOrigin → String → String → ExecutionRow V
  new_execution now w origin correlation_id execution_id = record {
    id = execution_id;
    company_id = w.company_id;
    workflow_id = w.id;
    workflow_revision = w.revision;
    correlation_id = correlation_id;
    origin = origin;
    status = execution_created;
    created_at = now;
    queued_at = none;
    started_at = none;
    finished_at = none;
    updated_at = now;
    terminal_outputs = [];
    failure = none;
    is_stalled = false;
    lock_version = 0;
    next_sequence_number = 1;
  }

  abbrev pub new_node : ℕ → Workflow V → String → String → WorkflowNode V → NodeRow V
  new_node now w execution_id id n = record {
    id = id;
    execution_id = execution_id;
    company_id = w.company_id;
    node_id = n.id;
    type = n.type;
    version = if n.version == "" then "v1" else n.version;
    status = node_pending;
    attempt = 1;
    created_at = now;
    ready_at = none;
    queued_at = none;
    started_at = none;
    finished_at = none;
    next_attempt_at = none;
    updated_at = now;
    input = none;
    output = none;
    failure = none;
    retry_max_attempts = none;
    retry_backoff_ns = none;
    lock_version = 0;
  }

  -- `INSERT` into `node_executions`, whose keys are the id, and the execution with the node and
  -- the attempt.
  unfoldable pub insert_node : NodeRow V → Tx V (Unit {0})
  insert_node row = do
    taken ← read (λ s.
        any
          (λ r.
            r.id == row.id
            || (r.execution_id == row.execution_id
                && r.node_id == row.node_id
                && r.attempt == row.attempt))
          s.nodes)
    require (not taken) duplicate_key
    modify (λ s. record s { nodes = row ∷ s.nodes })

  -- The loop over the nodes; `new_id` draws the id for a node.
  unfoldable pub insert_nodes :
      ℕ → Workflow V → String → (String → String) → List (WorkflowNode V) → Tx V (Unit {0})
  unfolding insert_node
  insert_nodes now w execution_id new_id [] = pure tt
  insert_nodes now w execution_id new_id (n ∷ ns) = do
    insert_node (new_node now w execution_id (new_id n.id) n)
    insert_nodes now w execution_id new_id ns

  -- `createExecution` without an idempotency key.
  unfoldable pub create_execution :
      ℕ → Workflow V → ExecutionOrigin → String → String → (String → String) → Tx V (ExecutionRow V)
  unfolding insert_nodes record_event
  create_execution now w origin correlation_id execution_id new_id = do
    taken ← read (λ s. any (λ e. e.id == execution_id) s.executions)
    require (not taken) duplicate_key
    let e = new_execution now w origin correlation_id execution_id
    modify (λ s. record s { executions = e ∷ s.executions })
    insert_nodes now w execution_id new_id w.nodes
    record_event execution_id "" "WORKFLOW_CREATED" "" "CREATED"
    pure e

  -- `MarkExecutionQueued`
  unfoldable pub mark_execution_queued : ℕ → String → String → Tx V (Unit {0})
  unfolding update_executions record_event
  mark_execution_queued now company_id execution_id = do
    affected ←
        update_executions (λ e. at_execution company_id execution_id e && is_created e.status)
          (λ e. record e {
            status = execution_queued;
            queued_at = coalesce e.queued_at now;
            updated_at = now;
            lock_version = suc e.lock_version;
          })
    elim affected [
      | ℕ.zero ↦ pure tt
      | suc n ↦ record_event execution_id "" "WORKFLOW_QUEUED" "CREATED" "QUEUED"
    ]

  -- `MarkExecutionRunning`
  unfoldable pub mark_execution_running : ℕ → String → String → Tx V (Unit {0})
  unfolding update_executions record_event
  mark_execution_running now company_id execution_id = do
    affected ←
        update_executions (λ e. at_execution company_id execution_id e && is_startable e.status)
          (λ e. record e {
            status = execution_running;
            started_at = coalesce e.started_at now;
            updated_at = now;
            lock_version = suc e.lock_version;
          })
    elim affected [
      | ℕ.zero ↦ pure tt
      | suc n ↦ record_event execution_id "" "WORKFLOW_STARTED" "" "RUNNING"
    ]

  abbrev pub finalizable : String → String → ExecutionRow V → Bool
  finalizable company_id execution_id e =
      at_execution company_id execution_id e && not (is_final e.status)

  abbrev pub finalize_row :
      ℕ
      → ExecutionStatus
      → List (String × Option (StoredOutput V))
      → Option String
      → ExecutionRow V
      → ExecutionRow V
  finalize_row now status outputs failure e = record e {
    status = status;
    terminal_outputs = outputs;
    failure = failure;
    finished_at = some now;
    updated_at = now;
    is_stalled = false;
    lock_version = suc e.lock_version;
  }

  abbrev log_failure : String → ExecutionStatus → Tx V (Unit {0})
  log_failure execution_id status =
      if is_failed_execution status
      then record_log execution_id "" "ERROR" "Workflow execution failed"
      else pure tt

  -- `Finalize`: an execution that is final with the same status already is left as it is.
  unfoldable pub finalize :
      ℕ
      → String
      → String
      → ExecutionStatus
      → List (String × Option (StoredOutput V))
      → Option String
      → Tx V (Unit {0})
  unfolding update_executions find_by_id record_event record_log
  finalize now company_id execution_id status outputs failure = do
    affected ←
        update_executions (finalizable company_id execution_id)
          (finalize_row now status outputs failure)
    elim affected [
      | ℕ.zero ↦ do
        current ← find_by_id company_id execution_id
        require (status_name current.status == status_name status) state_transition
      | suc n ↦ do
        record_event execution_id ""
            (if is_failed_execution status then "WORKFLOW_FAILED" else "WORKFLOW_SUCCEEDED")
            "RUNNING" (status_name status)
        log_failure execution_id status
    ]
