-- ===== src/Execution/Store/Attempts.antt =====
-- execution/repository/node_repository.go: the attempts of a node, but for failures.
use miletos.Common.{
  ℕ, suc, ◌+◌, String, Bool, true, false, not, ◌&&◌, none, some, ◌∷◌, any, leb, nat_eq, string_eq,
  ◌==◌, if◌then◌else◌,
}
use miletos.Execution.{node_queued, node_running, node_succeeded, NodeJob, NodeRoutingOutcome}
use miletos.Execution.Store.{
  StoredOutput, plain, routed, NodeRow, AttemptRow, attempt_running, attempt_succeeded,
  state_transition, duplicate_key, Tx, require, read, modify, pure, update_nodes, update_executions,
  update_attempts, ◌>>=◌, ◌>>◌,
}
use miletos.Execution.Store.Observations.{record_event, record_log}
use miletos.Execution.Store.Statuses.{
  is_queued, is_running, is_retry_pending, is_active_execution, is_attempt_running, coalesce,
}
use miletos.Execution.Store.Nodes.{find_node}

module _ {V : Type 0} where
  abbrev at_job : NodeJob V → NodeRow V → Bool
  at_job job r =
      r.company_id == job.company_id
      && r.execution_id == job.execution_id
      && r.id == job.node_execution_id

  abbrev pub startable : NodeJob V → NodeRow V → Bool
  startable job r =
      at_job job r && r.node_id == job.node_id && is_queued r.status && r.attempt == job.attempt

  abbrev pub start_row : ℕ → NodeJob V → NodeRow V → NodeRow V
  start_row now job r = record r {
    status = node_running;
    attempt = job.attempt;
    started_at = coalesce r.started_at now;
    finished_at = none;
    output = none;
    failure = none;
    input = some job.payload;
    updated_at = now;
    lock_version = suc r.lock_version;
  }

  abbrev pub attempt_at : NodeJob V → AttemptRow V → Bool
  attempt_at job a =
      a.company_id == job.company_id
      && a.execution_id == job.execution_id
      && a.node_execution_id == job.node_execution_id
      && a.attempt == job.attempt

  abbrev new_attempt : ℕ → NodeJob V → AttemptRow V
  new_attempt now job = record {
    company_id = job.company_id;
    execution_id = job.execution_id;
    node_execution_id = job.node_execution_id;
    attempt = job.attempt;
    status = attempt_running;
    output = none;
    failure = none;
    started_at = now;
    finished_at = none;
    updated_at = now;
    retry_decision_kind = none;
    retry_decision_reason = none;
    retry_backoff_ns = none;
    next_attempt_at = none;
  }

  -- `INSERT` into `node_execution_attempts`, whose key is the execution, the node and the attempt.
  unfoldable pub insert_attempt : ℕ → NodeJob V → Tx V (Unit {0})
  insert_attempt now job = do
    taken ← read (λ s. any (attempt_at job) s.attempts)
    require (not taken) duplicate_key
    modify (λ s. record s { attempts = new_attempt now job ∷ s.attempts })

  -- The update of the execution when a node makes progress.
  unfoldable pub note_progress : ℕ → String → String → Tx V ℕ
  unfolding update_executions
  note_progress now company_id execution_id =
      update_executions
        (λ e. e.company_id == company_id && e.id == execution_id && is_active_execution e.status)
        (λ e. record e { updated_at = now; is_stalled = false; lock_version = suc e.lock_version })

  -- `MarkNodeRunning`
  unfoldable pub mark_node_running : ℕ → NodeJob V → Tx V Bool
  unfolding update_nodes insert_attempt note_progress record_event record_log
  mark_node_running now job = do
    affected ← update_nodes (startable job) (start_row now job)
    elim affected [
      | ℕ.zero ↦ pure false
      | suc n ↦ do
        insert_attempt now job
        noted ← note_progress now job.company_id job.execution_id
        record_event job.execution_id job.node_execution_id "NODE_STARTED" "QUEUED" "RUNNING"
        record_log job.execution_id job.node_execution_id "INFO" "Node execution started"
        pure true
    ]

  abbrev pub finishable : NodeJob V → NodeRow V → Bool
  finishable job r = at_job job r && r.attempt == job.attempt && is_running r.status

  abbrev pub running_attempt_at : NodeJob V → AttemptRow V → Bool
  running_attempt_at job a = attempt_at job a && is_attempt_running a.status

  abbrev pub stored_output : V → NodeRoutingOutcome V → StoredOutput V
  stored_output output r = if r.explicit then routed output r.edge_payloads else plain output

  abbrev pub succeed_row : ℕ → StoredOutput V → NodeRow V → NodeRow V
  succeed_row now output r = record r {
    status = node_succeeded;
    output = some output;
    failure = none;
    finished_at = some now;
    updated_at = now;
    next_attempt_at = none;
    lock_version = suc r.lock_version;
  }

  -- `SaveNodeSuccess`
  unfoldable pub save_node_success : ℕ → NodeJob V → V → NodeRoutingOutcome V → Tx V (Unit {0})
  unfolding update_nodes update_attempts note_progress record_event record_log
  save_node_success now job output routing = do
    let stored = stored_output output routing
    affected ← update_nodes (finishable job) (succeed_row now stored)
    require (affected == 1) state_transition
    completed ← update_attempts (running_attempt_at job) (λ a. record a {
      status = attempt_succeeded;
      output = some stored;
      finished_at = some now;
      updated_at = now;
    })
    require (completed == 1) state_transition
    noted ← note_progress now job.company_id job.execution_id
    record_event job.execution_id job.node_execution_id "NODE_SUCCEEDED" "RUNNING" "SUCCEEDED"
    record_log job.execution_id job.node_execution_id "INFO" "Node execution succeeded"

  abbrev pub retryable_at : NodeJob V → NodeRow V → Bool
  retryable_at job r = at_job job r && r.attempt == job.attempt && is_retry_pending r.status

  abbrev pub retry_row : ℕ → ℕ → NodeRow V → NodeRow V
  retry_row now attempt r = record r {
    status = node_queued;
    attempt = attempt;
    queued_at = some now;
    next_attempt_at = none;
    failure = none;
    updated_at = now;
    lock_version = suc r.lock_version;
  }

  -- `PrepareRetry`
  unfoldable pub prepare_retry : ℕ → NodeJob V → Tx V (NodeJob V)
  unfolding update_nodes find_node
  prepare_retry now job = do
    affected ← update_nodes (retryable_at job) (retry_row now (job.attempt + 1))
    elim affected [
      | suc n ↦ pure (record job { attempt = job.attempt + 1 })
      | ℕ.zero ↦ do
        state ← find_node job.company_id job.execution_id job.node_id
        require (leb (job.attempt + 1) state.attempt) state_transition
        pure (record job { node_execution_id = state.id; attempt = state.attempt })
    ]
