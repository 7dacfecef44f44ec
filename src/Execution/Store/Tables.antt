-- ===== src/Execution/Store/Tables.antt =====
-- execution/repository: what each transaction does to the table of nodes, if it succeeds.
use miletos.Common.{
  if◌then◌else◌, string_eq, nat_eq, ℕ, ◌+◌, String, Bool, ◌≡◌, refl, arith, Option, some, List, [],
  ◌∷◌, update_where, ◌⊎◌, inl, inr,
}
use miletos.Workflow.{WorkflowNode, Workflow}
use miletos.Execution.{
  FailureSummary, NodeJob, NodeRoutingOutcome, SkipReason, ExecutionOrigin, ExecutionStatus,
}
use miletos.Execution.Store.{
  Store, StoredOutput, NodeRow, ExecutionRow, StoreError, Result, Tx, ok, err, ◌>>◌, update_nodes,
  update_executions, update_attempts, update_outbox,
}
use miletos.Execution.Store.Observations.{next_sequence, record_event, record_log, record_error}
use miletos.Execution.Store.Outbox.{
  persist_node_command, persist_retry_command, ensure_retry_command,
}
use miletos.Execution.Store.Repairs.{
  ReconciliationThresholds, find_stale_nodes, repair_queued_node_command, repairable_at, repair_row,
}
use miletos.Execution.Store.Nodes.{
  find_node, find_node_by_id, queueable_at, queue_row, or_input, mark_node_queued, commandable_at,
  queue_node_command, skippable_at, skip_row, mark_node_skipped,
}
use miletos.Execution.Store.Attempts.{
  mark_node_running, startable, start_row, insert_attempt, note_progress, finishable, succeed_row,
  stored_output, save_node_success, retryable_at, retry_row, prepare_retry,
}
use miletos.Execution.Store.Statuses.{skip_reason_of}
use miletos.Execution.Store.Copies.{copy_successful_nodes, copyable, copy_from}
use miletos.Execution.Store.Failures.{complete_failure, fail_row, save_node_failure}
use miletos.Execution.Store.Executions.{
  find_by_id, mark_execution_queued, mark_execution_running, finalize, create_execution,
  insert_node, insert_nodes, new_node, new_execution,
}

-- A transaction that succeeds passes through the tables that its first part leaves.
pub >>-eq-ok :
    {V B : Type 0} (m : Tx V (Unit {0})) (k : Tx V B) (s s' : Store V) (b : B)
    → ◌>>◌ m k s ≡ ok b s'
    → (s₁ : Store V) × (m s ≡ ok tt s₁) × (k s₁ ≡ ok b s')
>>-eq-ok {V} {B} m k s s' b h = by_result (m s) refl h
  where
    by_result :
        (r : Result V (Unit {0}))
        → m s ≡ r
        → (elim r [ ok a s₁ ↦ k s₁ | err e ↦ err e ]) ≡ ok b s'
        → (s₁ : Store V) × (m s ≡ ok tt s₁) × (k s₁ ≡ ok b s')
    by_result (ok tt s₁) e f = (s₁, e, f)
    by_result (err x) e f = cc

-- The rows that `createExecution` adds, the last first.
abbrev pub fresh_rows :
    {V : Type 0}
    → ℕ
    → Workflow V
    → String
    → (String → String)
    → List (WorkflowNode V)
    → List (NodeRow V)
    → List (NodeRow V)
fresh_rows now w execution_id new_id [] rows = rows
fresh_rows now w execution_id new_id (n ∷ ns) rows =
    fresh_rows now w execution_id new_id ns (new_node now w execution_id (new_id n.id) n ∷ rows)

module _ {V : Type 0} (s s' : Store V) where
  pub mark_node_queued-nodes :
      (now : ℕ) (company_id execution_id node_id : String) (payload : Option V)
      (found : Option (NodeRow V))
      → mark_node_queued now company_id execution_id node_id payload s ≡ ok found s'
      → s'.nodes
        ≡ update_where
            (queueable_at company_id execution_id node_id)
            (λ r. queue_row now (or_input payload r.input) r)
            s.nodes
  unfolding mark_node_queued update_nodes find_node record_event next_sequence update_executions
  mark_node_queued-nodes now company_id execution_id node_id payload found h = ground arith

  pub queue_node_command-nodes :
      (message_id : String) (now : ℕ) (e : ExecutionRow V) (node_id : String) (payload : V)
      (destination : String) (found : Option (NodeRow V))
      → queue_node_command message_id now e node_id payload destination s ≡ ok found s'
      → s'.nodes
        ≡ update_where
            (commandable_at e.company_id e.id node_id)
            (queue_row now (some payload))
            s.nodes
  unfolding queue_node_command update_nodes find_node_by_id record_event next_sequence
      update_executions persist_node_command
  queue_node_command-nodes message_id now e node_id payload destination found h = ground arith

  pub mark_node_running-nodes :
      (now : ℕ) (job : NodeJob V) (b : Bool)
      → mark_node_running now job s ≡ ok b s'
      → s'.nodes ≡ update_where (startable job) (start_row now job) s.nodes
  unfolding mark_node_running update_nodes insert_attempt note_progress update_executions
      record_event record_log next_sequence
  mark_node_running-nodes now job b h = ground arith

  pub save_node_success-nodes :
      (now : ℕ) (job : NodeJob V) (output : V) (routing : NodeRoutingOutcome V)
      → save_node_success now job output routing s ≡ ok tt s'
      → s'.nodes
        ≡ update_where (finishable job) (succeed_row now (stored_output output routing)) s.nodes
  unfolding save_node_success update_nodes update_attempts note_progress update_executions
      record_event record_log next_sequence
  save_node_success-nodes now job output routing h = ground arith

  pub save_node_failure-nodes :
      (message_id : String) (now : ℕ) (job : NodeJob V) (failure : FailureSummary) (retry : Bool)
      (failed_at next_attempt maximum_attempts delay : ℕ) (destination : String)
      → save_node_failure message_id now job failure retry failed_at next_attempt maximum_attempts
          delay destination s
        ≡ ok tt s'
      → s'.nodes
        ≡ update_where
            (finishable job)
            (fail_row retry
              (complete_failure job retry next_attempt failure)
              failed_at
              next_attempt
              maximum_attempts
              delay)
            s.nodes
  unfolding save_node_failure update_nodes update_attempts note_progress update_executions
      record_event record_log next_sequence record_error persist_retry_command persist_node_command
  save_node_failure-nodes message_id now job failure retry failed_at next_attempt maximum_attempts
        delay destination h =
      ground arith

  pub mark_node_skipped-nodes :
      (now : ℕ) (company_id execution_id node_id : String) (reason : SkipReason)
      → mark_node_skipped now company_id execution_id node_id reason s ≡ ok tt s'
      → s'.nodes
        ≡ update_where
            (skippable_at company_id execution_id node_id)
            (skip_row now (skip_reason_of reason))
            s.nodes
  unfolding mark_node_skipped update_nodes find_node record_event next_sequence update_executions
  mark_node_skipped-nodes now company_id execution_id node_id reason h = ground arith

  pub prepare_retry-nodes :
      (now : ℕ) (job job' : NodeJob V)
      → prepare_retry now job s ≡ ok job' s'
      → s'.nodes ≡ update_where (retryable_at job) (retry_row now (job.attempt + 1)) s.nodes
  unfolding prepare_retry update_nodes find_node
  prepare_retry-nodes now job job' h = ground arith

  pub repair_queued_node_command-nodes :
      (message_id : String) (now : ℕ) (node : NodeRow V) (job : NodeJob V) (destination : String)
      (available_at : ℕ) (b : Bool)
      → repair_queued_node_command message_id now node job destination available_at s ≡ ok b s'
      → s'.nodes
        ≡ (if b then update_where (repairable_at node) (repair_row now) s.nodes else s.nodes)
  unfolding repair_queued_node_command update_nodes update_outbox persist_node_command
  repair_queued_node_command-nodes message_id now node job destination available_at b h =
      ground arith

  pub ensure_retry_command-nodes :
      (message_id : String) (now : ℕ) (job : NodeJob V) (destination : String) (available_at : ℕ)
      → ensure_retry_command message_id now job destination available_at s ≡ ok tt s'
      → s'.nodes ≡ s.nodes
  unfolding ensure_retry_command persist_retry_command persist_node_command
  ensure_retry_command-nodes message_id now job destination available_at h = ground arith

  pub find_stale_nodes-nodes :
      (t : ReconciliationThresholds) (current_timestamp limit : ℕ) (found : List (NodeRow V))
      → find_stale_nodes t current_timestamp limit s ≡ ok found s'
      → s'.nodes ≡ s.nodes
  unfolding find_stale_nodes update_executions
  find_stale_nodes-nodes t current_timestamp limit found h = ground arith

  -- The rows that a copy rewrites; it does nothing without a node to keep.
  pub copy_successful_nodes-nodes :
      (company_id source_id recovery_id node_id : String) (node_ids : List String)
      → copy_successful_nodes company_id source_id recovery_id (node_id ∷ node_ids) s ≡ ok tt s'
      → s'.nodes
        ≡ update_where
            (copyable company_id source_id recovery_id (node_id ∷ node_ids) s.nodes)
            (copy_from company_id source_id s.nodes)
            s.nodes
  unfolding copy_successful_nodes update_nodes
  copy_successful_nodes-nodes company_id source_id recovery_id node_id node_ids h = ground arith

  pub mark_execution_queued-nodes :
      (now : ℕ) (company_id execution_id : String)
      → mark_execution_queued now company_id execution_id s ≡ ok tt s'
      → s'.nodes ≡ s.nodes
  unfolding mark_execution_queued update_executions record_event next_sequence
  mark_execution_queued-nodes now company_id execution_id h = ground arith

  pub mark_execution_running-nodes :
      (now : ℕ) (company_id execution_id : String)
      → mark_execution_running now company_id execution_id s ≡ ok tt s'
      → s'.nodes ≡ s.nodes
  unfolding mark_execution_running update_executions record_event next_sequence
  mark_execution_running-nodes now company_id execution_id h = ground arith

  pub finalize-nodes :
      (now : ℕ) (company_id execution_id : String) (status : ExecutionStatus)
      (outputs : List (String × Option (StoredOutput V))) (failure : Option String)
      → finalize now company_id execution_id status outputs failure s ≡ ok tt s'
      → s'.nodes ≡ s.nodes
  unfolding finalize update_executions find_by_id record_event record_log next_sequence
  finalize-nodes now company_id execution_id status outputs failure h = ground arith

pub Result-cases :
    {V : Type 0} (r : Result V (Unit {0}))
    → ((s : Store V) × (r ≡ ok tt s)) ⊎ ((x : StoreError) × (r ≡ err x))
Result-cases (ok tt s) = inl (s, refl)
Result-cases (err x) = inr (x, refl)

module _ {V : Type 0} where
  insert_node-nodes :
      (row : NodeRow V) (s s' : Store V) → insert_node row s ≡ ok tt s' → s'.nodes ≡ row ∷ s.nodes
  unfolding insert_node
  insert_node-nodes row s s' h = ground arith

  insert_nodes-nodes :
      (now : ℕ) (w : Workflow V) (execution_id : String) (new_id : String → String)
      (ns : List (WorkflowNode V)) (s s' : Store V)
      → insert_nodes now w execution_id new_id ns s ≡ ok tt s'
      → s'.nodes ≡ fresh_rows now w execution_id new_id ns s.nodes
  unfolding insert_nodes
  insert_nodes-nodes now w execution_id new_id [] s s' h = ground arith
  insert_nodes-nodes now w execution_id new_id (n ∷ ns) s s' h =
      let row = new_node now w execution_id (new_id n.id) n in
      let (s₁, e, f) =
        >>-eq-ok (insert_node row) (insert_nodes now w execution_id new_id ns) s s' tt h in
      rw (← insert_node-nodes row s s₁ e) (insert_nodes-nodes now w execution_id new_id ns s₁ s' f)

  pub create_execution-nodes :
      (now : ℕ) (w : Workflow V) (origin : ExecutionOrigin) (correlation_id execution_id : String)
      (new_id : String → String) (e : ExecutionRow V) (s s' : Store V)
      → create_execution now w origin correlation_id execution_id new_id s ≡ ok e s'
      → s'.nodes ≡ fresh_rows now w execution_id new_id w.nodes s.nodes
  unfolding create_execution record_event next_sequence update_executions
  create_execution-nodes now w origin correlation_id execution_id new_id e s s' h =
      let s₁ : Store V = record s {
        executions = new_execution now w origin correlation_id execution_id ∷ s.executions;
      } in
      elim (Result-cases (insert_nodes now w execution_id new_id w.nodes s₁)) [
        | inl (s₂, done) ↦
            let rows = insert_nodes-nodes now w execution_id new_id w.nodes s₁ s₂ done in
            ground (arith, done, rows)
        | inr (x, refused) ↦ ground (arith, refused)
      ]
