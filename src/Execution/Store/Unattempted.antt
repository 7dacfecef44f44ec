-- ===== src/Execution/Store/Unattempted.antt =====
-- execution/repository: the transactions that leave the rows of attempts as they are.
use miletos.Common.{
  ◌∙◌, string_eq, nat_eq, ℕ, String, Bool, ◌≡◌, arith, Option, List, [], ◌∷◌, inl, inr,
}
use miletos.Workflow.{WorkflowNode, Workflow}
use miletos.Execution.{NodeJob, SkipReason, ExecutionOrigin, ExecutionStatus}
use miletos.Execution.Store.{
  Store, StoredOutput, NodeRow, ExecutionRow, ok, update_nodes, update_executions, update_outbox,
}
use miletos.Execution.Store.Observations.{next_sequence, record_event, record_log}
use miletos.Execution.Store.Outbox.{
  persist_node_command, persist_retry_command, ensure_retry_command,
}
use miletos.Execution.Store.Repairs.{
  ReconciliationThresholds, find_stale_nodes, repair_queued_node_command,
}
use miletos.Execution.Store.Nodes.{
  find_node, find_node_by_id, mark_node_queued, queue_node_command, mark_node_skipped,
}
use miletos.Execution.Store.Attempts.{prepare_retry}
use miletos.Execution.Store.Copies.{copy_successful_nodes}
use miletos.Execution.Store.Executions.{
  find_by_id, mark_execution_queued, mark_execution_running, finalize, create_execution,
  insert_node, insert_nodes, new_node, new_execution,
}
use miletos.Execution.Store.Tables.{>>-eq-ok, Result-cases}

module _ {V : Type 0} (s s' : Store V) where
  pub mark_node_queued-attempts :
      (now : ℕ) (company_id execution_id node_id : String) (payload : Option V)
      (found : Option (NodeRow V))
      → mark_node_queued now company_id execution_id node_id payload s ≡ ok found s'
      → s'.attempts ≡ s.attempts
  unfolding mark_node_queued update_nodes find_node record_event next_sequence update_executions
  mark_node_queued-attempts now company_id execution_id node_id payload found h = ground arith

  pub queue_node_command-attempts :
      (message_id : String) (now : ℕ) (e : ExecutionRow V) (node_id : String) (payload : V)
      (destination : String) (found : Option (NodeRow V))
      → queue_node_command message_id now e node_id payload destination s ≡ ok found s'
      → s'.attempts ≡ s.attempts
  unfolding queue_node_command update_nodes find_node_by_id record_event next_sequence
      update_executions persist_node_command
  queue_node_command-attempts message_id now e node_id payload destination found h = ground arith

  pub mark_node_skipped-attempts :
      (now : ℕ) (company_id execution_id node_id : String) (reason : SkipReason)
      → mark_node_skipped now company_id execution_id node_id reason s ≡ ok tt s'
      → s'.attempts ≡ s.attempts
  unfolding mark_node_skipped update_nodes find_node record_event next_sequence update_executions
  mark_node_skipped-attempts now company_id execution_id node_id reason h = ground arith

  pub prepare_retry-attempts :
      (now : ℕ) (job job' : NodeJob V)
      → prepare_retry now job s ≡ ok job' s'
      → s'.attempts ≡ s.attempts
  unfolding prepare_retry update_nodes find_node
  prepare_retry-attempts now job job' h = ground arith

  pub repair_queued_node_command-attempts :
      (message_id : String) (now : ℕ) (node : NodeRow V) (job : NodeJob V) (destination : String)
      (available_at : ℕ) (b : Bool)
      → repair_queued_node_command message_id now node job destination available_at s ≡ ok b s'
      → s'.attempts ≡ s.attempts
  unfolding repair_queued_node_command update_nodes update_outbox persist_node_command
  repair_queued_node_command-attempts message_id now node job destination available_at b h =
      ground arith

  pub ensure_retry_command-attempts :
      (message_id : String) (now : ℕ) (job : NodeJob V) (destination : String) (available_at : ℕ)
      → ensure_retry_command message_id now job destination available_at s ≡ ok tt s'
      → s'.attempts ≡ s.attempts
  unfolding ensure_retry_command persist_retry_command persist_node_command
  ensure_retry_command-attempts message_id now job destination available_at h = ground arith

  pub find_stale_nodes-attempts :
      (t : ReconciliationThresholds) (current_timestamp limit : ℕ) (found : List (NodeRow V))
      → find_stale_nodes t current_timestamp limit s ≡ ok found s'
      → s'.attempts ≡ s.attempts
  unfolding find_stale_nodes update_executions
  find_stale_nodes-attempts t current_timestamp limit found h = ground arith

  copy_successful_nodes-attempts :
      (company_id source_id recovery_id node_id : String) (node_ids : List String)
      → copy_successful_nodes company_id source_id recovery_id (node_id ∷ node_ids) s ≡ ok tt s'
      → s'.attempts ≡ s.attempts
  unfolding copy_successful_nodes update_nodes
  copy_successful_nodes-attempts company_id source_id recovery_id node_id node_ids h = ground arith

  pub mark_execution_queued-attempts :
      (now : ℕ) (company_id execution_id : String)
      → mark_execution_queued now company_id execution_id s ≡ ok tt s'
      → s'.attempts ≡ s.attempts
  unfolding mark_execution_queued update_executions record_event next_sequence
  mark_execution_queued-attempts now company_id execution_id h = ground arith

  pub mark_execution_running-attempts :
      (now : ℕ) (company_id execution_id : String)
      → mark_execution_running now company_id execution_id s ≡ ok tt s'
      → s'.attempts ≡ s.attempts
  unfolding mark_execution_running update_executions record_event next_sequence
  mark_execution_running-attempts now company_id execution_id h = ground arith

  pub finalize-attempts :
      (now : ℕ) (company_id execution_id : String) (status : ExecutionStatus)
      (outputs : List (String × Option (StoredOutput V))) (failure : Option String)
      → finalize now company_id execution_id status outputs failure s ≡ ok tt s'
      → s'.attempts ≡ s.attempts
  unfolding finalize update_executions find_by_id record_event record_log next_sequence
  finalize-attempts now company_id execution_id status outputs failure h = ground arith

module _ {V : Type 0} where
  insert_node-attempts :
      (row : NodeRow V) (s s' : Store V) → insert_node row s ≡ ok tt s' → s'.attempts ≡ s.attempts
  unfolding insert_node
  insert_node-attempts row s s' h = ground arith

  insert_nodes-attempts :
      (now : ℕ) (w : Workflow V) (execution_id : String) (new_id : String → String)
      (ns : List (WorkflowNode V)) (s s' : Store V)
      → insert_nodes now w execution_id new_id ns s ≡ ok tt s'
      → s'.attempts ≡ s.attempts
  unfolding insert_nodes
  insert_nodes-attempts now w execution_id new_id [] s s' h = ground arith
  insert_nodes-attempts now w execution_id new_id (n ∷ ns) s s' h =
      let row = new_node now w execution_id (new_id n.id) n in
      let (s₁, e, f) =
        >>-eq-ok (insert_node row) (insert_nodes now w execution_id new_id ns) s s' tt h in
      insert_nodes-attempts now w execution_id new_id ns s₁ s' f ∙ insert_node-attempts row s s₁ e

  pub create_execution-attempts :
      (now : ℕ) (w : Workflow V) (origin : ExecutionOrigin) (correlation_id execution_id : String)
      (new_id : String → String) (e : ExecutionRow V) (s s' : Store V)
      → create_execution now w origin correlation_id execution_id new_id s ≡ ok e s'
      → s'.attempts ≡ s.attempts
  unfolding create_execution record_event next_sequence update_executions
  create_execution-attempts now w origin correlation_id execution_id new_id e s s' h =
      let s₁ : Store V = record s {
        executions = new_execution now w origin correlation_id execution_id ∷ s.executions;
      } in
      elim (Result-cases (insert_nodes now w execution_id new_id w.nodes s₁)) [
        | inl (s₂, done) ↦
            let same = insert_nodes-attempts now w execution_id new_id w.nodes s₁ s₂ done in
            ground (arith, done, same)
        | inr (x, refused) ↦ ground (arith, refused)
      ]

  pub copied-attempts :
      (company_id source_id recovery_id : String) (node_ids : List String) (s s' : Store V)
      → copy_successful_nodes company_id source_id recovery_id node_ids s ≡ ok tt s'
      → s'.attempts ≡ s.attempts
  unfolding copy_successful_nodes
  copied-attempts company_id source_id recovery_id [] s s' h = ground arith
  copied-attempts company_id source_id recovery_id (node_id ∷ node_ids) s s' h =
      copy_successful_nodes-attempts s s' company_id source_id recovery_id node_id node_ids h
