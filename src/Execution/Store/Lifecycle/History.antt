-- ===== src/Execution/Store/Lifecycle/History.antt =====
-- execution/repository: any sequence of transactions, and what it makes of the rows of the nodes.
use miletos.Common.{
  Bool, false, if◌then◌else◌, update_where, ℕ, String, Bool, true, ◌≡◌, refl, Option, some, List,
  [], ◌∷◌, arith, ==_iff, string_eq,
}
use miletos.Workflow.{WorkflowNode, Workflow}
use miletos.Execution.{
  FailureSummary, NodeJob, NodeRoutingOutcome, SkipReason, ExecutionOrigin, ExecutionStatus,
}
use miletos.Execution.Store.{Store, StoredOutput, NodeRow, ExecutionRow, ok}
use miletos.Execution.Store.Nodes.{
  mark_node_queued, queue_node_command, mark_node_skipped, or_input,
}
use miletos.Execution.Store.Attempts.{
  mark_node_running, save_node_success, prepare_retry, stored_output,
}
use miletos.Execution.Store.Statuses.{skip_reason_of}
use miletos.Execution.Store.Failures.{save_node_failure, complete_failure}
use miletos.Execution.Store.Executions.{
  mark_execution_queued, mark_execution_running, finalize, create_execution, new_node,
}
use miletos.Execution.Store.Outbox.{ensure_retry_command}
use miletos.Execution.Store.Copies.{copyable, copy_successful_nodes}
use miletos.Execution.Store.Repairs.{
  ReconciliationThresholds, find_stale_nodes, repair_queued_node_command, repairable_at, repair_row,
}
use miletos.Execution.Store.Tables.{
  mark_node_queued-nodes, queue_node_command-nodes, mark_node_running-nodes,
  save_node_success-nodes, save_node_failure-nodes, mark_node_skipped-nodes, prepare_retry-nodes,
  mark_execution_queued-nodes, mark_execution_running-nodes, finalize-nodes, create_execution-nodes,
  fresh_rows, repair_queued_node_command-nodes, ensure_retry_command-nodes, find_stale_nodes-nodes,
  copy_successful_nodes-nodes,
}
use miletos.Execution.Store.Lifecycle.{
  Progress, stays, moves, copies, Evolved, none_yet, added, changed, IsFresh,
}
use miletos.Execution.Store.Lifecycle.Moves.{
  queue_row-Move, start_row-Move, succeed_row-Move, fail_row-Move, skip_row-Move, retry_row-Move,
  repair_row-Move, copy_row-Copied, update_where-Copied, unchanged, update_where-Evolved,
  commandable-queueable,
}

-- A transaction that succeeds, and the tables before and after it, where results are copied into the
-- recoveries that `recovers` holds of. A creation stands for that under an idempotency key and for
-- `ReserveRecovery` too, which insert the same rows and fill tables that are not modelled.
pub data Transaction {V : Type 0} (recovers : String → Type 0) (s s' : Store V) : Type 0 where
  created :
      (now : ℕ) (w : Workflow V) (origin : ExecutionOrigin) (correlation_id execution_id : String)
      (new_id : String → String) (e : ExecutionRow V)
      → create_execution now w origin correlation_id execution_id new_id s ≡ ok e s'
      → Transaction recovers s s'
  execution_was_queued :
      (now : ℕ) (company_id execution_id : String)
      → mark_execution_queued now company_id execution_id s ≡ ok tt s'
      → Transaction recovers s s'
  execution_was_started :
      (now : ℕ) (company_id execution_id : String)
      → mark_execution_running now company_id execution_id s ≡ ok tt s'
      → Transaction recovers s s'
  execution_was_finalized :
      (now : ℕ) (company_id execution_id : String) (status : ExecutionStatus)
      (outputs : List (String × Option (StoredOutput V))) (failure : Option String)
      → finalize now company_id execution_id status outputs failure s ≡ ok tt s'
      → Transaction recovers s s'
  node_was_queued :
      (now : ℕ) (company_id execution_id node_id : String) (payload : Option V)
      (found : Option (NodeRow V))
      → mark_node_queued now company_id execution_id node_id payload s ≡ ok found s'
      → Transaction recovers s s'
  node_was_commanded :
      (message_id : String) (now : ℕ) (e : ExecutionRow V) (node_id : String) (payload : V)
      (destination : String) (found : Option (NodeRow V))
      → queue_node_command message_id now e node_id payload destination s ≡ ok found s'
      → Transaction recovers s s'
  node_was_started :
      (now : ℕ) (job : NodeJob V) (b : Bool)
      → mark_node_running now job s ≡ ok b s'
      → Transaction recovers s s'
  node_has_succeeded :
      (now : ℕ) (job : NodeJob V) (output : V) (routing : NodeRoutingOutcome V)
      → save_node_success now job output routing s ≡ ok tt s'
      → Transaction recovers s s'
  node_has_failed :
      (message_id : String) (now : ℕ) (job : NodeJob V) (failure : FailureSummary) (retry : Bool)
      (failed_at next_attempt maximum_attempts delay : ℕ) (destination : String)
      → save_node_failure message_id now job failure retry failed_at next_attempt maximum_attempts
          delay destination s
        ≡ ok tt s'
      → Transaction recovers s s'
  node_was_skipped :
      (now : ℕ) (company_id execution_id node_id : String) (reason : SkipReason)
      → mark_node_skipped now company_id execution_id node_id reason s ≡ ok tt s'
      → Transaction recovers s s'
  retry_was_prepared :
      (now : ℕ) (job job' : NodeJob V)
      → prepare_retry now job s ≡ ok job' s'
      → Transaction recovers s s'
  command_was_repaired :
      (message_id : String) (now : ℕ) (node : NodeRow V) (job : NodeJob V) (destination : String)
      (available_at : ℕ) (b : Bool)
      → repair_queued_node_command message_id now node job destination available_at s ≡ ok b s'
      → Transaction recovers s s'
  retry_was_ensured :
      (message_id : String) (now : ℕ) (job : NodeJob V) (destination : String) (available_at : ℕ)
      → ensure_retry_command message_id now job destination available_at s ≡ ok tt s'
      → Transaction recovers s s'
  stale_were_found :
      (t : ReconciliationThresholds) (current_timestamp limit : ℕ) (found : List (NodeRow V))
      → find_stale_nodes t current_timestamp limit s ≡ ok found s'
      → Transaction recovers s s'
  results_were_copied :
      (company_id source_id recovery_id : String) (node_ids : List String)
      → recovers recovery_id
      → copy_successful_nodes company_id source_id recovery_id node_ids s ≡ ok tt s'
      → Transaction recovers s s'

-- Any number of transactions, in order; one that fails leaves the tables as they are.
pub data History {V : Type 0} (recovers : String → Type 0) : Store V → Store V → Type 0 where
  begin : {s : Store V} → History recovers s s
  next :
      {s s' s'' : Store V}
      → Transaction recovers s s'
      → History recovers s' s''
      → History recovers s s''

module _ {V : Type 0} where
  new_node-IsFresh :
      (now : ℕ) (w : Workflow V) (execution_id id : String) (n : WorkflowNode V)
      → IsFresh (new_node now w execution_id id n)
  new_node-IsFresh now w execution_id id n = record {
    waits = refl;
    first = refl;
    unlocked = refl;
    is_ok = record {
      times = refl;
      readied = λ x. cc;
      ran = λ x. cc;
      awaiting = refl;
      numbered = omega arith;
    };
  }

module _ {V : Type 0} (recovers : String → Type 0) where
  fresh_rows-Evolved :
      (now : ℕ) (w : Workflow V) (execution_id : String) (new_id : String → String)
      (ns : List (WorkflowNode V)) (rs rs' : List (NodeRow V))
      → Evolved recovers rs rs'
      → Evolved recovers rs (fresh_rows now w execution_id new_id ns rs')
  fresh_rows-Evolved now w execution_id new_id [] rs rs' v = v
  fresh_rows-Evolved now w execution_id new_id (n ∷ ns) rs rs' v =
      fresh_rows-Evolved now w execution_id new_id ns rs
        (new_node now w execution_id (new_id n.id) n ∷ rs')
        (added (new_node-IsFresh now w execution_id (new_id n.id) n) stays v)

  repaired-Evolved :
      (now : ℕ) (node : NodeRow V) (b : Bool) (rs rs' : List (NodeRow V))
      → rs' ≡ (if b then update_where (repairable_at node) (repair_row now) rs else rs)
      → Evolved recovers rs rs'
  repaired-Evolved now node true rs rs' e =
      rw e (update_where-Evolved recovers _ _ rs (repair_row-Move now node))
  repaired-Evolved now node false rs rs' e = rw e (unchanged recovers rs)

  -- The rows that are copied into are those of the recovery.
  copyable-target :
      (company_id source_id recovery_id : String) (node_ids : List String) (rows : List (NodeRow V))
      (r : NodeRow V)
      → recovers recovery_id
      → copyable company_id source_id recovery_id node_ids rows r ≡ true
      → recovers r.execution_id
  copyable-target company_id source_id recovery_id node_ids rows r known h =
      let same : r.execution_id ≡ recovery_id =
        (==_iff r.execution_id recovery_id).0 (ground (arith, h)) in
      rw same known

  copied-Evolved :
      (s s' : Store V) (company_id source_id recovery_id : String) (node_ids : List String)
      → recovers recovery_id
      → copy_successful_nodes company_id source_id recovery_id node_ids s ≡ ok tt s'
      → Evolved recovers s.nodes s'.nodes
  unfolding copy_successful_nodes
  copied-Evolved s s' company_id source_id recovery_id [] known h =
      let same : s'.nodes ≡ s.nodes = ground (arith, h) in rw same (unchanged recovers s.nodes)
  copied-Evolved s s' company_id source_id recovery_id (node_id ∷ node_ids) known h =
      rw (copy_successful_nodes-nodes s s' company_id source_id recovery_id node_id node_ids h) (
        update_where-Copied recovers _ _ s.nodes (λ r hit. (
          copyable-target company_id source_id recovery_id (node_id ∷ node_ids) s.nodes r known hit,
          copy_row-Copied company_id source_id recovery_id (node_id ∷ node_ids) s.nodes r hit,
        )))

  -- The rows of a table after a transaction.
  Transaction-Evolved :
      (s s' : Store V) → Transaction recovers s s' → Evolved recovers s.nodes s'.nodes
  Transaction-Evolved s s' (Transaction.created now w origin cid eid new_id e h) =
      rw (create_execution-nodes now w origin cid eid new_id e s s' h)
        (fresh_rows-Evolved now w eid new_id w.nodes s.nodes s.nodes (unchanged recovers s.nodes))
  Transaction-Evolved s s' (Transaction.execution_was_queued now cid eid h) =
      rw (mark_execution_queued-nodes s s' now cid eid h) (unchanged recovers s.nodes)
  Transaction-Evolved s s' (Transaction.execution_was_started now cid eid h) =
      rw (mark_execution_running-nodes s s' now cid eid h) (unchanged recovers s.nodes)
  Transaction-Evolved s s' (Transaction.execution_was_finalized now cid eid st outs f h) =
      rw (finalize-nodes s s' now cid eid st outs f h) (unchanged recovers s.nodes)
  Transaction-Evolved s s' (Transaction.node_was_queued now cid eid nid payload found h) =
      rw (mark_node_queued-nodes s s' now cid eid nid payload found h) (
        update_where-Evolved recovers _ _ s.nodes
          (λ r k. queue_row-Move now (or_input payload r.input) r (ground (arith, k))))
  Transaction-Evolved s s' (Transaction.node_was_commanded mid now e nid payload dst found h) =
      rw (queue_node_command-nodes s s' mid now e nid payload dst found h) (
        update_where-Evolved recovers _ _ s.nodes (λ r k.
          queue_row-Move now (some payload) r (commandable-queueable r.status (ground (arith, k)))))
  Transaction-Evolved s s' (Transaction.node_was_started now job b h) =
      rw (mark_node_running-nodes s s' now job b h)
        (update_where-Evolved recovers _ _ s.nodes (start_row-Move now job))
  Transaction-Evolved s s' (Transaction.node_has_succeeded now job output routing h) =
      rw (save_node_success-nodes s s' now job output routing h) (
        update_where-Evolved recovers _ _ s.nodes
          (succeed_row-Move now (stored_output output routing) job))
  Transaction-Evolved s s'
        (Transaction.node_has_failed mid now job f retry at later maximum delay dst h) =
      rw (save_node_failure-nodes s s' mid now job f retry at later maximum delay dst h) (
        update_where-Evolved recovers _ _ s.nodes
          (fail_row-Move retry (complete_failure job retry later f) at later maximum delay job))
  Transaction-Evolved s s' (Transaction.node_was_skipped now cid eid nid reason h) =
      rw (mark_node_skipped-nodes s s' now cid eid nid reason h) (
        update_where-Evolved recovers _ _ s.nodes
          (λ r k. skip_row-Move now (skip_reason_of reason) r (ground (arith, k))))
  Transaction-Evolved s s' (Transaction.retry_was_prepared now job job' h) =
      rw (prepare_retry-nodes s s' now job job' h)
        (update_where-Evolved recovers _ _ s.nodes (retry_row-Move now job))
  Transaction-Evolved s s' (Transaction.command_was_repaired mid now node job dst at b h) =
      repaired-Evolved now node b s.nodes s'.nodes
        (repair_queued_node_command-nodes s s' mid now node job dst at b h)
  Transaction-Evolved s s' (Transaction.retry_was_ensured mid now job dst at h) =
      rw (ensure_retry_command-nodes s s' mid now job dst at h) (unchanged recovers s.nodes)
  Transaction-Evolved s s' (Transaction.stale_were_found t current limit found h) =
      rw (find_stale_nodes-nodes s s' t current limit found h) (unchanged recovers s.nodes)
  Transaction-Evolved s s' (Transaction.results_were_copied cid source target node_ids known h) =
      copied-Evolved s s' cid source target node_ids known h

  Progress-trans :
      {r r' r'' : NodeRow V}
      → Progress recovers r r'
      → Progress recovers r' r''
      → Progress recovers r r''
  Progress-trans stays q = q
  Progress-trans (moves m p) q = moves m (Progress-trans p q)
  Progress-trans (copies known c p) q = copies known c (Progress-trans p q)

  Evolved-trans :
      {b c : List (NodeRow V)}
      → Evolved recovers b c
      → {a : List (NodeRow V)} → Evolved recovers a b
      → Evolved recovers a c
  Evolved-trans (added f p u) v = added f p (Evolved-trans u v)
  Evolved-trans none_yet none_yet = none_yet
  Evolved-trans (changed p u) (added f q v) = added f (Progress-trans q p) (Evolved-trans u v)
  Evolved-trans (changed p u) (changed q v) = changed (Progress-trans q p) (Evolved-trans u v)

module _ {V : Type 0} where
  -- Whatever transactions on executions and nodes succeed, in whatever order, the copies of results
  -- into recoveries among them: each row of a node stays and keeps its identity; it changes its status
  -- only along the moves of the life of a node (a repair of its command leaves it queued), raising its
  -- lock version by one with each and never lowering its attempt, or by a copy, which only a row of a
  -- recovery that is pending or has succeeded gets, and after which it has succeeded; rows that are
  -- added begin as pending, with attempt 1.
  pub History-Evolved :
      {recovers : String → Type 0} {s s' : Store V}
      → History recovers s s'
      → Evolved recovers s.nodes s'.nodes
  History-Evolved {recovers} {s} begin = unchanged recovers s.nodes
  History-Evolved {recovers} (next {s} {s'} t h) =
      Evolved-trans recovers (History-Evolved h) (Transaction-Evolved recovers s s' t)
