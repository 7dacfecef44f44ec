-- ===== src/Execution/Scheduler/Kept.antt =====
-- execution/scheduler.go: what the programs of the scheduler keep, if skipping and queueing a node and
-- finalizing an execution keep it.
pub mod Finalize
pub mod Ready
use miletos.Common.{
  ℕ, zero, suc, String, Bool, true, false, ◌≡◌, refl, inl, inr, Option, none, some, List, [], ◌∷◌,
  Bool-cases, length, string_eq,
}
use miletos.Workflow.{WorkflowNode}
use miletos.Workflow.Graph.{is_empty}
use miletos.Workflow.Validator.Validate.{validate_workflow_definition}
use miletos.Execution.{SkipReason, ExecutionStatus}
use miletos.Execution.Store.Executions.{finalize}
use miletos.Execution.Store.{StoredOutput, Store, ExecutionRow, NodeRow, Tx, Result, ok, err}
use miletos.Execution.Store.Nodes.{mark_node_skipped, queue_node_command}
use miletos.Execution.Scheduler.{Outcomes, skipped_outcome, decode_all}
use miletos.Execution.Scheduler.Programs.{
  Program, End, value, error, exhausted, continue, ◌>>=◌, call, committed, list_all_nodes,
}

-- A relation of the tables before and after, that the scheduler's transactions keep.
pub record Kept (V : Type 0) : Type 1 where
  pub holds : Store V → Store V → Type 0
  pub same : (s : Store V) → holds s s
  pub follow : {s s' s'' : Store V} → holds s s' → holds s' s'' → holds s s''
  pub skips :
      (now : ℕ) (company_id execution_id node_id : String) (cause : SkipReason) (s s' : Store V)
      → mark_node_skipped now company_id execution_id node_id cause s ≡ ok tt s'
      → holds s s'
  pub queues :
      (message_id : String) (now : ℕ) (e : ExecutionRow V) (node_id : String) (payload : V)
      (topic : String) (found : Option (NodeRow V)) (s s' : Store V)
      → queue_node_command message_id now e node_id payload topic s ≡ ok found s'
      → holds s s'
  pub finalizes :
      (now : ℕ) (company_id execution_id : String) (status : ExecutionStatus)
      (outputs : List (String × Option (StoredOutput V))) (failure : Option String) (s s' : Store V)
      → finalize now company_id execution_id status outputs failure s ≡ ok tt s'
      → holds s s'

module _ {V : Type 0} (K : Kept V) where
  abbrev pub Keeps : {A : Type 0} → Program V A → Type 0
  Keeps m = (s : Store V) → K.holds s (m s).0

  pub >>=-Keeps :
      {A B : Type 0} (m : Program V A) (f : A → Program V B)
      → Keeps m
      → ((a : A) → Keeps (f a))
      → Keeps (m >>= f)
  >>=-Keeps m f p q s = by_end (m s).1 (m s).0 (p s)
    where
      by_end : (end : End _) (s' : Store V) → K.holds s s' → K.holds s (continue f s' end).0
      by_end (value a) s' h = K.follow h (q a s')
      by_end (error e) s' h = h
      by_end exhausted s' h = h

  pub call-Keeps :
      {A : Type 0} (t : Tx V A)
      → ((s s' : Store V) (a : A) → t s ≡ ok a s' → K.holds s s')
      → Keeps (call t)
  call-Keeps t k s = by_result (t s) refl
    where
      by_result : (r : Result V _) → t s ≡ r → K.holds s (committed s r).0
      by_result (ok a s') e = k s s' a e
      by_result (err x) e = K.same s

  pub skip-Keeps :
      (now : ℕ) (company_id execution_id node_id : String) (cause : SkipReason)
      → Keeps (call (mark_node_skipped now company_id execution_id node_id cause))
  skip-Keeps now company_id execution_id node_id cause =
      call-Keeps (mark_node_skipped now company_id execution_id node_id cause)
        (λ s s' a h. K.skips now company_id execution_id node_id cause s s' h)

  pub queue-Keeps :
      (message_id : String) (now : ℕ) (e : ExecutionRow V) (node_id : String) (payload : V)
      (topic : String)
      → Keeps (call (queue_node_command message_id now e node_id payload topic))
  queue-Keeps message_id now e node_id payload topic =
      call-Keeps (queue_node_command message_id now e node_id payload topic)
        (λ s s' found h. K.queues message_id now e node_id payload topic found s s' h)

  pub finalize-Keeps :
      (now : ℕ) (company_id execution_id : String) (status : ExecutionStatus)
      (outputs : List (String × Option (StoredOutput V))) (failure : Option String)
      → Keeps (call (finalize now company_id execution_id status outputs failure))
  finalize-Keeps now company_id execution_id status outputs failure =
      call-Keeps (finalize now company_id execution_id status outputs failure)
        (λ s s' a h. K.finalizes now company_id execution_id status outputs failure s s' h)

  -- A transaction that only reads.
  pub reading-Keeps :
      {A : Type 0} (t : Tx V A)
      → ((s s' : Store V) (a : A) → t s ≡ ok a s' → s' ≡ s)
      → Keeps (call t)
  reading-Keeps t k = call-Keeps t (λ s s' a h. rw (k s s' a h) (K.same s))
