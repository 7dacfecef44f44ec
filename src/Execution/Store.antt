-- ===== src/Execution/Store.antt =====
-- execution/repository: the tables of the runtime's database as lists of rows, and transactions on
-- them. A transaction works on the tables and returns the new ones, or an error, upon which the
-- caller keeps the old ones: the rollback. Failures of the driver and of JSON encoding are not
-- modelled. Ids that the code draws at random are arguments, as is the time.
pub mod Observations
pub mod Outbox
pub mod Statuses
pub mod Nodes
pub mod Attempts
pub mod Repairs
pub mod Failures
pub mod Executions
pub mod Copies
pub mod Tables
pub mod Unattempted
pub mod Lifecycle
pub mod Commands
pub mod Claims
pub mod Once
use miletos.Common.{
  ℕ, String, Bool, true, false, Option, none, some, List, [], ◌∷◌, ◌++◌, update_where, count_where,
}
use miletos.Workflow.{Object}
use miletos.Execution.{
  ExecutionStatus, NodeStatus, FailureCategory, FailureSummary, RetryDecisionKind,
  RetryDecisionReason, ExecutionOrigin, NodeJob,
}

-- `output_summary`: an encoded value, or a `PersistedRoutedOutput` with the payloads of the edges.
pub data StoredOutput (V : Type 0) : Type 0 where
  plain : V → StoredOutput V
  routed : V → Object V → StoredOutput V

-- A row of `workflow_executions`
pub record ExecutionRow (V : Type 0) : Type 0 where
  pub id : String
  pub company_id : String
  pub workflow_id : String
  pub workflow_revision : ℕ
  pub correlation_id : String
  pub origin : ExecutionOrigin
  pub status : ExecutionStatus
  pub created_at : ℕ
  pub queued_at : Option ℕ
  pub started_at : Option ℕ
  pub finished_at : Option ℕ
  pub updated_at : ℕ
  pub terminal_outputs : List (String × Option (StoredOutput V))
  pub failure : Option String
  pub is_stalled : Bool
  pub lock_version : ℕ
  pub next_sequence_number : ℕ

-- A row of `node_executions`
pub record NodeRow (V : Type 0) : Type 0 where
  pub id : String
  pub execution_id : String
  pub company_id : String
  pub node_id : String
  pub type : String
  pub version : String
  pub status : NodeStatus
  pub attempt : ℕ
  pub created_at : ℕ
  pub ready_at : Option ℕ
  pub queued_at : Option ℕ
  pub started_at : Option ℕ
  pub finished_at : Option ℕ
  pub next_attempt_at : Option ℕ
  pub updated_at : ℕ
  pub input : Option V
  pub output : Option (StoredOutput V)
  pub failure : Option FailureSummary
  pub retry_max_attempts : Option ℕ
  pub retry_backoff_ns : Option ℕ
  pub lock_version : ℕ

pub data AttemptStatus : Type 0 where
  attempt_running attempt_succeeded attempt_failed : AttemptStatus

-- A row of `node_execution_attempts`
pub record AttemptRow (V : Type 0) : Type 0 where
  pub company_id : String
  pub execution_id : String
  pub node_execution_id : String
  pub attempt : ℕ
  pub status : AttemptStatus
  pub output : Option (StoredOutput V)
  pub failure : Option FailureSummary
  pub started_at : ℕ
  pub finished_at : Option ℕ
  pub updated_at : ℕ
  pub retry_decision_kind : Option RetryDecisionKind
  pub retry_decision_reason : Option RetryDecisionReason
  pub retry_backoff_ns : Option ℕ
  pub next_attempt_at : Option ℕ

pub data PublicationState : Type 0 where
  publication_pending publishing published : PublicationState

-- The data that a node command's operation key hashes. SHA-256 is taken to have no collisions.
pub record OperationKey : Type 0 where
  pub company_id : String
  pub execution_id : String
  pub node_execution_id : String
  pub attempt : ℕ

-- A row of `outbox_messages`; `payload` is encoded as JSON there.
pub record OutboxRow (V : Type 0) : Type 0 where
  pub message_id : String
  pub company_id : String
  pub execution_id : String
  pub node_execution_id : String
  pub node_id : String
  pub attempt : ℕ
  pub operation_key : OperationKey
  pub destination : String
  pub message_key : String
  pub payload : NodeJob V
  pub publication_state : PublicationState
  pub available_at : ℕ
  pub created_at : ℕ
  pub claimed_at : Option ℕ
  pub claim_owner : Option String
  pub published_at : Option ℕ
  pub lock_version : ℕ

-- Rows of `execution_events`, `execution_logs` and `execution_errors`, without their metadata.
pub record EventRow : Type 0 where
  pub execution_id : String
  pub node_execution_id : String
  pub sequence : ℕ
  pub type : String
  pub previous_status : String
  pub new_status : String

pub record LogRow : Type 0 where
  pub execution_id : String
  pub node_execution_id : String
  pub sequence : ℕ
  pub level : String
  pub message : String

pub record ErrorRow : Type 0 where
  pub execution_id : String
  pub company_id : String
  pub node_execution_id : String
  pub category : FailureCategory
  pub code : String
  pub message : String
  pub retryable : Bool
  pub details : FailureSummary
  pub created_at : ℕ

pub record Store (V : Type 0) : Type 0 where
  pub executions : List (ExecutionRow V)
  pub nodes : List (NodeRow V)
  pub attempts : List (AttemptRow V)
  pub outbox : List (OutboxRow V)
  pub events : List EventRow
  pub logs : List LogRow
  pub errors : List ErrorRow

-- `ErrNotFound`, `ErrStateTransition`, a refused argument, and a violated key of a table; and the
-- scheduler's own errors: a saved outcome that cannot be read, nodes that wait for scheduling, a
-- definition that is not valid, and a start node that is none or not named; and the worker's: a job
-- that is stale or can never be done, a failure that was saved, and a wait that was cut short.
pub data StoreError : Type 0 where
  not_found state_transition invalid_argument duplicate_key : StoreError
  invalid_outcome awaiting_scheduling invalid_workflow unknown_root root_required : StoreError
  stale_job permanent_job persisted_failure interrupted : StoreError

pub data Result (V A : Type 0) : Type 0 where
  ok : A → Store V → Result V A
  err : StoreError → Result V A

abbrev pub Tx : Type 0 → Type 0 → Type 0
Tx V A = Store V → Result V A

infixl 5 ◌>>=◌ ◌>>◌
abbrev pub ◌>>=◌ : {V A B : Type 0} → Tx V A → (A → Tx V B) → Tx V B
◌>>=◌ m f s = elim (m s) [ ok a s' ↦ f a s' | err e ↦ err e ]

abbrev pub ◌>>◌ : {V B : Type 0} → Tx V (Unit {0}) → Tx V B → Tx V B
◌>>◌ m k s = elim (m s) [ ok a s' ↦ k s' | err e ↦ err e ]

module _ {V : Type 0} where
  abbrev pub pure : {A : Type 0} → A → Tx V A
  pure a s = ok a s

  abbrev pub throw : {A : Type 0} → StoreError → Tx V A
  throw e s = err e

  abbrev pub require : Bool → StoreError → Tx V (Unit {0})
  require true e s = ok tt s
  require false e s = err e

  abbrev pub read : {A : Type 0} → (Store V → A) → Tx V A
  read f s = ok (f s) s

  abbrev pub modify : (Store V → Store V) → Tx V (Unit {0})
  modify f s = ok tt (f s)

  -- Updates that return the number of rows affected.
  unfoldable pub update_nodes : (NodeRow V → Bool) → (NodeRow V → NodeRow V) → Tx V ℕ
  update_nodes p f s = ok (count_where p s.nodes) (record s { nodes = update_where p f s.nodes })

  unfoldable pub update_executions :
      (ExecutionRow V → Bool) → (ExecutionRow V → ExecutionRow V) → Tx V ℕ
  update_executions p f s =
      ok (count_where p s.executions) (record s { executions = update_where p f s.executions })

  unfoldable pub update_attempts : (AttemptRow V → Bool) → (AttemptRow V → AttemptRow V) → Tx V ℕ
  update_attempts p f s =
      ok (count_where p s.attempts) (record s { attempts = update_where p f s.attempts })

  unfoldable pub update_outbox : (OutboxRow V → Bool) → (OutboxRow V → OutboxRow V) → Tx V ℕ
  update_outbox p f s =
      ok (count_where p s.outbox) (record s { outbox = update_where p f s.outbox })
