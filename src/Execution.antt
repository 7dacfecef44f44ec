-- ===== src/Execution.antt =====
-- internal/features/workflow-runtime/execution/model: statuses, reasons, jobs and outcomes. A string
-- type with constants is a data type; where the code reads a constant back from JSON, its text is
-- written out. `V` is the type of JSON values, and a time is a number, 0 for Go's zero time.
pub mod Routing
pub mod Retry
pub mod Store
pub mod Access
pub mod Inputs
pub mod Scheduler
pub mod Processor
pub mod Dispatcher
pub mod Recovery
pub mod Reconciler
use miletos.Common.{
  ℕ, String, Bool, true, false, Option, none, List, [], string_eq, ◌==◌, if◌then◌else◌, trim_space,
}
use miletos.Workflow.{Object}

pub data ExecutionStatus : Type 0 where
  execution_created execution_validating execution_rejected : ExecutionStatus
  execution_queued execution_running execution_succeeded : ExecutionStatus
  execution_failed execution_cancelled execution_timed_out : ExecutionStatus

pub data NodeStatus : Type 0 where
  node_pending node_ready node_queued node_running node_retry_pending : NodeStatus
  node_succeeded node_failed node_skipped node_cancelled node_timed_out : NodeStatus

-- A skip reason as the runtime reads it back; `unexplained` is the empty string.
pub data SkipReason : Type 0 where
  unexplained out_of_trigger_scope dependency_failed no_active_route : SkipReason

pub data FailureCategory : Type 0 where
  validation execution internal canceled timeout : FailureCategory

pub data RetryDecisionKind : Type 0 where
  kind_retry kind_exhausted kind_do_not_retry : RetryDecisionKind

pub data RetryDecisionReason : Type 0 where
  reason_scheduled reason_max_attempts reason_not_retryable : RetryDecisionReason
  reason_category reason_deadline : RetryDecisionReason

pub data ExecutionOrigin : Type 0 where
  unset manual_direct http_webhook cron data_arrival : ExecutionOrigin

pub record NodeRoutingOutcome (V : Type 0) : Type 0 where
  pub explicit : Bool
  pub edge_payloads : Object V

pub record NodeJob (V : Type 0) : Type 0 where
  pub company_id : String
  pub workflow_id : String
  pub execution_id : String
  pub node_id : String
  pub node_execution_id : String
  pub attempt : ℕ
  pub correlation_id : String
  pub origin : ExecutionOrigin
  pub payload : V

-- The keys of a failure's JSON object that the runtime reads or sets; a missing key is the zero value.
pub record FailureSummary : Type 0 where
  pub category : String
  pub code : String
  pub message : String
  pub retryable : Bool
  pub retry_decision_kind : String
  pub retry_decision_reason : String
  pub skip_reason : SkipReason
  pub execution_id : String
  pub node_id : String
  pub node_execution_id : String
  pub correlation_id : String
  pub next_attempt_at : Option ℕ

abbrev pub no_failure : FailureSummary
no_failure = record {
  category = "";
  code = "";
  message = "";
  retryable = false;
  retry_decision_kind = "";
  retry_decision_reason = "";
  skip_reason = unexplained;
  execution_id = "";
  node_id = "";
  node_execution_id = "";
  correlation_id = "";
  next_attempt_at = none;
}

-- `isTerminalExecutionStatus` of scheduler.go
abbrev pub is_terminal_execution_status : ExecutionStatus → Bool
is_terminal_execution_status execution_succeeded = true
is_terminal_execution_status execution_failed = true
is_terminal_execution_status execution_cancelled = true
is_terminal_execution_status execution_rejected = true
is_terminal_execution_status execution_timed_out = true
is_terminal_execution_status _ = false

-- `isTerminalNodeStatus` of node_processor.go
abbrev pub is_terminal_node_status : NodeStatus → Bool
is_terminal_node_status node_succeeded = true
is_terminal_node_status node_failed = true
is_terminal_node_status node_skipped = true
is_terminal_node_status node_cancelled = true
is_terminal_node_status node_timed_out = true
is_terminal_node_status _ = false
