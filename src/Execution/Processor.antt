-- ===== src/Execution/Processor.antt =====
-- execution/node_processor.go: a worker runs the attempts of a node and saves what they come to. What
-- stands outside is a record, `Worker`: the stored workflows, the handlers of the plugins, the clock, and
-- the state of the context when a run has failed or a wait is over. The effects of handlers elsewhere
-- are not modelled.
pub mod Consumer
pub mod Kept
pub mod Jobs
pub mod Bounds
pub mod Ends
pub mod Total
use miletos.Common.{
  ℕ, zero, suc, ◌+◌, String, Bool, true, false, not, ◌&&◌, ◌||◌, Option, none, some, List, [], ◌∷◌,
  find_where, ltb, leb, nat_eq, string_eq, ◌==◌, if◌then◌else◌,
}
use miletos.Workflow.{Object, WorkflowNode, Workflow}
use miletos.Plugin.{NodeError, NodeRegistration}
use miletos.Plugin.Registry.{NodeRegistry, get}
use miletos.Execution.{
  NodeStatus, node_running, node_retry_pending, node_succeeded, NodeJob, NodeRoutingOutcome,
  FailureSummary, no_failure, RetryDecisionKind, kind_retry, kind_exhausted, kind_do_not_retry,
  RetryDecisionReason, reason_scheduled, reason_max_attempts, reason_not_retryable, reason_category,
  reason_deadline, is_terminal_node_status,
}
use miletos.Execution.Retry.{
  ContextState, live, is_live, RunError, FailureDecision, category_name, decide_failure,
}
use miletos.Execution.Routing.{NodeOutcome}
use miletos.Execution.Access.{
  NodeAccess, HandlerRun, RunEnd, produced, broken, new_node_access, run_handler, routed_run,
}
use miletos.Execution.Store.{
  ExecutionRow, NodeRow, StoreError, not_found, state_transition, invalid_outcome, stale_job,
  permanent_job, persisted_failure, interrupted,
}
use miletos.Execution.Store.Nodes.{find_node}
use miletos.Execution.Store.Attempts.{mark_node_running, save_node_success, prepare_retry}
use miletos.Execution.Store.Statuses.{is_running, is_retry_pending}
use miletos.Execution.Store.Failures.{save_node_failure}
use miletos.Execution.Store.Executions.{mark_execution_running}
use miletos.Execution.Scheduler.{decode_outcome, is_succeeded}
use miletos.Execution.Scheduler.Programs.{
  Program, End, value, error, exhausted, ◌>>=◌, ◌>>◌, pure, raise, exhaust, call,
}
use miletos.Execution.Scheduler.Ready.{Schedule, complete_node}

pub record Worker (V : Type 0) : Type 0 where
  pub null : V
  pub registry : NodeRegistry V
  pub topic : String
  pub maximum_attempts : ℕ
  pub retry_delay : ℕ
  pub stored_workflow : NodeJob V → Option (Workflow V)
  pub execute : NodeRegistration V → NodeJob V → Object V → NodeAccess V → HandlerRun V
  pub now : NodeJob V → ℕ
  pub failed_at : NodeJob V → ℕ
  pub deadline : ℕ
  pub context_of : NodeJob V → ContextState
  pub context_after_wait : NodeJob V → ContextState
  pub new_message_id : NodeJob V → String
  pub schedule_of : ExecutionRow V → Schedule V
  pub finalize_fuel : ℕ

abbrev pub kind_name : RetryDecisionKind → String
kind_name kind_retry = "RETRY"
kind_name kind_exhausted = "EXHAUSTED"
kind_name kind_do_not_retry = "DO_NOT_RETRY"

abbrev pub reason_name : RetryDecisionReason → String
reason_name reason_scheduled = "RETRY_SCHEDULED"
reason_name reason_max_attempts = "MAX_ATTEMPTS_REACHED"
reason_name reason_not_retryable = "FAILURE_NOT_RETRYABLE"
reason_name reason_category = "CATEGORY_NOT_RETRYABLE"
reason_name reason_deadline = "DEADLINE_WOULD_BE_EXCEEDED"

-- `failureSummary`
abbrev pub failure_summary : FailureDecision → FailureSummary
failure_summary d = record no_failure {
  category = category_name d.classification.category;
  code = d.code;
  message = d.classification.message;
  retryable = d.classification.retryable;
  retry_decision_kind = kind_name d.kind;
  retry_decision_reason = reason_name d.reason;
}

abbrev no_handler : RunError
no_handler = record {
  is_panic = false;
  is_canceled = false;
  is_deadline = false;
  typed = some (record {
    category = "VALIDATION";
    code = "NODE_HANDLER_NOT_FOUND";
    message = "The configured node handler is unavailable.";
    can_retry = false;
  });
}

abbrev pub interruption : FailureSummary
interruption = record no_failure {
  category = "INTERNAL";
  code = "NODE_EXECUTION_INTERRUPTED";
  message = "Node execution was interrupted before a durable result.";
  retry_decision_kind = "DO_NOT_RETRY";
  retry_decision_reason = "FAILURE_NOT_RETRYABLE";
}

-- `nodeRunResult`; `none` is its zero value.
abbrev pub NodeRunResult : Type 0 → Type 0
NodeRunResult V = Option (V × NodeRoutingOutcome V)

module _ {V : Type 0} where
  abbrev no_routing : NodeRoutingOutcome V
  no_routing = record { explicit = false; edge_payloads = [] }

  -- `waitUntil`: `when` is over, or the wait ends with it or with the context.
  abbrev pub wait_until : Worker V → NodeJob V → Option ℕ → Program V (Unit {0})
  wait_until c job none = raise state_transition
  wait_until c job (some t) =
      if leb t (c.now job) || is_live (c.context_after_wait job) then pure tt else raise interrupted

  abbrev pub decoded_result : Option (NodeOutcome V) → Program V (NodeRunResult V)
  decoded_result none = raise invalid_outcome
  decoded_result (some o) = pure (some (o.output, o.routing))

  -- The attempt was not started: what the row says.
  abbrev pub not_started : Worker V → NodeRow V → Program V (NodeRunResult V)
  not_started c row =
      if is_succeeded row.status
      then decoded_result (decode_outcome c.null (some c.registry) row)
      else if is_running row.status
      then pure none
      else if is_terminal_node_status row.status
      then raise persisted_failure
      else raise state_transition

  -- The run of an attempt: its end, its routes, and whether the plugin is registered.
  abbrev pub run_registered :
      Worker V
      → NodeJob V
      → Workflow V
      → WorkflowNode V
      → Option (NodeRegistration V)
      → RunEnd V × NodeRoutingOutcome V
  run_registered c job w node none = (broken no_handler, no_routing)
  run_registered c job w node (some r) =
      if r.has_handler
      then routed_run (
          run_handler
            (c.execute r job node.configuration (new_node_access w node.id r.routing_mode))
            (new_node_access w node.id r.routing_mode))
      else (broken no_handler, no_routing)

  abbrev pub is_registered : Option (NodeRegistration V) → Bool
  is_registered none = false
  is_registered (some r) = true

  -- The decision about an attempt that has failed.
  abbrev pub decision_of : Worker V → NodeJob V → RunError → Bool → FailureDecision
  decision_of c job e exists =
      decide_failure (c.context_of job) job.attempt c.maximum_attempts e exists c.retry_delay
        (c.failed_at job) c.deadline

  -- After the failure is saved: `again` runs the next attempt of a retry that is made here.
  abbrev pub after_failure :
      Worker V
      → Bool
      → (NodeJob V → Program V (NodeRunResult V))
      → NodeJob V
      → FailureDecision
      → Program V (NodeRunResult V)
  after_failure c inline_retry again job d =
      if not d.result.retry
      then raise persisted_failure
      else if not inline_retry
      then pure none
      else wait_until c job (some d.next_attempt)
        >> (call (prepare_retry (c.now job) job) >>= again)

  abbrev pub finish_run :
      Worker V
      → Bool
      → (NodeJob V → Program V (NodeRunResult V))
      → NodeJob V
      → Bool
      → RunEnd V × NodeRoutingOutcome V
      → Program V (NodeRunResult V)
  finish_run c inline_retry again job exists (produced output, routing) =
      call (save_node_success (c.now job) job output routing) >> pure (some (output, routing))
  finish_run c inline_retry again job exists (broken e, routing) =
      call (
        save_node_failure (c.new_message_id job) (c.now job) job
          (failure_summary (decision_of c job e exists)) (decision_of c job e exists).result.retry
          (c.failed_at job) (decision_of c job e exists).next_attempt c.maximum_attempts
          c.retry_delay (if inline_retry then "" else c.topic))
      >> after_failure c inline_retry again job (decision_of c job e exists)

  abbrev pub after_start :
      Worker V
      → Bool
      → (NodeJob V → Program V (NodeRunResult V))
      → NodeJob V
      → Workflow V
      → WorkflowNode V
      → Bool
      → Program V (NodeRunResult V)
  after_start c inline_retry again job w node false =
      call (find_node job.company_id job.execution_id job.node_id) >>= not_started c
  after_start c inline_retry again job w node true =
      finish_run c inline_retry again job (is_registered (get c.registry node.type))
        (run_registered c job w node (get c.registry node.type))

  -- `processAttempts`
  unfoldable pub process_attempts :
      ℕ → Worker V → Bool → Workflow V → WorkflowNode V → NodeJob V → Program V (NodeRunResult V)
  unfolding mark_node_running find_node decode_outcome get run_handler new_node_access
      save_node_success save_node_failure decide_failure prepare_retry
  process_attempts zero c inline_retry w node job = exhaust
  process_attempts (suc fuel) c inline_retry w node job =
      call (mark_node_running (c.now job) job)
      >>= after_start c inline_retry (process_attempts fuel c inline_retry w node) job w node

  -- `PersistInterrupted`
  unfoldable pub persist_interrupted : Worker V → NodeJob V → Program V (Unit {0})
  unfolding save_node_failure
  persist_interrupted c job = call (
      save_node_failure "" (c.now job) job interruption false (c.failed_at job) 0 c.maximum_attempts
        c.retry_delay "")
