-- ===== src/Execution/Store/Failures.antt =====
-- execution/repository/node_repository.go: `SaveNodeFailure`.
use miletos.Common.{
  ℕ, suc, ◌-◌, String, Bool, true, false, not, ◌&&◌, Option, none, some, trim_space, nat_eq,
  string_eq, ◌==◌, if◌then◌else◌,
}
use miletos.Execution.{
  node_failed, node_retry_pending, FailureSummary, RetryDecisionKind, kind_retry, kind_exhausted,
  kind_do_not_retry, RetryDecisionReason, reason_scheduled, reason_max_attempts,
  reason_not_retryable, reason_category, reason_deadline, NodeJob,
}
use miletos.Execution.Store.{
  NodeRow, AttemptRow, attempt_failed, state_transition, Tx, require, pure, update_nodes,
  update_attempts, ◌>>=◌, ◌>>◌,
}
use miletos.Execution.Store.Observations.{record_event, record_log, record_error}
use miletos.Execution.Store.Outbox.{persist_retry_command}
use miletos.Execution.Store.Attempts.{finishable, running_attempt_at, note_progress}

abbrev kind_named : String → Option RetryDecisionKind
kind_named s =
    if s == "RETRY"
    then some kind_retry
    else if s == "EXHAUSTED"
    then some kind_exhausted
    else if s == "DO_NOT_RETRY"
    then some kind_do_not_retry
    else none

-- `retryDecisionKindValue`
unfoldable pub retry_decision_kind_value : String → Option RetryDecisionKind
retry_decision_kind_value raw = kind_named (trim_space raw)

abbrev reason_named : String → Option RetryDecisionReason
reason_named s =
    if s == "RETRY_SCHEDULED"
    then some reason_scheduled
    else if s == "MAX_ATTEMPTS_REACHED"
    then some reason_max_attempts
    else if s == "FAILURE_NOT_RETRYABLE"
    then some reason_not_retryable
    else if s == "CATEGORY_NOT_RETRYABLE"
    then some reason_category
    else if s == "DEADLINE_WOULD_BE_EXCEEDED"
    then some reason_deadline
    else none

-- `retryDecisionReasonValue`
unfoldable pub retry_decision_reason_value : String → Option RetryDecisionReason
retry_decision_reason_value raw = reason_named (trim_space raw)

abbrev or_not_retryable : Option RetryDecisionReason → RetryDecisionReason
or_not_retryable none = reason_not_retryable
or_not_retryable (some r) = r

abbrev configured :
    Option RetryDecisionKind → FailureSummary → RetryDecisionKind × RetryDecisionReason
configured none f = (kind_exhausted, reason_max_attempts)
configured (some kind_retry) f = (kind_exhausted, reason_max_attempts)
configured (some kind_exhausted) f = (kind_exhausted, reason_max_attempts)
configured (some kind_do_not_retry) f =
    (kind_do_not_retry, or_not_retryable (retry_decision_reason_value f.retry_decision_reason))

-- The decision that is saved with the attempt.
unfoldable pub saved_decision : Bool → FailureSummary → RetryDecisionKind × RetryDecisionReason
unfolding retry_decision_kind_value retry_decision_reason_value
saved_decision retry f =
    if retry
    then (kind_retry, reason_scheduled)
    else configured (retry_decision_kind_value f.retry_decision_kind) f

abbrev some_if : Bool → ℕ → Option ℕ
some_if true t = some t
some_if false t = none

module _ {V : Type 0} where
  -- The keys that are set in the caller's map.
  abbrev pub complete_failure : NodeJob V → Bool → ℕ → FailureSummary → FailureSummary
  complete_failure job retry next_attempt f = record f {
    execution_id = job.execution_id;
    node_id = job.node_id;
    node_execution_id = job.node_execution_id;
    correlation_id = job.correlation_id;
    next_attempt_at = if retry then some next_attempt else f.next_attempt_at;
  }

  abbrev pub fail_row : Bool → FailureSummary → ℕ → ℕ → ℕ → ℕ → NodeRow V → NodeRow V
  fail_row retry failure failed_at next_attempt maximum_attempts delay r = record r {
    status = if retry then node_retry_pending else node_failed;
    output = none;
    failure = some failure;
    finished_at = some_if (not retry) failed_at;
    next_attempt_at = some_if retry next_attempt;
    updated_at = failed_at;
    lock_version = suc r.lock_version;
    retry_max_attempts = if retry then some maximum_attempts else r.retry_max_attempts;
    retry_backoff_ns = if retry then some delay else r.retry_backoff_ns;
  }

  abbrev pub fail_attempt : Bool → FailureSummary → ℕ → ℕ → AttemptRow V → AttemptRow V
  fail_attempt retry failure failed_at next_attempt a =
      let (kind, reason) = saved_decision retry failure in
      record a {
        status = attempt_failed;
        failure = some failure;
        finished_at = some failed_at;
        updated_at = failed_at;
        retry_decision_kind = some kind;
        retry_decision_reason = some reason;
        retry_backoff_ns = some_if retry (next_attempt - failed_at);
        next_attempt_at = some_if retry next_attempt;
      }

  abbrev pub retry_command : Bool → String → ℕ → NodeJob V → String → ℕ → Tx V (Unit {0})
  retry_command retry message_id now job destination next_attempt =
      if retry && not (destination == "")
      then persist_retry_command message_id now job destination next_attempt
      else pure tt

  -- `SaveNodeFailure`: with `retry`, the node waits for its next attempt, whose command is written
  -- with it.
  unfoldable pub save_node_failure :
      String → ℕ → NodeJob V → FailureSummary → Bool → ℕ → ℕ → ℕ → ℕ → String → Tx V (Unit {0})
  unfolding saved_decision update_nodes update_attempts note_progress record_error record_event
      record_log persist_retry_command
  save_node_failure message_id now job failure retry failed_at next_attempt maximum_attempts delay
        destination =
      do
        let saved = complete_failure job retry next_attempt failure
        affected ←
            update_nodes (finishable job)
              (fail_row retry saved failed_at next_attempt maximum_attempts delay)
        require (affected == 1) state_transition
        noted ← note_progress failed_at job.company_id job.execution_id
        require (noted == 1) state_transition
        completed ←
            update_attempts (running_attempt_at job)
              (fail_attempt retry saved failed_at next_attempt)
        require (completed == 1) state_transition
        record_error job saved saved.retryable failed_at
        record_event job.execution_id job.node_execution_id
            (if retry then "NODE_RETRY_PENDING" else "NODE_FAILED") "RUNNING"
            (if retry then "RETRY_PENDING" else "FAILED")
        record_log job.execution_id job.node_execution_id (if retry then "WARN" else "ERROR")
            "Node execution failed"
        retry_command retry message_id now job destination next_attempt
