-- ===== src/Execution/Store/Commands.antt =====
-- execution/repository: a node that is queued or waits for a retry has its command in the outbox.
use miletos.Common.{
  ℕ, ◌+◌, String, Bool, true, false, ◌≡◌, refl, arith, some, List, any, string_eq, nat_eq, ◌==◌,
  ==_refl,
}
use miletos.Execution.{FailureSummary, NodeJob}
use miletos.Execution.Store.{
  Store, NodeRow, ExecutionRow, OutboxRow, ok, update_nodes, update_executions, update_attempts,
}
use miletos.Execution.Store.Observations.{next_sequence, record_event, record_log, record_error}
use miletos.Execution.Store.Outbox.{
  conflicts, node_command_operation_key, command_row, persist_node_command, persist_retry_command,
}
use miletos.Execution.Store.Nodes.{queue_node_command, find_node_by_id, job_of}
use miletos.Execution.Store.Attempts.{note_progress}
use miletos.Execution.Store.Failures.{save_node_failure}

-- The command of a job's attempt is in the outbox.
abbrev pub has_command : {V : Type 0} → NodeJob V → ℕ → List (OutboxRow V) → Bool
has_command job attempt rows = any (conflicts job (node_command_operation_key job attempt)) rows

module _ {V : Type 0} where
  pub command_row-conflicts :
      (message_id : String) (job : NodeJob V) (attempt : ℕ) (destination : String)
      (available_at now : ℕ)
      → conflicts job (node_command_operation_key job attempt) (
          command_row message_id job attempt
            (node_command_operation_key job attempt)
            destination
            available_at
            now)
        ≡ true
  command_row-conflicts message_id job attempt destination available_at now =
      rw
        (
          ==_refl job.company_id,
          ==_refl job.execution_id,
          ==_refl job.node_execution_id,
          ==_refl attempt,
        )
        refl

  pub persist_node_command-has_command :
      (message_id : String) (now : ℕ) (job : NodeJob V) (attempt : ℕ) (destination : String)
      (available_at : ℕ) (s s' : Store V)
      → persist_node_command message_id now job attempt
          (node_command_operation_key job attempt)
          destination
          available_at
          s
        ≡ ok tt s'
      → has_command job attempt s'.outbox ≡ true
  unfolding persist_node_command
  persist_node_command-has_command message_id now job attempt destination available_at s s' h =
      ground (arith, h, command_row-conflicts message_id job attempt destination available_at now)

  -- When `QueueNodeCommand` reports that it queued a node, the command for the attempt of the row that
  -- it returns is in the outbox: a node is never queued without its command.
  pub queue_node_command-has_command :
      (message_id : String) (now : ℕ) (e : ExecutionRow V) (node_id : String) (payload : V)
      (destination : String) (node : NodeRow V) (s s' : Store V)
      → queue_node_command message_id now e node_id payload destination s ≡ ok (some node) s'
      → has_command (job_of e node payload) node.attempt s'.outbox ≡ true
  unfolding queue_node_command update_nodes find_node_by_id record_event next_sequence
      update_executions persist_node_command
  queue_node_command-has_command message_id now e node_id payload destination node s s' h = ground (
    arith,
    h,
    command_row-conflicts message_id (job_of e node payload) node.attempt destination now now,
  )

  -- When `SaveNodeFailure` saves a failure that is to be retried from the queue, the command of the
  -- next attempt is in the outbox: a retry is never announced without its command.
  pub save_node_failure-has_command :
      (message_id : String) (now : ℕ) (job : NodeJob V) (failure : FailureSummary)
      (failed_at next_attempt maximum_attempts delay : ℕ) (destination : String) (s s' : Store V)
      → (destination == "") ≡ false
      → save_node_failure message_id now job failure true failed_at next_attempt maximum_attempts
          delay destination s
        ≡ ok tt s'
      → has_command job (job.attempt + 1) s'.outbox ≡ true
  unfolding save_node_failure update_nodes update_attempts note_progress update_executions
      record_event record_log next_sequence record_error persist_retry_command persist_node_command
  save_node_failure-has_command message_id now job failure failed_at next_attempt maximum_attempts
        delay destination s s' filled h =
      ground (
        arith,
        h,
        filled,
        command_row-conflicts message_id job (job.attempt + 1) destination next_attempt now,
      )
