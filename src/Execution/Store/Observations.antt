-- ===== src/Execution/Store/Observations.antt =====
-- execution/repository/observability_repository.go: events, logs and errors. Events and logs draw
-- their numbers from a counter of their execution; with no such execution they fail.
use miletos.Common.{
  ℕ, ◌+◌, String, Bool, none, some, ◌∷◌, find_where, trim_space, string_eq, ◌==◌, if◌then◌else◌,
}
use miletos.Execution.{FailureSummary, execution, NodeJob}
use miletos.Execution.Retry.{parse_failure_category, or_category}
use miletos.Execution.Store.{state_transition, Tx, ok, err, modify, update_executions, ◌>>=◌}

abbrev or_text : String → String → String
or_text s d = if s == "" then d else s

module _ {V : Type 0} where
  -- `UPDATE … SET next_sequence_number = next_sequence_number + 1 … RETURNING next - 1`
  unfoldable pub next_sequence : String → Tx V ℕ
  unfolding update_executions
  next_sequence execution_id s = elim (find_where (λ e. e.id == execution_id) s.executions) [
    | none ↦ err state_transition
    | some e ↦
        elim (update_executions (λ r. r.id == execution_id)
          (λ r. record r { next_sequence_number = r.next_sequence_number + 1 }) s) [
            | ok n s' ↦ ok e.next_sequence_number s'
            | err x ↦ err x
          ]
  ]

  unfoldable pub record_event : String → String → String → String → String → Tx V (Unit {0})
  unfolding next_sequence
  record_event execution_id node_execution_id type previous new = do
    number ← next_sequence execution_id
    modify (λ s. record s {
      events =
          record {
            execution_id = execution_id;
            node_execution_id = node_execution_id;
            sequence = number;
            type = type;
            previous_status = previous;
            new_status = new;
          }
          ∷ s.events;
    })

  unfoldable pub record_log : String → String → String → String → Tx V (Unit {0})
  unfolding next_sequence
  record_log execution_id node_execution_id level message = do
    number ← next_sequence execution_id
    modify (λ s. record s {
      logs =
          record {
            execution_id = execution_id;
            node_execution_id = node_execution_id;
            sequence = number;
            level = level;
            message = message;
          }
          ∷ s.logs;
    })

  unfoldable pub record_error : NodeJob V → FailureSummary → Bool → ℕ → Tx V (Unit {0})
  unfolding parse_failure_category
  record_error job failure retryable created_at = modify (λ s. record s {
    errors =
        record {
          execution_id = job.execution_id;
          company_id = job.company_id;
          node_execution_id = job.node_execution_id;
          category = or_category (parse_failure_category failure.category) execution;
          code = or_text (trim_space failure.code) "NODE_EXECUTION_FAILED";
          message = or_text failure.message "Node execution failed";
          retryable = retryable;
          details = failure;
          created_at = created_at;
        }
        ∷ s.errors;
  })
