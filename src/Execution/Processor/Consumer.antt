-- ===== src/Execution/Processor/Consumer.antt =====
-- execution/node_processor.go: a worker takes the message of a node's command, and `Process` of its job.
use miletos.Common.{
  ℕ, String, Bool, true, false, not, ◌&&◌, ◌||◌, Option, none, some, find_where, ltb, nat_eq,
  string_eq, ◌==◌,
}
use miletos.Workflow.{WorkflowNode, Workflow}
use miletos.Execution.{NodeJob, is_terminal_node_status}
use miletos.Execution.Store.{
  NodeRow, StoreError, not_found, state_transition, stale_job, permanent_job, persisted_failure,
}
use miletos.Execution.Store.Nodes.{find_node}
use miletos.Execution.Store.Attempts.{prepare_retry}
use miletos.Execution.Store.Statuses.{is_running, is_retry_pending}
use miletos.Execution.Store.Executions.{mark_execution_running}
use miletos.Execution.Scheduler.Programs.{
  Program, End, value, error, exhausted, ◌>>=◌, ◌>>◌, pure, raise, call,
}
use miletos.Execution.Scheduler.Ready.{complete_node}
use miletos.Execution.Processor.{NodeRunResult, Worker, process_attempts, wait_until}

-- `queue.RecordResult`
pub data Disposition : Type 0 where
  record_handled record_dead_letter record_retry : Disposition

-- A failure that was saved is no error of the job.
abbrev pub swallow : StoreError → Bool
swallow persisted_failure = true
swallow _ = false

-- What `consume` reports of an error of `Process`.
abbrev pub disposition_of : StoreError → Disposition × String
disposition_of not_found = (record_dead_letter, "ORPHAN_NODE_JOB")
disposition_of state_transition = (record_handled, "STALE_NODE_JOB")
disposition_of stale_job = (record_handled, "STALE_NODE_JOB")
disposition_of permanent_job = (record_dead_letter, "PERMANENT_NODE_JOB")
disposition_of _ = (record_retry, "NODE_JOB_NOT_DURABLE")

abbrev pub reported : End (Unit {0}) → End (Disposition × String)
reported (value x) = value (record_handled, "")
reported (error e) = value (disposition_of e)
reported exhausted = exhausted

module _ {V : Type 0} where
  abbrev pub complete : Worker V → NodeJob V → Program V (Unit {0})
  complete c job = complete_node c.schedule_of c.finalize_fuel job

  abbrev pub then_complete :
      Worker V → NodeJob V → Program V (NodeRunResult V) → Program V (Unit {0})
  then_complete c job run s = elim (run s).1 [
    | value r ↦ complete c job (run s).0
    | exhausted ↦ ((run s).0, exhausted)
    | error e ↦ elim (swallow e) [ true ↦ complete c job (run s).0 | false ↦ ((run s).0, error e) ]
  ]

  abbrev pub run_and_complete :
      Worker V → ℕ → Workflow V → WorkflowNode V → NodeJob V → Program V (Unit {0})
  run_and_complete c fuel w node job =
      then_complete c job (process_attempts fuel c false w node job)

  -- `Process` once the row of the node is read.
  abbrev pub process_row :
      Worker V → ℕ → Workflow V → WorkflowNode V → NodeJob V → NodeRow V → Program V (Unit {0})
  process_row c fuel w node job row = elim (is_terminal_node_status row.status) [
    | true ↦ complete c job
    | false ↦ elim (is_running row.status) [
      | true ↦ pure tt
      | false ↦ elim (job.node_execution_id == row.id && job.attempt == row.attempt) [
        | false ↦ raise stale_job
        | true ↦ elim (is_retry_pending row.status) [
          | false ↦ run_and_complete c fuel w node job
          | true ↦
              wait_until c job row.next_attempt_at
              >> (call (prepare_retry (c.now job) job) >>= run_and_complete c fuel w node)
        ]
      ]
    ]
  ]

  abbrev pub process_node :
      Worker V → ℕ → NodeJob V → Workflow V → Option (WorkflowNode V) → Program V (Unit {0})
  process_node c fuel job w none = raise permanent_job
  process_node c fuel job w (some node) =
      call (mark_execution_running (c.now job) job.company_id job.execution_id)
      >> (call (find_node job.company_id job.execution_id job.node_id)
          >>= process_row c fuel w node job)

  abbrev pub process_workflow :
      Worker V → ℕ → NodeJob V → Option (Workflow V) → Program V (Unit {0})
  process_workflow c fuel job none = raise not_found
  process_workflow c fuel job (some w) =
      process_node c fuel job w (find_where (λ n. n.id == job.node_id) w.nodes)

  -- `Process`; it runs one attempt at most, the rest are later messages.
  unfoldable pub process : Worker V → NodeJob V → Program V (Unit {0})
  unfolding mark_execution_running find_node prepare_retry process_attempts complete_node
  process c job = process_workflow c 1 job (c.stored_workflow job)

  abbrev pub is_valid_job : NodeJob V → Bool
  is_valid_job job = not (
      job.company_id == ""
      || job.workflow_id == ""
      || job.execution_id == ""
      || job.node_id == ""
      || job.node_execution_id == ""
      || ltb job.attempt 1)

  abbrev pub consume_job : Worker V → NodeJob V → Bool → Program V (Disposition × String)
  consume_job c job false s = (s, value (record_dead_letter, "INVALID_NODE_JOB"))
  consume_job c job true s = ((process c job s).0, reported (process c job s).1)

  -- `consume`, given the job that the payload decodes to.
  unfoldable pub consume : Worker V → Option (NodeJob V) → Program V (Disposition × String)
  unfolding process
  consume c none s = (s, value (record_dead_letter, "MALFORMED_NODE_JOB"))
  consume c (some job) s = consume_job c job (is_valid_job job) s
