-- ===== src/Execution/Processor/Jobs.antt =====
-- execution/node_processor.go: what `Process` and `consume` keep, if each of their transactions keeps it.
use miletos.Common.{
  ℕ, Bool, true, false, ◌&&◌, inl, inr, Option, none, some, Bool-cases, find_where, string_eq,
  nat_eq, ◌==◌,
}
use miletos.Workflow.{WorkflowNode, Workflow}
use miletos.Execution.{NodeJob, is_terminal_node_status}
use miletos.Execution.Store.{Store, NodeRow}
use miletos.Execution.Store.Nodes.{find_node}
use miletos.Execution.Store.Attempts.{prepare_retry}
use miletos.Execution.Store.Statuses.{is_running, is_retry_pending}
use miletos.Execution.Store.Executions.{mark_execution_running}
use miletos.Execution.Scheduler.Programs.{Program, End, value, error, exhausted, ◌>>=◌, ◌>>◌, call}
use miletos.Execution.Scheduler.Kept.{Keeps, >>=-Keeps}
use miletos.Execution.Scheduler.Kept.Ready.{complete_node-Keeps}
use miletos.Execution.Processor.{Worker, NodeRunResult, wait_until, process_attempts}
use miletos.Execution.Processor.Consumer.{
  complete, swallow, then_complete, run_and_complete, process_row, process_node, process_workflow,
  process,
}
use miletos.Execution.Processor.Consumer.{consume, consume_job, is_valid_job}
use miletos.Execution.Processor.Kept.{
  WorkerKept, starting_execution-Keeps, reading_node-Keeps, prepare-Keeps, wait_until-Keeps,
  process_attempts-Keeps,
}

module _ {V : Type 0} (c : Worker V) (K : WorkerKept c) where
  complete-Keeps : (job : NodeJob V) → Keeps K.kept (complete c job)
  complete-Keeps job = complete_node-Keeps K.kept c.schedule_of c.finalize_fuel job

  then_complete-Keeps :
      (job : NodeJob V) (run : Program V (NodeRunResult V))
      → Keeps K.kept run
      → Keeps K.kept (then_complete c job run)
  then_complete-Keeps job run p s = by_end (run s).1
    where
      after : K.kept.holds s (complete c job (run s).0).0
      after = K.kept.follow (p s) (complete-Keeps job (run s).0)

      by_end :
          (end : End (NodeRunResult V))
          → K.kept.holds s (
              (elim end as (λ _. Store V × End (Unit {0})) [
                | value r ↦ complete c job (run s).0
                | exhausted ↦ ((run s).0, exhausted)
                | error e ↦ elim (swallow e) [
                  | true ↦ complete c job (run s).0
                  | false ↦ ((run s).0, error e)
                ]
              ]).0)
      by_end (value r) = after
      by_end exhausted = p s
      by_end (error e) = elim (Bool-cases (swallow e)) [
        | inl saved ↦ rw saved after
        | inr other ↦ rw other (p s)
      ]

  run_and_complete-Keeps :
      (fuel : ℕ) (w : Workflow V) (node : WorkflowNode V) (job : NodeJob V)
      → Keeps K.kept (run_and_complete c fuel w node job)
  run_and_complete-Keeps fuel w node job =
      then_complete-Keeps job (process_attempts fuel c false w node job)
        (process_attempts-Keeps c K fuel false w node job)

  prepared-Keeps :
      (fuel : ℕ) (w : Workflow V) (node : WorkflowNode V) (job : NodeJob V) (r : NodeRow V)
      → Keeps K.kept (
          wait_until c job r.next_attempt_at
          >> (call (prepare_retry (c.now job) job) >>= run_and_complete c fuel w node))
  prepared-Keeps fuel w node job r =
      >>=-Keeps K.kept (wait_until c job r.next_attempt_at)
        (λ _. call (prepare_retry (c.now job) job) >>= run_and_complete c fuel w node)
        (wait_until-Keeps c K job r.next_attempt_at)
        (λ _.
          >>=-Keeps K.kept (call (prepare_retry (c.now job) job)) (run_and_complete c fuel w node)
            (prepare-Keeps c K job) (run_and_complete-Keeps fuel w node))

  process_row-Keeps :
      (fuel : ℕ) (w : Workflow V) (node : WorkflowNode V) (job : NodeJob V) (r : NodeRow V)
      → Keeps K.kept (process_row c fuel w node job r)
  process_row-Keeps fuel w node job r = elim (Bool-cases (is_terminal_node_status r.status)) [
    | inl over ↦ rw (over, process_row) (complete-Keeps job)
    | inr live_row ↦ elim (Bool-cases (is_running r.status)) [
      | inl runs ↦ rw (live_row, runs, process_row) (λ s. K.kept.same s)
      | inr idle ↦ elim (Bool-cases (job.node_execution_id == r.id && job.attempt == r.attempt)) [
        | inr stale ↦ rw (live_row, idle, stale, process_row) (λ s. K.kept.same s)
        | inl fits ↦ elim (Bool-cases (is_retry_pending r.status)) [
          | inr first ↦
              rw (live_row, idle, fits, first, process_row) (run_and_complete-Keeps fuel w node job)
          | inl again ↦
              rw (live_row, idle, fits, again, process_row) (prepared-Keeps fuel w node job r)
        ]
      ]
    ]
  ]

  process_node-Keeps :
      (fuel : ℕ) (job : NodeJob V) (w : Workflow V) (found : Option (WorkflowNode V))
      → Keeps K.kept (process_node c fuel job w found)
  process_node-Keeps fuel job w none = λ s. K.kept.same s
  process_node-Keeps fuel job w (some node) =
      >>=-Keeps K.kept (call (mark_execution_running (c.now job) job.company_id job.execution_id))
        (λ _.
          call (find_node job.company_id job.execution_id job.node_id)
          >>= process_row c fuel w node job)
        (starting_execution-Keeps c K job)
        (λ _.
          >>=-Keeps K.kept (call (find_node job.company_id job.execution_id job.node_id))
            (process_row c fuel w node job) (reading_node-Keeps c K job)
            (process_row-Keeps fuel w node job))

  pub process-Keeps : (job : NodeJob V) → Keeps K.kept (process c job)
  unfolding process
  process-Keeps job = by_workflow (c.stored_workflow job)
    where
      by_workflow : (w : Option (Workflow V)) → Keeps K.kept (process_workflow c 1 job w)
      by_workflow none = λ s. K.kept.same s
      by_workflow (some w) =
          process_node-Keeps 1 job w (find_where (λ n. n.id == job.node_id) w.nodes)

  pub consume-Keeps : (message : Option (NodeJob V)) → Keeps K.kept (consume c message)
  unfolding consume
  consume-Keeps none s = K.kept.same s
  consume-Keeps (some job) s = by_validity (is_valid_job job)
    where
      by_validity : (b : Bool) → K.kept.holds s (consume_job c job b s).0
      by_validity false = K.kept.same s
      by_validity true = process-Keeps job s
