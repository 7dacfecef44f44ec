-- ===== src/Execution/Processor/Total.antt =====
-- execution/node_processor.go: `consume` comes to an end for every message.
use miletos.Common.{
  ℕ, ◌+◌, ◌≤◌, ◌<◌, Bool, true, false, ◌&&◌, ◌≡◌, refl, inl, inr, Option, none, some, arith,
  Bool-cases, find_where, string_eq, nat_eq, ◌==◌,
}
use miletos.Workflow.{WorkflowNode, Workflow}
use miletos.Execution.{NodeJob, FailureSummary, is_terminal_node_status}
use miletos.Execution.Store.{Store, NodeRow, Tx, Result, ok, err}
use miletos.Execution.Store.Nodes.{find_node}
use miletos.Execution.Store.Attempts.{
  startable, start_row, finishable, succeed_row, stored_output, retryable_at, retry_row,
  prepare_retry,
}
use miletos.Execution.Store.Statuses.{is_pending, is_running, is_retry_pending}
use miletos.Execution.Store.Failures.{fail_row, complete_failure}
use miletos.Execution.Store.Executions.{mark_execution_running}
use miletos.Execution.Store.Tables.{
  mark_execution_running-nodes, mark_node_running-nodes, save_node_success-nodes,
  save_node_failure-nodes, prepare_retry-nodes,
}
use miletos.Execution.Scheduler.Programs.{
  Program, End, value, error, exhausted, continue, committed, ◌>>=◌, ◌>>◌, call,
}
use miletos.Execution.Scheduler.Passes.{Finishes}
use miletos.Execution.Scheduler.Pending.{pending_rows, count-pending-le}
use miletos.Execution.Scheduler.Jobs.{fewer_pending, complete_node-Finishes}
use miletos.Execution.Processor.{Worker, NodeRunResult, wait_until, process_attempts}
use miletos.Execution.Processor.Consumer.{
  reported, swallow, complete, then_complete, run_and_complete, process_row, process_node,
  process_workflow, process, consume, consume_job, is_valid_job,
}
use miletos.Execution.Processor.Kept.{
  WorkerKept, wait_until-Keeps, prepare-Keeps, process_attempts-Keeps, reading_node-Keeps,
  starting_execution-Keeps,
}
use miletos.Execution.Processor.Ends.{wait_until-Finishes, process_attempts-Finishes}

module _ {V : Type 0} where
  fail_row-pending :
      (retry : Bool) (failure : FailureSummary) (failed_at next_attempt maximum delay : ℕ)
      (r : NodeRow V)
      → is_pending (fail_row retry failure failed_at next_attempt maximum delay r).status ≡ false
  fail_row-pending true failure failed_at next_attempt maximum delay r = refl
  fail_row-pending false failure failed_at next_attempt maximum delay r = refl

  unfoldable worker_fewer : (c : Worker V) → WorkerKept c
  unfolding fewer_pending
  worker_fewer c = record {
    kept = fewer_pending;
    starts_execution = λ now company_id execution_id s s' h.
        rw (mark_execution_running-nodes s s' now company_id execution_id h) (omega arith);
    starts = λ now job b s s' h.
        rw (mark_node_running-nodes s s' now job b h)
          (count-pending-le (startable job) (start_row now job) s.nodes (λ r. refl));
    succeeds = λ now job output routing s s' h.
        rw (save_node_success-nodes s s' now job output routing h) (
          count-pending-le (finishable job) (succeed_row now (stored_output output routing)) s.nodes
            (λ r. refl));
    fails = λ message_id now job failure retry failed_at next_attempt delay destination s s' left h.
        rw
          (save_node_failure-nodes s s' message_id now job failure retry failed_at next_attempt
            c.maximum_attempts delay destination h)
          (count-pending-le (finishable job)
            (fail_row retry (complete_failure job retry next_attempt failure) failed_at next_attempt
              c.maximum_attempts delay)
            s.nodes
            (fail_row-pending retry (complete_failure job retry next_attempt failure) failed_at
              next_attempt c.maximum_attempts delay));
    prepares = λ now job job' s s' h.
        rw (prepare_retry-nodes s s' now job job' h) (
          count-pending-le (retryable_at job) (retry_row now (job.attempt + 1)) s.nodes
            (λ r. refl));
  }

  -- A program that ends from all tables with fewer pending rows than `n`.
  abbrev EndsBelow : {A : Type 0} → ℕ → Program V A → Type 0
  EndsBelow n m = (s : Store V) → pending_rows s < n → Finishes (m s).1

  >>=-EndsBelow :
      {A B : Type 0} (n : ℕ) (m : Program V A) (f : A → Program V B)
      → ((s : Store V) → pending_rows (m s).0 ≤ pending_rows s)
      → EndsBelow n m
      → ((a : A) → EndsBelow n (f a))
      → EndsBelow n (m >>= f)
  >>=-EndsBelow n m f keeps p q s h = by_end (m s).0 (m s).1 (keeps s) (p s h)
    where
      by_end :
          (s' : Store V) (end : End _)
          → pending_rows s' ≤ pending_rows s
          → Finishes end
          → Finishes (continue f s' end).1
      by_end s' (value a) le k = q a s' (omega (arith, h, le))
      by_end s' (error e) le k = tt
      by_end s' exhausted le k = k

  call-EndsBelow : {A : Type 0} (n : ℕ) (t : Tx V A) → EndsBelow n (call t)
  call-EndsBelow {A} n t s h = by_result (t s)
    where
      by_result : (r : Result V A) → Finishes (committed s r).1
      by_result (ok a s') = tt
      by_result (err x) = tt

  then_complete-EndsBelow :
      (c : Worker V) (job : NodeJob V) (run : Program V (NodeRunResult V))
      → ((s : Store V) → pending_rows (run s).0 ≤ pending_rows s)
      → EndsBelow c.finalize_fuel run
      → EndsBelow c.finalize_fuel (then_complete c job run)
  then_complete-EndsBelow c job run keeps p s h = by_end (run s).1 (p s h)
    where
      after : Finishes (complete c job (run s).0).1
      after =
          complete_node-Finishes c.schedule_of c.finalize_fuel job (run s).0
            (omega (arith, h, keeps s))

      by_end :
          (end : End (NodeRunResult V))
          → Finishes end
          → Finishes (
              (elim end as (λ _. Store V × End (Unit {0})) [
                | value r ↦ complete c job (run s).0
                | exhausted ↦ ((run s).0, exhausted)
                | error e ↦ elim (swallow e) [
                  | true ↦ complete c job (run s).0
                  | false ↦ ((run s).0, error e)
                ]
              ]).1)
      by_end (value r) k = after
      by_end exhausted k = k
      by_end (error e) k = elim (Bool-cases (swallow e)) [
        | inl saved ↦ rw saved after
        | inr other ↦ rw other tt
      ]

  run_and_complete-EndsBelow :
      (c : Worker V) (w : Workflow V) (node : WorkflowNode V) (job : NodeJob V)
      → EndsBelow c.finalize_fuel (run_and_complete c 1 w node job)
  unfolding worker_fewer fewer_pending
  run_and_complete-EndsBelow c w node job =
      then_complete-EndsBelow c job (process_attempts 1 c false w node job)
        (process_attempts-Keeps c (worker_fewer c) 1 false w node job)
        (λ s h. process_attempts-Finishes 1 c false w node job s (omega arith) (λ e. cc))

  prepared-EndsBelow :
      (c : Worker V) (w : Workflow V) (node : WorkflowNode V) (job : NodeJob V) (r : NodeRow V)
      → EndsBelow c.finalize_fuel (
          wait_until c job r.next_attempt_at
          >> (call (prepare_retry (c.now job) job) >>= run_and_complete c 1 w node))
  unfolding worker_fewer fewer_pending
  prepared-EndsBelow c w node job r =
      >>=-EndsBelow c.finalize_fuel (wait_until c job r.next_attempt_at)
        (λ _. call (prepare_retry (c.now job) job) >>= run_and_complete c 1 w node)
        (wait_until-Keeps c (worker_fewer c) job r.next_attempt_at)
        (λ s h. wait_until-Finishes c job r.next_attempt_at s)
        (λ _.
          >>=-EndsBelow c.finalize_fuel (call (prepare_retry (c.now job) job))
            (run_and_complete c 1 w node) (prepare-Keeps c (worker_fewer c) job)
            (call-EndsBelow c.finalize_fuel (prepare_retry (c.now job) job))
            (run_and_complete-EndsBelow c w node))

  process_row-EndsBelow :
      (c : Worker V) (w : Workflow V) (node : WorkflowNode V) (job : NodeJob V) (r : NodeRow V)
      → EndsBelow c.finalize_fuel (process_row c 1 w node job r)
  process_row-EndsBelow c w node job r = elim (Bool-cases (is_terminal_node_status r.status)) [
    | inl over ↦
        rw (over, process_row) (λ s h. complete_node-Finishes c.schedule_of c.finalize_fuel job s h)
    | inr live_row ↦ elim (Bool-cases (is_running r.status)) [
      | inl runs ↦ rw (live_row, runs, process_row) (λ s h. tt)
      | inr idle ↦ elim (Bool-cases (job.node_execution_id == r.id && job.attempt == r.attempt)) [
        | inr stale ↦ rw (live_row, idle, stale, process_row) (λ s h. tt)
        | inl fits ↦ elim (Bool-cases (is_retry_pending r.status)) [
          | inr first ↦
              rw (live_row, idle, fits, first, process_row)
                (run_and_complete-EndsBelow c w node job)
          | inl again ↦
              rw (live_row, idle, fits, again, process_row) (prepared-EndsBelow c w node job r)
        ]
      ]
    ]
  ]

  process_node-EndsBelow :
      (c : Worker V) (job : NodeJob V) (w : Workflow V) (found : Option (WorkflowNode V))
      → EndsBelow c.finalize_fuel (process_node c 1 job w found)
  unfolding worker_fewer fewer_pending
  process_node-EndsBelow c job w none = λ s h. tt
  process_node-EndsBelow c job w (some node) =
      let start = mark_execution_running (c.now job) job.company_id job.execution_id in
      let look = find_node job.company_id job.execution_id job.node_id in
      >>=-EndsBelow c.finalize_fuel (call start) (λ _. call look >>= process_row c 1 w node job)
        (starting_execution-Keeps c (worker_fewer c) job) (call-EndsBelow c.finalize_fuel start)
        (λ _.
          >>=-EndsBelow c.finalize_fuel (call look) (process_row c 1 w node job)
            (reading_node-Keeps c (worker_fewer c) job) (call-EndsBelow c.finalize_fuel look)
            (process_row-EndsBelow c w node job))

  -- `consume` comes to an end for every message and all tables, whatever the handlers do, if `Finalize`
  -- may start more often than there are pending rows of nodes in the tables: each message runs one
  -- attempt at most.
  pub consume-Finishes :
      (c : Worker V) (message : Option (NodeJob V)) (s : Store V)
      → pending_rows s < c.finalize_fuel
      → Finishes (consume c message s).1
  unfolding consume process
  consume-Finishes c none s h = tt
  consume-Finishes c (some job) s h = by_validity (is_valid_job job)
    where
      by_workflow :
          (w : Option (Workflow V)) → EndsBelow c.finalize_fuel (process_workflow c 1 job w)
      by_workflow none = λ s h. tt
      by_workflow (some w) =
          process_node-EndsBelow c job w (find_where (λ n. n.id == job.node_id) w.nodes)

      by_report : (end : End (Unit {0})) → Finishes end → Finishes (reported end)
      by_report (value x) k = tt
      by_report (error e) k = tt
      by_report exhausted k = k

      by_validity : (b : Bool) → Finishes (consume_job c job b s).1
      by_validity false = tt
      by_validity true = by_report (process c job s).1 (by_workflow (c.stored_workflow job) s h)
