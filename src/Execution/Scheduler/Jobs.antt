-- ===== src/Execution/Scheduler/Jobs.antt =====
-- execution/scheduler.go: `CompleteNode` comes to an end.
use miletos.Common.{ℕ, zero, suc, ◌≤◌, ◌<◌, ◌≡◌, refl, inl, inr, some, arith, Bool-cases, string_eq}
use miletos.Execution.{NodeJob, is_terminal_execution_status}
use miletos.Execution.Store.{Store, ExecutionRow, Result, ok, err}
use miletos.Execution.Store.Nodes.{commandable_at, queue_row}
use miletos.Execution.Store.Executions.{find_by_id}
use miletos.Execution.Store.Tables.{finalize-nodes, queue_node_command-nodes}
use miletos.Execution.Scheduler.Programs.{
  End, value, error, exhausted, continue, committed, finalize_execution,
}
use miletos.Execution.Scheduler.Passes.{Finishes}
use miletos.Execution.Scheduler.Pending.{pending_rows, count-pending-le, skip-count}
use miletos.Execution.Scheduler.Ends.{finalize_execution-Finishes}
use miletos.Execution.Scheduler.Ready.{
  Schedule, schedule_ready, finish_unless, without_start, complete_for, complete_node,
}
use miletos.Execution.Scheduler.Rounds.{schedule_ready-Finishes}
use miletos.Execution.Scheduler.Kept.{Kept}
use miletos.Execution.Scheduler.Kept.Ready.{schedule_ready-Keeps, find_by_id-same}

module _ {V : Type 0} where
  -- Skips and commands leave no more pending rows than they find.
  unfoldable pub fewer_pending : Kept V
  fewer_pending = record {
    holds = λ s s'. pending_rows s' ≤ pending_rows s;
    same = λ s. omega arith;
    follow = λ h g. omega (arith, h, g);
    skips = λ now company_id execution_id node_id cause s s' h.
        omega (arith, skip-count now company_id execution_id node_id cause s s' h);
    finalizes = λ now company_id execution_id status outputs failure s s' h.
        rw (finalize-nodes s s' now company_id execution_id status outputs failure h) (omega arith);
    queues = λ message_id now e node_id payload topic found s s' h.
        rw (queue_node_command-nodes s s' message_id now e node_id payload topic found h) (
          count-pending-le (commandable_at e.company_id e.id node_id) (queue_row now (some payload))
            s.nodes (λ r. refl));
  }

  schedule_ready-shrinks :
      (c : Schedule V) (s : Store V) → pending_rows (schedule_ready c s).0 ≤ pending_rows s
  unfolding fewer_pending
  schedule_ready-shrinks c s = schedule_ready-Keeps fewer_pending c s

  complete_for-Finishes :
      (call_of : ExecutionRow V → Schedule V) (fuel : ℕ) (e : ExecutionRow V) (s : Store V)
      → pending_rows s < fuel
      → Finishes (complete_for call_of fuel e s).1
  complete_for-Finishes call_of fuel e s h =
      let c = call_of e in
      let ready = schedule_ready (without_start c) s in
      elim (Bool-cases (is_terminal_execution_status e.status)) [
        | inl over ↦ rw (over, complete_for) tt
        | inr live ↦
            rw (live, complete_for)
              (by_end c ready.0 ready.1 (schedule_ready-Finishes (without_start c) s)
                (schedule_ready-shrinks (without_start c) s))
      ]
    where
      by_end :
          (c : Schedule V) (s' : Store V) (end : End ℕ)
          → Finishes end
          → pending_rows s' ≤ pending_rows s
          → Finishes
              (continue
                (finish_unless
                  (finalize_execution c.json.null (some c.registry) fuel c.now e c.workflow))
                s'
                end).1
      by_end c s' (value zero) f le =
          finalize_execution-Finishes c.json.null (some c.registry) fuel c.now e c.workflow s'
            (omega (arith, h, le))
      by_end c s' (value (suc n)) f le = tt
      by_end c s' (error x) f le = tt
      by_end c s' exhausted f le = f

  -- `CompleteNode` comes to an end, with a value or an error, if `Finalize` may start more often than
  -- there are pending rows of nodes in the tables when the job is completed.
  pub complete_node-Finishes :
      (call_of : ExecutionRow V → Schedule V) (fuel : ℕ) (job : NodeJob V) (s : Store V)
      → pending_rows s < fuel
      → Finishes (complete_node call_of fuel job s).1
  unfolding complete_node
  complete_node-Finishes call_of fuel job s h =
      by_result (find_by_id job.company_id job.execution_id s) refl
    where
      by_result :
          (r : Result V (ExecutionRow V))
          → find_by_id job.company_id job.execution_id s ≡ r
          → Finishes (continue (complete_for call_of fuel) (committed s r).0 (committed s r).1).1
      by_result (ok e s') found =
          complete_for-Finishes call_of fuel e s'
            (rw (find_by_id-same job.company_id job.execution_id s s' e found) h)
      by_result (err x) found = tt
