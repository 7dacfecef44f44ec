-- ===== src/Execution/Scheduler/Completed.antt =====
-- execution/scheduler.go: what `CompleteNode` has done when it returns without an error.
use miletos.Common.{ℕ, zero, suc, ◌≡◌, inl, inr, true, false, some, Bool-cases, string_eq}
use miletos.Execution.{NodeJob, is_terminal_execution_status}
use miletos.Execution.Store.{Store, ExecutionRow, ok}
use miletos.Execution.Store.Executions.{find_by_id}
use miletos.Execution.Scheduler.Programs.{value, call, finalize_execution}
use miletos.Execution.Scheduler.Ready.{
  Schedule, schedule_ready, finish_unless, without_start, complete_for, complete_node,
}
use miletos.Execution.Scheduler.Kept.Ready.{find_by_id-same}
use miletos.Execution.Scheduler.Returns.{>>=-value, call-value, pure-value}
use miletos.Execution.Scheduler.Finalized.{Finalized, finalize_execution-Finalized}
use miletos.Execution.Scheduler.Scheduled.{Scheduled, schedule_ready-Scheduled}

module _ {V : Type 0} (call_of : ExecutionRow V → Schedule V) where
  -- What becomes of the execution of a job.
  pub data Completed (job : NodeJob V) (s s' : Store V) : Type 0 where
    -- The execution is over already.
    is_over :
        (e : ExecutionRow V)
        → find_by_id job.company_id job.execution_id s ≡ ok e s
        → is_terminal_execution_status e.status ≡ true
        → s' ≡ s
        → Completed job s s'
    -- Nodes were queued.
    goes_on :
        (e : ExecutionRow V) (n : ℕ)
        → find_by_id job.company_id job.execution_id s ≡ ok e s
        → is_terminal_execution_status e.status ≡ false
        → Scheduled (without_start (call_of e)) s (suc n) s'
        → Completed job s s'
    -- None was, and the execution was looked at as a whole.
    is_settled :
        (e : ExecutionRow V) (s₁ : Store V)
        → find_by_id job.company_id job.execution_id s ≡ ok e s
        → is_terminal_execution_status e.status ≡ false
        → Scheduled (without_start (call_of e)) s 0 s₁
        → Finalized
            (call_of e).json.null
            (call_of e).now
            e
            (call_of e).workflow
            (some (call_of e).registry)
            s₁
            s'
        → Completed job s s'

  after_schedule :
      (fuel : ℕ) (job : NodeJob V) (e : ExecutionRow V) (s s₁ s' : Store V) (n : ℕ)
      → find_by_id job.company_id job.execution_id s ≡ ok e s
      → is_terminal_execution_status e.status ≡ false
      → Scheduled (without_start (call_of e)) s n s₁
      → finish_unless
          (finalize_execution
            (call_of e).json.null
            (some (call_of e).registry)
            fuel
            (call_of e).now
            e
            (call_of e).workflow)
          n
          s₁
        ≡ (s', value tt)
      → Completed job s s'
  after_schedule fuel job e s s₁ s' zero found live k h = is_settled e s₁ found live k (
      finalize_execution-Finalized (call_of e).json.null (call_of e).now e (call_of e).workflow
        (some (call_of e).registry) fuel s₁ s' h)
  after_schedule fuel job e s s₁ s' (suc n) found live k h =
      let same = (pure-value s₁ s' tt tt h).0 in rw same (goes_on e n found live k)

  complete_for-Completed :
      (fuel : ℕ) (job : NodeJob V) (e : ExecutionRow V) (s s' : Store V)
      → find_by_id job.company_id job.execution_id s ≡ ok e s
      → complete_for call_of fuel e s ≡ (s', value tt)
      → Completed job s s'
  complete_for-Completed fuel job e s s' found h =
      let c = call_of e in
      elim (Bool-cases (is_terminal_execution_status e.status)) [
        | inl over ↦ is_over e found over (pure-value s s' tt tt (rw (over, complete_for) at h)).0
        | inr live ↦
            >>=-value (schedule_ready (without_start c))
              (finish_unless
                (finalize_execution c.json.null (some c.registry) fuel c.now e c.workflow))
              s s' tt
              (λ s₁ n first h₁.
                after_schedule fuel job e s s₁ s' n found live
                  (schedule_ready-Scheduled (without_start c) s s₁ n first) h₁)
              (rw (live, complete_for) at h)
      ]

  -- When `CompleteNode` returns without an error, the execution of the job was there. If it was over,
  -- nothing has changed. Else the scheduler has queued the nodes that were ready and skipped those
  -- without an active route, as `scheduleReady` does without a start node; and if it queued none,
  -- `Finalize` has waited for a node that is active, or ended the execution.
  pub complete_node-Completed :
      (fuel : ℕ) (job : NodeJob V) (s s' : Store V)
      → complete_node call_of fuel job s ≡ (s', value tt)
      → Completed job s s'
  unfolding complete_node
  complete_node-Completed fuel job s s' h =
      let find = find_by_id job.company_id job.execution_id in
      >>=-value (call find) (complete_for call_of fuel) s s' tt
        (λ s₁ e first h₁.
          let found = call-value find s s₁ e first in
          let same = find_by_id-same job.company_id job.execution_id s s₁ e found in
          complete_for-Completed fuel job e s s' (rw same at found) (rw same at h₁))
        h
