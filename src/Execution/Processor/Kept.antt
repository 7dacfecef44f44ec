-- ===== src/Execution/Processor/Kept.antt =====
-- execution/node_processor.go: what a worker keeps, if each of its transactions keeps it. A failure
-- is saved with a retry only if an attempt is left.
use miletos.Common.{
  ℕ, zero, suc, ◌<◌, String, Bool, true, false, ◌||◌, not, ◌≡◌, inl, inr, Option, none, some,
  Bool-cases, arith, leb, string_eq, nat_eq, if◌then◌else◌,
}
use miletos.Workflow.{WorkflowNode, Workflow}
use miletos.Plugin.Registry.{get}
use miletos.Execution.{NodeJob, NodeRoutingOutcome, FailureSummary, is_terminal_node_status}
use miletos.Execution.Retry.{is_live, FailureDecision}
use miletos.Execution.Retry.Decision.{decide_failure-Consistent}
use miletos.Execution.Routing.{NodeOutcome}
use miletos.Execution.Access.{RunEnd, produced, broken}
use miletos.Execution.Store.{Store, NodeRow, ok, state_transition, persisted_failure}
use miletos.Execution.Store.Nodes.{find_node}
use miletos.Execution.Store.Attempts.{mark_node_running, save_node_success, prepare_retry}
use miletos.Execution.Store.Statuses.{is_running}
use miletos.Execution.Store.Failures.{save_node_failure}
use miletos.Execution.Store.Executions.{mark_execution_running}
use miletos.Execution.Scheduler.{decode_outcome, is_succeeded}
use miletos.Execution.Scheduler.Programs.{Program, ◌>>=◌, ◌>>◌, call, pure, raise}
use miletos.Execution.Scheduler.Kept.{Kept, Keeps, >>=-Keeps, call-Keeps, reading-Keeps}
use miletos.Execution.Processor.{
  Worker, NodeRunResult, failure_summary, wait_until, decoded_result, not_started, run_registered,
  is_registered, decision_of, after_failure, finish_run, after_start, process_attempts,
}

-- A relation that the transactions of a worker keep.
pub record WorkerKept {V : Type 0} (c : Worker V) : Type 1 where
  pub kept : Kept V
  pub starts_execution :
      (now : ℕ) (company_id execution_id : String) (s s' : Store V)
      → mark_execution_running now company_id execution_id s ≡ ok tt s'
      → kept.holds s s'
  pub starts :
      (now : ℕ) (job : NodeJob V) (b : Bool) (s s' : Store V)
      → mark_node_running now job s ≡ ok b s'
      → kept.holds s s'
  pub succeeds :
      (now : ℕ) (job : NodeJob V) (output : V) (routing : NodeRoutingOutcome V) (s s' : Store V)
      → save_node_success now job output routing s ≡ ok tt s'
      → kept.holds s s'
  pub fails :
      (message_id : String) (now : ℕ) (job : NodeJob V) (failure : FailureSummary) (retry : Bool)
      (failed_at next_attempt delay : ℕ) (destination : String) (s s' : Store V)
      → (retry ≡ true → job.attempt < c.maximum_attempts)
      → save_node_failure message_id now job failure retry failed_at next_attempt c.maximum_attempts
          delay destination s
        ≡ ok tt s'
      → kept.holds s s'
  pub prepares :
      (now : ℕ) (job job' : NodeJob V) (s s' : Store V)
      → prepare_retry now job s ≡ ok job' s'
      → kept.holds s s'

module _ {V : Type 0} where
  pub find_node-same :
      (company_id execution_id node_id : String) (s s' : Store V) (r : NodeRow V)
      → find_node company_id execution_id node_id s ≡ ok r s'
      → s' ≡ s
  unfolding find_node
  find_node-same company_id execution_id node_id s s' r h = ground arith

module _ {V : Type 0} (c : Worker V) (K : WorkerKept c) where
  pub reading_node-Keeps :
      (job : NodeJob V)
      → Keeps K.kept (call (find_node job.company_id job.execution_id job.node_id))
  reading_node-Keeps job =
      reading-Keeps K.kept (find_node job.company_id job.execution_id job.node_id)
        (λ s s' r h. find_node-same job.company_id job.execution_id job.node_id s s' r h)

  pub starting_execution-Keeps :
      (job : NodeJob V)
      → Keeps K.kept (call (mark_execution_running (c.now job) job.company_id job.execution_id))
  starting_execution-Keeps job =
      call-Keeps K.kept (mark_execution_running (c.now job) job.company_id job.execution_id)
        (λ s s' a h. K.starts_execution (c.now job) job.company_id job.execution_id s s' h)

  pub prepare-Keeps : (job : NodeJob V) → Keeps K.kept (call (prepare_retry (c.now job) job))
  prepare-Keeps job =
      call-Keeps K.kept (prepare_retry (c.now job) job)
        (λ s s' job' h. K.prepares (c.now job) job job' s s' h)

  pub wait_until-Keeps : (job : NodeJob V) (t : Option ℕ) → Keeps K.kept (wait_until c job t)
  wait_until-Keeps job none s = K.kept.same s
  wait_until-Keeps job (some t) s =
      elim (Bool-cases (leb t (c.now job) || is_live (c.context_after_wait job))) [
        | inl over ↦ rw over (K.kept.same s)
        | inr short ↦ rw short (K.kept.same s)
      ]

  not_started-Keeps : (r : NodeRow V) → Keeps K.kept (not_started c r)
  not_started-Keeps r s =
      by_status (is_succeeded r.status) (is_running r.status) (is_terminal_node_status r.status)
        (decode_outcome c.null (some c.registry) r)
    where
      by_status :
          (done runs over : Bool) (o : Option (NodeOutcome V))
          → K.kept.holds s
              (if◌then◌else◌ {A = Program V (NodeRunResult V)} done
                (decoded_result o)
                (if runs
                  then pure none
                  else if over
                  then raise persisted_failure
                  else raise state_transition)
                s).0
      by_status true runs over none = K.kept.same s
      by_status true runs over (some o) = K.kept.same s
      by_status false true over o = K.kept.same s
      by_status false false true o = K.kept.same s
      by_status false false false o = K.kept.same s

  after_failure-Keeps :
      (inline_retry : Bool) (again : NodeJob V → Program V (NodeRunResult V)) (job : NodeJob V)
      (d : FailureDecision)
      → ((job' : NodeJob V) → Keeps K.kept (again job'))
      → Keeps K.kept (after_failure c inline_retry again job d)
  after_failure-Keeps inline_retry again job d p s = by_case d.result.retry inline_retry
    where
      waits : Keeps K.kept (
          wait_until c job (some d.next_attempt)
          >> (call (prepare_retry (c.now job) job) >>= again))
      waits =
          >>=-Keeps K.kept (wait_until c job (some d.next_attempt))
            (λ _. call (prepare_retry (c.now job) job) >>= again)
            (wait_until-Keeps job (some d.next_attempt))
            (λ _.
              >>=-Keeps K.kept (call (prepare_retry (c.now job) job)) again (prepare-Keeps job) p)

      by_case :
          (retry inline : Bool)
          → K.kept.holds s
              (if◌then◌else◌ {A = Program V (NodeRunResult V)}
                (not retry)
                (raise persisted_failure)
                (if not inline
                  then pure none
                  else wait_until c job (some d.next_attempt)
                    >> (call (prepare_retry (c.now job) job) >>= again))
                s).0
      by_case false inline = K.kept.same s
      by_case true false = K.kept.same s
      by_case true true = waits s

  finish_run-Keeps :
      (inline_retry : Bool) (again : NodeJob V → Program V (NodeRunResult V)) (job : NodeJob V)
      (exists : Bool) (end : RunEnd V × NodeRoutingOutcome V)
      → ((job' : NodeJob V) → Keeps K.kept (again job'))
      → Keeps K.kept (finish_run c inline_retry again job exists end)
  finish_run-Keeps inline_retry again job exists (produced output, routing) p =
      >>=-Keeps K.kept (call (save_node_success (c.now job) job output routing))
        (λ _. pure (some (output, routing)))
        (call-Keeps K.kept (save_node_success (c.now job) job output routing)
          (λ s s' a h. K.succeeds (c.now job) job output routing s s' h))
        (λ _ s. K.kept.same s)
  finish_run-Keeps inline_retry again job exists (broken e, routing) p =
      let d = decision_of c job e exists in
      let told =
        decide_failure-Consistent (c.context_of job) job.attempt c.maximum_attempts e exists
          c.retry_delay (c.failed_at job) c.deadline in
      let save =
        save_node_failure (c.new_message_id job) (c.now job) job (failure_summary d) d.result.retry
          (c.failed_at job) d.next_attempt c.maximum_attempts c.retry_delay
          (if inline_retry then "" else c.topic) in
      >>=-Keeps K.kept (call save) (λ _. after_failure c inline_retry again job d)
        (call-Keeps K.kept save (λ s s' a h.
          K.fails (c.new_message_id job) (c.now job) job (failure_summary d) d.result.retry
            (c.failed_at job) d.next_attempt c.retry_delay (if inline_retry then "" else c.topic) s
            s' told.retried_bound h))
        (λ _. after_failure-Keeps inline_retry again job d p)

  after_start-Keeps :
      (inline_retry : Bool) (again : NodeJob V → Program V (NodeRunResult V)) (job : NodeJob V)
      (w : Workflow V) (node : WorkflowNode V) (b : Bool)
      → ((job' : NodeJob V) → Keeps K.kept (again job'))
      → Keeps K.kept (after_start c inline_retry again job w node b)
  after_start-Keeps inline_retry again job w node false p =
      >>=-Keeps K.kept (call (find_node job.company_id job.execution_id job.node_id))
        (not_started c) (reading_node-Keeps job) not_started-Keeps
  after_start-Keeps inline_retry again job w node true p =
      finish_run-Keeps inline_retry again job (is_registered (get c.registry node.type))
        (run_registered c job w node (get c.registry node.type)) p

  pub process_attempts-Keeps :
      (fuel : ℕ) (inline_retry : Bool) (w : Workflow V) (node : WorkflowNode V) (job : NodeJob V)
      → Keeps K.kept (process_attempts fuel c inline_retry w node job)
  unfolding process_attempts
  process_attempts-Keeps zero inline_retry w node job = λ s. K.kept.same s
  process_attempts-Keeps (suc fuel) inline_retry w node job =
      >>=-Keeps K.kept (call (mark_node_running (c.now job) job))
        (after_start c inline_retry (process_attempts fuel c inline_retry w node) job w node)
        (call-Keeps K.kept (mark_node_running (c.now job) job)
          (λ s s' b h. K.starts (c.now job) job b s s' h))
        (λ b.
          after_start-Keeps inline_retry (process_attempts fuel c inline_retry w node) job w node b
            (λ job'. process_attempts-Keeps fuel inline_retry w node job'))
