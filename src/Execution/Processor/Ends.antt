-- ===== src/Execution/Processor/Ends.antt =====
-- execution/node_processor.go: `processAttempts` comes to an end, since each retry that is made at once
-- takes one of the attempts that are left.
use miletos.Common.{
  ℕ, zero, suc, ◌+◌, ◌≤◌, ◌<◌, Bool, true, false, ◌||◌, not, ◌≡◌, refl, inl, inr, Option, none,
  some, Bool-cases, arith, leb, string_eq, nat_eq, if◌then◌else◌,
}
use miletos.Workflow.{WorkflowNode, Workflow}
use miletos.Plugin.Registry.{get}
use miletos.Execution.{NodeJob, NodeRoutingOutcome, is_terminal_node_status}
use miletos.Execution.Retry.{is_live, FailureDecision}
use miletos.Execution.Retry.Decision.{decide_failure-Consistent}
use miletos.Execution.Routing.{NodeOutcome}
use miletos.Execution.Access.{RunEnd, produced, broken}
use miletos.Execution.Store.{
  Store, NodeRow, Tx, Result, ok, err, state_transition, persisted_failure,
}
use miletos.Execution.Store.Nodes.{find_node}
use miletos.Execution.Store.Attempts.{mark_node_running, save_node_success, prepare_retry}
use miletos.Execution.Store.Statuses.{is_running}
use miletos.Execution.Store.Failures.{save_node_failure}
use miletos.Execution.Scheduler.{decode_outcome, is_succeeded}
use miletos.Execution.Scheduler.Programs.{
  Program, End, value, error, exhausted, continue, committed, ◌>>=◌, ◌>>◌, call, pure, raise,
}
use miletos.Execution.Scheduler.Passes.{Finishes}
use miletos.Execution.Processor.{
  Worker, NodeRunResult, failure_summary, wait_until, decoded_result, not_started, run_registered,
  is_registered, decision_of, after_failure, finish_run, after_start, process_attempts,
}

module _ {V : Type 0} where
  pub call_then-Finishes :
      {A B : Type 0} (t : Tx V A) (f : A → Program V B) (s : Store V)
      → ((a : A) (s' : Store V) → t s ≡ ok a s' → Finishes (f a s').1)
      → Finishes ((call t >>= f) s).1
  call_then-Finishes t f s k = by_result (t s) refl
    where
      by_result :
          (r : Result V _) → t s ≡ r → Finishes (continue f (committed s r).0 (committed s r).1).1
      by_result (ok a s') e = k a s' e
      by_result (err x) e = tt

  pub wait_until-Finishes :
      (c : Worker V) (job : NodeJob V) (t : Option ℕ) (s : Store V)
      → Finishes (wait_until c job t s).1
  wait_until-Finishes c job none s = tt
  wait_until-Finishes c job (some t) s =
      elim (Bool-cases (leb t (c.now job) || is_live (c.context_after_wait job))) [
        | inl over ↦ rw over tt
        | inr short ↦ rw short tt
      ]

  wait_then-Finishes :
      {B : Type 0} (c : Worker V) (job : NodeJob V) (t : Option ℕ) (f : Program V B) (s : Store V)
      → ((s' : Store V) → Finishes (f s').1)
      → Finishes ((wait_until c job t >> f) s).1
  wait_then-Finishes c job t f s k =
      by_end (wait_until c job t s).0 (wait_until c job t s).1 (wait_until-Finishes c job t s)
    where
      by_end :
          (s' : Store V) (end : End (Unit {0}))
          → Finishes end
          → Finishes (continue (λ _. f) s' end).1
      by_end s' (value a) h = k s'
      by_end s' (error e) h = tt
      by_end s' exhausted h = h

  not_started-Finishes :
      (c : Worker V) (r : NodeRow V) (s : Store V) → Finishes (not_started c r s).1
  not_started-Finishes c r s =
      by_status (is_succeeded r.status) (is_running r.status) (is_terminal_node_status r.status)
        (decode_outcome c.null (some c.registry) r)
    where
      by_status :
          (done runs over : Bool) (o : Option (NodeOutcome V))
          → Finishes
              (if◌then◌else◌ {A = Program V (NodeRunResult V)} done
                (decoded_result o)
                (if runs
                  then pure none
                  else if over
                  then raise persisted_failure
                  else raise state_transition)
                s).1
      by_status true runs over none = tt
      by_status true runs over (some o) = tt
      by_status false true over o = tt
      by_status false false true o = tt
      by_status false false false o = tt

  prepare_retry-attempt :
      (now : ℕ) (job job' : NodeJob V) (s s' : Store V)
      → prepare_retry now job s ≡ ok job' s'
      → job.attempt + 1 ≤ job'.attempt
  unfolding prepare_retry find_node
  prepare_retry-attempt now job job' s s' h = ground arith

  after_failure-Finishes :
      (c : Worker V) (inline_retry : Bool) (again : NodeJob V → Program V (NodeRunResult V))
      (job : NodeJob V) (d : FailureDecision) (s : Store V)
      → (d.result.retry ≡ true
          → inline_retry ≡ true
          → (job' : NodeJob V) (s' : Store V) → job.attempt + 1 ≤ job'.attempt
          → Finishes (again job' s').1)
      → Finishes (after_failure c inline_retry again job d s).1
  after_failure-Finishes c inline_retry again job d s k = by_case d.result.retry inline_retry k
    where
      by_case :
          (retry inline : Bool)
          → (retry ≡ true
              → inline ≡ true
              → (job' : NodeJob V) (s' : Store V) → job.attempt + 1 ≤ job'.attempt
              → Finishes (again job' s').1)
          → Finishes
              (if◌then◌else◌ {A = Program V (NodeRunResult V)}
                (not retry)
                (raise persisted_failure)
                (if not inline
                  then pure none
                  else wait_until c job (some d.next_attempt)
                    >> (call (prepare_retry (c.now job) job) >>= again))
                s).1
      by_case false inline k = tt
      by_case true false k = tt
      by_case true true k =
          wait_then-Finishes c job (some d.next_attempt)
            (call (prepare_retry (c.now job) job) >>= again) s
            (λ s'. call_then-Finishes (prepare_retry (c.now job) job) again s' (λ job' s'' h.
              k refl refl job' s'' (prepare_retry-attempt (c.now job) job job' s' s'' h)))

  finish_run-Finishes :
      (c : Worker V) (inline_retry : Bool) (again : NodeJob V → Program V (NodeRunResult V))
      (job : NodeJob V) (exists : Bool) (end : RunEnd V × NodeRoutingOutcome V) (s : Store V)
      → (job.attempt < c.maximum_attempts
          → inline_retry ≡ true
          → (job' : NodeJob V) (s' : Store V) → job.attempt + 1 ≤ job'.attempt
          → Finishes (again job' s').1)
      → Finishes (finish_run c inline_retry again job exists end s).1
  finish_run-Finishes c inline_retry again job exists (produced output, routing) s k =
      call_then-Finishes (save_node_success (c.now job) job output routing)
        (λ _. pure (some (output, routing))) s (λ a s' h. tt)
  finish_run-Finishes c inline_retry again job exists (broken e, routing) s k =
      let d = decision_of c job e exists in
      let told =
        decide_failure-Consistent (c.context_of job) job.attempt c.maximum_attempts e exists
          c.retry_delay (c.failed_at job) c.deadline in
      call_then-Finishes
        (save_node_failure (c.new_message_id job) (c.now job) job (failure_summary d) d.result.retry
          (c.failed_at job) d.next_attempt c.maximum_attempts c.retry_delay
          (if inline_retry then "" else c.topic))
        (λ _. after_failure c inline_retry again job d) s
        (λ a s' h.
          after_failure-Finishes c inline_retry again job d s'
            (λ retry now job' s'' le. k (told.retried_bound retry) now job' s'' le))

  after_start-Finishes :
      (c : Worker V) (inline_retry : Bool) (again : NodeJob V → Program V (NodeRunResult V))
      (job : NodeJob V) (w : Workflow V) (node : WorkflowNode V) (b : Bool) (s : Store V)
      → (job.attempt < c.maximum_attempts
          → inline_retry ≡ true
          → (job' : NodeJob V) (s' : Store V) → job.attempt + 1 ≤ job'.attempt
          → Finishes (again job' s').1)
      → Finishes (after_start c inline_retry again job w node b s).1
  after_start-Finishes c inline_retry again job w node false s k =
      call_then-Finishes (find_node job.company_id job.execution_id job.node_id) (not_started c) s
        (λ r s' h. not_started-Finishes c r s')
  after_start-Finishes c inline_retry again job w node true s k =
      finish_run-Finishes c inline_retry again job (is_registered (get c.registry node.type))
        (run_registered c job w node (get c.registry node.type)) s k

  -- `processAttempts` comes to an end, with a result or an error: at once if retries are left to later
  -- messages, and else after no more rounds than there are attempts left, whatever the handlers do.
  pub process_attempts-Finishes :
      (fuel : ℕ) (c : Worker V) (inline_retry : Bool) (w : Workflow V) (node : WorkflowNode V)
      (job : NodeJob V) (s : Store V)
      → 0 < fuel
      → (inline_retry ≡ true → c.maximum_attempts < job.attempt + fuel)
      → Finishes (process_attempts fuel c inline_retry w node job s).1
  unfolding process_attempts
  process_attempts-Finishes zero c inline_retry w node job s some_fuel enough =
      absurd (omega (arith, some_fuel))
  process_attempts-Finishes (suc fuel) c inline_retry w node job s some_fuel enough =
      call_then-Finishes (mark_node_running (c.now job) job)
        (after_start c inline_retry (process_attempts fuel c inline_retry w node) job w node) s
        (λ b s' h.
          after_start-Finishes c inline_retry (process_attempts fuel c inline_retry w node) job w
            node b s'
            (λ left now job' s'' le.
              process_attempts-Finishes fuel c inline_retry w node job' s''
                (omega (arith, left, enough now)) (λ now'. omega (arith, le, enough now))))
