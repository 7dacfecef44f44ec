-- ===== src/Execution/Store/Lifecycle/Started.antt =====
-- execution/repository: no transaction takes the row of an attempt away, so that a job is started once.
use miletos.Common.{
  any, ==_iff, true, Bool-cases, ◌≢◌, ◌∙◌, string_eq, nat_eq, ℕ, String, Bool, ◌≡◌, refl, arith,
  some, List, [], ◌∷◌, update_where, inl, inr,
}
use miletos.Execution.{FailureSummary, NodeJob, NodeRoutingOutcome}
use miletos.Execution.Store.{Store, ok, update_nodes, update_executions, update_attempts}
use miletos.Execution.Store.Observations.{next_sequence, record_event, record_log, record_error}
use miletos.Execution.Store.Outbox.{persist_node_command, persist_retry_command}
use miletos.Execution.Store.Attempts.{
  mark_node_running, insert_attempt, note_progress, stored_output, save_node_success,
}
use miletos.Execution.Store.Failures.{complete_failure, save_node_failure}
use miletos.Execution.Store.Attempts.{attempt_at, running_attempt_at}
use miletos.Execution.Store.Failures.{fail_attempt}
use miletos.Execution.Store.{attempt_succeeded}
use miletos.Execution.Store.Lifecycle.History.{Transaction, History, begin, next}
use miletos.Execution.Store.Unattempted.{
  mark_node_queued-attempts, queue_node_command-attempts, mark_node_skipped-attempts,
  prepare_retry-attempts, repair_queued_node_command-attempts, ensure_retry_command-attempts,
  find_stale_nodes-attempts, mark_execution_queued-attempts, mark_execution_running-attempts,
  finalize-attempts, create_execution-attempts, copied-attempts,
}

any-update_where :
    {A : Type 0} (p q : A → Bool) (f : A → A) (xs : List A)
    → ((x : A) → p (f x) ≡ p x)
    → any p (update_where q f xs) ≡ any p xs
any-update_where p q f [] h = refl
any-update_where p q f (x ∷ xs) h = elim (Bool-cases (q x)) [
  | inl hit ↦ rw (hit, h x, any-update_where p q f xs h) refl
  | inr miss ↦ rw (miss, any-update_where p q f xs h) refl
]

module _ {V : Type 0} where
  -- The attempt of a job has a row.
  abbrev is_attempted : NodeJob V → Store V → Bool
  is_attempted job s = any (attempt_at job) s.attempts

  save_node_success-is_attempted :
      (now : ℕ) (job other : NodeJob V) (output : V) (routing : NodeRoutingOutcome V)
      (s s' : Store V)
      → save_node_success now job output routing s ≡ ok tt s'
      → is_attempted other s' ≡ is_attempted other s
  unfolding save_node_success update_nodes update_attempts note_progress update_executions
      record_event record_log next_sequence
  save_node_success-is_attempted now job other output routing s s' h = ground (
    arith,
    h,
    any-update_where (attempt_at other) (running_attempt_at job)
        (λ a. record a {
          status = attempt_succeeded;
          output = some (stored_output output routing);
          finished_at = some now;
          updated_at = now;
        })
        s.attempts (λ a. refl),
  )

  save_node_failure-is_attempted :
      (message_id : String) (now : ℕ) (job other : NodeJob V) (failure : FailureSummary)
      (retry : Bool) (failed_at next_attempt maximum_attempts delay : ℕ) (destination : String)
      (s s' : Store V)
      → save_node_failure message_id now job failure retry failed_at next_attempt maximum_attempts
          delay destination s
        ≡ ok tt s'
      → is_attempted other s' ≡ is_attempted other s
  unfolding save_node_failure update_nodes update_attempts note_progress update_executions
      record_event record_log next_sequence record_error persist_retry_command persist_node_command
  save_node_failure-is_attempted message_id now job other failure retry failed_at next_attempt
        maximum_attempts delay destination s s' h =
      ground (
        arith,
        h,
        any-update_where (attempt_at other) (running_attempt_at job)
            (fail_attempt retry (complete_failure job retry next_attempt failure) failed_at
              next_attempt)
            s.attempts (λ a. refl),
      )

  mark_node_running-is_attempted :
      (now : ℕ) (job other : NodeJob V) (b : Bool) (s s' : Store V)
      → mark_node_running now job s ≡ ok b s'
      → is_attempted other s ≡ true
      → is_attempted other s' ≡ true
  unfolding mark_node_running update_nodes insert_attempt note_progress update_executions
      record_event record_log next_sequence
  mark_node_running-is_attempted now job other b s s' h k = ground (arith, h, k)

  started-is_attempted :
      (now : ℕ) (job : NodeJob V) (s s' : Store V)
      → mark_node_running now job s ≡ ok true s'
      → is_attempted job s' ≡ true
  unfolding mark_node_running update_nodes insert_attempt note_progress update_executions
      record_event record_log next_sequence
  started-is_attempted now job s s' h = ground (
    arith,
    h,
    (==_iff job.company_id job.company_id).1 refl,
    (==_iff job.execution_id job.execution_id).1 refl,
    (==_iff job.node_execution_id job.node_execution_id).1 refl,
  )

  attempted-no_start :
      (now : ℕ) (job : NodeJob V) (s s' : Store V)
      → is_attempted job s ≡ true
      → mark_node_running now job s ≢ ok true s'
  unfolding mark_node_running update_nodes insert_attempt
  attempted-no_start now job s s' k = λ h. ground (arith, h, k)

  -- A transaction that leaves the attempts alone, or keeps their keys.
  kept :
      (s s' : Store V) (job : NodeJob V)
      → s'.attempts ≡ s.attempts
      → is_attempted job s ≡ true
      → is_attempted job s' ≡ true
  kept s s' job same k = rw same k

module _ {V : Type 0} {recovers : String → Type 0} where
  Transaction-is_attempted :
      (job : NodeJob V) (s s' : Store V)
      → Transaction recovers s s'
      → is_attempted job s ≡ true
      → is_attempted job s' ≡ true
  Transaction-is_attempted job s s' (Transaction.created now w origin cid eid new_id e h) k =
      kept s s' job (create_execution-attempts now w origin cid eid new_id e s s' h) k
  Transaction-is_attempted job s s' (Transaction.execution_was_queued now cid eid h) k =
      kept s s' job (mark_execution_queued-attempts s s' now cid eid h) k
  Transaction-is_attempted job s s' (Transaction.execution_was_started now cid eid h) k =
      kept s s' job (mark_execution_running-attempts s s' now cid eid h) k
  Transaction-is_attempted job s s' (Transaction.execution_was_finalized now cid eid st outs f h)
        k =
      kept s s' job (finalize-attempts s s' now cid eid st outs f h) k
  Transaction-is_attempted job s s' (Transaction.node_was_queued now cid eid nid payload found h)
        k =
      kept s s' job (mark_node_queued-attempts s s' now cid eid nid payload found h) k
  Transaction-is_attempted job s s'
        (Transaction.node_was_commanded mid now e nid payload dst found h) k =
      kept s s' job (queue_node_command-attempts s s' mid now e nid payload dst found h) k
  Transaction-is_attempted job s s' (Transaction.node_was_skipped now cid eid nid reason h) k =
      kept s s' job (mark_node_skipped-attempts s s' now cid eid nid reason h) k
  Transaction-is_attempted job s s' (Transaction.retry_was_prepared now other job' h) k =
      kept s s' job (prepare_retry-attempts s s' now other job' h) k
  Transaction-is_attempted job s s' (Transaction.command_was_repaired mid now node other dst at b h)
        k =
      kept s s' job (repair_queued_node_command-attempts s s' mid now node other dst at b h) k
  Transaction-is_attempted job s s' (Transaction.retry_was_ensured mid now other dst at h) k =
      kept s s' job (ensure_retry_command-attempts s s' mid now other dst at h) k
  Transaction-is_attempted job s s' (Transaction.stale_were_found t current limit found h) k =
      kept s s' job (find_stale_nodes-attempts s s' t current limit found h) k
  Transaction-is_attempted job s s'
        (Transaction.results_were_copied cid source target node_ids known h) k =
      kept s s' job (copied-attempts cid source target node_ids s s' h) k
  Transaction-is_attempted job s s' (Transaction.node_was_started now other b h) k =
      mark_node_running-is_attempted now other job b s s' h k
  Transaction-is_attempted job s s' (Transaction.node_has_succeeded now other output routing h) k =
      save_node_success-is_attempted now other job output routing s s' h ∙ k
  Transaction-is_attempted job s s'
        (Transaction.node_has_failed mid now other f retry at later maximum delay dst h) k =
      save_node_failure-is_attempted mid now other job f retry at later maximum delay dst s s' h ∙ k

  History-is_attempted :
      {s s' : Store V} (job : NodeJob V)
      → History recovers s s'
      → is_attempted job s ≡ true
      → is_attempted job s' ≡ true
  History-is_attempted job begin k = k
  History-is_attempted job (next {s} {s'} t h) k =
      History-is_attempted job h (Transaction-is_attempted job s s' t k)

  -- A job that `MarkNodeRunning` has started is never started again: whatever transactions on
  -- executions and nodes succeed in between, however often the job is delivered, a later call with it
  -- does not report that it has started it. Its attempt has a row, and no transaction takes it away.
  pub mark_node_running-once :
      (now later : ℕ) (job : NodeJob V) (s s' s'' last : Store V)
      → mark_node_running now job s ≡ ok true s'
      → History recovers s' s''
      → mark_node_running later job s'' ≢ ok true last
  mark_node_running-once now later job s s' s'' last started h =
      attempted-no_start later job s'' last
        (History-is_attempted job h (started-is_attempted now job s s' started))
