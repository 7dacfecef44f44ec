-- ===== src/Execution/Processor/Bounds.antt =====
-- execution/node_processor.go: a worker makes no more attempts than its maximum.
use miletos.Common.{
  update_where-All, ℕ, ◌+◌, ◌≤◌, ◌<◌, Bool, true, false, ◌≡◌, refl, Option, some, arith, All,
  string_eq, nat_eq,
}
use miletos.Execution.{NodeJob, FailureSummary}
use miletos.Execution.Store.{Store, NodeRow}
use miletos.Execution.Store.Nodes.{skippable_at, skip_row, commandable_at, queue_row}
use miletos.Execution.Store.Attempts.{
  startable, start_row, finishable, succeed_row, stored_output, retryable_at, retry_row,
}
use miletos.Execution.Store.Statuses.{is_retry_pending, skip_reason_of}
use miletos.Execution.Store.Failures.{fail_row, complete_failure}
use miletos.Execution.Store.Tables.{
  mark_node_skipped-nodes, queue_node_command-nodes, finalize-nodes, mark_execution_running-nodes,
  mark_node_running-nodes, save_node_success-nodes, save_node_failure-nodes, prepare_retry-nodes,
}
use miletos.Execution.Scheduler.Kept.{Kept}
use miletos.Execution.Processor.{Worker}
use miletos.Execution.Processor.Consumer.{consume}
use miletos.Execution.Processor.Kept.{WorkerKept}
use miletos.Execution.Processor.Jobs.{consume-Keeps}

module _ {V : Type 0} where
  -- No attempt is beyond the maximum, and a node that waits for a retry has one left.
  abbrev pub WithinAttempts : ℕ → NodeRow V → Type 0
  WithinAttempts maximum r =
      (r.attempt ≤ maximum) × (is_retry_pending r.status ≡ true → r.attempt < maximum)

  fail_row-WithinAttempts :
      (maximum : ℕ) (retry : Bool) (failure : FailureSummary) (failed_at next_attempt delay : ℕ)
      (job : NodeJob V) (r : NodeRow V)
      → (retry ≡ true → job.attempt < maximum)
      → finishable job r ≡ true
      → WithinAttempts maximum r
      → WithinAttempts maximum (fail_row retry failure failed_at next_attempt maximum delay r)
  fail_row-WithinAttempts maximum true failure failed_at next_attempt delay job r left h w =
      let same : r.attempt ≡ job.attempt = ground (arith, h) in
      (w.0, λ e. omega (arith, same, left refl))
  fail_row-WithinAttempts maximum false failure failed_at next_attempt delay job r left h w =
      (w.0, λ e. cc)

  started-le :
      (maximum now : ℕ) (job : NodeJob V) (r : NodeRow V)
      → startable job r ≡ true
      → WithinAttempts maximum r
      → job.attempt ≤ maximum
  started-le maximum now job r h w =
      let same : r.attempt ≡ job.attempt = ground (arith, h) in omega (arith, same, w.0)

  retried-le :
      (maximum : ℕ) (job : NodeJob V) (r : NodeRow V)
      → retryable_at job r ≡ true
      → WithinAttempts maximum r
      → job.attempt + 1 ≤ maximum
  retried-le maximum job r h w =
      let same : r.attempt ≡ job.attempt = ground (arith, h) in
      let waits : is_retry_pending r.status ≡ true = ground (arith, h) in
      omega (arith, same, w.1 waits)

  unfoldable within_attempts : (maximum : ℕ) → Kept V
  within_attempts maximum = record {
    holds = λ s s'. All (WithinAttempts maximum) s.nodes → All (WithinAttempts maximum) s'.nodes;
    same = λ s h. h;
    follow = λ f g h. g (f h);
    skips = λ now company_id execution_id node_id cause s s' h w.
        rw (mark_node_skipped-nodes s s' now company_id execution_id node_id cause h) (
          update_where-All (WithinAttempts maximum) (skippable_at company_id execution_id node_id)
            (skip_row now (skip_reason_of cause)) s.nodes (λ r hit k. (k.0, λ e. cc)) w);
    queues = λ message_id now e node_id payload topic found s s' h w.
        rw (queue_node_command-nodes s s' message_id now e node_id payload topic found h) (
          update_where-All (WithinAttempts maximum) (commandable_at e.company_id e.id node_id)
            (queue_row now (some payload)) s.nodes (λ r hit k. (k.0, λ e. cc)) w);
    finalizes = λ now company_id execution_id status outputs failure s s' h w.
        rw (finalize-nodes s s' now company_id execution_id status outputs failure h) w;
  }

  unfoldable worker_within : (c : Worker V) → WorkerKept c
  unfolding within_attempts
  worker_within c = record {
    kept = within_attempts c.maximum_attempts;
    starts_execution = λ now company_id execution_id s s' h w.
        rw (mark_execution_running-nodes s s' now company_id execution_id h) w;
    starts = λ now job b s s' h w. rw (mark_node_running-nodes s s' now job b h) (
        update_where-All (WithinAttempts c.maximum_attempts) (startable job) (start_row now job)
          s.nodes (λ r hit k. (started-le c.maximum_attempts now job r hit k, λ e. cc)) w);
    succeeds = λ now job output routing s s' h w.
        rw (save_node_success-nodes s s' now job output routing h) (
          update_where-All (WithinAttempts c.maximum_attempts) (finishable job)
            (succeed_row now (stored_output output routing)) s.nodes (λ r hit k. (k.0, λ e. cc)) w);
    fails =
        λ message_id now job failure retry failed_at next_attempt delay destination s s' left h w.
          rw
            (save_node_failure-nodes s s' message_id now job failure retry failed_at next_attempt
              c.maximum_attempts delay destination h)
            (update_where-All (WithinAttempts c.maximum_attempts) (finishable job)
              (fail_row retry (complete_failure job retry next_attempt failure) failed_at
                next_attempt c.maximum_attempts delay)
              s.nodes
              (λ r hit k.
                fail_row-WithinAttempts c.maximum_attempts retry
                  (complete_failure job retry next_attempt failure) failed_at next_attempt delay job
                  r left hit k)
              w);
    prepares = λ now job job' s s' h w. rw (prepare_retry-nodes s s' now job job' h) (
        update_where-All (WithinAttempts c.maximum_attempts) (retryable_at job)
          (retry_row now (job.attempt + 1)) s.nodes
          (λ r hit k. (retried-le c.maximum_attempts job r hit k, λ e. cc)) w);
  }

  -- Whatever messages a worker consumes, and however each ends: if no row's attempt is beyond the
  -- maximum, and every row that waits for a retry has an attempt left, then that stays so.
  pub consume-WithinAttempts :
      (c : Worker V) (message : Option (NodeJob V)) (s : Store V)
      → All (WithinAttempts c.maximum_attempts) s.nodes
      → All (WithinAttempts c.maximum_attempts) (consume c message s).0.nodes
  unfolding worker_within within_attempts
  consume-WithinAttempts c message s h = consume-Keeps c (worker_within c) message s h
