-- ===== src/Execution/Store/Lifecycle/Moves.antt =====
-- execution/repository/node_repository.go: each update of `node_executions` is a move of each row that
-- it changes.
use miletos.Common.{
  ℕ, ◌+◌, String, Bool, true, false, ◌≡◌, refl, ◌∙◌, inl, inr, Option, none, some, List, [], ◌∷◌,
  arith, update_where, Bool-cases, nat_eq, string_eq,
}
use miletos.Execution.{
  NodeStatus, node_pending, node_ready, node_queued, node_running, node_retry_pending,
  node_succeeded, node_failed, node_skipped, node_cancelled, node_timed_out, FailureSummary,
  NodeJob, SkipReason,
}
use miletos.Execution.Store.{NodeRow, StoredOutput}
use miletos.Execution.Store.Nodes.{queue_row, skip_row}
use miletos.Execution.Store.Attempts.{
  start_row, succeed_row, retry_row, startable, finishable, retryable_at,
}
use miletos.Execution.Store.Statuses.{
  is_queueable, is_commandable, is_queued, is_running, is_pending, is_retry_pending, coalesce,
}
use miletos.Execution.Store.Failures.{fail_row}
use miletos.Execution.Store.Copies.{copyable, copy_from}
use miletos.Execution.Store.Repairs.{repairable_at, repair_row}
use miletos.Execution.Store.Lifecycle.{
  Allowed, Move, Copied, stays, moves, copies, Evolved, none_yet, changed, TimesFit, is_set,
}

queueable-Allowed : (s : NodeStatus) → is_queueable s ≡ true → Allowed s node_queued
queueable-Allowed node_pending h = Allowed.queue_pending
queueable-Allowed node_ready h = Allowed.queue_ready
queueable-Allowed node_retry_pending h = Allowed.queue_retry
queueable-Allowed node_queued h = cc
queueable-Allowed node_running h = cc
queueable-Allowed node_succeeded h = cc
queueable-Allowed node_failed h = cc
queueable-Allowed node_skipped h = cc
queueable-Allowed node_cancelled h = cc
queueable-Allowed node_timed_out h = cc

-- A node that may be queued has not finished; the same holds of one that waits for a retry.
queueable-unfinished :
    (s : NodeStatus) (ready queued started finished : Option ℕ)
    → is_queueable s ≡ true
    → TimesFit s ready queued started finished
    → is_set finished ≡ false
queueable-unfinished s ready queued started finished h t = ground arith

pub commandable-queueable : (s : NodeStatus) → is_commandable s ≡ true → is_queueable s ≡ true
commandable-queueable s h = ground arith

is_queued-eq : (s : NodeStatus) → is_queued s ≡ true → s ≡ node_queued
is_queued-eq s h = ground arith

is_running-eq : (s : NodeStatus) → is_running s ≡ true → s ≡ node_running
is_running-eq s h = ground arith

is_pending-eq : (s : NodeStatus) → is_pending s ≡ true → s ≡ node_pending
is_pending-eq s h = ground arith

is_retry_pending-eq : (s : NodeStatus) → is_retry_pending s ≡ true → s ≡ node_retry_pending
is_retry_pending-eq s h = ground arith

coalesce-set : (o : Option ℕ) (now : ℕ) → is_set (coalesce o now) ≡ true
coalesce-set none now = refl
coalesce-set (some t) now = refl

module _ {V : Type 0} where
  pub queue_row-Move :
      (now : ℕ) (input : Option V) (r : NodeRow V)
      → is_queueable r.status ≡ true
      → Move r (queue_row now input r)
  queue_row-Move now input r h = record {
    allowed = queueable-Allowed r.status h;
    same_identity = refl;
    versioned = refl;
    attempts = omega arith;
    stays_ok = λ ok. record {
      times = (
        coalesce-set r.ready_at now,
        refl,
        queueable-unfinished r.status r.ready_at r.queued_at r.started_at r.finished_at h ok.times,
      );
      readied = λ e. coalesce-set r.ready_at now;
      ran = λ e. coalesce-set r.ready_at now;
      awaiting = refl;
      numbered = ok.numbered;
    };
  }

  pub start_row-Move :
      (now : ℕ) (job : NodeJob V) (r : NodeRow V)
      → startable job r ≡ true
      → Move r (start_row now job r)
  start_row-Move now job r h =
      let e = is_queued-eq r.status (ground (arith, h)) in
      let same : r.attempt ≡ job.attempt = ground (arith, h) in
      record {
        allowed = rw e Allowed.start;
        same_identity = refl;
        versioned = refl;
        attempts = omega arith;
        stays_ok = λ ok.
            let t = rw e at ok.times in
            record {
              times = (coalesce-set r.started_at now, refl);
              readied = λ x. cc;
              ran = λ x. t.0;
              awaiting = ok.awaiting ∙ rw e refl;
              numbered = rw (← same) ok.numbered;
            };
      }

  pub succeed_row-Move :
      (now : ℕ) (output : StoredOutput V) (job : NodeJob V) (r : NodeRow V)
      → finishable job r ≡ true
      → Move r (succeed_row now output r)
  succeed_row-Move now output job r h =
      let e = is_running-eq r.status (ground (arith, h)) in
      record {
        allowed = rw e Allowed.succeed;
        same_identity = refl;
        versioned = refl;
        attempts = omega arith;
        stays_ok = λ ok. record {
          times = refl;
          readied = λ x. cc;
          ran = λ x. cc;
          awaiting = refl;
          numbered = ok.numbered;
        };
      }

  pub fail_row-Move :
      (retry : Bool) (failure : FailureSummary) (failed_at next_attempt maximum delay : ℕ)
      (job : NodeJob V) (r : NodeRow V)
      → finishable job r ≡ true
      → Move r (fail_row retry failure failed_at next_attempt maximum delay r)
  fail_row-Move true failure failed_at next_attempt maximum delay job r h =
      let e = is_running-eq r.status (ground (arith, h)) in
      record {
        allowed = rw e Allowed.await_retry;
        same_identity = refl;
        versioned = refl;
        attempts = omega arith;
        stays_ok = λ ok. record {
          times = ((rw e at ok.times).0, refl);
          readied = λ x. ok.ran e;
          ran = λ x. cc;
          awaiting = refl;
          numbered = ok.numbered;
        };
      }
  fail_row-Move false failure failed_at next_attempt maximum delay job r h =
      let e = is_running-eq r.status (ground (arith, h)) in
      record {
        allowed = rw e Allowed.fail;
        same_identity = refl;
        versioned = refl;
        attempts = omega arith;
        stays_ok = λ ok. record {
          times = refl;
          readied = λ x. cc;
          ran = λ x. cc;
          awaiting = refl;
          numbered = ok.numbered;
        };
      }

  pub skip_row-Move :
      (now : ℕ) (reason : SkipReason) (r : NodeRow V)
      → is_pending r.status ≡ true
      → Move r (skip_row now reason r)
  skip_row-Move now reason r h = record {
    allowed = rw (is_pending-eq r.status h) Allowed.skip;
    same_identity = refl;
    versioned = refl;
    attempts = omega arith;
    stays_ok = λ ok. record {
      times = refl;
      readied = λ x. cc;
      ran = λ x. cc;
      awaiting = ok.awaiting ∙ rw (is_pending-eq r.status h) refl;
      numbered = ok.numbered;
    };
  }

  pub retry_row-Move :
      (now : ℕ) (job : NodeJob V) (r : NodeRow V)
      → retryable_at job r ≡ true
      → Move r (retry_row now (job.attempt + 1) r)
  retry_row-Move now job r h =
      let e = is_retry_pending-eq r.status (ground (arith, h)) in
      let same : r.attempt ≡ job.attempt = ground (arith, h) in
      record {
        allowed = rw e Allowed.queue_retry;
        same_identity = refl;
        versioned = refl;
        attempts = omega arith;
        stays_ok = λ ok.
            let t = rw e at ok.times in
            record {
              times = (ok.readied e, refl, t.1);
              readied = λ x. cc;
              ran = λ x. cc;
              awaiting = refl;
              numbered = omega arith;
            };
      }

  pub repair_row-Move :
      (now : ℕ) (node r : NodeRow V) → repairable_at node r ≡ true → Move r (repair_row now r)
  repair_row-Move now node r h =
      let e = is_queued-eq r.status (ground (arith, h)) in
      record {
        allowed = rw e Allowed.repair;
        same_identity = refl;
        versioned = refl;
        attempts = omega arith;
        stays_ok = λ ok. record {
          times = ok.times;
          readied = ok.readied;
          ran = ok.ran;
          awaiting = ok.awaiting;
          numbered = ok.numbered;
        };
      }

  pub copy_row-Copied :
      (company_id source_id recovery_id : String) (node_ids : List String) (rows : List (NodeRow V))
      (r : NodeRow V)
      → copyable company_id source_id recovery_id node_ids rows r ≡ true
      → Copied r (copy_from company_id source_id rows r)
  copy_row-Copied company_id source_id recovery_id node_ids rows r h = record {
    from = λ e. is_pending-eq r.status (ground (arith, h));
    to = refl;
    same_identity = refl;
    versioned = refl;
    attempts = refl;
    stays_ok = λ ok. record {
      times = refl;
      readied = λ x. cc;
      ran = λ x. cc;
      awaiting = refl;
      numbered = ok.numbered;
    };
  }

module _ {V : Type 0} (recovers : String → Type 0) where
  pub unchanged : (rs : List (NodeRow V)) → Evolved recovers rs rs
  unchanged [] = none_yet
  unchanged (r ∷ rs) = changed stays (unchanged rs)

  -- An update that moves each row it selects.
  pub update_where-Evolved :
      (p : NodeRow V → Bool) (f : NodeRow V → NodeRow V) (rs : List (NodeRow V))
      → ((r : NodeRow V) → p r ≡ true → Move r (f r))
      → Evolved recovers rs (update_where p f rs)
  update_where-Evolved p f [] m = none_yet
  update_where-Evolved p f (r ∷ rs) m = elim (Bool-cases (p r)) [
    | inl hit ↦ rw hit (changed (moves (m r hit) stays) (update_where-Evolved p f rs m))
    | inr miss ↦ rw miss (changed stays (update_where-Evolved p f rs m))
  ]

  -- An update that copies results into the rows it selects.
  pub update_where-Copied :
      (p : NodeRow V → Bool) (f : NodeRow V → NodeRow V) (rs : List (NodeRow V))
      → ((r : NodeRow V) → p r ≡ true → recovers r.execution_id × Copied r (f r))
      → Evolved recovers rs (update_where p f rs)
  update_where-Copied p f [] m = none_yet
  update_where-Copied p f (r ∷ rs) m = elim (Bool-cases (p r)) [
    | inl hit ↦
        let (target, c) = m r hit in
        rw hit (changed (copies target c stays) (update_where-Copied p f rs m))
    | inr miss ↦ rw miss (changed stays (update_where-Copied p f rs m))
  ]
