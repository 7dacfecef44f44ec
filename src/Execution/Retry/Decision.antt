-- ===== src/Execution/Retry/Decision.antt =====
-- execution/retry.go and node_processor.go: when a failed attempt is tried again.
use miletos.Common.{ℕ, ◌+◌, ◌≤◌, ◌<◌, Bool, true, false, ◌≡◌, ◌↔◌, ◌⊎◌, arith, ◌≢◌}
use miletos.Execution.{
  kind_retry, kind_exhausted, kind_do_not_retry, reason_scheduled, reason_max_attempts,
}
use miletos.Execution.Retry.{
  ContextState, is_live, decide_retry, RunError, classify_node_error, FailureDecision,
  decide_failure, passes_deadline, retry_decision,
}

-- The attempt may be repeated: the failure is retryable, an attempt is left, the context is live, and
-- the next attempt begins by the deadline, if there is one.
pub record MayRetry (ctx : ContextState) (attempt maximum : ℕ) (retryable : Bool)
    (delay now deadline : ℕ) : Type 0 where
  pub is_retryable : retryable ≡ true
  pub attempt_left : attempt < maximum
  pub context_live : is_live ctx ≡ true
  pub in_time : (deadline ≡ 0) ⊎ (now + delay ≤ deadline)

passes_deadline-false :
    (now delay deadline : ℕ)
    → passes_deadline now delay deadline ≡ false
    → (deadline ≡ 0) ⊎ (now + delay ≤ deadline)
passes_deadline-false now delay deadline h = ground arith

-- `DecideRetry` allows a retry exactly when the failure is retryable, an attempt is left, the context
-- is live and the retry would begin by the deadline; the delay is then the one asked for.
pub decide_retry-MayRetry :
    (ctx : ContextState) (attempt maximum : ℕ) (retryable : Bool) (delay now deadline : ℕ)
    → (((decide_retry ctx attempt maximum retryable delay now deadline).retry ≡ true)
        ↔ MayRetry ctx attempt maximum retryable delay now deadline)
      × ((decide_retry ctx attempt maximum retryable delay now deadline).retry ≡ true
          → (decide_retry ctx attempt maximum retryable delay now deadline).delay ≡ delay)
unfolding decide_retry
decide_retry-MayRetry ctx attempt maximum retryable delay now deadline = ground arith

-- The failure that is saved tells what is done.
pub record Consistent (attempt maximum delay failed_at deadline : ℕ) (d : FailureDecision)
    : Type 0 where
  pub retried_kind : (d.kind ≡ kind_retry) ↔ (d.result.retry ≡ true)
  pub retried_reason : d.result.retry ≡ true → d.reason ≡ reason_scheduled
  pub retried_bound : d.result.retry ≡ true → attempt < maximum
  pub retried_class : d.result.retry ≡ true → d.classification.retryable ≡ true
  pub retried_time : d.result.retry ≡ true → d.next_attempt ≡ failed_at + delay
  pub retried_deadline : d.result.retry ≡ true → (deadline ≡ 0) ⊎ (d.next_attempt ≤ deadline)
  pub exhausted_kind :
      (d.kind ≡ kind_exhausted) ↔ ((maximum ≤ attempt) × (d.classification.retryable ≡ true))
  pub exhausted_reason : d.kind ≡ kind_exhausted → d.reason ≡ reason_max_attempts
  pub exhausted_code : d.kind ≡ kind_exhausted → d.code ≡ "NODE_RETRY_EXHAUSTED"
  pub other_code : d.kind ≢ kind_exhausted → d.code ≡ d.classification.code
  pub given_up : d.kind ≢ kind_retry → d.next_attempt ≡ 0

-- For every error and context, the decision kind that is saved with a failure is RETRY exactly when a
-- retry is made, which leaves an attempt, follows a retryable failure and begins after the delay and
-- by the deadline; it is EXHAUSTED exactly when a retryable failure was the last attempt, and the code
-- is then the one for exhausted retries, else that of the classification.
pub decide_failure-Consistent :
    (ctx : ContextState) (attempt maximum : ℕ) (err : RunError) (handler_exists : Bool)
    (delay failed_at deadline : ℕ)
    → Consistent attempt maximum delay failed_at deadline
        (decide_failure ctx attempt maximum err handler_exists delay failed_at deadline)
unfolding decide_failure decide_retry retry_decision
decide_failure-Consistent ctx attempt maximum err handler_exists delay failed_at deadline =
    ground arith

pub record IsRefused (d : FailureDecision) : Type 0 where
  pub refused_kind : d.kind ≡ kind_do_not_retry
  pub not_retried : d.result.retry ≡ false

-- A missing handler, a panic and a cancelled run are never tried again: the failure is saved as
-- DO_NOT_RETRY, whatever error the handler returned with it.
pub decide_failure-IsRefused :
    (ctx : ContextState) (attempt maximum : ℕ) (err : RunError) (handler_exists : Bool)
    (delay failed_at deadline : ℕ)
    → (handler_exists ≡ false) ⊎ ((err.is_panic ≡ true) ⊎ (err.is_canceled ≡ true))
    → IsRefused (decide_failure ctx attempt maximum err handler_exists delay failed_at deadline)
unfolding decide_failure decide_retry retry_decision classify_node_error
decide_failure-IsRefused ctx attempt maximum err handler_exists delay failed_at deadline h =
    ground arith
