-- ===== src/Execution/Retry.antt =====
-- execution/retry.go and the retry policy of execution/node_processor.go. A context is known by what
-- `ctx.Err()` returns; a time 0 is Go's zero time, and a context without deadline has deadline 0.
pub mod Decision
use miletos.Common.{
  ℕ, ◌+◌, String, Bool, true, false, not, ◌&&◌, ◌||◌, Option, none, some, trim_space, ltb, leb,
  nat_eq, string_eq, ◌==◌, if◌then◌else◌,
}
use miletos.Plugin.{NodeError}
use miletos.Execution.{
  FailureCategory, validation, execution, internal, canceled, timeout, RetryDecisionKind,
  kind_retry, kind_exhausted, kind_do_not_retry, RetryDecisionReason, reason_scheduled,
  reason_max_attempts, reason_not_retryable, reason_category, reason_deadline,
}

-- `ctx.Err()`
pub data ContextState : Type 0 where
  live context_canceled context_deadline_exceeded : ContextState

abbrev pub is_live : ContextState → Bool
is_live live = true
is_live context_canceled = false
is_live context_deadline_exceeded = false

abbrev pub is_canceled : ContextState → Bool
is_canceled live = false
is_canceled context_canceled = true
is_canceled context_deadline_exceeded = false

pub record RetryResult : Type 0 where
  pub retry : Bool
  pub delay : ℕ

-- `!deadline.IsZero() && now.Add(delay).After(deadline)`
abbrev pub passes_deadline : ℕ → ℕ → ℕ → Bool
passes_deadline now delay deadline = not (deadline == 0) && ltb deadline (now + delay)

unfoldable pub decide_retry : ContextState → ℕ → ℕ → Bool → ℕ → ℕ → ℕ → RetryResult
decide_retry ctx current_attempt maximum_attempts retryable delay now deadline =
    if not retryable || leb maximum_attempts current_attempt || not (is_live ctx)
    then record { retry = false; delay = 0 }
    else if passes_deadline now delay deadline
    then record { retry = false; delay = 0 }
    else record { retry = true; delay = delay }

-- An error of a node's run, as `errors.Is` and `errors.As` see it; a wrapped error may be several.
pub record RunError : Type 0 where
  pub is_panic : Bool
  pub is_canceled : Bool
  pub is_deadline : Bool
  pub typed : Option NodeError

pub record ClassifiedNodeError : Type 0 where
  pub category : FailureCategory
  pub code : String
  pub message : String
  pub retryable : Bool
  pub decision_reason : Option RetryDecisionReason

abbrev pub category_name : FailureCategory → String
category_name validation = "VALIDATION"
category_name execution = "EXECUTION"
category_name internal = "INTERNAL"
category_name canceled = "CANCELED"
category_name timeout = "TIMEOUT"

abbrev category_named : String → Option FailureCategory
category_named s =
    if s == "VALIDATION"
    then some validation
    else if s == "EXECUTION"
    then some execution
    else if s == "INTERNAL"
    then some internal
    else if s == "CANCELED"
    then some canceled
    else if s == "TIMEOUT"
    then some timeout
    else none

unfoldable pub parse_failure_category : String → Option FailureCategory
parse_failure_category raw = category_named (trim_space raw)

abbrev pub or_category : Option FailureCategory → FailureCategory → FailureCategory
or_category none c = c
or_category (some d) c = d

abbrev pub classified :
    FailureCategory → String → String → Option RetryDecisionReason → ClassifiedNodeError
classified category code message reason = record {
  category = category;
  code = code;
  message = message;
  retryable = false;
  decision_reason = reason;
}

-- The part about `*plugin.NodeError`, from the classification so far.
unfoldable pub classify_typed : ClassifiedNodeError → NodeError → ClassifiedNodeError
unfolding parse_failure_category
classify_typed c e = record {
  category = or_category (parse_failure_category e.category) c.category;
  code = if trim_space e.code == "" then c.code else trim_space e.code;
  message = e.message;
  retryable = e.can_retry;
  decision_reason = if e.can_retry then c.decision_reason else some reason_not_retryable;
}

abbrev pub classify_rest : ClassifiedNodeError → Option NodeError → ClassifiedNodeError
classify_rest c none = c
classify_rest c (some e) = classify_typed c e

unfoldable pub classify_node_error : RunError → Bool → ClassifiedNodeError
unfolding classify_typed
classify_node_error err handler_exists =
    if not handler_exists
    then classified validation "NODE_HANDLER_NOT_FOUND"
        "The configured node handler is unavailable." (some reason_category)
    else if err.is_panic
    then classified internal "NODE_HANDLER_PANICKED" "The node handler failed unexpectedly."
        (some reason_not_retryable)
    else if err.is_canceled
    then classified canceled "NODE_EXECUTION_CANCELLED" "Node execution was cancelled."
        (some reason_category)
    else if err.is_deadline
    then classify_rest
        (classified timeout "NODE_EXECUTION_TIMEOUT" "Node execution exceeded its deadline."
          (some reason_deadline))
        err.typed
    else classify_rest (classified execution "NODE_EXECUTION_FAILED" "Node execution failed." none)
        err.typed

abbrev pub or_reason : Option RetryDecisionReason → RetryDecisionReason → RetryDecisionReason
or_reason none r = r
or_reason (some s) r = s

unfoldable pub retry_decision :
    ContextState
    → ℕ
    → ℕ
    → ClassifiedNodeError
    → ℕ
    → ℕ
    → ℕ
    → Bool
    → RetryDecisionKind × RetryDecisionReason
retry_decision ctx attempt maximum_attempts c now deadline delay retry =
    if retry
    then (kind_retry, reason_scheduled)
    else if leb maximum_attempts attempt && c.retryable
    then (kind_exhausted, reason_max_attempts)
    else if is_canceled ctx || not c.retryable
    then (kind_do_not_retry, or_reason c.decision_reason reason_not_retryable)
    else if passes_deadline now delay deadline
    then (kind_do_not_retry, reason_deadline)
    else (kind_do_not_retry, reason_not_retryable)

abbrev kind_code : RetryDecisionKind → String → String
kind_code kind_retry code = code
kind_code kind_exhausted code = "NODE_RETRY_EXHAUSTED"
kind_code kind_do_not_retry code = code

-- What `processAttempts` decides about an error of a run, before it saves the failure.
pub record FailureDecision : Type 0 where
  pub classification : ClassifiedNodeError
  pub result : RetryResult
  pub kind : RetryDecisionKind
  pub reason : RetryDecisionReason
  pub next_attempt : ℕ
  pub code : String

-- The failure branch of `processAttempts`, with the code that `failureSummary` saves.
unfoldable pub decide_failure : ContextState → ℕ → ℕ → RunError → Bool → ℕ → ℕ → ℕ → FailureDecision
unfolding classify_node_error decide_retry retry_decision
decide_failure ctx attempt maximum_attempts err handler_exists delay failed_at deadline =
    let c = classify_node_error err handler_exists in
    let r = decide_retry ctx attempt maximum_attempts c.retryable delay failed_at deadline in
    let (kind, reason) =
      retry_decision ctx attempt maximum_attempts c failed_at deadline delay r.retry in
    record {
      classification = c;
      result = r;
      kind = kind;
      reason = reason;
      next_attempt = if r.retry then failed_at + r.delay else 0;
      code = kind_code kind c.code;
    }
