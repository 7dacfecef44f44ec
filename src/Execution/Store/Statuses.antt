-- ===== src/Execution/Store/Statuses.antt =====
-- execution/repository/node_repository.go: the conditions on statuses that its statements share.
use miletos.Common.{ℕ, Bool, true, false, Option, none, some, nat_eq, string_eq}
use miletos.Execution.{
  ExecutionStatus, execution_created, execution_queued, execution_running, NodeStatus, node_pending,
  node_ready, node_queued, node_running, node_retry_pending, node_skipped, SkipReason, unexplained,
  dependency_failed, out_of_trigger_scope, no_active_route,
}
use miletos.Execution.Store.{AttemptStatus, attempt_running, attempt_succeeded, attempt_failed}

abbrev pub is_pending : NodeStatus → Bool
is_pending node_pending = true
is_pending _ = false

-- `status IN ('PENDING', 'RETRY_PENDING')`
abbrev pub is_commandable : NodeStatus → Bool
is_commandable node_pending = true
is_commandable node_retry_pending = true
is_commandable _ = false

-- `status IN ('PENDING', 'READY', 'RETRY_PENDING')`
abbrev pub is_queueable : NodeStatus → Bool
is_queueable node_pending = true
is_queueable node_ready = true
is_queueable node_retry_pending = true
is_queueable _ = false

abbrev pub is_queued : NodeStatus → Bool
is_queued node_queued = true
is_queued _ = false

abbrev pub is_running : NodeStatus → Bool
is_running node_running = true
is_running _ = false

abbrev pub is_retry_pending : NodeStatus → Bool
is_retry_pending node_retry_pending = true
is_retry_pending _ = false

abbrev pub is_skipped : NodeStatus → Bool
is_skipped node_skipped = true
is_skipped _ = false

-- `status IN ('CREATED', 'QUEUED', 'RUNNING')`
abbrev pub is_active_execution : ExecutionStatus → Bool
is_active_execution execution_created = true
is_active_execution execution_queued = true
is_active_execution execution_running = true
is_active_execution _ = false

abbrev pub is_attempt_running : AttemptStatus → Bool
is_attempt_running attempt_running = true
is_attempt_running attempt_succeeded = false
is_attempt_running attempt_failed = false

-- `COALESCE(at, now)`
abbrev pub coalesce : Option ℕ → ℕ → Option ℕ
coalesce none now = some now
coalesce (some t) now = some t

-- The reason that `MarkNodeSkipped` saves; the empty one is a failed dependency.
abbrev pub skip_reason_of : SkipReason → SkipReason
skip_reason_of unexplained = dependency_failed
skip_reason_of out_of_trigger_scope = out_of_trigger_scope
skip_reason_of dependency_failed = dependency_failed
skip_reason_of no_active_route = no_active_route
