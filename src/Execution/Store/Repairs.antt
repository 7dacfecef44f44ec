-- ===== src/Execution/Store/Repairs.antt =====
-- execution/repository/reconciliation_repository.go: which nodes are stale, and the repair of the
-- command of a queued node.
use miletos.Common.{
  ℕ, suc, String, Bool, true, false, not, ◌&&◌, ◌||◌, Option, none, some, List, any, filter,
  sort_by, str_lt, ltb, leb, count_where, nat_eq, string_eq, ◌==◌, if◌then◌else◌,
}
use miletos.Execution.{
  ExecutionStatus, execution_created, execution_queued, execution_running, NodeJob,
}
use miletos.Execution.Store.{
  Store, ExecutionRow, NodeRow, OutboxRow, state_transition, invalid_argument, publication_pending,
  Tx, require, read, pure, update_nodes, update_executions, update_outbox, ◌>>=◌, ◌>>◌,
}
use miletos.Execution.Store.Outbox.{
  conflicts, is_published, node_command_operation_key, persist_node_command, take,
}
use miletos.Execution.Store.Statuses.{is_queued, is_running, is_retry_pending}

pub record ReconciliationThresholds : Type 0 where
  pub queued_before : ℕ
  pub running_before : ℕ
  pub retry_pending_before : ℕ

-- A comparison with a column that may be NULL.
abbrev pub is_before : Option ℕ → ℕ → Bool
is_before none t = false
is_before (some u) t = ltb u t

abbrev pub is_due : Option ℕ → ℕ → Bool
is_due none t = false
is_due (some u) t = leb u t

abbrev pub is_open : ExecutionStatus → Bool
is_open execution_created = true
is_open execution_queued = true
is_open execution_running = true
is_open _ = false

abbrev pub differs : Bool → Bool → Bool
differs true b = not b
differs false b = b

module _ {V : Type 0} where
  abbrev pub is_late : ReconciliationThresholds → NodeRow V → Bool
  is_late t r =
      (is_queued r.status && is_before r.queued_at t.queued_before)
      || (is_running r.status && ltb r.updated_at t.running_before)
      || (is_retry_pending r.status && is_before r.next_attempt_at t.retry_pending_before)

  abbrev pub has_late_node : ReconciliationThresholds → List (NodeRow V) → ExecutionRow V → Bool
  has_late_node t rows e =
      any (λ r. r.company_id == e.company_id && r.execution_id == e.id && is_late t r) rows

  -- The first statement of `FindStaleNodes`.
  abbrev pub refresh_stalled : ReconciliationThresholds → Store V → Tx V ℕ
  refresh_stalled t s =
      update_executions (λ e. is_open e.status && differs e.is_stalled (has_late_node t s.nodes e))
        (λ e. record e { is_stalled = has_late_node t s.nodes e })

  -- The condition of its query, by the clock of the database.
  abbrev pub is_stale : ReconciliationThresholds → ℕ → NodeRow V → Bool
  is_stale t current_timestamp r =
      (is_queued r.status && is_before r.queued_at t.queued_before)
      || (is_running r.status && ltb r.updated_at t.running_before)
      || (is_retry_pending r.status && is_due r.next_attempt_at current_timestamp)

  -- `updated_at, company_id, workflow_execution_id, node_id`
  abbrev pub stale_first : NodeRow V → NodeRow V → Bool
  stale_first a b =
      if not (a.updated_at == b.updated_at)
      then ltb a.updated_at b.updated_at
      else if not (a.company_id == b.company_id)
      then str_lt a.company_id b.company_id
      else if not (a.execution_id == b.execution_id)
      then str_lt a.execution_id b.execution_id
      else str_lt a.node_id b.node_id

  -- `FindStaleNodes`
  unfoldable pub find_stale_nodes : ReconciliationThresholds → ℕ → ℕ → Tx V (List (NodeRow V))
  unfolding update_executions
  find_stale_nodes t current_timestamp limit = do
    before ← read (λ s. s)
    affected ← refresh_stalled t before
    read (λ s.
        take (if ltb limit 1 || ltb 500 limit then 100 else limit)
          (sort_by stale_first (filter (is_stale t current_timestamp) s.nodes)))

  abbrev pub is_job_of : NodeRow V → NodeJob V → Bool
  is_job_of node job =
      node.company_id == job.company_id
      && node.execution_id == job.execution_id
      && node.id == job.node_execution_id
      && node.node_id == job.node_id
      && node.attempt == job.attempt

  abbrev pub repairable_at : NodeRow V → NodeRow V → Bool
  repairable_at node r =
      r.company_id == node.company_id
      && r.execution_id == node.execution_id
      && r.id == node.id
      && is_queued r.status
      && r.attempt == node.attempt
      && r.lock_version == node.lock_version

  abbrev pub repair_row : ℕ → NodeRow V → NodeRow V
  repair_row now r = record r { updated_at = now; lock_version = suc r.lock_version }

  abbrev pub rearm_row : NodeJob V → String → ℕ → OutboxRow V → OutboxRow V
  rearm_row job destination available_at o = record o {
    destination = destination;
    message_key = job.node_execution_id;
    payload = job;
    publication_state = publication_pending;
    available_at = available_at;
    claimed_at = none;
    claim_owner = none;
    published_at = none;
    lock_version = suc o.lock_version;
  }

  -- `RepairQueuedNodeCommand`: the row is reserved, its command inserted unless it is there, and
  -- published again if it was. Nothing is kept unless one row was reserved.
  unfoldable pub repair_queued_node_command :
      String → ℕ → NodeRow V → NodeJob V → String → ℕ → Tx V Bool
  unfolding update_nodes update_outbox persist_node_command
  repair_queued_node_command message_id now node job destination available_at = do
    require (is_queued node.status) state_transition
    require (is_job_of node job) invalid_argument
    reserved ← read (λ s. count_where (repairable_at node) s.nodes == 1)
    elim reserved [
      | false ↦ pure false
      | true ↦ do
        affected ← update_nodes (repairable_at node) (repair_row now)
        persist_node_command message_id now job job.attempt
            (node_command_operation_key job job.attempt) destination available_at
        rearmed ←
            update_outbox
              (λ o.
                conflicts job (node_command_operation_key job job.attempt) o
                && is_published o.publication_state)
              (rearm_row job destination available_at)
        pure true
    ]
