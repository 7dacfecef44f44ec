-- ===== src/Execution/Store/Lifecycle.antt =====
-- execution/repository/node_repository.go: the life of a node as a step relation on its row.
pub mod Moves
pub mod History
pub mod Ended
pub mod Started
use mathlib.Core.Logic.{◌⊎◌}
use miletos.Common.{
  ℕ, suc, ◌≤◌, String, Bool, true, false, ◌≡◌, refl, Option, none, some, List, [], ◌∷◌, arith,
  if◌then◌else◌,
}
use miletos.Execution.{
  NodeStatus, node_pending, node_ready, node_queued, node_running, node_retry_pending,
  node_succeeded, node_failed, node_skipped, node_cancelled, node_timed_out,
  is_terminal_node_status,
}
use miletos.Execution.Store.{NodeRow}
use miletos.Execution.Store.Statuses.{is_retry_pending}
use miletos.Execution.Store.Copies.{has_succeeded}

-- The moves from one status to another; a repair of its command leaves a node queued.
pub data Allowed : NodeStatus → NodeStatus → Type 0 where
  queue_pending : Allowed node_pending node_queued
  queue_ready : Allowed node_ready node_queued
  queue_retry : Allowed node_retry_pending node_queued
  start : Allowed node_queued node_running
  succeed : Allowed node_running node_succeeded
  fail : Allowed node_running node_failed
  await_retry : Allowed node_running node_retry_pending
  skip : Allowed node_pending node_skipped
  repair : Allowed node_queued node_queued

abbrev pub is_set : Option ℕ → Bool
is_set none = false
is_set (some t) = true

-- What the status says of which times are set, as the constraints `node_exec_ready_has_time`,
-- `node_exec_queued_has_time`, `node_exec_running_has_time`, `node_exec_terminal_has_time` and
-- `node_exec_nonterminal_no_finish` of `node_executions` demand it, and, for a node that waits for a
-- retry, `node_exec_next_attempt_shape`.
abbrev pub TimesFit : NodeStatus → Option ℕ → Option ℕ → Option ℕ → Option ℕ → Type 0
TimesFit node_pending ready queued started finished = is_set finished ≡ false
TimesFit node_ready ready queued started finished =
    (is_set ready ≡ true) × (is_set finished ≡ false)
TimesFit node_queued ready queued started finished =
    (is_set ready ≡ true) × (is_set queued ≡ true) × (is_set finished ≡ false)
TimesFit node_running ready queued started finished =
    (is_set started ≡ true) × (is_set finished ≡ false)
TimesFit node_retry_pending ready queued started finished =
    (is_set started ≡ true) × (is_set finished ≡ false)
TimesFit node_succeeded ready queued started finished = is_set finished ≡ true
TimesFit node_failed ready queued started finished = is_set finished ≡ true
TimesFit node_skipped ready queued started finished = is_set finished ≡ true
TimesFit node_cancelled ready queued started finished = is_set finished ≡ true
TimesFit node_timed_out ready queued started finished = is_set finished ≡ true

module _ {V : Type 0} where
  -- The constraints on times that a row's status brings: those of `TimesFit`, and that a next attempt
  -- has a time exactly while the row waits for a retry (`node_exec_next_attempt_shape`). And its
  -- attempts are numbered from 1.
  -- A row that waits for a retry has been ready before, which queueing it again relies on.
  pub record RowOk (r : NodeRow V) : Type 0 where
    pub times : TimesFit r.status r.ready_at r.queued_at r.started_at r.finished_at
    pub readied : r.status ≡ node_retry_pending → is_set r.ready_at ≡ true
    pub ran : r.status ≡ node_running → is_set r.ready_at ≡ true
    pub awaiting : is_set r.next_attempt_at ≡ is_retry_pending r.status
    pub numbered : 1 ≤ r.attempt

  abbrev pub identity_of : NodeRow V → String × String × String × String × String
  identity_of r = (r.id, r.execution_id, r.company_id, r.node_id, r.type)

  -- One change of a row.
  pub record Move (r r' : NodeRow V) : Type 0 where
    pub allowed : Allowed r.status r'.status
    pub same_identity : identity_of r' ≡ identity_of r
    pub versioned : r'.lock_version ≡ suc r.lock_version
    pub attempts : r.attempt ≤ r'.attempt
    pub stays_ok : RowOk r → RowOk r'

  -- The copy of a result into a row of a recovery, which is pending, or has got a copy before: then
  -- its lock version stays.
  pub record Copied (r r' : NodeRow V) : Type 0 where
    pub from : has_succeeded r.status ≡ false → r.status ≡ node_pending
    pub to : r'.status ≡ node_succeeded
    pub same_identity : identity_of r' ≡ identity_of r
    pub versioned :
        r'.lock_version ≡ (if has_succeeded r.status then r.lock_version else suc r.lock_version)
    pub attempts : r'.attempt ≡ r.attempt
    pub stays_ok : RowOk r → RowOk r'

  -- A row as an execution's creation inserts it.
  pub record IsFresh (r : NodeRow V) : Type 0 where
    pub waits : r.status ≡ node_pending
    pub first : r.attempt ≡ 1
    pub unlocked : r.lock_version ≡ 0
    pub is_ok : RowOk r

-- The relations below are over the executions, by id, into which results may be copied.
module _ {V : Type 0} (recovers : String → Type 0) where
  -- Any number of changes, in order.
  pub data Progress : NodeRow V → NodeRow V → Type 0 where
    stays : {r : NodeRow V} → Progress r r
    moves : {r r' r'' : NodeRow V} → Move r r' → Progress r' r'' → Progress r r''
    copies :
        {r r' r'' : NodeRow V}
        → recovers r.execution_id
        → Copied r r'
        → Progress r' r''
        → Progress r r''

  -- How a table becomes another: its rows change, and fresh ones are added and then
  -- change.
  pub data Evolved : List (NodeRow V) → List (NodeRow V) → Type 0 where
    none_yet : Evolved [] []
    added :
        {r r' : NodeRow V} {rs rs' : List (NodeRow V)}
        → IsFresh r
        → Progress r r'
        → Evolved rs rs'
        → Evolved rs (r' ∷ rs')
    changed :
        {r r' : NodeRow V} {rs rs' : List (NodeRow V)}
        → Progress r r'
        → Evolved rs rs'
        → Evolved (r ∷ rs) (r' ∷ rs')
