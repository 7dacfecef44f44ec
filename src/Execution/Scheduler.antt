-- ===== src/Execution/Scheduler.antt =====
-- execution/scheduler.go: what becomes of an execution when a node of it is done and nothing new was
-- scheduled. A method of the scheduler makes several transactions, each of which is committed or
-- rolled back on its own: a program returns the tables and a value, or an error after which the
-- tables stay as the transactions before it have left them. `none` means that the fuel ran out.
pub mod Programs
pub mod Settle
pub mod Passes
pub mod Ready
pub mod Pending
pub mod Skips
pub mod Ends
pub mod Rounds
pub mod Kept
pub mod Returns
pub mod Swept
pub mod Finalized
pub mod Plans
pub mod Scheduled
pub mod Completed
pub mod Jobs
pub mod Activation
use miletos.Common.{
  ℕ, suc, ◌+◌, String, Bool, true, false, not, ◌&&◌, ◌||◌, Option, none, some, List, [], ◌∷◌, ◌++◌,
  any, filter, map, contains, length, nat_eq, string_eq, ◌==◌, if◌then◌else◌,
}
use miletos.Workflow.{Object, Edge, WorkflowNode, Workflow}
use miletos.Workflow.Graph.{downstream}
use miletos.Plugin.{NodeRegistration}
use miletos.Plugin.Registry.{NodeRegistry, get}
use miletos.Execution.{
  NodeStatus, node_pending, node_ready, node_queued, node_running, node_retry_pending,
  node_succeeded, node_failed, node_skipped, node_cancelled, node_timed_out, execution_failed,
  execution_succeeded, FailureSummary, SkipReason, unexplained, no_active_route, dependency_failed,
  NodeRoutingOutcome,
}
use miletos.Execution.Routing.{NodeOutcome, RouteReadiness, resolve_node_routes}
use miletos.Execution.Store.{
  Store, StoredOutput, plain, routed, ExecutionRow, NodeRow, Tx, Result, ok, err, StoreError,
  state_transition, invalid_outcome, awaiting_scheduling,
}
use miletos.Execution.Store.Nodes.{mark_node_skipped}
use miletos.Execution.Store.Statuses.{is_pending, is_skipped}
use miletos.Execution.Store.Executions.{finalize}

abbrev pub is_succeeded : NodeStatus → Bool
is_succeeded node_succeeded = true
is_succeeded _ = false

-- `case model.NodeFailed, model.NodeTimedOut, model.NodeCancelled`
abbrev pub is_failure : NodeStatus → Bool
is_failure node_failed = true
is_failure node_cancelled = true
is_failure node_timed_out = true
is_failure _ = false

-- The variables of the loop of `Finalize` over the states.
pub record Summary : Type 0 where
  pub failed : Bool
  pub active : Bool
  pub pending : Bool
  pub invalid_retry : Bool
  pub failed_node_ids : List String

abbrev pub no_summary : Summary
no_summary = record {
  failed = false;
  active = false;
  pending = false;
  invalid_retry = false;
  failed_node_ids = [];
}

-- The outcomes by node: Go's map `byNodeID`, as far as routing reads it.
abbrev pub Outcomes : Type 0 → Type 0
Outcomes V = List (String × NodeOutcome V)

-- `nodeSkipReason`
abbrev pub failure_reason : NodeStatus → Option FailureSummary → SkipReason
failure_reason status none = unexplained
failure_reason status (some f) = if is_skipped status then f.skip_reason else unexplained

-- What `Finalize` does with an execution whose inactive nodes are skipped.
pub data Verdict : Type 0 where
  broken_retry wait unscheduled succeed : Verdict
  fail_with : List String → Verdict

abbrev pub verdict_of : Summary → List String → Verdict
verdict_of s blocked =
    if s.invalid_retry
    then broken_retry
    else if s.active
    then wait
    else if s.pending && not s.failed
    then unscheduled
    else if s.failed
    then fail_with blocked
    else succeed

module _ {V : Type 0} where
  abbrev pub outcome_at : Outcomes V → String → Option (NodeOutcome V)
  outcome_at [] node_id = none
  outcome_at ((id, o) ∷ os) node_id =
      let rest = outcome_at os node_id in if id == node_id then some o else rest

  -- `decodePersistedSummaries`, and `nodeOutcomes` of it; `null` is the value of no output.
  abbrev pub read_outcome : V → NodeRow V → NodeOutcome V
  read_outcome null r = elim r.output [
    | none ↦ record {
      status = r.status;
      skip_reason = failure_reason r.status r.failure;
      output = null;
      routing = record { explicit = false; edge_payloads = [] };
    }
    | some (plain v) ↦ record {
      status = r.status;
      skip_reason = failure_reason r.status r.failure;
      output = v;
      routing = record { explicit = false; edge_payloads = [] };
    }
    | some (routed v payloads) ↦ record {
      status = r.status;
      skip_reason = failure_reason r.status r.failure;
      output = v;
      routing = record { explicit = true; edge_payloads = payloads };
    }
  ]

  abbrev pub routes_explicitly : Option (NodeRegistry V) → String → Bool
  routes_explicitly none type = false
  routes_explicitly (some registry) type = elim (get registry type) [
    | none ↦ false
    | some r ↦ r.routing_mode == "EXPLICIT"
  ]

  abbrev pub has_routes : Option (StoredOutput V) → Bool
  has_routes none = false
  has_routes (some (plain v)) = false
  has_routes (some (routed v payloads)) = true

  -- `decodeNodeExecutionOutcome`: a success with explicit routing must have saved its routes.
  unfoldable pub decode_outcome : V → Option (NodeRegistry V) → NodeRow V → Option (NodeOutcome V)
  unfolding get
  decode_outcome null registry r =
      let o = read_outcome null r in
      if not (routes_explicitly registry r.type)
      then some o
      else if is_succeeded r.status && not (has_routes r.output)
      then none
      else some (record o {
        routing = record { explicit = true; edge_payloads = o.routing.edge_payloads };
      })

  -- The loop that fills `byNodeID`; a later row of a node replaces an earlier one.
  unfoldable pub decode_all :
      V → Option (NodeRegistry V) → Outcomes V → List (NodeRow V) → Option (Outcomes V)
  unfolding decode_outcome
  decode_all null registry os [] = some os
  decode_all null registry os (r ∷ rs) = elim (decode_outcome null registry r) [
    | none ↦ none
    | some o ↦ decode_all null registry ((r.node_id, o) ∷ os) rs
  ]

  -- A pending node none of whose routes was taken.
  unfoldable pub is_inactive : Workflow V → Outcomes V → String → Bool
  unfolding resolve_node_routes
  is_inactive w os node_id = elim (outcome_at os node_id) [
    | none ↦ false
    | some o ↦ is_pending o.status && (resolve_node_routes w node_id (outcome_at os)).inactive
  ]

  abbrev pub skipped_outcome : V → NodeOutcome V
  skipped_outcome null = record {
    status = node_skipped;
    skip_reason = no_active_route;
    output = null;
    routing = record { explicit = false; edge_payloads = [] };
  }

  abbrev pub add_summary : Summary → NodeRow V → NodeStatus → Summary
  add_summary s r node_failed = record s {
    failed = true;
    failed_node_ids = s.failed_node_ids ++ r.node_id ∷ [];
  }
  add_summary s r node_timed_out = record s {
    failed = true;
    failed_node_ids = s.failed_node_ids ++ r.node_id ∷ [];
  }
  add_summary s r node_cancelled = record s {
    failed = true;
    failed_node_ids = s.failed_node_ids ++ r.node_id ∷ [];
  }
  add_summary s r node_queued = record s { active = true }
  add_summary s r node_running = record s { active = true }
  add_summary s r node_pending = record s { pending = true }
  add_summary s r node_ready = record s { pending = true }
  add_summary s r node_retry_pending = elim r.next_attempt_at [
    | none ↦ record s { invalid_retry = true }
    | some t ↦ record s { active = true }
  ]
  add_summary s r node_succeeded = s
  add_summary s r node_skipped = s

  unfoldable pub summarize : Summary → List (NodeRow V) → Summary
  summarize s [] = s
  summarize s (r ∷ rs) = summarize (add_summary s r r.status) rs

  unfoldable pub judge : Workflow V → List (NodeRow V) → Verdict
  unfolding summarize downstream
  judge w rows = let s = summarize no_summary rows in verdict_of s (downstream w s.failed_node_ids)

  abbrev pub has_outgoing : Workflow V → String → Bool
  has_outgoing w node_id = any (λ e. e.source_node_id == node_id) w.edges

  -- `states[node.ID]`
  abbrev row_of : List (NodeRow V) → String → Option (NodeRow V)
  row_of [] node_id = none
  row_of (r ∷ rs) node_id = elim (row_of rs node_id) [
    | some later ↦ some later
    | none ↦ if r.node_id == node_id then some r else none
  ]

  abbrev output_if_succeeded : Option (NodeRow V) → Option (Option (StoredOutput V))
  output_if_succeeded none = none
  output_if_succeeded (some r) = if is_succeeded r.status then some r.output else none

  -- `terminalOutputs`
  unfoldable pub terminal_outputs :
      Workflow V
      → List (NodeRow V)
      → List (WorkflowNode V)
      → List (String × Option (StoredOutput V))
  terminal_outputs w rows [] = []
  terminal_outputs w rows (n ∷ ns) =
      let rest = terminal_outputs w rows ns in
      if has_outgoing w n.id then rest else elim (output_if_succeeded (row_of rows n.id)) [
        | none ↦ rest
        | some out ↦ (n.id, out) ∷ rest
      ]
