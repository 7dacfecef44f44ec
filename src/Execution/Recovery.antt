-- ===== src/Execution/Recovery.antt =====
-- execution/recovery.go: which nodes of a failed execution its recovery keeps, and which it runs again.
-- The rows are those of the source execution, in the order in which they are read.
pub mod Plan
use miletos.Common.{
  ℕ, suc, ◌+◌, ◌-◌, String, Bool, true, false, not, ◌&&◌, ◌||◌, Option, none, some, List, [], ◌∷◌,
  ◌++◌, filter, map, contains, length, nat_eq, string_eq, ◌==◌, if◌then◌else◌,
}
use miletos.Workflow.{WorkflowNode, Workflow}
use miletos.Workflow.Graph.{downstream}
use miletos.Plugin.Registry.{NodeRegistry}
use miletos.Execution.{
  ExecutionStatus, execution_created, execution_queued, execution_running, execution_succeeded,
  execution_failed, execution_cancelled, execution_timed_out, node_skipped, SkipReason, unexplained,
  out_of_trigger_scope, dependency_failed, no_active_route,
}
use miletos.Execution.Routing.{NodeOutcome, resolve_node_routes}
use miletos.Execution.Store.{NodeRow}
use miletos.Execution.Scheduler.{Outcomes, outcome_at, is_succeeded, failure_reason, decode_outcome}

-- What the first loop of `Recover` makes of a state.
pub data Fate : Type 0 where
  succeeded_fate out_of_scope_fate route_skipped_fate failed_fate : Fate

abbrev pub fate_by : Bool → SkipReason → Fate
fate_by true reason = succeeded_fate
fate_by false out_of_trigger_scope = out_of_scope_fate
fate_by false no_active_route = route_skipped_fate
fate_by false unexplained = failed_fate
fate_by false dependency_failed = failed_fate

abbrev pub is_succeeded_fate : Fate → Bool
is_succeeded_fate succeeded_fate = true
is_succeeded_fate _ = false

abbrev pub is_out_of_scope_fate : Fate → Bool
is_out_of_scope_fate out_of_scope_fate = true
is_out_of_scope_fate _ = false

abbrev pub is_route_skipped_fate : Fate → Bool
is_route_skipped_fate route_skipped_fate = true
is_route_skipped_fate _ = false

abbrev pub is_failed_fate : Fate → Bool
is_failed_fate failed_fate = true
is_failed_fate _ = false

abbrev pub is_recoverable : ExecutionStatus → Bool
is_recoverable execution_failed = true
is_recoverable execution_cancelled = true
is_recoverable execution_timed_out = true
is_recoverable _ = false

-- What a recovery goes by. Go's count `reset` would be negative with more rows kept than nodes; here it
-- stops at 0.
pub record RecoveryPlan (V : Type 0) : Type 0 where
  pub failed_ids : List String
  pub out_of_scope_ids : List String
  pub preserved_route_skipped_ids : List String
  pub preserved_ids : List String
  pub outcomes : Outcomes V
  pub scheduled : ℕ
  pub reset : ℕ

-- `ErrRecoveryUnsupported`, the error of an outcome that cannot be decoded, or a plan.
pub data Planned (V : Type 0) : Type 0 where
  recovery_unsupported undecodable : Planned V
  planned : RecoveryPlan V → Planned V

-- Nodes that are not run again.
abbrev pub not_among : List String → List String → List String
not_among rerun ids = filter (λ id. not (contains id rerun)) ids

module _ {V : Type 0} where
  abbrev pub fate_of : NodeRow V → Fate
  fate_of r = fate_by (is_succeeded r.status) (failure_reason r.status r.failure)

  abbrev pub ids_with : (Fate → Bool) → List (NodeRow V) → List String
  ids_with p rows = map (λ r. r.node_id) (filter (λ r. p (fate_of r)) rows)

  abbrev pub preserved_among : List String → List String → List (NodeRow V) → List String
  preserved_among rerun out_of_scope rows =
      map (λ r. r.node_id)
        (filter
          (λ r.
            is_succeeded_fate (fate_of r)
            && not (contains r.node_id rerun)
            && not (contains r.node_id out_of_scope))
          rows)

  abbrev pub excluded_outcome : V → NodeRow V → NodeOutcome V
  excluded_outcome null r = record {
    status = node_skipped;
    skip_reason = failure_reason r.status r.failure;
    output = null;
    routing = record { explicit = false; edge_payloads = [] };
  }

  -- The loop that fills `recoveryOutcomes`.
  unfoldable pub recovery_outcomes :
      V
      → Option (NodeRegistry V)
      → List String
      → List String
      → List (NodeRow V)
      → Outcomes V
      → Option (Outcomes V)
  unfolding decode_outcome
  recovery_outcomes null registry preserved excluded [] os = some os
  recovery_outcomes null registry preserved excluded (r ∷ rs) os =
      elim (contains r.node_id preserved) [
        | true ↦ elim (decode_outcome null registry r) [
          | none ↦ none
          | some o ↦ recovery_outcomes null registry preserved excluded rs ((r.node_id, o) ∷ os)
        ]
        | false ↦ elim (contains r.node_id excluded) [
          | true ↦
              recovery_outcomes null registry preserved excluded rs
                ((r.node_id, excluded_outcome null r) ∷ os)
          | false ↦ recovery_outcomes null registry preserved excluded rs os
        ]
      ]

  -- `recoveryReadyCount`
  unfoldable pub recovery_ready_count :
      Workflow V → Outcomes V → List String → List (WorkflowNode V) → ℕ
  unfolding resolve_node_routes
  recovery_ready_count w os settled [] = 0
  recovery_ready_count w os settled (n ∷ ns) =
      let rest = recovery_ready_count w os settled ns in
      if contains n.id settled
      then rest
      else if (resolve_node_routes w n.id (outcome_at os)).ready
      then suc rest
      else rest

  abbrev pub plan_unless_idle : RecoveryPlan V → Planned V
  plan_unless_idle p = if p.scheduled == 0 then recovery_unsupported else planned p

  abbrev pub plan_with :
      Workflow V
      → List (NodeRow V)
      → List String
      → List String
      → List String
      → List String
      → Option (Outcomes V)
      → Planned V
  unfolding recovery_ready_count
  plan_with w rows failed out kept preserved none = undecodable
  plan_with w rows failed out kept preserved (some os) = plan_unless_idle (record {
    failed_ids = failed;
    out_of_scope_ids = out;
    preserved_route_skipped_ids = kept;
    preserved_ids = preserved;
    outcomes = os;
    scheduled = recovery_ready_count w os (preserved ++ out ++ kept) w.nodes;
    reset = length w.nodes - length preserved - length out - length kept;
  })

  abbrev pub plan_from :
      V → Option (NodeRegistry V) → Workflow V → List (NodeRow V) → List String → Planned V
  unfolding downstream recovery_outcomes recovery_ready_count
  plan_from null registry w rows [] = recovery_unsupported
  plan_from null registry w rows (f ∷ fs) =
      let rerun = downstream w (f ∷ fs) in
      let out = ids_with is_out_of_scope_fate rows in
      let kept = not_among rerun (ids_with is_route_skipped_fate rows) in
      let preserved = preserved_among rerun out rows in
      plan_with w rows (f ∷ fs) out kept preserved
        (recovery_outcomes null registry preserved (out ++ kept) rows [])

  -- `Recover` up to the reservation of the new execution.
  unfoldable pub plan_recovery :
      V → Option (NodeRegistry V) → ExecutionStatus → Workflow V → List (NodeRow V) → Planned V
  unfolding downstream recovery_outcomes recovery_ready_count
  plan_recovery null registry status w rows =
      if is_recoverable status
      then plan_from null registry w rows (ids_with is_failed_fate rows)
      else recovery_unsupported
