-- ===== src/Execution/Routing.antt =====
-- execution/routing.go: which routes lead to a node, given what its predecessors came to. Go's map of
-- outcomes is a function; the zero value that a missing key reads as has the status "", which no case
-- of the switch lists.
pub mod Verdicts
pub mod Resolved
use miletos.Common.{
  ℕ, suc, ◌+◌, String, Bool, true, false, not, ◌&&◌, ◌||◌, Option, none, some, List, [], ◌∷◌,
  nat_eq, string_eq, ◌==◌, if◌then◌else◌,
}
use miletos.Workflow.{Object, Edge, Workflow}
use miletos.Execution.{
  NodeStatus, node_pending, node_ready, node_queued, node_running, node_retry_pending,
  node_succeeded, node_failed, node_skipped, node_cancelled, node_timed_out, SkipReason,
  unexplained, dependency_failed, out_of_trigger_scope, no_active_route, NodeRoutingOutcome,
}

pub record NodeOutcome (V : Type 0) : Type 0 where
  pub status : NodeStatus
  pub skip_reason : SkipReason
  pub output : V
  pub routing : NodeRoutingOutcome V

pub record RouteReadiness (V : Type 0) : Type 0 where
  pub ready : Bool
  pub inactive : Bool
  pub failed : Bool
  pub edge_payloads : Object V

-- The variables of the loop.
pub record Tally (V : Type 0) : Type 0 where
  pub incoming : ℕ
  pub active : ℕ
  pub undecided : Bool
  pub failed : Bool
  pub edge_payloads : Object V

-- `payload, selected := m[key]`
abbrev pub value_at : {V : Type 0} → Object V → String → Option V
value_at [] key = none
value_at ((k, v) ∷ kvs) key = let rest = value_at kvs key in if k == key then some v else rest

abbrev pub is_dependency_failed : SkipReason → Bool
is_dependency_failed unexplained = false
is_dependency_failed out_of_trigger_scope = false
is_dependency_failed dependency_failed = true
is_dependency_failed no_active_route = false

module _ {V : Type 0} where
  abbrev pub no_tally : Tally V
  no_tally = record {
    incoming = 0;
    active = 0;
    undecided = false;
    failed = false;
    edge_payloads = [];
  }

  -- `edgePayloads[edge.ID] = payload` and `active++`
  abbrev pub activate : Tally V → String → V → Tally V
  activate t edge_id payload = record t {
    active = suc t.active;
    edge_payloads = (edge_id, payload) ∷ t.edge_payloads;
  }

  abbrev pub select : Tally V → String → Option V → Tally V
  select t edge_id none = t
  select t edge_id (some payload) = activate t edge_id payload

  abbrev pub fail : Tally V → Tally V
  fail t = record t { failed = true }

  -- The case of the switch that the predecessor's status selects.
  unfoldable pub follow : Tally V → String → NodeOutcome V → NodeStatus → Tally V
  follow t edge_id o node_succeeded =
      if o.routing.explicit
      then select t edge_id (value_at o.routing.edge_payloads edge_id)
      else activate t edge_id o.output
  follow t edge_id o node_skipped = if is_dependency_failed o.skip_reason then fail t else t
  follow t edge_id o node_failed = fail t
  follow t edge_id o node_timed_out = fail t
  follow t edge_id o node_cancelled = fail t
  follow t edge_id o node_pending = record t { undecided = true }
  follow t edge_id o node_ready = record t { undecided = true }
  follow t edge_id o node_queued = record t { undecided = true }
  follow t edge_id o node_running = record t { undecided = true }
  follow t edge_id o node_retry_pending = record t { undecided = true }

  abbrev pub follow_predecessor : Tally V → String → Option (NodeOutcome V) → Tally V
  follow_predecessor t edge_id none = record t { undecided = true }
  follow_predecessor t edge_id (some o) = follow t edge_id o o.status

  unfoldable pub tally_edges :
      (String → Option (NodeOutcome V)) → String → Tally V → List Edge → Tally V
  unfolding follow
  tally_edges outcomes node_id t [] = t
  tally_edges outcomes node_id t (e ∷ es) =
      let counted = record t { incoming = suc t.incoming } in
      let passed_over = tally_edges outcomes node_id t es in
      let followed =
        tally_edges outcomes node_id (follow_predecessor counted e.id (outcomes e.source_node_id))
          es in
      if e.target_node_id == node_id then followed else passed_over

  abbrev pub readiness : Bool → Bool → Bool → Object V → RouteReadiness V
  readiness ready inactive failed payloads = record {
    ready = ready;
    inactive = inactive;
    failed = failed;
    edge_payloads = payloads;
  }

  abbrev pub conclude : Tally V → RouteReadiness V
  conclude t =
      if t.incoming == 0
      then readiness true false false t.edge_payloads
      else if t.failed
      then readiness false false true t.edge_payloads
      else if t.undecided
      then readiness false false false t.edge_payloads
      else if t.active == 0
      then readiness false true false t.edge_payloads
      else readiness true false false t.edge_payloads

  unfoldable pub resolve_node_routes :
      Workflow V → String → (String → Option (NodeOutcome V)) → RouteReadiness V
  unfolding tally_edges
  resolve_node_routes w node_id outcomes = conclude (tally_edges outcomes node_id no_tally w.edges)
