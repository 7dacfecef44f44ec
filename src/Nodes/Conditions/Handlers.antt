-- ===== src/Nodes/Conditions/Handlers.antt =====
-- plugin/condition_nodes.go: the runs of the If and the Filter node. Their loop over the indexes of the
-- edges goes down the list of edges, so that the data of an edge is always there.
use miletos.Common.{
  ℕ, suc, String, Bool, true, false, Option, none, some, List, [], ◌∷◌, string_eq, ◌==◌,
  if◌then◌else◌,
}
use miletos.Workflow.{Edge}
use miletos.Execution.Access.{NodeAccess, HandlerRun, ends, pushes, produced, PushError}
use miletos.Values.{Value, Fields}
use miletos.Nodes.{Checked, done, refused, node_error_of, breaks}
use miletos.Nodes.Conditions.{Numbers}
use miletos.Nodes.Conditions.Comparison.{evaluate_configured_condition}

module _ {V : Type 0} where
  abbrev pub after_push : HandlerRun V → Option PushError → HandlerRun V
  after_push rest none = rest
  after_push rest (some e) = breaks (
      node_error_of "EXECUTION" "CONDITION_ROUTE_FAILED"
        "The selected condition route could not be emitted." false)

  -- `routeConditionPayload`, then the end of the run with the payload.
  unfoldable pub route_condition_payload : List Edge → ℕ → String → V → HandlerRun V
  route_condition_payload [] index selected_port payload = ends (produced payload)
  route_condition_payload (e ∷ es) index selected_port payload =
      let rest = route_condition_payload es (suc index) selected_port payload in
      if e.source_output_port == selected_port then pushes index payload (after_push rest) else rest

module _ {N F : Type 0} (numbers : Numbers N F) where
  abbrev pub if_routes : NodeAccess (Value N) → Value N → Checked Bool → HandlerRun (Value N)
  if_routes access payload (refused e) = breaks e
  if_routes access payload (done matched) =
      route_condition_payload access.edges 0 (if matched then "yes" else "no") payload

  -- `ifNode`
  unfoldable pub if_node : Fields N → Value N → NodeAccess (Value N) → HandlerRun (Value N)
  unfolding evaluate_configured_condition route_condition_payload
  if_node configuration payload access =
      if_routes access payload (evaluate_configured_condition numbers configuration payload)

  abbrev pub filter_routes : NodeAccess (Value N) → Value N → Checked Bool → HandlerRun (Value N)
  filter_routes access payload (refused e) = breaks e
  filter_routes access payload (done true) = route_condition_payload access.edges 0 "output" payload
  filter_routes access payload (done false) = ends (produced payload)

  -- `filterNode`
  unfoldable pub filter_node : Fields N → Value N → NodeAccess (Value N) → HandlerRun (Value N)
  unfolding evaluate_configured_condition route_condition_payload
  filter_node configuration payload access =
      filter_routes access payload (evaluate_configured_condition numbers configuration payload)
