-- ===== src/Nodes/Merge/Run.antt =====
-- plugin/merge_node.go: `mergeNode`, with the node's store.
use miletos.Common.{
  String, Bool, true, false, not, ◌&&◌, Option, some, List, string_eq, nat_eq, ◌==◌, if◌then◌else◌,
}
use miletos.Workflow.{Object}
use miletos.Execution.Access.{NodeAccess, HandlerRun, ends, produced, get_output_edge_count}
use miletos.Values.{Value, null, object, Fields, field_at, field_count, is_there}
use miletos.Nodes.{Checked, done, refused, ◌>>=◌, node_error_of, breaks, config_string}
use miletos.Nodes.Merge.{
  MergeMapping, EmissionMode, any_source, primary_only, merge_mappings, merge_emission_mode,
  validate_merge,
}
use miletos.Nodes.Merge.Node.{
  required_sources, merge_inputs_by_source, stored_state, current_sources, decode_merge_state,
  next_sources, merge_state_complete, compose_merge_output, route_merge_output,
  resolve_merge_correlations,
}

abbrev pub is_primary_only : EmissionMode → Bool
is_primary_only any_source = false
is_primary_only primary_only = true

-- What a run goes by: the configuration, and the values that arrived from the sources it requires.
pub record MergePlan (N : Type 0) : Type 0 where
  pub primary : String
  pub mode : EmissionMode
  pub mappings : List MergeMapping
  pub available : Fields N

module _ {N : Type 0} (to_upper : String → String) where
  -- `mergeNode` up to the inputs.
  unfoldable pub merge_plan : Fields N → Value N → Checked (MergePlan N)
  unfolding validate_merge merge_emission_mode merge_mappings merge_inputs_by_source config_string
  merge_plan configuration payload = validate_merge to_upper configuration >>= λ ok.
      merge_emission_mode to_upper configuration >>= λ mode. merge_mappings configuration >>= λ ms.
      merge_inputs_by_source payload
        (required_sources (config_string configuration "primaryInputNodeId") ms)
      >>= λ available. done (record {
        primary = config_string configuration "primaryInputNodeId";
        mode = mode;
        mappings = ms;
        available = available;
      })

module _ {N : Type 0} (lookup : Object (Value N) → String → Value N → Checked (Fields N)) where
  -- What a complete state gives.
  unfoldable pub merge_output :
      NodeAccess (Value N) → String → List MergeMapping → Fields N → Checked (Fields N)
  unfolding resolve_merge_correlations compose_merge_output
  merge_output access primary ms sources =
      resolve_merge_correlations lookup access primary ms sources >>= λ resolved.
      compose_merge_output primary ms resolved

  abbrev pub routed_output : NodeAccess (Value N) → Checked (Fields N) → HandlerRun (Value N)
  unfolding route_merge_output
  routed_output access (refused e) = breaks e
  routed_output access (done output) =
      route_merge_output (get_output_edge_count access) 0 (object output)

  -- `mergeNode` after the update of the state.
  unfoldable pub emit : NodeAccess (Value N) → MergePlan N → Fields N → HandlerRun (Value N)
  unfolding field_at merge_state_complete merge_output route_merge_output
  emit access plan sources =
      if is_primary_only plan.mode && not (is_there (field_at plan.available plan.primary))
      then ends (produced null)
      else if not (merge_state_complete sources (required_sources plan.primary plan.mappings))
      then ends (produced null)
      else routed_output access (merge_output access plan.primary plan.mappings sources)

  -- The update of the state: it is read and decoded, and the write may fail.
  abbrev pub update_state :
      Bool
      → NodeAccess (Value N)
      → MergePlan N
      → Option (Value N)
      → Checked (Fields N)
      → Option (Value N) × HandlerRun (Value N)
  unfolding next_sources emit
  update_state store_fails access plan store (refused e) = (store, breaks e)
  update_state store_fails access plan store (done sources) =
      let next = next_sources plan.available sources in
      if store_fails
      then (
        store,
        breaks (
            node_error_of "EXECUTION" "MERGE_STATE_UPDATE_FAILED"
              "Merge input state could not be updated." true),
      )
      else (some (stored_state next), emit access plan next)

  abbrev pub run_plan :
      Bool
      → NodeAccess (Value N)
      → Option (Value N)
      → Checked (MergePlan N)
      → Option (Value N) × HandlerRun (Value N)
  unfolding field_count decode_merge_state next_sources emit
  run_plan store_fails access store (refused e) = (store, breaks e)
  run_plan store_fails access store (done plan) =
      if field_count plan.available == 0
      then (store, ends (produced null))
      else update_state store_fails access plan store (current_sources store)

module _ {N : Type 0} (to_upper : String → String)
    (lookup : Object (Value N) → String → Value N → Checked (Fields N)) where
  -- `mergeNode`: the store of the node after it, and the run.
  unfoldable pub merge_node :
      Bool
      → Fields N
      → Value N
      → NodeAccess (Value N)
      → Option (Value N)
      → Option (Value N) × HandlerRun (Value N)
  unfolding merge_plan field_count next_sources emit
  merge_node store_fails configuration payload access store =
      run_plan lookup store_fails access store (merge_plan to_upper configuration payload)
