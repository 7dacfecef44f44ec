-- ===== src/Nodes/Merge/Node.antt =====
-- plugin/merge_node.go: the run of a Merge node on the inputs that it remembers. The store of the node
-- is passed on; that it fails, and the lookup of a correlated row in a database, are parameters.
use miletos.Common.{
  ℕ, zero, suc, String, Bool, false, not, Option, none, some, List, [], ◌∷◌, all, map, filter,
  contains, trim_space, string_eq, nat_eq, ◌==◌, if◌then◌else◌,
}
use miletos.Workflow.{Object}
use miletos.Execution.Access.{
  NodeAccess, InputNodeData, HandlerRun, ends, pushes, produced, PushError, get_input_node,
}
use miletos.Values.{
  Value, null, text, object, Fields, end, field, field_at, set_field, as_object, is_there,
}
use miletos.Nodes.{
  Checked, done, refused, ◌>>=◌, validation_node_error, node_error_of, breaks, multi_input_entries,
}
use miletos.Nodes.Merge.{MergeCorrelation, MergeMapping, is_correlated}

-- `mergeRequiredSources`
abbrev pub required_sources : String → List MergeMapping → List String
required_sources primary ms =
    primary ∷ map (λ m. m.source_node_id) (filter (λ m. not (is_correlated m)) ms)

module _ {N : Type 0} where
  -- One entry of the payload, whose source and value are these.
  abbrev pub merge_input :
      Option (Value N) → Option (Value N) → List String → Fields N → Checked (Fields N)
  unfolding trim_space field_at set_field
  merge_input (some (text s)) (some v) configured inputs =
      if trim_space s == ""
      then refused (
          validation_node_error "MERGE_INPUT_INVALID"
            "Merge input metadata must identify a source node and value.")
      else if not (contains (trim_space s) configured)
      then done inputs
      else if is_there (field_at inputs (trim_space s))
      then refused (
          validation_node_error "MERGE_INPUT_DUPLICATE"
            "Merge inputs must have unique source node identifiers.")
      else done (set_field (trim_space s) v inputs)
  merge_input _ _ configured inputs = refused (
      validation_node_error "MERGE_INPUT_INVALID"
        "Merge input metadata must identify a source node and value.")

  unfoldable pub merge_inputs_of : List (Fields N) → List String → Fields N → Checked (Fields N)
  unfolding field_at trim_space set_field
  merge_inputs_of [] configured inputs = done inputs
  merge_inputs_of (entry ∷ es) configured inputs =
      merge_input (field_at entry "sourceNodeId") (field_at entry "value") configured inputs
      >>= λ next. merge_inputs_of es configured next

  -- `mergeInputsBySource`
  unfoldable pub merge_inputs_by_source : Value N → List String → Checked (Fields N)
  unfolding multi_input_entries merge_inputs_of
  merge_inputs_by_source payload configured =
      multi_input_entries payload "MERGE_INPUT_INVALID" >>= λ entries.
      merge_inputs_of entries configured end

  -- The state as it is stored.
  abbrev pub stored_state : Fields N → Value N
  stored_state sources = object (field "sources" (object sources) end)

  abbrev pub sources_in : Option (Fields N) → Checked (Fields N)
  sources_in none = refused (
      node_error_of "INTERNAL" "MERGE_STATE_INVALID" "The persisted Merge input state is invalid."
        false)
  sources_in (some sources) = done sources

  -- `decodeMergeState`, of a key that is spelled as the code writes it.
  unfoldable pub decode_merge_state : Value N → Checked (Fields N)
  unfolding field_at
  decode_merge_state (object fs) = sources_in (as_object (field_at fs "sources"))
  decode_merge_state _ = sources_in none

  abbrev pub current_sources : Option (Value N) → Checked (Fields N)
  unfolding decode_merge_state
  current_sources none = done end
  current_sources (some v) = decode_merge_state v

  -- The values that arrived, over those of the state.
  unfoldable pub next_sources : Fields N → Fields N → Fields N
  unfolding set_field
  next_sources end sources = sources
  next_sources (field k v fs) sources = set_field k v (next_sources fs sources)

  -- `mergeStateComplete`
  unfoldable pub merge_state_complete : Fields N → List String → Bool
  unfolding field_at
  merge_state_complete sources required = all (λ k. is_there (field_at sources k)) required

  abbrev pub primary_object : Option (Value N) → Checked (Fields N)
  primary_object none = refused (
      validation_node_error "MERGE_PRIMARY_INPUT_MISSING"
        "Merge primary input is not present in the available inputs.")
  primary_object (some (object fs)) = done fs
  primary_object (some _) = refused (
      validation_node_error "MERGE_PRIMARY_INPUT_INVALID"
        "Merge primary input must be a JSON object.")

  abbrev pub primary_value : Option (Value N) → Checked (Value N)
  primary_value none = refused (
      validation_node_error "MERGE_CORRELATION_PRIMARY_FIELD_MISSING"
        "The configured Merge primary correlation field is missing.")
  primary_value (some null) = refused (
      validation_node_error "MERGE_CORRELATION_PRIMARY_FIELD_NULL"
        "The configured Merge primary correlation field must not be null.")
  primary_value (some v) = done v

  abbrev pub correlated_source :
      Option (InputNodeData (Value N)) → Checked (InputNodeData (Value N))
  correlated_source none = refused (
      validation_node_error "MERGE_CORRELATION_SOURCE_INVALID"
        "Merge correlation requires a connected Database Input source.")
  correlated_source (some source) =
      if source.plugin_type == "core.database-input"
      then done source
      else refused (
          validation_node_error "MERGE_CORRELATION_SOURCE_INVALID"
            "Merge correlation requires a connected Database Input source.")

  -- One mapping of `composeMergeOutput`: what the result has at its key, and the value of its source.
  abbrev pub compose_mapping :
      String → Option (Value N) → Option (Value N) → Fields N → Checked (Fields N)
  unfolding set_field
  compose_mapping key (some v) value result = refused (
      validation_node_error "MERGE_MAPPING_KEY_COLLISION"
        "A Merge mapping key collides with a primary input field.")
  compose_mapping key none none result = refused (
      validation_node_error "MERGE_MAPPING_SOURCE_MISSING"
        "A configured Merge source is not present in the available inputs.")
  compose_mapping key none (some v) result = done (set_field key v result)

  unfoldable pub compose_mappings : List MergeMapping → Fields N → Fields N → Checked (Fields N)
  unfolding field_at set_field
  compose_mappings [] sources result = done result
  compose_mappings (m ∷ ms) sources result =
      compose_mapping m.key (field_at result m.key) (field_at sources m.source_node_id) result
      >>= λ next. compose_mappings ms sources next

  -- `composeMergeOutput`
  unfoldable pub compose_merge_output : String → List MergeMapping → Fields N → Checked (Fields N)
  unfolding field_at compose_mappings
  compose_merge_output primary ms sources =
      primary_object (field_at sources primary) >>= λ fs. compose_mappings ms sources fs

  abbrev pub after_merge_push : HandlerRun (Value N) → Option PushError → HandlerRun (Value N)
  after_merge_push rest none = rest
  after_merge_push rest (some e) = breaks (
      node_error_of "EXECUTION" "MERGE_ROUTE_FAILED" "The merged output could not be emitted."
        false)

  -- `routeMergeOutput` from an index on, for as many edges, then the end of the run.
  unfoldable pub route_merge_output : ℕ → ℕ → Value N → HandlerRun (Value N)
  route_merge_output zero index output = ends (produced output)
  route_merge_output (suc n) index output =
      let rest = route_merge_output n (suc index) output in
      pushes index output (after_merge_push rest)

module _ {N : Type 0} (lookup : Object (Value N) → String → Value N → Checked (Fields N)) where
  abbrev pub resolve_correlation :
      NodeAccess (Value N)
      → Fields N
      → String
      → Option MergeCorrelation
      → Fields N
      → Checked (Fields N)
  unfolding field_at set_field get_input_node
  resolve_correlation access primary source none resolved = done resolved
  resolve_correlation access primary source (some c) resolved =
      primary_value (field_at primary c.primary_field) >>= λ v.
      correlated_source (get_input_node access source) >>= λ node.
      lookup node.configuration c.source_field v >>= λ row.
      done (set_field source (object row) resolved)

  unfoldable pub resolve_mappings :
      NodeAccess (Value N) → Fields N → List MergeMapping → Fields N → Checked (Fields N)
  unfolding field_at set_field get_input_node
  resolve_mappings access primary [] resolved = done resolved
  resolve_mappings access primary (m ∷ ms) resolved =
      resolve_correlation access primary m.source_node_id m.correlation resolved >>= λ next.
      resolve_mappings access primary ms next

  -- `resolveMergeCorrelations`
  unfoldable pub resolve_merge_correlations :
      NodeAccess (Value N) → String → List MergeMapping → Fields N → Checked (Fields N)
  unfolding field_at resolve_mappings
  resolve_merge_correlations access primary ms sources =
      primary_object (field_at sources primary) >>= λ fs. resolve_mappings access fs ms sources
