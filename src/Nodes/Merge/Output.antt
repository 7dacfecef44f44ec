-- ===== src/Nodes/Merge/Output.antt =====
-- plugin/merge_node.go: what a Merge node remembers and what it emits.
use miletos.Common.{
  ℕ, zero, suc, String, Bool, true, false, not, ◌&&◌, ◌≡◌, ◌⊎◌, refl, inl, inr, Option, none, some,
  List, [], ◌∷◌, string_eq, nat_eq, ◌==◌, ==_iff, if◌then◌else◌, arith, Bool-cases,
}
use miletos.Workflow.{Object}
use miletos.Execution.Access.{
  NodeAccess, PushError, HandlerRun, ends, produced, push_edge, run_handler, get_output_edge_count,
}
use miletos.Values.{
  Value, null, object, Fields, end, field, field_at, field_count, set_field, is_there,
}
use miletos.Values.Entries.{field_at-set_field}
use miletos.Nodes.{Checked, done, refused, >>=-done, or_else}
use miletos.Nodes.Merge.{MergeMapping}
use miletos.Nodes.Merge.Node.{
  stored_state, decode_merge_state, current_sources, next_sources, compose_mapping,
  compose_mappings, compose_merge_output, primary_object, route_merge_output,
  resolve_merge_correlations, merge_state_complete, required_sources, after_merge_push,
}
use miletos.Nodes.Merge.Run.{
  MergePlan, is_primary_only, merge_plan, merge_output, emit, merge_node, routed_output,
}

module _ {N : Type 0} where
  -- The value of the source that a mapping gives a key.
  abbrev pub mapped_source : List MergeMapping → Fields N → String → Option (Value N)
  mapped_source [] sources k = none
  mapped_source (m ∷ ms) sources k =
      if m.key == k then field_at sources m.source_node_id else mapped_source ms sources k

  compose_mapping-done :
      (key : String) (taken value : Option (Value N)) (result next : Fields N)
      → compose_mapping key taken value result ≡ done next
      → (v : Value N) × (taken ≡ none) × (value ≡ some v) × (set_field key v result ≡ next)
  unfolding set_field
  compose_mapping-done key (some w) value result next h = absurd (ground (arith, h))
  compose_mapping-done key none none result next h = absurd (ground (arith, h))
  compose_mapping-done key none (some v) result next h = (v, refl, refl, cc h)

  -- A mapping adds a field, and none is overwritten.
  compose_mappings-fields :
      (ms : List MergeMapping) (sources result output : Fields N) (k : String)
      → compose_mappings ms sources result ≡ done output
      → field_at output k ≡ or_else (field_at result k) (mapped_source ms sources k)
  unfolding compose_mappings
  compose_mappings-fields [] sources result output k h = ground (arith, h)
  compose_mappings-fields (m ∷ ms) sources result output k h =
      let step =
        >>=-done
          (compose_mapping m.key (field_at result m.key) (field_at sources m.source_node_id) result)
          _ h in
      let made = compose_mapping-done m.key _ _ result step.0 step.1 in
      let rest = compose_mappings-fields ms sources step.0 output k step.2 in
      let written : field_at step.0 k ≡ (if m.key == k then some made.0 else field_at result k) =
        cc (made.3, field_at-set_field m.key made.0 result k) in
      elim (Bool-cases (m.key == k)) [
        | inr other ↦ ground (arith, rest, written, other)
        | inl same ↦
            let free : field_at result k ≡ none = cc ((==_iff m.key k).0 same, made.1) in
            ground (arith, rest, written, same, free, made.2)
      ]

  -- The latest value of each source.
  next_sources-fields :
      (available sources : Fields N) (k : String)
      → field_at (next_sources available sources) k
        ≡ or_else (field_at available k) (field_at sources k)
  unfolding next_sources field_at
  next_sources-fields end sources k = refl
  next_sources-fields (field j v fs) sources k =
      ground (
        arith,
        next_sources-fields fs sources k,
        field_at-set_field j v (next_sources fs sources) k,
      )

  -- Composing starts from the primary input.
  compose_merge_output-fields :
      (primary : String) (ms : List MergeMapping) (sources output : Fields N)
      → compose_merge_output primary ms sources ≡ done output
      → (fs : Fields N) × (field_at sources primary ≡ some (object fs))
        × ((k : String) → field_at output k ≡ or_else (field_at fs k) (mapped_source ms sources k))
  unfolding compose_merge_output
  compose_merge_output-fields primary ms sources output h =
      let opened = >>=-done (primary_object (field_at sources primary)) _ h in
      (
        opened.0,
        primary_object-object (field_at sources primary) opened.0 opened.1,
        λ k. compose_mappings-fields ms sources opened.0 output k opened.2,
      )
    where
      primary_object-object :
          (found : Option (Value N)) (fs : Fields N)
          → primary_object found ≡ done fs
          → found ≡ some (object fs)
      primary_object-object found fs h = ground (arith, h)

  -- The run of the loop over the edges produces the output, if it produces anything.
  route_merge_output-produced :
      (n index : ℕ) (output v : Value N) (access : NodeAccess (Value N))
      → (run_handler (route_merge_output n index output) access).1 ≡ produced v
      → v ≡ output
  unfolding route_merge_output run_handler
  route_merge_output-produced zero index output v access h = cc h
  route_merge_output-produced (suc n) index output v access h =
      by_answer (push_edge access index output)
        (λ after. route_merge_output-produced n (suc index) output v after) h
    where
      by_answer :
          (answer : NodeAccess (Value N) × Option PushError)
          → ((after : NodeAccess (Value N))
              → (run_handler (route_merge_output n (suc index) output) after).1 ≡ produced v
              → v ≡ output)
          → (run_handler
              (after_merge_push (route_merge_output n (suc index) output) answer.1)
              answer.0).1
            ≡ produced v
          → v ≡ output
      by_answer (after, none) rest k = rest after k
      by_answer (after, some e) rest k = absurd (ground (arith, k))

module _ {N : Type 0} (lookup : Object (Value N) → String → Value N → Checked (Fields N)) where
  -- An output that joins the values of the sources: the fields of the primary input, and at the key of
  -- each mapping the value of its source, looked up if it is correlated.
  pub record Joined (access : NodeAccess (Value N)) (plan : MergePlan N) (sources : Fields N)
      (v : Value N) : Type 0 where
    pub resolved : Fields N
    pub primary_fields : Fields N
    pub output : Fields N
    pub is_output : v ≡ object output
    pub resolves :
        resolve_merge_correlations lookup access plan.primary plan.mappings sources ≡ done resolved
    pub has_primary : field_at resolved plan.primary ≡ some (object primary_fields)
    pub fields :
        (k : String)
        → field_at output k
          ≡ or_else (field_at primary_fields k) (mapped_source plan.mappings resolved k)
    pub complete : merge_state_complete sources (required_sources plan.primary plan.mappings) ≡ true
    pub in_mode :
        is_primary_only plan.mode ≡ true → is_there (field_at plan.available plan.primary) ≡ true

  merge_output-Joined :
      (access : NodeAccess (Value N)) (plan : MergePlan N) (sources output : Fields N) (v : Value N)
      → merge_output lookup access plan.primary plan.mappings sources ≡ done output
      → v ≡ object output
      → merge_state_complete sources (required_sources plan.primary plan.mappings) ≡ true
      → (is_primary_only plan.mode && not (is_there (field_at plan.available plan.primary))) ≡ false
      → Joined access plan sources v
  unfolding merge_output
  merge_output-Joined access plan sources output v h e complete mode =
      let found =
        >>=-done (resolve_merge_correlations lookup access plan.primary plan.mappings sources) _
          h in
      let composed =
        compose_merge_output-fields plan.primary plan.mappings found.0 output found.2 in
      record {
        resolved = found.0;
        primary_fields = composed.0;
        output = output;
        is_output = e;
        resolves = found.1;
        has_primary = composed.1;
        fields = composed.2;
        complete = complete;
        in_mode = λ only. ground (arith, mode, only);
      }

  emit-Joined :
      (access : NodeAccess (Value N)) (plan : MergePlan N) (sources : Fields N) (v : Value N)
      → (run_handler (emit lookup access plan sources) access).1 ≡ produced v
      → (v ≡ null) ⊎ Joined access plan sources v
  unfolding emit run_handler
  emit-Joined access plan sources v h =
      by_guards (is_primary_only plan.mode && not (is_there (field_at plan.available plan.primary)))
        (merge_state_complete sources (required_sources plan.primary plan.mappings))
        (merge_output lookup access plan.primary plan.mappings sources) refl refl refl h
    where
      by_guards :
          (waits complete : Bool) (made : Checked (Fields N))
          → (is_primary_only plan.mode && not (is_there (field_at plan.available plan.primary)))
            ≡ waits
          → merge_state_complete sources (required_sources plan.primary plan.mappings) ≡ complete
          → merge_output lookup access plan.primary plan.mappings sources ≡ made
          → (run_handler
              (if◌then◌else◌ {A = HandlerRun (Value N)} waits
                (ends (produced null))
                (if not complete then ends (produced null) else routed_output lookup access made))
              access).1
            ≡ produced v
          → (v ≡ null) ⊎ Joined access plan sources v
      by_guards true complete made w c m k = inl (cc k)
      by_guards false false made w c m k = inl (cc k)
      by_guards false true (refused e) w c m k = absurd (ground (arith, k))
      by_guards false true (done output) w c m k = inr (
          merge_output-Joined access plan sources output v m
            (route_merge_output-produced (get_output_edge_count access) 0 (object output) v access
              k)
            c w)

module _ {N : Type 0} (to_upper : String → String)
    (lookup : Object (Value N) → String → Value N → Checked (Fields N)) where
  -- When values arrived from sources that a Merge node requires, its state can be read and its store
  -- does not fail: then the store after the run has the latest value of each source, and a run that
  -- produces a value produces nothing (null), or the node's primary input with, at the key of each
  -- mapping, the value of the mapping's source, no field of the primary input overwritten; this only
  -- with a value from every required source and, in the mode PRIMARY_ONLY, when the primary input
  -- arrived.
  pub merge_node-Joined :
      (configuration : Fields N) (payload : Value N) (access : NodeAccess (Value N))
      (store : Option (Value N)) (plan : MergePlan N) (old : Fields N)
      → merge_plan to_upper configuration payload ≡ done plan
      → (field_count plan.available == 0) ≡ false
      → current_sources store ≡ done old
      → let r = merge_node to_upper lookup false configuration payload access store in
        (latest : Fields N) × (r.0 ≡ some (stored_state latest))
        × (current_sources r.0 ≡ done latest)
        × ((k : String) → field_at latest k ≡ or_else (field_at plan.available k) (field_at old k))
        × ((v : Value N)
            → (run_handler r.1 access).1 ≡ produced v
            → (v ≡ null) ⊎ Joined lookup access plan latest v)
  unfolding merge_node decode_merge_state field_at
  merge_node-Joined configuration payload access store plan old planned arrived read =
      rw (planned, arrived, read)
        (
          next_sources plan.available old,
          refl,
          refl,
          λ k. next_sources-fields plan.available old k,
          λ v h. emit-Joined lookup access plan (next_sources plan.available old) v h,
        )
