-- ===== src/Nodes/Mapping/Assignments.antt =====
-- plugin/map_node.go: what the assignments write, and what each field of a Map node's output is.
use miletos.Common.{
  String, Bool, true, false, ◌≡◌, refl, inl, inr, Option, some, List, [], ◌∷◌, map, contains,
  string_eq, ◌==◌, ==_iff, if◌then◌else◌, arith, Bool-cases,
}
use miletos.Values.{Value, Fields, object, field_at, set_field}
use miletos.Values.Entries.{field_at-set_field}
use miletos.Nodes.{done, >>=-done, object_payload, object_payload-object}
use miletos.Nodes.Mapping.{
  FieldMapping, LiteralAssignment, valid_mappings, valid_assignments, assign, check_operations,
  validate_map, map_field_mappings, map_literal_assignments, map_node,
}
use miletos.Nodes.Mapping.Output.{
  valid_mappings-Distinct, mapped_field, apply_field_mappings-mapped,
}

module _ {N : Type 0} where
  -- The literal that is assigned to a field, or what it had.
  abbrev pub assigned : List (LiteralAssignment N) → String → Option (Value N) → Option (Value N)
  assigned [] k before = before
  assigned (a ∷ os) k before = if a.target_field == k then some a.value else assigned os k before

  assigned-absent :
      (os : List (LiteralAssignment N)) (k : String) (before : Option (Value N))
      → contains k (map (λ a. a.target_field) os) ≡ false
      → assigned os k before ≡ before
  assigned-absent [] k before h = refl
  assigned-absent (a ∷ os) k before h = ground (arith, h, assigned-absent os k before)

  valid_assignments-new :
      (os : List (LiteralAssignment N)) (taken targets : List String) (t : String)
      → valid_assignments os taken ≡ done targets
      → contains t taken ≡ true
      → contains t (map (λ a. a.target_field) os) ≡ false
  unfolding valid_assignments
  valid_assignments-new [] taken targets t h known = refl
  valid_assignments-new (a ∷ os) taken targets t h known =
      let kept : (contains a.target_field taken ≡ false)
          × (valid_assignments os (a.target_field ∷ taken) ≡ done targets) =
        ground (arith, h) in
      let later =
        valid_assignments-new os (a.target_field ∷ taken) targets t kept.1
          (ground (arith, known)) in
      elim (Bool-cases (a.target_field == t)) [
        | inr other ↦ ground (arith, other, later)
        | inl same ↦ absurd (ground (arith, known, kept.0, (==_iff a.target_field t).0 same))
      ]

  assign-assigned :
      (os : List (LiteralAssignment N)) (taken targets : List String) (mapped : Fields N)
      (k : String)
      → valid_assignments os taken ≡ done targets
      → field_at (assign os mapped) k ≡ assigned os k (field_at mapped k)
  unfolding assign valid_assignments
  assign-assigned [] taken targets mapped k h = refl
  assign-assigned (a ∷ os) taken targets mapped k h =
      let kept : valid_assignments os (a.target_field ∷ taken) ≡ done targets = ground (arith, h) in
      let after = set_field a.target_field a.value mapped in
      let rest = assign-assigned os (a.target_field ∷ taken) targets after k kept in
      let written = field_at-set_field a.target_field a.value mapped k in
      elim (Bool-cases (a.target_field == k)) [
        | inr other ↦ ground (arith, rest, written, other)
        | inl same ↦
            let new =
              valid_assignments-new os (a.target_field ∷ taken) targets k kept
                (ground (arith, same)) in
            ground (arith, rest, written, same, assigned-absent os k (field_at after k) new)
      ]

  -- What the checks on the operations give.
  check_operations-valid :
      (ms : List FieldMapping) (os : List (LiteralAssignment N)) (targets : List String)
      → check_operations ms os ≡ done targets
      → (taken : List String) × (valid_mappings ms [] [] ≡ done taken)
        × (valid_assignments os taken ≡ done targets)
  unfolding check_operations
  check_operations-valid [] [] targets h = absurd (ground (arith, h))
  check_operations-valid [] (a ∷ os) targets h =
      >>=-done (valid_mappings [] [] []) (valid_assignments (a ∷ os)) h
  check_operations-valid (m ∷ ms) os targets h =
      >>=-done (valid_mappings (m ∷ ms) [] []) (valid_assignments os) h

module _ {N : Type 0} (is_literal_number : N → Bool) where
  -- A Map node's output, field by field.
  pub record MapOutput (configuration : Fields N) (payload : Value N) (output : Fields N)
      : Type 0 where
    pub row : Fields N
    pub mappings : List FieldMapping
    pub assignments : List (LiteralAssignment N)
    pub is_row : payload ≡ object row
    pub configured : map_field_mappings configuration ≡ done mappings
    pub literals : map_literal_assignments is_literal_number configuration ≡ done assignments
    pub fields :
        (k : String) → field_at output k ≡ assigned assignments k (mapped_field row mappings k)

  -- If a Map node has an output, then its payload is an object and its configuration has mappings and
  -- assignments, and each field of the output is what is assigned to it, or else, for a mapping's
  -- target, the value of the mapping's source in the payload, however the mappings are chained or
  -- swapped (what the payload has there, if the source is missing); a source that is no target is gone,
  -- and every other field is as in the payload.
  pub map_node-MapOutput :
      (configuration : Fields N) (payload : Value N) (output : Fields N)
      → map_node is_literal_number configuration payload ≡ done output
      → MapOutput configuration payload output
  unfolding map_node validate_map
  map_node-MapOutput configuration payload output h =
      let checked = >>=-done (validate_map is_literal_number configuration) _ h in
      let object_row = >>=-done (object_payload payload _ _) _ checked.2 in
      let parsed = >>=-done (map_field_mappings configuration) _ object_row.2 in
      let literal = >>=-done (map_literal_assignments is_literal_number configuration) _ parsed.2 in
      let valid =
        check_operations-valid parsed.0 literal.0 checked.0
          (rw (parsed.1, literal.1) at checked.1) in
      record {
        row = object_row.0;
        mappings = parsed.0;
        assignments = literal.0;
        is_row = object_payload-object payload _ _ object_row.0 object_row.1;
        configured = parsed.1;
        literals = literal.1;
        fields = λ k.
            written literal.0 k literal.2 (assign-assigned literal.0 valid.0 checked.0 _ k valid.2)
              (apply_field_mappings-mapped object_row.0 parsed.0 k
                (valid_mappings-Distinct parsed.0 [] [] valid.0 valid.1).0);
      }
    where
      written :
          (os : List (LiteralAssignment N)) (k : String) {made : Fields N}
          {before value : Option (Value N)}
          → done made ≡ done output
          → field_at made k ≡ assigned os k before
          → before ≡ value
          → field_at output k ≡ assigned os k value
      written os k e f g = cc (e, f, g)
