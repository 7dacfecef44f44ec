-- ===== src/Nodes/Mapping.antt =====
-- plugin/map_node.go: the Map node. Whether a number is a literal (an integer, or one that is finite as
-- a float) is a parameter, as numbers are.
pub mod Output
pub mod Assignments
use miletos.Common.{
  String, Bool, true, false, not, ◌&&◌, ◌||◌, Option, none, some, List, [], ◌∷◌, map, contains,
  string_eq, ◌==◌, if◌then◌else◌,
}
use miletos.Plugin.{NodeError}
use miletos.Execution.Access.{HandlerRun, ends, produced}
use miletos.Values.{
  Value, null, text, boolean, number, array, object, Fields, field_at, set_field, delete_field,
  is_there,
}
use miletos.Nodes.{
  Checked, done, refused, ◌>>=◌, validation_node_error, breaks, object_payload,
  configuration_object_list, config_string,
}

pub record FieldMapping : Type 0 where
  pub source_field : String
  pub target_field : String

pub record LiteralAssignment (N : Type 0) : Type 0 where
  pub target_field : String
  pub value : Value N

abbrev pub targets_of : List FieldMapping → List String
targets_of ms = map (λ m. m.target_field) ms

-- The loop of `validateMap` over the mappings; it gives the targets.
unfoldable pub valid_mappings :
    List FieldMapping → List String → List String → Checked (List String)
valid_mappings [] sources targets = done targets
valid_mappings (m ∷ ms) sources targets =
    let rest = valid_mappings ms (m.source_field ∷ sources) (m.target_field ∷ targets) in
    if m.source_field == ""
    then refused (
        validation_node_error "MAP_SOURCE_FIELD_REQUIRED"
          "configuration.mappings.sourceField is required")
    else if m.target_field == ""
    then refused (
        validation_node_error "MAP_TARGET_FIELD_REQUIRED"
          "configuration.mappings.targetField is required")
    else if contains m.source_field sources
    then refused (
        validation_node_error "MAP_SOURCE_FIELD_DUPLICATE"
          "configuration.mappings.sourceField must be unique")
    else if contains m.target_field targets
    then refused (
        validation_node_error "MAP_TARGET_FIELD_DUPLICATE"
          "configuration.mappings.targetField must be unique")
    else rest

module _ {N : Type 0} where
  -- The loop of `validateMap` over the assignments.
  unfoldable pub valid_assignments :
      List (LiteralAssignment N) → List String → Checked (List String)
  valid_assignments [] targets = done targets
  valid_assignments (a ∷ os) targets =
      let rest = valid_assignments os (a.target_field ∷ targets) in
      if a.target_field == ""
      then refused (
          validation_node_error "MAP_ASSIGNMENT_TARGET_REQUIRED"
            "configuration.assignments.targetField is required")
      else if contains a.target_field targets
      then refused (
          validation_node_error "MAP_TARGET_FIELD_DUPLICATE"
            "mapping and assignment target fields must be unique")
      else rest

  abbrev pub mapping_of : Fields N → FieldMapping
  unfolding config_string
  mapping_of item = record {
    source_field = config_string item "sourceField";
    target_field = config_string item "targetField";
  }

  abbrev pub field_mappings_of : Option (Value N) → Checked (List FieldMapping)
  field_mappings_of none = done []
  field_mappings_of (some null) = done []
  field_mappings_of (some raw) =
      configuration_object_list raw "MAP_MAPPINGS_INVALID" >>= λ items. done (map mapping_of items)

  -- `mapFieldMappings`
  unfoldable pub map_field_mappings : Fields N → Checked (List FieldMapping)
  unfolding configuration_object_list field_at
  map_field_mappings configuration = field_mappings_of (field_at configuration "mappings")

  -- One mapping of `applyFieldMappings`.
  abbrev pub apply_mapping : Option (Value N) → FieldMapping → List String → Fields N → Fields N
  apply_mapping none m targets mapped = mapped
  apply_mapping (some value) m targets mapped =
      if not (m.source_field == m.target_field) && not (contains m.source_field targets)
      then delete_field m.source_field (set_field m.target_field value mapped)
      else set_field m.target_field value mapped

  unfoldable pub apply_mappings : Fields N → List String → List FieldMapping → Fields N → Fields N
  unfolding field_at set_field delete_field
  apply_mappings original targets [] mapped = mapped
  apply_mappings original targets (m ∷ ms) mapped =
      apply_mappings original targets ms
        (apply_mapping (field_at original m.source_field) m targets mapped)

  -- `applyFieldMappings`
  unfoldable pub apply_field_mappings : Fields N → List FieldMapping → Fields N
  unfolding apply_mappings
  apply_field_mappings row mappings = apply_mappings row (targets_of mappings) mappings row

  -- The assignments of `mapNode`.
  unfoldable pub assign : List (LiteralAssignment N) → Fields N → Fields N
  unfolding set_field
  assign [] mapped = mapped
  assign (a ∷ os) mapped = assign os (set_field a.target_field a.value mapped)

  -- The checks on mappings and assignments; it gives the targets of both.
  unfoldable pub check_operations :
      List FieldMapping → List (LiteralAssignment N) → Checked (List String)
  unfolding valid_mappings valid_assignments
  check_operations [] [] = refused (
      validation_node_error "MAP_OPERATIONS_REQUIRED"
        "configuration.mappings or configuration.assignments must contain at least one operation")
  check_operations ms os = valid_mappings ms [] [] >>= valid_assignments os

module _ {N : Type 0} (is_literal_number : N → Bool) where
  -- `isJSONLiteral`
  abbrev pub is_json_literal : Value N → Bool
  is_json_literal null = true
  is_json_literal (text s) = true
  is_json_literal (boolean b) = true
  is_json_literal (number n) = is_literal_number n
  is_json_literal (array xs) = false
  is_json_literal (object fs) = false

  abbrev pub literal_of : Option (Value N) → Checked (Value N)
  literal_of none = refused (
      validation_node_error "MAP_ASSIGNMENT_VALUE_INVALID"
        "configuration.assignments.value must be a string, finite number, boolean, or null")
  literal_of (some v) =
      if is_json_literal v
      then done v
      else refused (
          validation_node_error "MAP_ASSIGNMENT_VALUE_INVALID"
            "configuration.assignments.value must be a string, finite number, boolean, or null")

  unfoldable pub literal_assignments : List (Fields N) → Checked (List (LiteralAssignment N))
  unfolding config_string field_at
  literal_assignments [] = done []
  literal_assignments (item ∷ items) = literal_of (field_at item "value") >>= λ v.
      literal_assignments items >>= λ rest.
      done (record { target_field = config_string item "targetField"; value = v } ∷ rest)

  abbrev pub assignments_of : Option (Value N) → Checked (List (LiteralAssignment N))
  assignments_of none = done []
  assignments_of (some null) = done []
  assignments_of (some raw) =
      configuration_object_list raw "MAP_ASSIGNMENTS_INVALID" >>= literal_assignments

  -- `mapLiteralAssignments`
  unfoldable pub map_literal_assignments : Fields N → Checked (List (LiteralAssignment N))
  unfolding configuration_object_list field_at literal_assignments
  map_literal_assignments configuration = assignments_of (field_at configuration "assignments")

  -- `validateMap`; it gives the targets.
  unfoldable pub validate_map : Fields N → Checked (List String)
  unfolding map_field_mappings map_literal_assignments check_operations
  validate_map configuration = map_field_mappings configuration >>= λ mappings.
      map_literal_assignments configuration >>= λ assignments. check_operations mappings assignments

  -- `mapNode`
  unfoldable pub map_node : Fields N → Value N → Checked (Fields N)
  unfolding validate_map map_field_mappings map_literal_assignments apply_field_mappings assign
      object_payload
  map_node configuration payload = validate_map configuration >>= λ targets.
      object_payload payload "MAP_INPUT_INVALID" "Map requires a JSON object payload." >>= λ row.
      map_field_mappings configuration >>= λ mappings.
      map_literal_assignments configuration >>= λ assignments.
      done (assign assignments (apply_field_mappings row mappings))
