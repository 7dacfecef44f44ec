-- ===== src/Nodes/Merge.antt =====
-- plugin/merge_node.go: the configuration of a Merge node and its checks. `strings.ToUpper` is a
-- parameter.
pub mod Node
pub mod Run
pub mod Output
use miletos.Common.{
  String, Bool, true, false, not, ◌&&◌, ◌||◌, Option, none, some, List, [], ◌∷◌, contains, length,
  leb, trim_space, string_eq, ◌==◌, if◌then◌else◌,
}
use miletos.Values.{Value, null, text, boolean, number, array, object, Fields, field_at}
use miletos.Nodes.{
  Checked, done, refused, ◌>>=◌, validation_node_error, configuration_object_list, config_string,
}
use miletos.Nodes.Conditions.{is_segment, split_dots}

pub record MergeCorrelation : Type 0 where
  pub primary_field : String
  pub source_field : String

pub record MergeMapping : Type 0 where
  pub key : String
  pub source_node_id : String
  pub correlation : Option MergeCorrelation

pub data EmissionMode : Type 0 where
  any_source primary_only : EmissionMode

pub data RecordSourceRelation : Type 0 where
  unsupported driving passive : RecordSourceRelation

-- `strings.Contains(s, ".")`
abbrev pub has_dot : String → Bool
unfolding split_dots
has_dot s = leb 2 (length (split_dots s))

abbrev pub is_correlated : MergeMapping → Bool
is_correlated m = elim m.correlation [ none ↦ false | some c ↦ true ]

abbrev pub relation_among : List MergeMapping → String → RecordSourceRelation
relation_among [] source = unsupported
relation_among (m ∷ ms) source =
    let rest = relation_among ms source in
    if m.source_node_id == source && is_correlated m then passive else rest

abbrev pub relation_in : Checked (List MergeMapping) → String → RecordSourceRelation
relation_in (refused e) source = unsupported
relation_in (done ms) source = relation_among ms source

-- The checks on a mapping's correlation.
unfoldable pub check_correlation : Option MergeCorrelation → Checked Bool
unfolding is_segment
check_correlation none = done true
check_correlation (some c) =
    if c.primary_field == ""
    then refused (
        validation_node_error "MERGE_CORRELATION_PRIMARY_FIELD_REQUIRED"
          "configuration.mappings.correlation.primaryField is required")
    else if has_dot c.primary_field
    then refused (
        validation_node_error "MERGE_CORRELATION_PRIMARY_FIELD_INVALID"
          "configuration.mappings.correlation.primaryField must name one top-level field")
    else if not (is_segment c.source_field)
    then refused (
        validation_node_error "MERGE_CORRELATION_SOURCE_FIELD_INVALID"
          "configuration.mappings.correlation.sourceField must be a simple returned column name")
    else done true

-- The loop of `validateMerge`.
unfoldable pub check_merge_mappings :
    String → List MergeMapping → List String → List String → Checked Bool
unfolding check_correlation
check_merge_mappings primary [] keys sources = done true
check_merge_mappings primary (m ∷ ms) keys sources =
    let rest = check_merge_mappings primary ms (m.key ∷ keys) (m.source_node_id ∷ sources) in
    if m.key == ""
    then refused (
        validation_node_error "MERGE_MAPPING_KEY_REQUIRED" "configuration.mappings.key is required")
    else if m.source_node_id == ""
    then refused (
        validation_node_error "MERGE_MAPPING_SOURCE_REQUIRED"
          "configuration.mappings.sourceNodeId is required")
    else if m.source_node_id == primary
    then refused (
        validation_node_error "MERGE_MAPPING_SOURCE_PRIMARY"
          "configuration.mappings.sourceNodeId cannot be the primary input")
    else if contains m.key keys
    then refused (
        validation_node_error "MERGE_MAPPING_KEY_DUPLICATE"
          "configuration.mappings.key must be unique")
    else if contains m.source_node_id sources
    then refused (
        validation_node_error "MERGE_MAPPING_SOURCE_DUPLICATE"
          "configuration.mappings.sourceNodeId must be unique")
    else check_correlation m.correlation >>= λ ok. rest

abbrev pub check_some_mappings : String → List MergeMapping → Checked Bool
check_some_mappings primary [] = refused (
    validation_node_error "MERGE_MAPPINGS_REQUIRED"
      "configuration.mappings must contain at least one mapping")
check_some_mappings primary (m ∷ ms) = check_merge_mappings primary (m ∷ ms) [] []

abbrev pub emission_mode_named : String → Checked EmissionMode
emission_mode_named mode =
    if mode == "" || mode == "ANY_SOURCE"
    then done any_source
    else if mode == "PRIMARY_ONLY"
    then done primary_only
    else refused (
        validation_node_error "MERGE_EMISSION_MODE_INVALID"
          "configuration.emissionMode must be ANY_SOURCE or PRIMARY_ONLY")

module _ {N : Type 0} where
  abbrev pub correlation_of : Option (Value N) → Checked (Option MergeCorrelation)
  unfolding config_string
  correlation_of none = done none
  correlation_of (some null) = done none
  correlation_of (some (object configuration)) = done (
      some (record {
        primary_field = config_string configuration "primaryField";
        source_field = config_string configuration "sourceField";
      }))
  correlation_of (some _) = refused (
      validation_node_error "MERGE_CORRELATION_INVALID"
        "configuration.mappings.correlation must be an object")

  -- `mergeMappingCorrelation`
  unfoldable pub merge_mapping_correlation : Fields N → Checked (Option MergeCorrelation)
  unfolding field_at
  merge_mapping_correlation item = correlation_of (field_at item "correlation")

  -- The loop of `mergeMappings`.
  unfoldable pub merge_mappings_of : List (Fields N) → Checked (List MergeMapping)
  unfolding merge_mapping_correlation config_string
  merge_mappings_of [] = done []
  merge_mappings_of (item ∷ items) = merge_mapping_correlation item >>= λ correlation.
      merge_mappings_of items >>= λ rest. done (
        record {
          key = config_string item "key";
          source_node_id = config_string item "sourceNodeId";
          correlation = correlation;
        }
        ∷ rest)

  abbrev pub mappings_in : Option (Value N) → Checked (List MergeMapping)
  mappings_in none =
      refused (validation_node_error "MERGE_MAPPINGS_REQUIRED" "configuration.mappings is required")
  mappings_in (some null) =
      refused (validation_node_error "MERGE_MAPPINGS_REQUIRED" "configuration.mappings is required")
  mappings_in (some raw) =
      configuration_object_list raw "MERGE_MAPPINGS_INVALID" >>= merge_mappings_of

  -- `mergeMappings`
  unfoldable pub merge_mappings : Fields N → Checked (List MergeMapping)
  unfolding field_at configuration_object_list merge_mappings_of
  merge_mappings configuration = mappings_in (field_at configuration "mappings")

  -- `mergeRecordSourceRelation`
  unfoldable pub merge_record_source_relation : Fields N → String → RecordSourceRelation
  unfolding config_string merge_mappings
  merge_record_source_relation configuration source =
      if config_string configuration "primaryInputNodeId" == source
      then driving
      else relation_in (merge_mappings configuration) source

module _ {N : Type 0} (to_upper : String → String) where
  abbrev pub emission_mode_of : Option (Value N) → Checked EmissionMode
  unfolding trim_space
  emission_mode_of none = done any_source
  emission_mode_of (some null) = done any_source
  emission_mode_of (some (text s)) = emission_mode_named (to_upper (trim_space s))
  emission_mode_of (some _) = refused (
      validation_node_error "MERGE_EMISSION_MODE_INVALID"
        "configuration.emissionMode must be ANY_SOURCE or PRIMARY_ONLY")

  -- `mergeEmissionMode`
  unfoldable pub merge_emission_mode : Fields N → Checked EmissionMode
  unfolding field_at trim_space
  merge_emission_mode configuration = emission_mode_of (field_at configuration "emissionMode")

  -- `validateMerge`
  unfoldable pub validate_merge : Fields N → Checked Bool
  unfolding config_string merge_emission_mode merge_mappings check_merge_mappings
  validate_merge configuration =
      if config_string configuration "primaryInputNodeId" == ""
      then refused (
          validation_node_error "MERGE_PRIMARY_INPUT_REQUIRED"
            "configuration.primaryInputNodeId is required")
      else merge_emission_mode configuration >>= λ mode.
          merge_mappings configuration >>= λ mappings.
          check_some_mappings (config_string configuration "primaryInputNodeId") mappings
