-- ===== src/Examples/Nodes.antt =====
-- Runs of an If, a Map and a Merge node, and values that are stored and redacted. Numbers are natural.
use miletos.Common.{
  arith, ℕ, ltb, nat_beq, String, true, false, ◌≡◌, ◌⊎◌, refl, none, some, [], ◌∷◌, trim_space,
  string_eq, if◌then◌else◌,
}
use miletos.Workflow.{Edge, Workflow, Object}
use miletos.Execution.Access.{NodeAccess, produced, new_node_access, routed_run, run_handler}
use miletos.Execution.Routing.{value_at}
use miletos.Values.{
  Value, null, text, number, array, object, nil, cons, Fields, end, field, field_at, field_count,
  set_field, delete_field,
}
use miletos.Values.Persisted.{read_output, write_output, read_output-write_output}
use miletos.Values.Redaction.{conceals, redact_node_data, redact_node_data-conceals}
use miletos.Nodes.{
  Checked, done, refused, validation_node_error, object_payload, objects_of,
  configuration_object_list, config_string, multi_input_entries, or_else,
}
use miletos.Nodes.Conditions.{Numbers, equals, ConditionConfiguration}
use miletos.Nodes.Conditions.Comparison.{evaluate_on, evaluate_configured_condition}
use miletos.Nodes.Conditions.Opposites.{IsTotal, reversed, negated, evaluate_on-opposite}
use miletos.Nodes.Conditions.Handlers.{if_node}
use miletos.Nodes.Conditions.Routes.{leads_from, out_edges, if_node-routes}
use miletos.Nodes.Mapping.{
  map_node, validate_map, check_operations, map_field_mappings, map_literal_assignments,
  valid_mappings, valid_assignments, literal_assignments, apply_field_mappings, apply_mappings,
  assign,
}
use miletos.Nodes.Merge.{
  any_source, merge_mappings, merge_mappings_of, merge_mapping_correlation, check_merge_mappings,
  check_correlation, merge_emission_mode, validate_merge,
}
use miletos.Nodes.Merge.Node.{
  stored_state, decode_merge_state, current_sources, merge_inputs_by_source, merge_inputs_of,
}
use miletos.Nodes.Merge.Run.{MergePlan, merge_plan, merge_node}
use miletos.Nodes.Merge.Output.{Joined, merge_node-Joined}
use miletos.Nodes.Mapping.Assignments.{MapOutput, map_node-MapOutput}

abbrev numbers : Numbers ℕ ℕ
numbers = record {
  float_of = λ n. some n;
  parse_float = λ s. none;
  less = ltb;
  equal = nat_beq;
  to_lower = λ s. s;
}

numbers-IsTotal : IsTotal numbers
numbers-IsTotal = record { greater = λ a b. ground arith; smaller = λ a b. ground arith }

abbrev age : ConditionConfiguration ℕ
age = record { path = "age"; operator = equals; value = number 3 }

abbrev person : Value ℕ
person = object (field "age" (number 3) (field "name" (text "Ann") end))

evaluate_on-opposite_example :
    evaluate_on numbers (reversed age) person ≡ negated (evaluate_on numbers age person)
evaluate_on-opposite_example = evaluate_on-opposite numbers numbers-IsTotal age person

abbrev condition : Fields ℕ
condition =
    field "field" (text "age") (field "operator" (text "EQUALS") (field "value" (number 3) end))

abbrev branch : String → String → Edge
branch id port = record {
  id = id;
  source_node_id = "if";
  source_output_port = port;
  target_node_id = "b";
  target_input_port = "in";
}

abbrev branching : Workflow (Value ℕ)
branching = record {
  id = "w";
  company_id = "c";
  name = "Branches";
  revision = 1;
  nodes = [];
  edges = branch "e" "yes" ∷ branch "f" "no" ∷ [];
  metadata = [];
}

is_matched : evaluate_configured_condition numbers condition person ≡ done true
unfolding evaluate_configured_condition
is_matched = refl

if_node-routes_example :
    let r = routed_run (
      run_handler
        (if_node numbers condition person (new_node_access branching "if" "EXPLICIT"))
        (new_node_access branching "if" "EXPLICIT")) in
    (r.0 ≡ produced person)
    × ((id : String)
        → value_at r.1.edge_payloads id
          ≡ (if leads_from id "yes" (out_edges branching "if") then some person else none))
if_node-routes_example =
    if_node-routes numbers branching "if" condition person true (refl, (refl, tt)) is_matched

abbrev renaming : Fields ℕ
renaming =
    field "mappings"
      (array (
        cons (object (field "sourceField" (text "name") (field "targetField" (text "who") end)))
          nil))
      (field "assignments"
        (array
          (cons (object (field "targetField" (text "kind") (field "value" (number 1) end))) nil))
        end)

abbrev renamed : Fields ℕ
renamed = field "age" (number 3) (field "who" (text "Ann") (field "kind" (number 1) end))

is_renamed : map_node (λ n. true) renaming person ≡ done renamed
unfolding map_node validate_map check_operations map_field_mappings map_literal_assignments
    valid_mappings valid_assignments literal_assignments apply_field_mappings apply_mappings assign
    object_payload objects_of configuration_object_list config_string field_at set_field
    delete_field trim_space
is_renamed = refl

map_node-MapOutput_example : MapOutput (λ n. true) renaming person renamed
map_node-MapOutput_example = map_node-MapOutput (λ n. true) renaming person renamed is_renamed

-- An output that looks like a stored one.
abbrev tricky : Value ℕ
tricky = object (field "format" (text "miletos.persisted-value.v1") (field "value" null end))

read_output-write_output_example :
    read_output (write_output tricky true (field "e" tricky end))
    ≡ (tricky, some (field "e" tricky end))
read_output-write_output_example = read_output-write_output tricky true (field "e" tricky end)

abbrev secret : Value ℕ
secret = object (field "login" (object (field "password" (text "hunter2") end)) end)

redact_node_data-conceals_example :
    (conceals (λ s. s) (redact_node_data (λ s. s) secret) ≡ true)
    × (conceals (λ s. s) secret ≡ true → redact_node_data (λ s. s) secret ≡ secret)
    × (redact_node_data (λ s. s) (redact_node_data (λ s. s) secret)
        ≡ redact_node_data (λ s. s) secret)
redact_node_data-conceals_example = redact_node_data-conceals (λ s. s) secret

-- A Merge node that has seen its second source, and now its primary input.
abbrev merging : Fields ℕ
merging = field "primaryInputNodeId" (text "p") (
    field "mappings"
      (array (cons (object (field "key" (text "extra") (field "sourceNodeId" (text "q") end))) nil))
      end)

abbrev arrived : Value ℕ
arrived = object (
    field "inputs"
      (array (cons (object (field "sourceNodeId" (text "p") (field "value" person end))) nil)) end)

abbrev remembered : Fields ℕ
remembered = field "q" (number 9) end

abbrev plan : MergePlan ℕ
plan = record {
  primary = "p";
  mode = any_source;
  mappings = record { key = "extra"; source_node_id = "q"; correlation = none } ∷ [];
  available = field "p" person end;
}

abbrev no_row : Object (Value ℕ) → String → Value ℕ → Checked (Fields ℕ)
no_row o s v = refused (validation_node_error "" "")

abbrev at_merge : NodeAccess (Value ℕ)
unfolding new_node_access
at_merge = new_node_access branching "if" "EXPLICIT"

is_planned : merge_plan (λ s. s) merging arrived ≡ done plan
unfolding merge_plan validate_merge merge_emission_mode merge_mappings merge_mappings_of
    merge_mapping_correlation check_merge_mappings check_correlation merge_inputs_by_source
    merge_inputs_of multi_input_entries objects_of configuration_object_list config_string field_at
    set_field trim_space
is_planned = refl

is_remembered : current_sources (some (stored_state remembered)) ≡ done remembered
unfolding decode_merge_state field_at
is_remembered = refl

merge_node-Joined_example :
    let r =
      merge_node (λ s. s) no_row false merging arrived at_merge (some (stored_state remembered)) in
    (latest : Fields ℕ) × (r.0 ≡ some (stored_state latest))
    × (current_sources r.0 ≡ done latest)
    × ((k : String)
        → field_at latest k ≡ or_else (field_at plan.available k) (field_at remembered k))
    × ((v : Value ℕ)
        → (run_handler r.1 at_merge).1 ≡ produced v
        → (v ≡ null) ⊎ Joined no_row at_merge plan latest v)
unfolding field_count
merge_node-Joined_example =
    merge_node-Joined (λ s. s) no_row merging arrived at_merge (some (stored_state remembered)) plan
      remembered is_planned refl is_remembered
