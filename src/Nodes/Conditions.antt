-- ===== src/Nodes/Conditions.antt =====
-- plugin/condition_nodes.go: the nodes that compare a field of their payload and route by the answer.
-- Numbers are an interface: what Go's numeric values and texts are as finite floats, and the order of
-- these. `strings.ToLower` is a part of it. A map of the payload is not nil.
pub mod Comparison
pub mod Handlers
pub mod Opposites
pub mod Routes
use Prim.Native.Char.{code}
use miletos.Common.{
  ℕ, suc, String, Bool, true, false, not, ◌&&◌, ◌||◌, Option, none, some, List, [], ◌∷◌, all, leb,
  trim_space, string_eq, nat_eq, ◌==◌, if◌then◌else◌,
}
use miletos.Workflow.{Edge}
use miletos.Plugin.{NodeError}
use miletos.Execution.Access.{HandlerRun, ends, pushes, produced, PushError, NodeAccess}
use miletos.Values.{Value, null, text, boolean, number, array, object, Fields, field_at}
use miletos.Nodes.{Checked, done, refused, ◌>>=◌, validation_node_error, node_error_of, breaks}

pub record Numbers (N F : Type 0) : Type 0 where
  pub float_of : N → Option F
  pub parse_float : String → Option F
  pub less : F → F → Bool
  pub equal : F → F → Bool
  pub to_lower : String → String

pub data Operator : Type 0 where
  equals not_equals greater_than greater_than_or_equal less_than less_than_or_equal : Operator

-- `supportedConditionOperator`
abbrev pub operator_named : String → Option Operator
operator_named s =
    if s == "EQUALS"
    then some equals
    else if s == "NOT_EQUALS"
    then some not_equals
    else if s == "GREATER_THAN"
    then some greater_than
    else if s == "GREATER_THAN_OR_EQUAL"
    then some greater_than_or_equal
    else if s == "LESS_THAN"
    then some less_than
    else if s == "LESS_THAN_OR_EQUAL"
    then some less_than_or_equal
    else none

pub record ConditionConfiguration (N : Type 0) : Type 0 where
  pub path : String
  pub operator : Operator
  pub value : Value N

-- `strings.Split(s, ".")`
unfoldable pub split_dots : String → List String
split_dots String.[] = "" ∷ []
split_dots (String.◌∷◌ c s) =
    let rest = split_dots s in
    if code c == 46
    then "" ∷ rest
    else elim rest [ [] ↦ String.◌∷◌ c "" ∷ [] | first ∷ others ↦ String.◌∷◌ c first ∷ others ]

abbrev pub is_word_start : ℕ → Bool
is_word_start c = (leb 65 c && leb c 90) || c == 95 || (leb 97 c && leb c 122)

unfoldable pub is_word : String → Bool
is_word String.[] = true
is_word (String.◌∷◌ c s) =
    (is_word_start (code c) || (leb 48 (code c) && leb (code c) 57)) && is_word s

-- `conditionFieldSegmentPattern`
unfoldable pub is_segment : String → Bool
unfolding is_word
is_segment String.[] = false
is_segment (String.◌∷◌ c s) = is_word_start (code c) && is_word s

unfoldable pub valid_condition_field_path : String → Bool
unfolding split_dots is_segment
valid_condition_field_path path = all is_segment (split_dots path)

abbrev pub condition_runtime_error : String → NodeError
condition_runtime_error message = validation_node_error "CONDITION_COMPARISON_INVALID" message

module _ {N F : Type 0} (numbers : Numbers N F) where
  -- `conditionNumber`
  unfoldable pub condition_number : Value N → Option F
  condition_number (number n) = numbers.float_of n
  condition_number _ = none

  -- `configuredConditionNumber`
  unfoldable pub configured_condition_number : Value N → Option F
  unfolding condition_number trim_space
  configured_condition_number (text s) = numbers.parse_float (trim_space s)
  configured_condition_number v = condition_number v

  abbrev is_number : Option F → Bool
  is_number none = false
  is_number (some x) = true

  -- `flatConditionValue`
  abbrev flat_condition_value : Value N → Bool
  flat_condition_value (text s) = true
  flat_condition_value (boolean b) = true
  flat_condition_value (number n) = is_number (numbers.float_of n)
  flat_condition_value _ = false

  abbrev value_required : NodeError
  value_required =
      validation_node_error "CONDITION_VALUE_REQUIRED" "configuration.value is required"

  abbrev parse_value : String → Operator → Option (Value N) → Checked (ConditionConfiguration N)
  parse_value path operator none = refused value_required
  parse_value path operator (some null) = refused value_required
  parse_value path operator (some (text s)) =
      if trim_space s == ""
      then refused value_required
      else done (record { path = path; operator = operator; value = text s })
  parse_value path operator (some v) =
      if flat_condition_value v
      then done (record { path = path; operator = operator; value = v })
      else refused (
          validation_node_error "CONDITION_VALUE_INVALID"
            "configuration.value must be a flat primitive value")

  abbrev operator_required : NodeError
  operator_required =
      validation_node_error "CONDITION_OPERATOR_REQUIRED" "configuration.operator is required"

  abbrev known_operator : Option Operator → Checked Operator
  known_operator (some o) = done o
  known_operator none =
      refused (
        validation_node_error "CONDITION_OPERATOR_INVALID"
          "configuration.operator is not supported")

  abbrev parse_operator : Option (Value N) → Checked Operator
  parse_operator (some (text s)) =
      if trim_space s == ""
      then refused operator_required
      else known_operator (operator_named (trim_space s))
  parse_operator _ = refused operator_required

  abbrev field_required : NodeError
  field_required =
      validation_node_error "CONDITION_FIELD_REQUIRED" "configuration.field is required"

  abbrev parse_path : Option (Value N) → Checked String
  parse_path (some (text s)) =
      if trim_space s == ""
      then refused field_required
      else if not (valid_condition_field_path (trim_space s))
      then refused (
          validation_node_error "CONDITION_FIELD_INVALID"
            "configuration.field must be a simple dot-separated payload field path")
      else done (trim_space s)
  parse_path _ = refused field_required

  -- `parseConditionConfiguration`
  unfoldable pub parse_condition_configuration : Fields N → Checked (ConditionConfiguration N)
  unfolding field_at valid_condition_field_path trim_space
  parse_condition_configuration configuration =
      parse_path (field_at configuration "field") >>= λ path.
      parse_operator (field_at configuration "operator") >>= λ operator.
      parse_value path operator (field_at configuration "value")

  abbrev field_missing : NodeError
  field_missing =
      validation_node_error "CONDITION_FIELD_MISSING"
        "The configured top-level field is missing from the payload."

  abbrev field_null : NodeError
  field_null =
      validation_node_error "CONDITION_FIELD_NULL"
        "The configured top-level field must not be null."

  abbrev not_object : NodeError
  not_object = condition_runtime_error "The configured field path must traverse JSON object values."

  -- `resolveConditionField`, over the segments of the path.
  unfoldable pub resolve_segments : Fields N → List String → Checked (Value N)
  unfolding field_at
  resolve_segments current [] = refused field_missing
  resolve_segments current (s ∷ []) = elim (field_at current s) [
    | none ↦ refused field_missing
    | some v ↦ elim v [
      | null ↦ refused field_null
      | text t ↦ done (text t)
      | boolean b ↦ done (boolean b)
      | number n ↦ done (number n)
      | array xs ↦ done (array xs)
      | object fs ↦ done (object fs)
    ]
  ]
  resolve_segments current (s ∷ t ∷ rest) = elim (field_at current s) [
    | none ↦ refused field_missing
    | some v ↦ elim v [
      | null ↦ refused field_null
      | text x ↦ refused not_object
      | boolean b ↦ refused not_object
      | number n ↦ refused not_object
      | array xs ↦ refused not_object
      | object fs ↦ resolve_segments fs (t ∷ rest)
    ]
  ]
