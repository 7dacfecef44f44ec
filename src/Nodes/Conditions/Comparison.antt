-- ===== src/Nodes/Conditions/Comparison.antt =====
-- plugin/condition_nodes.go: `compareConditionValue` and `evaluateConfiguredCondition`.
use miletos.Common.{
  String, Bool, true, false, not, ◌||◌, Option, none, some, trim_space, string_eq, ◌==◌,
  if◌then◌else◌,
}
use miletos.Values.{Value, null, text, boolean, number, array, object, Fields}
use miletos.Nodes.{Checked, done, refused, ◌>>=◌, validation_node_error}
use miletos.Nodes.Conditions.{
  Numbers, Operator, equals, not_equals, greater_than, greater_than_or_equal, less_than,
  less_than_or_equal, ConditionConfiguration, split_dots, condition_number,
  configured_condition_number, condition_runtime_error, parse_condition_configuration,
  resolve_segments,
}

abbrev pub bool_same : Bool → Bool → Bool
bool_same true b = b
bool_same false b = not b

abbrev truth_named : String → Option Bool
truth_named s = if s == "true" then some true else if s == "false" then some false else none

module _ {N F : Type 0} (numbers : Numbers N F) where
  -- `conditionBoolean`
  unfoldable pub condition_boolean : Value N → Option Bool
  unfolding trim_space
  condition_boolean (boolean b) = some b
  condition_boolean (text s) = truth_named (numbers.to_lower (trim_space s))
  condition_boolean _ = none

  -- The switch on the operator, over numbers.
  abbrev pub compare_floats : Operator → F → F → Bool
  compare_floats equals a b = numbers.equal a b
  compare_floats not_equals a b = not (numbers.equal a b)
  compare_floats greater_than a b = numbers.less b a
  compare_floats greater_than_or_equal a b = numbers.less b a || numbers.equal a b
  compare_floats less_than a b = numbers.less a b
  compare_floats less_than_or_equal a b = numbers.less a b || numbers.equal a b

  abbrev pub compare_expected : Operator → F → Option F → Checked Bool
  compare_expected operator a none =
      refused (condition_runtime_error "Numeric fields require a finite configured number.")
  compare_expected operator a (some b) = done (compare_floats operator a b)

  -- A number is compared with the configured value.
  abbrev pub compare_number : ConditionConfiguration N → Option F → Checked Bool
  compare_number condition none = refused (
      condition_runtime_error
        "The configured field must contain a string, number, or boolean value.")
  compare_number condition (some a) =
      compare_expected condition.operator a (configured_condition_number numbers condition.value)

  abbrev relational_invalid : Checked Bool
  relational_invalid = refused (
      condition_runtime_error
        "Relational comparisons require finite numeric field and configured values.")

  abbrev pub compare_parsed : Operator → Option F → Option F → Checked Bool
  compare_parsed operator (some a) (some b) = done (compare_floats operator a b)
  compare_parsed operator (some a) none = relational_invalid
  compare_parsed operator none b = relational_invalid

  -- A text with a configured text: equality is that of texts, order that of the numbers they stand
  -- for.
  abbrev pub compare_texts : Operator → String → String → Checked Bool
  compare_texts equals s t = done (s == t)
  compare_texts not_equals s t = done (not (s == t))
  compare_texts greater_than s t =
      compare_parsed greater_than (numbers.parse_float (trim_space s))
        (numbers.parse_float (trim_space t))
  compare_texts greater_than_or_equal s t =
      compare_parsed greater_than_or_equal (numbers.parse_float (trim_space s))
        (numbers.parse_float (trim_space t))
  compare_texts less_than s t =
      compare_parsed less_than (numbers.parse_float (trim_space s))
        (numbers.parse_float (trim_space t))
  compare_texts less_than_or_equal s t =
      compare_parsed less_than_or_equal (numbers.parse_float (trim_space s))
        (numbers.parse_float (trim_space t))

  abbrev pub text_as_number : Operator → Option F → Option F → Checked Bool
  text_as_number operator none parsed =
      refused (condition_runtime_error "String fields require a configured string value.")
  text_as_number operator (some b) none =
      refused (condition_runtime_error "Numeric comparisons require a finite numeric field value.")
  text_as_number operator (some b) (some a) = done (compare_floats operator a b)

  abbrev pub compare_text : Operator → String → Value N → Checked Bool
  compare_text operator s (text t) = compare_texts operator s t
  compare_text operator s (number n) =
      text_as_number operator (condition_number numbers (number n))
        (numbers.parse_float (trim_space s))
  compare_text operator s null = text_as_number operator none none
  compare_text operator s (boolean b) = text_as_number operator none none
  compare_text operator s (array xs) = text_as_number operator none none
  compare_text operator s (object fs) = text_as_number operator none none

  abbrev only_equality : Checked Bool
  only_equality =
      refused (condition_runtime_error "Boolean fields support only EQUALS and NOT_EQUALS.")

  abbrev pub compare_boolean : Operator → Bool → Option Bool → Checked Bool
  compare_boolean operator b none =
      refused (condition_runtime_error "Boolean fields require a configured true or false value.")
  compare_boolean equals b (some c) = done (bool_same b c)
  compare_boolean not_equals b (some c) = done (not (bool_same b c))
  compare_boolean greater_than b (some c) = only_equality
  compare_boolean greater_than_or_equal b (some c) = only_equality
  compare_boolean less_than b (some c) = only_equality
  compare_boolean less_than_or_equal b (some c) = only_equality

  -- `compareConditionValue`
  unfoldable pub compare_condition_value : Value N → ConditionConfiguration N → Checked Bool
  unfolding condition_number configured_condition_number condition_boolean trim_space
  compare_condition_value (text s) condition = compare_text condition.operator s condition.value
  compare_condition_value (boolean b) condition =
      compare_boolean condition.operator b (condition_boolean condition.value)
  compare_condition_value (number n) condition =
      compare_number condition (condition_number numbers (number n))
  compare_condition_value null condition = compare_number condition none
  compare_condition_value (array xs) condition = compare_number condition none
  compare_condition_value (object fs) condition = compare_number condition none

  abbrev pub evaluate_on : ConditionConfiguration N → Value N → Checked Bool
  evaluate_on condition (object fs) =
      resolve_segments numbers fs (split_dots condition.path) >>= λ actual.
      compare_condition_value actual condition
  evaluate_on condition _ = refused (
      validation_node_error "CONDITION_INPUT_INVALID"
        "Condition nodes require a JSON object payload.")

  -- `evaluateConfiguredCondition`
  unfoldable pub evaluate_configured_condition : Fields N → Value N → Checked Bool
  unfolding parse_condition_configuration resolve_segments split_dots compare_condition_value
  evaluate_configured_condition configuration payload =
      parse_condition_configuration numbers configuration >>= λ condition.
      evaluate_on condition payload
