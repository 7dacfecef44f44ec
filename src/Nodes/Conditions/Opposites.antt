-- ===== src/Nodes/Conditions/Opposites.antt =====
-- plugin/condition_nodes.go: opposite operators give opposite answers.
use miletos.Common.{
  String, Bool, true, false, not, ◌||◌, ◌≡◌, refl, sym, ap, trim_space, ◌==◌, Option, none, some,
  arith, string_eq,
}
use miletos.Values.{Value, null, text, boolean, number, array, object}
use miletos.Nodes.{Checked, done, refused, ◌>>=◌}
use miletos.Nodes.Conditions.{
  Numbers, Operator, equals, not_equals, greater_than, greater_than_or_equal, less_than,
  less_than_or_equal, ConditionConfiguration, condition_number, configured_condition_number,
  split_dots, resolve_segments,
}
use miletos.Nodes.Conditions.Comparison.{
  bool_same, compare_floats, compare_expected, compare_parsed, compare_texts, text_as_number,
  evaluate_on, condition_boolean, compare_text, compare_boolean, compare_number,
  compare_condition_value,
}

abbrev pub opposite : Operator → Operator
opposite equals = not_equals
opposite not_equals = equals
opposite greater_than = less_than_or_equal
opposite less_than_or_equal = greater_than
opposite less_than = greater_than_or_equal
opposite greater_than_or_equal = less_than

abbrev pub negated : Checked Bool → Checked Bool
negated (done b) = done (not b)
negated (refused e) = refused e

abbrev pub reversed : {N : Type 0} → ConditionConfiguration N → ConditionConfiguration N
reversed condition = record condition { operator = opposite condition.operator }

-- The finite floats are in a total order.
pub record IsTotal {N F : Type 0} (numbers : Numbers N F) : Type 0 where
  pub greater : (a b : F) → numbers.less b a ≡ not (numbers.less a b || numbers.equal a b)
  pub smaller : (a b : F) → numbers.less a b ≡ not (numbers.less b a || numbers.equal a b)

not-not : (b : Bool) → not (not b) ≡ b
not-not true = refl
not-not false = refl

module _ {N F : Type 0} (numbers : Numbers N F) (total : IsTotal numbers) where
  compare_floats-opposite :
      (o : Operator) (a b : F)
      → compare_floats numbers (opposite o) a b ≡ not (compare_floats numbers o a b)
  compare_floats-opposite equals a b = refl
  compare_floats-opposite not_equals a b = ground arith
  compare_floats-opposite greater_than a b = ground (arith, total.greater a b)
  compare_floats-opposite less_than_or_equal a b = ground (arith, total.greater a b)
  compare_floats-opposite less_than a b = ground (arith, total.smaller a b)
  compare_floats-opposite greater_than_or_equal a b = ground (arith, total.smaller a b)

  compare_expected-opposite :
      (o : Operator) (a : F) (b : Option F)
      → compare_expected numbers (opposite o) a b ≡ negated (compare_expected numbers o a b)
  compare_expected-opposite o a none = refl
  compare_expected-opposite o a (some b) = ap done (compare_floats-opposite o a b)

  compare_parsed-opposite :
      (o : Operator) (a b : Option F)
      → compare_parsed numbers (opposite o) a b ≡ negated (compare_parsed numbers o a b)
  compare_parsed-opposite o none b = refl
  compare_parsed-opposite o (some a) none = refl
  compare_parsed-opposite o (some a) (some b) = ap done (compare_floats-opposite o a b)

  compare_texts-opposite :
      (o : Operator) (s t : String)
      → compare_texts numbers (opposite o) s t ≡ negated (compare_texts numbers o s t)
  compare_texts-opposite equals s t = refl
  compare_texts-opposite not_equals s t = ap done (sym (not-not (s == t)))
  compare_texts-opposite greater_than s t =
      compare_parsed-opposite greater_than (numbers.parse_float (trim_space s))
        (numbers.parse_float (trim_space t))
  compare_texts-opposite greater_than_or_equal s t =
      compare_parsed-opposite greater_than_or_equal (numbers.parse_float (trim_space s))
        (numbers.parse_float (trim_space t))
  compare_texts-opposite less_than s t =
      compare_parsed-opposite less_than (numbers.parse_float (trim_space s))
        (numbers.parse_float (trim_space t))
  compare_texts-opposite less_than_or_equal s t =
      compare_parsed-opposite less_than_or_equal (numbers.parse_float (trim_space s))
        (numbers.parse_float (trim_space t))

  text_as_number-opposite :
      (o : Operator) (b a : Option F)
      → text_as_number numbers (opposite o) b a ≡ negated (text_as_number numbers o b a)
  text_as_number-opposite o none a = refl
  text_as_number-opposite o (some b) none = refl
  text_as_number-opposite o (some b) (some a) = ap done (compare_floats-opposite o a b)

  compare_text-opposite :
      (o : Operator) (s : String) (v : Value N)
      → compare_text numbers (opposite o) s v ≡ negated (compare_text numbers o s v)
  compare_text-opposite o s (text t) = compare_texts-opposite o s t
  compare_text-opposite o s (number n) =
      text_as_number-opposite o (condition_number numbers (number n))
        (numbers.parse_float (trim_space s))
  compare_text-opposite o s null = refl
  compare_text-opposite o s (boolean b) = refl
  compare_text-opposite o s (array xs) = refl
  compare_text-opposite o s (object fs) = refl

  compare_boolean-opposite :
      (o : Operator) (b : Bool) (c : Option Bool)
      → compare_boolean numbers (opposite o) b c ≡ negated (compare_boolean numbers o b c)
  compare_boolean-opposite o b none = refl
  compare_boolean-opposite equals b (some c) = refl
  compare_boolean-opposite not_equals b (some c) = ap done (sym (not-not (bool_same b c)))
  compare_boolean-opposite greater_than b (some c) = refl
  compare_boolean-opposite greater_than_or_equal b (some c) = refl
  compare_boolean-opposite less_than b (some c) = refl
  compare_boolean-opposite less_than_or_equal b (some c) = refl

  compare_condition_value-opposite :
      (actual : Value N) (condition : ConditionConfiguration N)
      → compare_condition_value numbers actual (reversed condition)
        ≡ negated (compare_condition_value numbers actual condition)
  unfolding compare_condition_value
  compare_condition_value-opposite (text s) condition =
      compare_text-opposite condition.operator s condition.value
  compare_condition_value-opposite (boolean b) condition =
      compare_boolean-opposite condition.operator b (condition_boolean numbers condition.value)
  compare_condition_value-opposite (number n) condition =
      by_number (condition_number numbers (number n))
    where
      by_number :
          (a : Option F)
          → compare_number numbers (reversed condition) a
            ≡ negated (compare_number numbers condition a)
      by_number none = refl
      by_number (some a) =
          compare_expected-opposite condition.operator a
            (configured_condition_number numbers condition.value)
  compare_condition_value-opposite null condition = refl
  compare_condition_value-opposite (array xs) condition = refl
  compare_condition_value-opposite (object fs) condition = refl

  -- For every payload, field and configured value, whatever their types: a condition with the opposite
  -- operator (EQUALS and NOT_EQUALS, GREATER_THAN and LESS_THAN_OR_EQUAL, LESS_THAN and
  -- GREATER_THAN_OR_EQUAL) gives the opposite answer, or the same error, if finite floats are in a
  -- total order.
  pub evaluate_on-opposite :
      (condition : ConditionConfiguration N) (payload : Value N)
      → evaluate_on numbers (reversed condition) payload
        ≡ negated (evaluate_on numbers condition payload)
  evaluate_on-opposite condition (object fs) =
      by_field (resolve_segments numbers fs (split_dots condition.path))
    where
      by_field :
          (r : Checked (Value N))
          → (r >>= λ actual. compare_condition_value numbers actual (reversed condition))
            ≡ negated (r >>= λ actual. compare_condition_value numbers actual condition)
      by_field (done actual) = compare_condition_value-opposite actual condition
      by_field (refused e) = refl
  evaluate_on-opposite condition null = refl
  evaluate_on-opposite condition (text s) = refl
  evaluate_on-opposite condition (boolean b) = refl
  evaluate_on-opposite condition (number n) = refl
  evaluate_on-opposite condition (array xs) = refl
