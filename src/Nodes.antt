-- ===== src/Nodes.antt =====
-- plugin/processing_node_helpers.go: what the handlers of the built-in nodes share.
pub mod Conditions
pub mod Mapping
pub mod Merge
use miletos.Common.{
  String, Bool, true, false, Option, none, some, List, [], ◌∷◌, trim_space, ◌≡◌, refl, arith,
}
use miletos.Plugin.{NodeError}
use miletos.Execution.Retry.{RunError}
use miletos.Execution.Access.{HandlerRun, ends, RunEnd, produced, broken}
use miletos.Values.{
  Value, null, text, boolean, number, array, object, Items, nil, cons, Fields, as_text, field_at,
}

abbrev pub or_else {ℓ} : {A : Type ℓ} → Option A → Option A → Option A
or_else none d = d
or_else (some a) d = some a

-- A result, or an error of a node.
pub data Checked (A : Type 0) : Type 0 where
  done : A → Checked A
  refused : NodeError → Checked A

infixl 5 ◌>>=◌
abbrev pub ◌>>=◌ : {A B : Type 0} → Checked A → (A → Checked B) → Checked B
done a >>= f = f a
refused e >>= f = refused e

pub >>=-done :
    {A B : Type 0} (c : Checked A) (f : A → Checked B) {b : B}
    → (c >>= f) ≡ done b
    → (a : A) × (c ≡ done a) × (f a ≡ done b)
>>=-done (done a) f h = (a, refl, h)
>>=-done (refused e) f h = absurd (ground (arith, h))

-- `validationNodeError`
abbrev pub validation_node_error : String → String → NodeError
validation_node_error code message = record {
  category = "VALIDATION";
  code = code;
  message = message;
  can_retry = false;
}

-- `executionNodeError`, and the internal errors of the same form.
abbrev pub node_error_of : String → String → String → Bool → NodeError
node_error_of category code message retryable = record {
  category = category;
  code = code;
  message = message;
  can_retry = retryable;
}

-- A run that returns an error of the node.
abbrev pub breaks : {V : Type 0} → NodeError → HandlerRun V
breaks e =
    ends (
      broken
        (record { is_panic = false; is_canceled = false; is_deadline = false; typed = some e }))

module _ {N : Type 0} where
  -- `objectPayload`; a map of the payload is there.
  unfoldable pub object_payload : Value N → String → String → Checked (Fields N)
  object_payload (object fs) code message = done fs
  object_payload _ code message = refused (validation_node_error code message)

  pub object_payload-object :
      (v : Value N) (code message : String) (fs : Fields N)
      → object_payload v code message ≡ done fs
      → v ≡ object fs
  unfolding object_payload
  object_payload-object v code message fs h = ground (arith, h)

  -- The loop that takes objects only.
  unfoldable pub objects_of : Items N → NodeError → Checked (List (Fields N))
  objects_of nil e = done []
  objects_of (cons (object fs) xs) e = objects_of xs e >>= λ rest. done (fs ∷ rest)
  objects_of (cons null xs) e = refused e
  objects_of (cons (text s) xs) e = refused e
  objects_of (cons (boolean b) xs) e = refused e
  objects_of (cons (number n) xs) e = refused e
  objects_of (cons (array ys) xs) e = refused e

  -- `configurationObjectList`
  unfoldable pub configuration_object_list : Value N → String → Checked (List (Fields N))
  unfolding objects_of
  configuration_object_list (array xs) code =
      objects_of xs (validation_node_error code "configuration value must be a list of objects")
  configuration_object_list _ code =
      refused (validation_node_error code "configuration value must be a list")

  -- `multiInputEntries`
  abbrev entries_of : Option (Value N) → String → Checked (List (Fields N))
  entries_of none code =
      refused (validation_node_error code "Multi-input payload is missing inputs.")
  entries_of (some (array xs)) code =
      objects_of xs (validation_node_error code "Multi-input entries must be JSON objects.")
  entries_of (some _) code =
      refused (validation_node_error code "Multi-input payload inputs must be an array.")

  unfoldable pub multi_input_entries : Value N → String → Checked (List (Fields N))
  unfolding objects_of field_at
  multi_input_entries (object fs) code = entries_of (field_at fs "inputs") code
  multi_input_entries _ code =
      refused (validation_node_error code "Node requires a deterministic multi-input payload.")

  -- `configString` of input_source_helpers.go.
  unfoldable pub config_string : Fields N → String → String
  unfolding field_at trim_space
  config_string configuration key = trim_space (as_text (field_at configuration key))
