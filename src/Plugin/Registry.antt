-- ===== src/Plugin/Registry.antt =====
-- plugin/registry.go: registration of node types, and the lookups of the validator and the scheduler.
-- The registry's map is a list of registrations; `cloneRegistration` copies a value, which a value
-- needs not.
pub mod Entries
use miletos.Common.{
  ℕ, ◌-◌, String, Bool, true, false, not, ◌&&◌, ◌||◌, Option, none, some, List, [], ◌∷◌, ◌++◌, any,
  contains, find_where, trim_space, ltb, nat_eq, string_eq, ◌==◌, if◌then◌else◌,
}
use miletos.Workflow.{Object}
use miletos.Workflow.Graph.{is_empty}
use miletos.Plugin.{Port, ConnectionRestriction, Failure, NodeRegistration}

-- The errors of `RegisterNode`.
pub data RegistryError : Type 0 where
  key_empty handler_nil routing_mode_invalid trigger_input_mode_invalid : RegistryError
  edge_constraint_invalid restriction_invalid already_registered : RegistryError

pub record NodeRegistry (V : Type 0) : Type 0 where
  pub registrations : List (NodeRegistration V)

pub data Registered (V : Type 0) : Type 0 where
  ok : NodeRegistry V → Registered V
  err : RegistryError → Registered V

abbrev pub or_default : String → String → String
or_default s d = if s == "" then d else s

-- A port whose minimum is above its maximum.
abbrev pub is_bad_port : Port → Bool
is_bad_port p = elim p.edge_constraint [
  | none ↦ false
  | some c ↦ elim c.maximum [ none ↦ false | some m ↦ ltb m c.minimum ]
]

unfoldable pub validate_connection_restriction : String → ConnectionRestriction → Bool
validate_connection_restriction key r =
    (trim_space r.from == key)
    && not (trim_space r.to == "")
    && (if r.selector == "PRIMARY" || r.selector == "NOT_PRIMARY"
        then r.position == 0
        else if r.selector == "POSITION"
        then not (r.position == 0)
        else false)

module _ {V : Type 0} where
  -- `registry.registrations[key]`
  unfoldable pub lookup : String → List (NodeRegistration V) → Option (NodeRegistration V)
  lookup key rs = find_where (λ r. r.key == key) rs

  -- A registration with its defaults filled in, as it is kept.
  abbrev pub completed : NodeRegistration V → NodeRegistration V
  completed r = record r {
    key = trim_space r.key;
    routing_mode = or_default r.routing_mode "BROADCAST";
    input_mode = or_default r.input_mode "SINGLE";
    trigger_input_mode = or_default r.trigger_input_mode "ALL";
  }

  -- `RegisterNode`
  unfoldable pub register_node : NodeRegistry V → NodeRegistration V → Registered V
  unfolding lookup validate_connection_restriction
  register_node registry registration =
      let key = trim_space registration.key in
      let routing = or_default registration.routing_mode "BROADCAST" in
      let trigger = or_default registration.trigger_input_mode "ALL" in
      if key == ""
      then err key_empty
      else if not registration.has_handler
      then err handler_nil
      else if not (routing == "BROADCAST") && not (routing == "EXPLICIT")
      then err routing_mode_invalid
      else if not (trigger == "ALL") && not (trigger == "AVAILABLE")
      then err trigger_input_mode_invalid
      else if any is_bad_port (registration.input_ports ++ registration.output_ports)
      then err edge_constraint_invalid
      else if any (λ r. not (validate_connection_restriction key r))
          registration.connection_restrictions
      then err restriction_invalid
      else elim (lookup key registry.registrations) [
        | some _ ↦ err already_registered
        | none ↦ ok (record { registrations = completed registration ∷ registry.registrations })
      ]

  -- `Get`
  unfoldable pub get : NodeRegistry V → String → Option (NodeRegistration V)
  unfolding lookup
  get registry node_type = lookup (trim_space node_type) registry.registrations

  -- `ValidateConfiguration`
  unfoldable pub validate_configuration : NodeRegistry V → String → Object V → Option Failure
  unfolding get
  validate_configuration registry node_type configuration = elim (get registry node_type) [
    | none ↦ some Failure.other_error
    | some r ↦ elim r.validator [ none ↦ none | some check ↦ check configuration ]
  ]

  -- `DeclaresExecutionSource`
  unfoldable pub declares_execution_source : NodeRegistry V → String → String → Bool
  unfolding get
  declares_execution_source registry node_type source = elim (get registry node_type) [
    | none ↦ false
    | some r ↦ contains source r.allowed_execution_sources
  ]

  -- `CanStartFrom`, with `allowsExecutionSource`
  unfoldable pub can_start_from : NodeRegistry V → String → String → Bool
  unfolding get
  can_start_from registry node_type source = elim (get registry node_type) [
    | none ↦ false
    | some r ↦ is_empty r.allowed_execution_sources || contains source r.allowed_execution_sources
  ]

  -- `CanReceiveEntryInput`
  unfoldable pub can_receive_entry_input : NodeRegistration V → Bool
  can_receive_entry_input r =
      if is_empty r.input_ports
      then false
      else if not (r.input_edge_constraint.minimum == 0)
      then false
      else elim r.input_edge_constraint.maximum [ none ↦ true | some m ↦ ltb 0 m ]

abbrev pub get_port : List Port → ℕ → Option Port
get_port [] i = none
get_port (p ∷ ps) ℕ.zero = some p
get_port (p ∷ ps) (ℕ.suc i) = get_port ps i

abbrev pub port_is : String → Option Port → Bool
port_is name none = false
port_is name (some p) = p.name == name

abbrev pub tail_of {ℓ} : {A : Type ℓ} → List A → List A
tail_of [] = []
tail_of (x ∷ xs) = xs

-- `uint` subtraction: `Position - 1` wraps to the largest value at 0.
abbrev pub selected_index : ℕ → ℕ
selected_index position = if position == 0 then 18446744073709551615 else position - 1

unfoldable pub connection_restriction_matches :
    ConnectionRestriction → String → String → String → List Port → Bool
connection_restriction_matches r from_type to_type target_input_port ports =
    if not (r.from == from_type) || not (r.to == to_type)
    then false
    else if r.selector == "PRIMARY"
    then port_is target_input_port (get_port ports 0)
    else if r.selector == "NOT_PRIMARY"
    then any (λ p. p.name == target_input_port) (tail_of ports)
    else if r.selector == "POSITION"
    then port_is target_input_port (get_port ports (selected_index r.position))
    else false

module _ {V : Type 0} where
  -- `ConnectionRestricted`
  unfoldable pub connection_restricted : NodeRegistry V → String → String → String → Bool
  unfolding get connection_restriction_matches
  connection_restricted registry from_type to_type target_input_port =
      elim (get registry from_type) [
        | none ↦ false
        | some from ↦ elim (get registry to_type) [
          | none ↦ false
          | some to ↦
              any
                (λ r.
                  connection_restriction_matches r from_type to_type target_input_port
                    to.input_ports)
                from.connection_restrictions
        ]
      ]
