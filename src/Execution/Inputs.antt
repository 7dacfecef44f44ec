-- ===== src/Execution/Inputs.antt =====
-- execution/input_builder.go: the payload of a node from the payloads on the edges into it. What the
-- code builds of Go's `any` is an interface, `Json`. The registry is one that is there.
use miletos.Common.{
  ℕ, suc, String, Bool, true, false, ◌&&◌, ◌||◌, Option, none, some, List, [], ◌∷◌, find_where,
  string_eq, ◌==◌, if◌then◌else◌,
}
use miletos.Workflow.{Object, Edge, Workflow}
use miletos.Workflow.Graph.{is_empty, predecessors}
use miletos.Plugin.{NodeRegistration}
use miletos.Plugin.Registry.{NodeRegistry, get, can_receive_entry_input, declares_execution_source}
use miletos.Execution.{ExecutionOrigin, unset, manual_direct, http_webhook, cron, data_arrival}
use miletos.Execution.Routing.{value_at}

-- The values that the runtime itself makes; `nil_object` is a nil map, which is not a nil interface.
pub record Json (V : Type 0) : Type 0 where
  pub null : V
  pub nil_object : V
  pub text : String → V
  pub number : ℕ → V
  pub list : List V → V
  pub object : Object V → V

abbrev origin_name : ExecutionOrigin → String
origin_name unset = ""
origin_name manual_direct = "MANUAL_DIRECT"
origin_name http_webhook = "HTTP_WEBHOOK"
origin_name cron = "CRON"
origin_name data_arrival = "DATA_ARRIVAL"

module _ {V : Type 0} (json : Json V) where
  abbrev multi_input : ℕ → Edge → V → V
  multi_input order e value = json.object (
      ("edgeId", json.text e.id)
      ∷ ("edgeOrder", json.number order)
      ∷ ("sourceNodeId", json.text e.source_node_id)
      ∷ ("sourceOutputPort", json.text e.source_output_port)
      ∷ ("targetInputPort", json.text e.target_input_port)
      ∷ ("value", value)
      ∷ [])

  -- The loop of the MULTI mode, from the order of the first edge.
  unfoldable multi_inputs : String → Object V → ℕ → List Edge → List V
  multi_inputs node_id payloads order [] = []
  multi_inputs node_id payloads order (e ∷ es) =
      let rest = multi_inputs node_id payloads (suc order) es in
      if e.target_node_id == node_id
      then elim (value_at payloads e.id) [
        | none ↦ rest
        | some value ↦ multi_input order e value ∷ rest
      ]
      else rest

  -- `values[port] = value`: a later edge replaces the value of an earlier one.
  abbrev put : String → V → Object V → Object V
  put port value [] = (port, value) ∷ []
  put port value ((p, v) ∷ rest) =
      let below = put port value rest in if p == port then (p, value) ∷ rest else (p, v) ∷ below

  unfoldable port_values : String → Object V → Object V → List Edge → Object V
  port_values node_id payloads values [] = values
  port_values node_id payloads values (e ∷ es) = elim (e.target_node_id == node_id) [
    | false ↦ port_values node_id payloads values es
    | true ↦ elim (value_at payloads e.id) [
      | none ↦ port_values node_id payloads values es
      | some value ↦ port_values node_id payloads (put e.target_input_port value values) es
    ]
  ]

  -- One value stands for itself, none is nil, and more are an object by port.
  abbrev single_payload : Object V → V
  single_payload [] = json.null
  single_payload ((port, value) ∷ []) = value
  single_payload (x ∷ y ∷ rest) = json.object (x ∷ y ∷ rest)

  abbrev is_multi : Option (NodeRegistration V) → Bool
  is_multi none = false
  is_multi (some r) = r.input_mode == "MULTI"

  abbrev type_of_node : Workflow V → String → String
  type_of_node w node_id = elim (find_where (λ n. n.id == node_id) w.nodes) [
    | none ↦ ""
    | some n ↦ n.type
  ]

  unfoldable build_node_input_from_edges : Workflow V → String → Object V → NodeRegistry V → V
  unfolding get multi_inputs port_values
  build_node_input_from_edges w node_id payloads registry =
      if is_multi (get registry (type_of_node w node_id))
      then json.object (("inputs", json.list (multi_inputs node_id payloads 0 w.edges)) ∷ [])
      else single_payload (port_values node_id payloads [] w.edges)

  -- The switch on the origin: whether a root of the type takes the start input.
  unfoldable takes_start_input : NodeRegistry V → String → ExecutionOrigin → Bool
  unfolding get can_receive_entry_input declares_execution_source
  takes_start_input registry type unset = false
  takes_start_input registry type manual_direct = elim (get registry type) [
    | none ↦ false
    | some r ↦ can_receive_entry_input r
  ]
  takes_start_input registry type http_webhook =
      declares_execution_source registry type (origin_name http_webhook)
  takes_start_input registry type cron = declares_execution_source registry type (origin_name cron)
  takes_start_input registry type data_arrival =
      declares_execution_source registry type (origin_name data_arrival)

  abbrev has_node : Workflow V → String → Bool
  has_node w node_id = elim (find_where (λ n. n.id == node_id) w.nodes) [
    | none ↦ false
    | some n ↦ true
  ]

  unfoldable pub build_execution_node_input :
      Workflow V → String → Object V → NodeRegistry V → Option V → String → ExecutionOrigin → V
  unfolding build_node_input_from_edges takes_start_input predecessors
  build_execution_node_input w node_id payloads registry start_input start_node_id origin =
      let payload = build_node_input_from_edges w node_id payloads registry in
      elim start_input [
        | none ↦ payload
        | some start ↦
            if is_empty (predecessors w node_id)
              && (start_node_id == "" || node_id == start_node_id)
              && has_node w node_id
              && takes_start_input registry (type_of_node w node_id) origin
            then start
            else payload
      ]
