-- ===== src/Execution/Access.antt =====
-- execution/node_access.go: what a handler sees of the edges at its node, and the payloads that it
-- pushes onto them. A handler is known by what it does: it ends, or it pushes a payload onto an edge
-- and goes on according to the answer. Indexes are not negative, and pushes come one after another.
pub mod Routed
use miletos.Common.{
  ℕ, zero, suc, String, Bool, true, false, not, Option, none, some, List, [], ◌∷◌, filter, length,
  contains, map, find_where, string_eq, ◌==◌, if◌then◌else◌,
}
use miletos.Workflow.{Object, Edge, WorkflowNode, Workflow}
use miletos.Execution.{NodeRoutingOutcome}
use miletos.Execution.Retry.{RunError}
use miletos.Execution.Routing.{value_at}

pub record InputNodeData (V : Type 0) : Type 0 where
  pub id : String
  pub plugin_type : String
  pub configuration : Object V

-- `nodeAccess`
pub record NodeAccess (V : Type 0) : Type 0 where
  pub edges : List Edge
  pub inputs : List (InputNodeData V)
  pub explicit : Bool
  pub emissions : Object V
  pub is_closed : Bool

pub data PushError : Type 0 where
  not_explicit out_of_range routing_closed already_selected : PushError

-- `plugin.EdgeData`
pub record EdgeData : Type 0 where
  pub id : String
  pub source_output_port : String
  pub target_node_id : String
  pub target_input_port : String

-- What the run of a handler comes to.
pub data RunEnd (V : Type 0) : Type 0 where
  produced : V → RunEnd V
  broken : RunError → RunEnd V

-- The run of a handler, as far as its node's edges go.
pub data HandlerRun (V : Type 0) : Type 0 where
  ends : RunEnd V → HandlerRun V
  pushes : ℕ → V → (Option PushError → HandlerRun V) → HandlerRun V

abbrev pub edge_at : List Edge → ℕ → Option Edge
edge_at [] i = none
edge_at (e ∷ es) zero = some e
edge_at (e ∷ es) (suc i) = edge_at es i

abbrev edge_data : Edge → EdgeData
edge_data e = record {
  id = e.id;
  source_output_port = e.source_output_port;
  target_node_id = e.target_node_id;
  target_input_port = e.target_input_port;
}

module _ {V : Type 0} where
  abbrev pub input_of : WorkflowNode V → InputNodeData V
  input_of n = record { id = n.id; plugin_type = n.type; configuration = n.configuration }

  unfoldable pub new_node_access : Workflow V → String → String → NodeAccess V
  new_node_access w node_id routing_mode = record {
    edges = filter (λ e. e.source_node_id == node_id) w.edges;
    inputs = map input_of (
        filter
          (λ n.
            contains n.id
              (map (λ e. e.source_node_id) (filter (λ e. e.target_node_id == node_id) w.edges)))
          w.nodes);
    explicit = routing_mode == "EXPLICIT";
    emissions = [];
    is_closed = false;
  }

  unfoldable pub get_input_node : NodeAccess V → String → Option (InputNodeData V)
  get_input_node access node_id = find_where (λ n. n.id == node_id) access.inputs

  abbrev pub get_output_edge_count : NodeAccess V → ℕ
  get_output_edge_count access = length access.edges

  unfoldable pub get_edge_data : NodeAccess V → ℕ → Option EdgeData
  get_edge_data access index = elim (edge_at access.edges index) [
    | none ↦ none
    | some e ↦ some (edge_data e)
  ]

  abbrev pub is_selected : Option V → Bool
  is_selected none = false
  is_selected (some v) = true

  -- A push onto the edge that the index stands for.
  abbrev pub push_onto : NodeAccess V → V → Option Edge → NodeAccess V × Option PushError
  push_onto access payload none = (access, some out_of_range)
  push_onto access payload (some e) =
      if access.is_closed
      then (access, some routing_closed)
      else if is_selected (value_at access.emissions e.id)
      then (access, some already_selected)
      else (record access { emissions = (e.id, payload) ∷ access.emissions }, none)

  -- `PushEdge`
  unfoldable pub push_edge : NodeAccess V → ℕ → V → NodeAccess V × Option PushError
  push_edge access index payload =
      if not access.explicit
      then (access, some not_explicit)
      else push_onto access payload (edge_at access.edges index)

  -- `outcome`, which also closes the access.
  unfoldable pub outcome : NodeAccess V → NodeAccess V × NodeRoutingOutcome V
  outcome access =
      if not access.explicit then (access, record { explicit = false; edge_payloads = [] }) else (
        record access { is_closed = true },
        record { explicit = true; edge_payloads = access.emissions },
      )

  unfoldable pub discard : NodeAccess V → NodeAccess V
  discard access = record access { is_closed = true; emissions = [] }

  -- A handler's run on an access.
  unfoldable pub run_handler : HandlerRun V → NodeAccess V → NodeAccess V × RunEnd V
  unfolding push_edge
  run_handler (ends r) access = (access, r)
  run_handler (pushes index payload next_step) access =
      let answer = push_edge access index payload in run_handler (next_step answer.1) answer.0

  -- The end of a run and the routes that it chose: those of a broken run are discarded.
  abbrev pub routed_run : NodeAccess V × RunEnd V → RunEnd V × NodeRoutingOutcome V
  routed_run (access, produced output) = (produced output, (outcome access).1)
  routed_run (access, broken e) =
      (broken e, record { explicit = false; edge_payloads = (discard access).emissions })
