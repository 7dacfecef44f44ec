-- ===== src/Examples/Graphs.antt =====
-- A workflow of two nodes that is accepted, and one with a cycle.
use miletos.Common.{
  ℕ, String, true, false, ◌≡◌, refl, ◌↔◌, Option, none, some, List, [], ◌∷◌, ◌++◌, Memᴰ, contains,
  is_blank, sort_by, string_eq, ◌==◌,
}
use miletos.Workflow.{Edge, WorkflowNode, Workflow}
use miletos.Workflow.Graph.{downstream}
use miletos.Workflow.Graph.Reach.{Reach, downstream-Reach}
use miletos.Workflow.Graph.Cycle.{find_cycle_path, cycle_search}
use miletos.Workflow.Graph.Cycle.Total.{cycle_search-total}
use miletos.Workflow.Graph.Cycle.Report.{
  Trail, FollowsEdges, find_cycle_path-nil_IsAcyclic, find_cycle_path-cons_IsCycle,
}
use miletos.Plugin.{NodeRegistration}
use miletos.Workflow.Validator.Issues.{Lookups, has_port}
use miletos.Workflow.Validator.Edges.{fault_issues, edge_faults}
use miletos.Workflow.Validator.Validate.{validate_workflow_definition}
use miletos.Workflow.Validator.Accepted.WellFormed.{WellFormed, validate-WellFormed}

abbrev pub node : String → String → WorkflowNode ℕ
node id type = record { id = id; display_name = id; type = type; version = ""; configuration = [] }

abbrev edge : String → String → String → Edge
edge id source target = record {
  id = id;
  source_node_id = source;
  source_output_port = "out";
  target_node_id = target;
  target_input_port = "in";
}

abbrev flow : List Edge → Workflow ℕ
flow edges = record {
  id = "w";
  company_id = "c";
  name = "Two steps";
  revision = 1;
  nodes = node "a" "step" ∷ node "b" "step" ∷ [];
  edges = edges;
  metadata = [];
}

abbrev pub straight : Workflow ℕ
straight = flow (edge "e" "a" "b" ∷ [])

abbrev circular : Workflow ℕ
circular = flow (edge "e" "a" "b" ∷ edge "f" "b" "a" ∷ [])

abbrev pub step : NodeRegistration ℕ
step = record {
  key = "step";
  input_mode = "SINGLE";
  trigger_input_mode = "ALL";
  input_ports = record { name = "in"; edge_constraint = none } ∷ [];
  output_ports = record { name = "out"; edge_constraint = none } ∷ [];
  input_edge_constraint = record { minimum = 0; maximum = some 1 };
  output_edge_constraint = record { minimum = 0; maximum = none };
  routing_mode = "BROADCAST";
  validator = none;
  allowed_execution_sources = [];
  connection_restrictions = [];
  has_handler = true;
}

abbrev step_of : String → Option (NodeRegistration ℕ)
step_of type = elim (type == "step") [ true ↦ some step | false ↦ none ]

abbrev steps : Lookups ℕ
steps = record {
  registration = step_of;
  validate_configuration = none;
  connection_restricted = none;
}

straight-accepted : validate_workflow_definition steps straight ≡ []
unfolding validate_workflow_definition is_blank sort_by fault_issues edge_faults has_port
    find_cycle_path
straight-accepted = refl

validate-WellFormed_example : WellFormed steps straight
validate-WellFormed_example = validate-WellFormed steps straight straight-accepted

straight-acyclic : find_cycle_path straight ≡ []
unfolding find_cycle_path sort_by
straight-acyclic = refl

find_cycle_path-nil_IsAcyclic_example : ¬ Trail straight.edges "a" "a"
find_cycle_path-nil_IsAcyclic_example =
    find_cycle_path-nil_IsAcyclic straight "a" straight-acyclic (Memᴰ.head refl)

circular-cycle : find_cycle_path circular ≡ "a" ∷ "b" ∷ "a" ∷ []
unfolding find_cycle_path sort_by
circular-cycle = refl

find_cycle_path-cons_IsCycle_example :
    ((mid : List String) × (find_cycle_path circular ≡ "a" ∷ mid ++ "a" ∷ []))
    × FollowsEdges circular.edges (find_cycle_path circular)
find_cycle_path-cons_IsCycle_example =
    find_cycle_path-cons_IsCycle circular "a" ("b" ∷ "a" ∷ []) circular-cycle

downstream-Reach_example :
    (contains "b" (downstream straight ("a" ∷ [])) ≡ true) ↔ Reach straight.edges ("a" ∷ []) "b"
downstream-Reach_example = downstream-Reach straight ("a" ∷ []) "b"

cycle_search-total_example : (cycle : List String) × (cycle_search circular ≡ some cycle)
cycle_search-total_example = cycle_search-total circular
