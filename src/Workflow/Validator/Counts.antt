-- ===== src/Workflow/Validator/Counts.antt =====
-- workflow/validator.go: the numbers of edges at a node and at its ports.
use miletos.Common.{
  ℕ, String, Bool, false, not, ◌&&◌, Option, none, some, List, [], ◌∷◌, ◌++◌, map, length,
  count_where, ltb, nat_eq, string_eq, ◌==◌, if◌then◌else◌,
}
use miletos.Workflow.{Edge, WorkflowNode}
use miletos.Plugin.{NodeRegistration, Port, EdgeConstraint}
use miletos.Workflow.Validator.Issues.{ValidationIssue, node_issue, when}

pub data Direction : Type 0 where
  input output : Direction

abbrev below_code : Direction → String
below_code input = "INPUT_EDGE_COUNT_BELOW_MINIMUM"
below_code output = "OUTPUT_EDGE_COUNT_BELOW_MINIMUM"

abbrev above_code : Direction → String
above_code input = "INPUT_EDGE_COUNT_ABOVE_MAXIMUM"
above_code output = "OUTPUT_EDGE_COUNT_ABOVE_MAXIMUM"

abbrev count_field : Direction → String
count_field input = "inputEdges"
count_field output = "outputEdges"

-- `constraint.Maximum != nil && actual > *constraint.Maximum`
abbrev pub exceeds : ℕ → Option ℕ → Bool
exceeds actual none = false
exceeds actual (some maximum) = ltb maximum actual

-- `outgoing[id]`, `incoming[id]` and `incomingByPort[id][port]`
abbrev pub outgoing_count : List Edge → String → ℕ
outgoing_count edges node_id = count_where (λ e. e.source_node_id == node_id) edges

abbrev pub incoming_count : List Edge → String → ℕ
incoming_count edges node_id = count_where (λ e. e.target_node_id == node_id) edges

abbrev pub port_count : List Edge → String → String → ℕ
port_count edges node_id port =
    count_where (λ e. e.target_node_id == node_id && e.target_input_port == port) edges

abbrev port_issue : ValidationIssue → ValidationIssue
port_issue i = record i { code = "INPUT_PORT_EDGE_COUNT_INVALID"; field = "inputEdges" }

module _ {V : Type 0} where
  unfoldable pub constraint_issues :
      WorkflowNode V → Direction → ℕ → EdgeConstraint → List ValidationIssue
  constraint_issues node direction actual constraint =
      when (ltb actual constraint.minimum)
        (node_issue (below_code direction) (count_field direction) node)
      ++ when (exceeds actual constraint.maximum)
          (node_issue (above_code direction) (count_field direction) node)

  -- `fixedMultiInputPortIssues` does not return early: every port takes exactly one edge.
  abbrev pub is_fixed_multi : NodeRegistration V → Bool
  is_fixed_multi r = r.input_mode == "MULTI" && (elim r.input_edge_constraint.maximum [
    | none ↦ false
    | some maximum ↦
        r.input_edge_constraint.minimum == maximum
        && r.input_edge_constraint.minimum == length r.input_ports
  ])

  abbrev pub single_port_issues : WorkflowNode V → (String → ℕ) → List Port → List ValidationIssue
  single_port_issues node incoming [] = []
  single_port_issues node incoming (p ∷ ps) =
      when (not (incoming p.name == 1))
        (node_issue "INPUT_PORT_EDGE_COUNT_INVALID" "inputEdges" node)
      ++ single_port_issues node incoming ps

  unfoldable pub fixed_multi_input_port_issues :
      WorkflowNode V → NodeRegistration V → (String → ℕ) → List ValidationIssue
  fixed_multi_input_port_issues node r incoming =
      if is_fixed_multi r then single_port_issues node incoming r.input_ports else []

  abbrev pub one_port_issues : WorkflowNode V → (String → ℕ) → Port → List ValidationIssue
  one_port_issues node incoming p = elim p.edge_constraint [
    | none ↦ []
    | some constraint ↦ map port_issue (constraint_issues node input (incoming p.name) constraint)
  ]

  unfoldable pub port_constraint_issues :
      WorkflowNode V → List Port → (String → ℕ) → List ValidationIssue
  unfolding constraint_issues
  port_constraint_issues node [] incoming = []
  port_constraint_issues node (p ∷ ps) incoming =
      one_port_issues node incoming p ++ port_constraint_issues node ps incoming
