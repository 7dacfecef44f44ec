-- ===== src/Workflow/Validator/Validate.antt =====
-- workflow/validator.go: `ValidateWorkflowDefinition`, composed of the checks.
use miletos.Common.{none, some, List, [], ◌∷◌, ◌++◌, sort_by}
use miletos.Workflow.{Edge, WorkflowNode, Workflow}
use miletos.Workflow.Graph.Cycle.{find_cycle_path}
use miletos.Workflow.Validator.Issues.{ValidationIssue, Lookups, issue}
use miletos.Workflow.Validator.Nodes.{
  NodeScan, header_issues, node_less, registration_of, check_nodes, new_scan,
}
use miletos.Workflow.Validator.Edges.{edge_less, check_edges, new_edge_scan}
use miletos.Workflow.Validator.Counts.{
  input, output, incoming_count, outgoing_count, port_count, constraint_issues,
  fixed_multi_input_port_issues, port_constraint_issues,
}

module _ {V : Type 0} where
  unfoldable pub count_issues : NodeScan V → List Edge → WorkflowNode V → List ValidationIssue
  unfolding constraint_issues fixed_multi_input_port_issues port_constraint_issues
  count_issues nodes valid_edges node = elim (registration_of nodes.registrations node.id) [
    | none ↦ []
    | some declaration ↦
        constraint_issues node input (incoming_count valid_edges node.id)
          declaration.input_edge_constraint
        ++ (constraint_issues node output (outgoing_count valid_edges node.id)
              declaration.output_edge_constraint
            ++ (fixed_multi_input_port_issues node declaration (port_count valid_edges node.id)
                ++ port_constraint_issues node declaration.input_ports
                    (port_count valid_edges node.id)))
  ]

  unfoldable pub all_count_issues :
      NodeScan V → List Edge → List (WorkflowNode V) → List ValidationIssue
  unfolding count_issues
  all_count_issues nodes valid_edges [] = []
  all_count_issues nodes valid_edges (node ∷ rest) =
      count_issues nodes valid_edges node ++ all_count_issues nodes valid_edges rest

  unfoldable pub cycle_issues : Workflow V → List ValidationIssue
  cycle_issues w = elim (find_cycle_path w) [
    | [] ↦ []
    | x ∷ xs ↦ record (issue "CYCLE_DETECTED" "definition.edges") { cycle_path = x ∷ xs } ∷ []
  ]

  -- The issues found, in order; a workflow with none is accepted.
  unfoldable pub validate_workflow_definition : Lookups V → Workflow V → List ValidationIssue
  unfolding header_issues check_nodes check_edges all_count_issues cycle_issues
  validate_workflow_definition lookups w =
      let nodes = sort_by node_less w.nodes in
      let node_scan = check_nodes lookups new_scan nodes in
      let edge_scan = check_edges lookups node_scan new_edge_scan (sort_by edge_less w.edges) in
      header_issues w
      ++ (node_scan.issues
          ++ (edge_scan.issues
              ++ (all_count_issues node_scan edge_scan.valid_edges nodes
                  ++ cycle_issues (record w { edges = edge_scan.valid_edges }))))
