-- ===== src/Workflow/Validator/Nodes.antt =====
-- workflow/validator.go: the checks of the header and the loop over the sorted nodes.
use miletos.Common.{
  String, Bool, Option, none, some, List, [], ◌∷◌, ◌++◌, length, find_where, is_blank, str_lt, ltb,
  nat_eq, string_eq, ◌==◌, if◌then◌else◌,
}
use miletos.Workflow.{WorkflowNode, Workflow}
use miletos.Workflow.Graph.{is_empty}
use miletos.Plugin.{NodeRegistration}
use miletos.Workflow.Validator.Issues.{
  ValidationIssue, Lookups, invalid, node_issue, configuration_issue_code, when,
}

-- The checks of the definition's own fields and sizes.
unfoldable pub header_issues : {V : Type 0} → Workflow V → List ValidationIssue
header_issues w =
    when (is_blank w.id) (invalid "definition.id")
    ++ (when (is_blank w.company_id) (invalid "definition.companyId")
        ++ (when (is_blank w.name) (invalid "definition.name")
            ++ (when (w.revision == 0) (invalid "definition.revision")
                ++ (when (is_empty w.nodes) (invalid "definition.nodes")
                    ++ (when (ltb 1000 (length w.nodes)) (invalid "definition.nodes")
                        ++ when (ltb 5000 (length w.edges)) (invalid "definition.edges"))))))

abbrev pub node_less : {V : Type 0} → WorkflowNode V → WorkflowNode V → Bool
node_less a b = if a.id == b.id then str_lt a.type b.type else str_lt a.id b.id

-- `nodeByID` and `registrations` after some rounds of the loop, and the issues of the last ones.
pub record NodeScan (V : Type 0) : Type 0 where
  pub node_by_id : List (WorkflowNode V)
  pub registrations : List (String × NodeRegistration V)
  pub issues : List ValidationIssue

module _ {V : Type 0} where
  -- `nodeByID[id]`
  abbrev pub node_of : List (WorkflowNode V) → String → Option (WorkflowNode V)
  node_of nodes node_id = find_where (λ n. n.id == node_id) nodes

  -- `registrations[id]`
  abbrev pub registration_of :
      List (String × NodeRegistration V) → String → Option (NodeRegistration V)
  registration_of [] node_id = none
  registration_of ((id, r) ∷ rs) node_id =
      let rest = registration_of rs node_id in if id == node_id then some r else rest

  abbrev pub configuration_issues : Lookups V → WorkflowNode V → List ValidationIssue
  configuration_issues lookups node = elim lookups.validate_configuration [
    | none ↦ []
    | some validate ↦ elim (validate node.type node.configuration) [
      | none ↦ []
      | some e ↦ node_issue (configuration_issue_code e) "configuration" node ∷ []
    ]
  ]

  -- The part of a round after `nodeByID[node.ID] = node`.
  unfoldable pub register : Lookups V → NodeScan V → WorkflowNode V → NodeScan V
  register lookups scan node =
      if is_blank node.type
      then record scan { issues = record (invalid "pluginType") { node_id = node.id } ∷ [] }
      else elim (lookups.registration node.type) [
        | none ↦ record scan { issues = node_issue "PLUGIN_NOT_FOUND" "pluginType" node ∷ [] }
        | some declaration ↦ record scan {
          registrations = (node.id, declaration) ∷ scan.registrations;
          issues = configuration_issues lookups node;
        }
      ]

  -- One round of the loop, from the maps that the rounds before have filled.
  unfoldable pub check_node : Lookups V → NodeScan V → WorkflowNode V → NodeScan V
  unfolding register
  check_node lookups scan node =
      if is_blank node.id
      then record scan { issues = invalid "definition.nodes[].id" ∷ [] }
      else elim (node_of scan.node_by_id node.id) [
        | some _ ↦ record scan {
          issues = record (invalid "definition.nodes[].id") { node_id = node.id } ∷ [];
        }
        | none ↦ register lookups (record scan { node_by_id = node ∷ scan.node_by_id }) node
      ]

  unfoldable pub check_nodes : Lookups V → NodeScan V → List (WorkflowNode V) → NodeScan V
  unfolding check_node
  check_nodes lookups scan [] = record scan { issues = [] }
  check_nodes lookups scan (node ∷ nodes) =
      let round = check_node lookups scan node in
      let rest = check_nodes lookups round nodes in
      record rest { issues = round.issues ++ rest.issues }

  abbrev pub new_scan : NodeScan V
  new_scan = record { node_by_id = []; registrations = []; issues = [] }
