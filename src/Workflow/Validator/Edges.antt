-- ===== src/Workflow/Validator/Edges.antt =====
-- workflow/validator.go: the loop over the edges, sorted by id.
use Prim.Native.String.{◌++◌ as str_append}
use miletos.Common.{
  String, Bool, true, false, not, ◌&&◌, Option, none, some, List, [], ◌∷◌, ◌++◌, contains, is_blank,
  str_lt, string_eq, ◌==◌, if◌then◌else◌,
}
use miletos.Workflow.{Edge, WorkflowNode}
use miletos.Plugin.{NodeRegistration, Port}
use miletos.Workflow.Validator.Issues.{
  ValidationIssue, Lookups, issue, invalid, node_issue, has_port, when,
}
use miletos.Workflow.Validator.Nodes.{NodeScan, node_of, registration_of}

abbrev pub edge_less : Edge → Edge → Bool
edge_less a b = str_lt a.id b.id

-- `strings.Join([]string{…}, "\x00")`
unfoldable pub edge_key : Edge → String
edge_key e = str_append e.source_node_id (
    str_append "\0" (
      str_append e.source_output_port
        (str_append "\0" (str_append e.target_node_id (str_append "\0" e.target_input_port)))))

abbrev edge_issue : String → String → Edge → ValidationIssue
edge_issue code field e = record (issue code field) { edge_id = e.id }

-- The tests that an edge may fail, in the order of the code.
pub record EdgeFaults : Type 0 where
  pub source_port_blank : Bool
  pub target_port_blank : Bool
  pub source_missing : Bool
  pub target_missing : Bool
  pub self_loop : Bool
  pub output_port_unknown : Bool
  pub input_port_unknown : Bool
  pub restricted : Bool
  pub duplicate : Bool

-- `edgeIDs`, the keys of `edgeKeys` and `validEdges` after some rounds, and the issues of the last.
pub record EdgeScan : Type 0 where
  pub edge_ids : List String
  pub edge_keys : List String
  pub valid_edges : List Edge
  pub issues : List ValidationIssue

-- `structurallyValid` at the end of a round.
abbrev pub structurally_valid : EdgeFaults → Bool
structurally_valid f =
    not f.source_port_blank
    && not f.target_port_blank
    && not f.source_missing
    && not f.target_missing
    && not f.self_loop
    && not f.output_port_unknown
    && not f.input_port_unknown
    && not f.restricted
    && not f.duplicate

module _ {V : Type 0} where
  -- An issue about an edge at one of its ends.
  abbrev at_end : String → String → Edge → Option (WorkflowNode V) → ValidationIssue
  at_end code field e none = edge_issue code field e
  at_end code field e (some node) = record (node_issue code field node) { edge_id = e.id }

  abbrev pub is_known : Option (WorkflowNode V) → Bool
  is_known none = false
  is_known (some node) = true

  abbrev pub is_registered : NodeScan V → String → Bool
  is_registered nodes node_id = elim (registration_of nodes.registrations node_id) [
    | none ↦ false
    | some r ↦ true
  ]

  -- A declared plugin does not have the port.
  abbrev lacks : (NodeRegistration V → List Port) → NodeScan V → String → String → Bool
  lacks ports nodes node_id port = elim (registration_of nodes.registrations node_id) [
    | none ↦ false
    | some r ↦ not (has_port (ports r) port)
  ]

  abbrev type_of : Option (WorkflowNode V) → String
  type_of none = ""
  type_of (some node) = node.type

  unfoldable pub edge_faults : Lookups V → NodeScan V → List String → Edge → EdgeFaults
  edge_faults lookups nodes edge_keys e =
      let source = node_of nodes.node_by_id e.source_node_id in
      let target = node_of nodes.node_by_id e.target_node_id in
      let source_port_blank = is_blank e.source_output_port in
      let target_port_blank = is_blank e.target_input_port in
      record {
        source_port_blank = source_port_blank;
        target_port_blank = target_port_blank;
        source_missing = not (is_known source);
        target_missing = not (is_known target);
        self_loop = e.source_node_id == e.target_node_id;
        output_port_unknown =
            is_known source
            && not source_port_blank
            && lacks (λ r. r.output_ports) nodes e.source_node_id e.source_output_port;
        input_port_unknown =
            is_known target
            && not target_port_blank
            && lacks (λ r. r.input_ports) nodes e.target_node_id e.target_input_port;
        restricted =
            is_known source
            && is_known target
            && not target_port_blank
            && (elim lookups.connection_restricted [
              | none ↦ false
              | some is_restricted ↦
                  is_registered nodes e.source_node_id
                  && is_registered nodes e.target_node_id
                  && is_restricted (type_of source) (type_of target) e.target_input_port
            ]);
        duplicate =
            not source_port_blank && not target_port_blank && contains (edge_key e) edge_keys;
      }

  unfoldable pub fault_issues : NodeScan V → Edge → EdgeFaults → List ValidationIssue
  fault_issues nodes e f =
      let source = node_of nodes.node_by_id e.source_node_id in
      let target = node_of nodes.node_by_id e.target_node_id in
      when f.source_port_blank (edge_issue "UNKNOWN_OUTPUT_PORT" "sourceOutputPort" e)
      ++ (when f.target_port_blank (edge_issue "UNKNOWN_INPUT_PORT" "targetInputPort" e)
          ++ (when f.source_missing (edge_issue "INVALID_WORKFLOW_DEFINITION" "sourceNodeId" e)
              ++ (when f.target_missing (edge_issue "INVALID_WORKFLOW_DEFINITION" "targetNodeId" e)
                  ++ (when f.self_loop
                        (record (edge_issue "INVALID_WORKFLOW_DEFINITION" "targetNodeId" e) {
                          node_id = e.source_node_id;
                        })
                      ++ (when f.output_port_unknown
                            (at_end "UNKNOWN_OUTPUT_PORT" "sourceOutputPort" e source)
                          ++ (when f.input_port_unknown
                                (at_end "UNKNOWN_INPUT_PORT" "targetInputPort" e target)
                              ++ (when f.restricted
                                    (at_end "EDGE_CONNECTION_RESTRICTED" "targetInputPort" e target)
                                  ++ when f.duplicate
                                      (edge_issue "DUPLICATE_EDGE" "definition.edges" e))))))))

  -- One round of the loop over the edges.
  unfoldable pub check_edge : Lookups V → NodeScan V → EdgeScan → Edge → EdgeScan
  check_edge lookups nodes scan e =
      if is_blank e.id
      then record scan { issues = invalid "definition.edges[].id" ∷ [] }
      else if contains e.id scan.edge_ids
      then record scan { issues = record (invalid "definition.edges[].id") { edge_id = e.id } ∷ [] }
      else let f = edge_faults lookups nodes scan.edge_keys e in
        record {
          edge_ids = e.id ∷ scan.edge_ids;
          edge_keys =
              if not f.source_port_blank && not f.target_port_blank && not f.duplicate
              then edge_key e ∷ scan.edge_keys
              else scan.edge_keys;
          valid_edges =
              if structurally_valid f then scan.valid_edges ++ e ∷ [] else scan.valid_edges;
          issues = fault_issues nodes e f;
        }

  unfoldable pub check_edges : Lookups V → NodeScan V → EdgeScan → List Edge → EdgeScan
  unfolding check_edge
  check_edges lookups nodes scan [] = record scan { issues = [] }
  check_edges lookups nodes scan (e ∷ edges) =
      let round = check_edge lookups nodes scan e in
      let rest = check_edges lookups nodes round edges in
      record rest { issues = round.issues ++ rest.issues }

abbrev pub new_edge_scan : EdgeScan
new_edge_scan = record { edge_ids = []; edge_keys = []; valid_edges = []; issues = [] }
