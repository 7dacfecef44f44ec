-- ===== src/Workflow/Validator/Accepted/WellFormed.antt =====
-- workflow/validator.go: what `ValidateWorkflowDefinition` promises of a workflow that it accepts.
use miletos.Common.{
  ◌≤◌, ◌<◌, String, ◌≡◌, ◌∙◌, ◌≢◌, inl, inr, Bool, true, false, some, List, [], ◌∷◌, Memᴰ, arith,
  length, count_where, is_blank, string_eq, ◌==◌, ==_iff, Bool-cases, Option-cases, sort_by,
  sort_by-mem, mem-sort_by, count-sort_by,
}
use miletos.Workflow.{Edge, WorkflowNode, Workflow}
use miletos.Workflow.Graph.Reach.{HasEdge}
use miletos.Workflow.Graph.Cycle.{node_ids_of, find_cycle_path}
use miletos.Workflow.Graph.Cycle.Report.{Trail, find_cycle_path-nil_IsAcyclic}
use miletos.Plugin.{NodeRegistration}
use miletos.Workflow.Validator.Issues.{Lookups, has_port}
use miletos.Workflow.Validator.Nodes.{
  NodeScan, header_issues, node_less, node_of, registration_of, check_nodes, new_scan,
}
use miletos.Workflow.Validator.Edges.{
  EdgeScan, edge_less, edge_key, edge_faults, check_edges, new_edge_scan,
}
use miletos.Workflow.Validator.Validate.{
  all_count_issues, cycle_issues, validate_workflow_definition,
}
use miletos.Workflow.Validator.Accepted.Nodes as NodeLoop
use miletos.Workflow.Validator.Accepted.Nodes.{append-eq-nil, NodeOk, check_nodes-LoopOk}
use miletos.Workflow.Validator.Accepted.Edges.{EdgeOk, check_edges-LoopOk}
use miletos.Workflow.Validator.Accepted.Counts.{CountsOk, all_count_issues-CountsOk}

pub record HeaderOk {V : Type 0} (w : Workflow V) : Type 0 where
  pub id_filled : is_blank w.id ≡ false
  pub company_filled : is_blank w.company_id ≡ false
  pub name_filled : is_blank w.name ≡ false
  pub revision_positive : 0 < w.revision
  pub has_node : 0 < length w.nodes
  pub node_limit : length w.nodes ≤ 1000
  pub edge_limit : length w.edges ≤ 5000

module _ {V : Type 0} (lookups : Lookups V) (w : Workflow V) where
  -- The edge joins two listed nodes, at ports that their plugins declare, as the rules allow.
  pub record EdgeWellFormed (e : Edge) : Type 0 where
    pub id_filled : is_blank e.id ≡ false
    pub source : WorkflowNode V
    pub source_listed : Memᴰ source w.nodes
    pub source_id : source.id ≡ e.source_node_id
    pub target : WorkflowNode V
    pub target_listed : Memᴰ target w.nodes
    pub target_id : target.id ≡ e.target_node_id
    pub no_loop : e.source_node_id ≢ e.target_node_id
    pub output_port :
        (r : NodeRegistration V)
        → lookups.registration source.type ≡ some r
        → has_port r.output_ports e.source_output_port ≡ true
    pub input_port :
        (r : NodeRegistration V)
        → lookups.registration target.type ≡ some r
        → has_port r.input_ports e.target_input_port ≡ true
    pub allowed :
        (is_restricted : String → String → String → Bool)
        → lookups.connection_restricted ≡ some is_restricted
        → is_restricted source.type target.type e.target_input_port ≡ false

  -- The node is typed by a declared plugin that accepts its configuration and its edges.
  pub record NodeWellFormed (n : WorkflowNode V) : Type 0 where
    pub node_ok : NodeOk lookups n
    pub counts : CountsOk w.edges n.id node_ok.declaration

  pub record WellFormed : Type 0 where
    pub header : HeaderOk w
    pub node_once : (id : String) → count_where (λ n. n.id == id) w.nodes ≤ 1
    pub nodes_ok : (n : WorkflowNode V) → Memᴰ n w.nodes → NodeWellFormed n
    pub edge_once : (id : String) → count_where (λ e. e.id == id) w.edges ≤ 1
    pub connection_once : (key : String) → count_where (λ e. edge_key e == key) w.edges ≤ 1
    pub edges_ok : (e : Edge) → Memᴰ e w.edges → EdgeWellFormed e
    pub acyclic : (n : String) → Memᴰ n (node_ids_of w) → ¬ Trail w.edges n n

header_issues-HeaderOk : {V : Type 0} (w : Workflow V) → header_issues w ≡ [] → HeaderOk w
unfolding header_issues
header_issues-HeaderOk w h = ground arith

node_of-id :
    {V : Type 0} (nodes : List (WorkflowNode V)) (id : String) (n : WorkflowNode V)
    → node_of nodes id ≡ some n
    → n.id ≡ id
node_of-id [] id n h = cc
node_of-id (x ∷ xs) id n h = elim (Bool-cases (x.id == id)) [
  | inl same ↦ let e : some x ≡ some n = rw same at h in rw (← (==_iff x.id id).0 same) (cc e)
  | inr other ↦ node_of-id xs id n (rw other at h)
]

module _ {V : Type 0} (lookups : Lookups V) (w : Workflow V) (scan : NodeScan V)
    (loop : NodeLoop.LoopOk lookups new_scan scan (sort_by node_less w.nodes)) where
  -- A node that the loop has entered is listed, and its registration is the lookup's.
  record Entered (id : String) (node : WorkflowNode V) : Type 0 where
    listed : Memᴰ node w.nodes
    has_id : node.id ≡ id
    declaration : NodeRegistration V
    declared : lookups.registration node.type ≡ some declaration
    registered : registration_of scan.registrations id ≡ some declaration

  entered : (id : String) (n : WorkflowNode V) → node_of scan.node_by_id id ≡ some n → Entered id n
  entered id n e =
      let same = node_of-id scan.node_by_id id n e in
      elim (loop.known_origin id n e) [
        | inl k ↦ absurd (ground arith)
        | inr m ↦
            let ok = loop.each n m in
            record {
              listed = mem-sort_by node_less w.nodes m;
              has_id = same;
              declaration = ok.declaration;
              declared = ok.declared;
              registered = (rw same at (loop.registered n m)) ∙ ok.declared;
            }
      ]

  EdgeOk-EdgeWellFormed :
      (edge_keys : List String) (e : Edge)
      → EdgeOk lookups scan edge_keys e
      → EdgeWellFormed lookups w e
  unfolding edge_faults
  EdgeOk-EdgeWellFormed edge_keys e ok =
      elim (Option-cases (node_of scan.node_by_id e.source_node_id)) [
        | inl missing ↦ absurd (ground (arith, ok.no_fault.source_known))
        | inr (s, found_s) ↦ elim (Option-cases (node_of scan.node_by_id e.target_node_id)) [
          | inl missing ↦ absurd (ground (arith, ok.no_fault.target_known))
          | inr (t, found_t) ↦
              let source = entered e.source_node_id s found_s in
              let target = entered e.target_node_id t found_t in
              let f = ok.no_fault in
              record {
                id_filled = ok.id_filled;
                source = s;
                source_listed = source.listed;
                source_id = source.has_id;
                target = t;
                target_listed = target.listed;
                target_id = target.has_id;
                no_loop = λ p. cc (f.no_loop, (==_iff e.source_node_id e.target_node_id).1 p);
                output_port = λ r p. ground (
                  arith, source.declared, source.registered, f.output_port_known,
                  f.source_port_filled, found_s,
                );
                input_port = λ r p. ground (
                  arith, target.declared, target.registered, f.input_port_known,
                  f.target_port_filled, found_t,
                );
                allowed = λ is_restricted p. ground (
                  arith, source.registered, target.registered, f.allowed, f.target_port_filled,
                  found_s, found_t,
                );
              }
        ]
      ]

HasEdge-sort_by :
    (edges : List Edge) {m n : String} → HasEdge edges m n → HasEdge (sort_by edge_less edges) m n
HasEdge-sort_by edges (e, k, p, q) = (e, sort_by-mem edge_less edges k, p, q)

Trail-sort_by :
    (edges : List Edge) {m n : String} → Trail edges m n → Trail (sort_by edge_less edges) m n
Trail-sort_by edges (Trail.edge e) = Trail.edge (HasEdge-sort_by edges e)
Trail-sort_by edges (Trail.then e t) = Trail.then (HasEdge-sort_by edges e) (Trail-sort_by edges t)

CountsOk-sort_by :
    {V : Type 0} (edges : List Edge) (id : String) (r : NodeRegistration V)
    → CountsOk (sort_by edge_less edges) id r
    → CountsOk edges id r
CountsOk-sort_by edges id r c = record {
  inputs = rw (count-sort_by edge_less _ edges) at c.inputs;
  outputs = rw (count-sort_by edge_less _ edges) at c.outputs;
  fixed = λ b p m. rw (count-sort_by edge_less _ edges) at (c.fixed b p m);
  ports = λ p k m e. rw (count-sort_by edge_less _ edges) at (c.ports p k m e);
}

cycle_issues-nil : {V : Type 0} (w : Workflow V) → cycle_issues w ≡ [] → find_cycle_path w ≡ []
unfolding cycle_issues
cycle_issues-nil w h = ground arith

-- The results of the two loops.
abbrev node_scan_of : {V : Type 0} → Lookups V → Workflow V → NodeScan V
node_scan_of lookups w = check_nodes lookups new_scan (sort_by node_less w.nodes)

abbrev edge_scan_of : {V : Type 0} → Lookups V → Workflow V → EdgeScan
edge_scan_of lookups w =
    check_edges lookups (node_scan_of lookups w) new_edge_scan (sort_by edge_less w.edges)

record NoIssue {V : Type 0} (lookups : Lookups V) (w : Workflow V) : Type 0 where
  in_header : header_issues w ≡ []
  in_nodes : (node_scan_of lookups w).issues ≡ []
  in_edges : (edge_scan_of lookups w).issues ≡ []
  in_counts :
      all_count_issues
        (node_scan_of lookups w)
        (edge_scan_of lookups w).valid_edges
        (sort_by node_less w.nodes)
      ≡ []
  in_graph : cycle_issues (record w { edges = (edge_scan_of lookups w).valid_edges }) ≡ []

validate-NoIssue :
    {V : Type 0} (lookups : Lookups V) (w : Workflow V)
    → validate_workflow_definition lookups w ≡ []
    → NoIssue lookups w
unfolding validate_workflow_definition
validate-NoIssue lookups w h =
    let (a, h1) = append-eq-nil (header_issues w) _ h in
    let (b, h2) = append-eq-nil (node_scan_of lookups w).issues _ h1 in
    let (c, h3) = append-eq-nil (edge_scan_of lookups w).issues _ h2 in
    let (d, e) =
      append-eq-nil
        (all_count_issues (node_scan_of lookups w) (edge_scan_of lookups w).valid_edges
          (sort_by node_less w.nodes))
        _ h3 in
    record { in_header = a; in_nodes = b; in_edges = c; in_counts = d; in_graph = e }

-- A workflow definition in which the validation finds no issue is well formed: its own fields are
-- filled and its sizes within the limits; node ids, edge ids and connections occur once; every node
-- has a declared plugin that accepts its configuration, and numbers of edges, in all and at each
-- port, that the plugin allows; every edge joins two different listed nodes at declared ports and is
-- not restricted; and no node can be reached from itself along edges.
pub validate-WellFormed :
    {V : Type 0} (lookups : Lookups V) (w : Workflow V)
    → validate_workflow_definition lookups w ≡ []
    → WellFormed lookups w
validate-WellFormed lookups w h =
    let none_found = validate-NoIssue lookups w h in
    let scan = node_scan_of lookups w in
    let nodes =
      check_nodes-LoopOk lookups new_scan (sort_by node_less w.nodes) none_found.in_nodes in
    let edges =
      check_edges-LoopOk lookups scan new_edge_scan (sort_by edge_less w.edges)
        none_found.in_edges in
    record {
      header = header_issues-HeaderOk w none_found.in_header;
      node_once = λ id. rw count-sort_by at (nodes.once id);
      nodes_ok = λ n m.
          let m' = sort_by-mem node_less w.nodes m in
          let ok = nodes.each n m' in
          record {
            node_ok = ok;
            counts = CountsOk-sort_by w.edges n.id ok.declaration (
                rw edges.all_valid at (
                  all_count_issues-CountsOk scan (edge_scan_of lookups w).valid_edges
                    (sort_by node_less w.nodes) none_found.in_counts n ok.declaration m'
                    (nodes.registered n m' ∙ ok.declared)));
          };
      edge_once = λ id. rw count-sort_by at (edges.id_once id);
      connection_once = λ key. rw count-sort_by at (edges.key_once key);
      edges_ok = λ e m.
          let (keys, ok) = edges.each e (sort_by-mem edge_less w.edges m) in
          EdgeOk-EdgeWellFormed lookups w scan nodes keys e ok;
      acyclic = λ n m t.
          find_cycle_path-nil_IsAcyclic (record w { edges = sort_by edge_less w.edges }) n
            (cycle_issues-nil (record w { edges = sort_by edge_less w.edges })
              (rw edges.all_valid at none_found.in_graph))
            m (Trail-sort_by w.edges t);
    }
