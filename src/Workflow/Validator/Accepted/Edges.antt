-- ===== src/Workflow/Validator/Accepted/Edges.antt =====
-- workflow/validator.go: a loop over the edges that finds no issue.
use mathlib.Core.List.{append-nil, append_assoc}
use miletos.Common.{
  String, ◌≤◌, ◌≡◌, refl, sym, ◌∙◌, inl, inr, true, false, List, [], ◌∷◌, ◌++◌, Memᴰ, arith,
  count_where, contains, is_blank, string_eq, ◌==◌, ==_iff, Bool-cases,
}
use miletos.Workflow.{Edge}
use miletos.Workflow.Validator.Issues.{ValidationIssue, Lookups}
use miletos.Workflow.Validator.Nodes.{NodeScan}
use miletos.Workflow.Validator.Edges.{
  EdgeFaults, EdgeScan, edge_key, edge_faults, fault_issues, check_edge, check_edges,
}
use miletos.Workflow.Validator.Accepted.Nodes.{append-eq-nil}

pub record NoFault (f : EdgeFaults) : Type 0 where
  pub source_port_filled : f.source_port_blank ≡ false
  pub target_port_filled : f.target_port_blank ≡ false
  pub source_known : f.source_missing ≡ false
  pub target_known : f.target_missing ≡ false
  pub no_loop : f.self_loop ≡ false
  pub output_port_known : f.output_port_unknown ≡ false
  pub input_port_known : f.input_port_unknown ≡ false
  pub allowed : f.restricted ≡ false
  pub first_of_its_kind : f.duplicate ≡ false

module _ {V : Type 0} (lookups : Lookups V) (nodes : NodeScan V) where
  fault_issues-NoFault : (e : Edge) (f : EdgeFaults) → fault_issues nodes e f ≡ [] → NoFault f
  unfolding fault_issues
  fault_issues-NoFault e f h = ground arith

  -- What an edge has that passed its round, with the connections of the edges before it.
  pub record EdgeOk (edge_keys : List String) (e : Edge) : Type 0 where
    pub id_filled : is_blank e.id ≡ false
    pub no_fault : NoFault (edge_faults lookups nodes edge_keys e)

  record RoundOk (scan : EdgeScan) (e : Edge) : Type 0 where
    edge_ok : EdgeOk scan.edge_keys e
    new_id : contains e.id scan.edge_ids ≡ false
    ids : (check_edge lookups nodes scan e).edge_ids ≡ e.id ∷ scan.edge_ids
    keys : (check_edge lookups nodes scan e).edge_keys ≡ edge_key e ∷ scan.edge_keys
    valid : (check_edge lookups nodes scan e).valid_edges ≡ scan.valid_edges ++ e ∷ []

  check_edge-RoundOk :
      (scan : EdgeScan) (e : Edge) → (check_edge lookups nodes scan e).issues ≡ [] → RoundOk scan e
  unfolding check_edge
  check_edge-RoundOk scan e h = elim (Bool-cases (is_blank e.id)) [
    | inl blank ↦ absurd (ground arith)
    | inr filled ↦ elim (Bool-cases (contains e.id scan.edge_ids)) [
      | inl seen ↦ absurd (ground arith)
      | inr new ↦
          let ok =
            fault_issues-NoFault e (edge_faults lookups nodes scan.edge_keys e) (ground arith) in
          record {
            edge_ok = record { id_filled = filled; no_fault = ok };
            new_id = new;
            ids = ground arith;
            keys = ground (arith, ok);
            valid = ground (arith, ok);
          }
    ]
  ]

  not_duplicate :
      (edge_keys : List String) (e : Edge)
      → EdgeOk edge_keys e
      → contains (edge_key e) edge_keys ≡ false
  not_duplicate edge_keys e ok = unfold edge_faults in ground (arith, ok)

  -- A loop without an issue has passed every edge, and all edges are valid.
  pub record LoopOk (scan final : EdgeScan) (edges : List Edge) : Type 0 where
    pub each : (e : Edge) → Memᴰ e edges → (edge_keys : List String) × EdgeOk edge_keys e
    pub all_valid : final.valid_edges ≡ scan.valid_edges ++ edges
    pub id_once : (id : String) → count_where (λ e. e.id == id) edges ≤ 1
    pub id_new :
        (id : String) → contains id scan.edge_ids ≡ true → count_where (λ e. e.id == id) edges ≡ 0
    pub key_once : (key : String) → count_where (λ e. edge_key e == key) edges ≤ 1
    pub key_new :
        (key : String)
        → contains key scan.edge_keys ≡ true
        → count_where (λ e. edge_key e == key) edges ≡ 0

  abbrev with_issues : EdgeScan → List ValidationIssue → EdgeScan
  with_issues final issues = record final { issues = issues }

  extend :
      (scan : EdgeScan) (e : Edge) (edges : List Edge) (final : EdgeScan)
      (issues : List ValidationIssue)
      → RoundOk scan e
      → LoopOk (check_edge lookups nodes scan e) final edges
      → LoopOk scan (with_issues final issues) (e ∷ edges)
  extend scan e edges final issues r l = record {
    each = each;
    all_valid = l.all_valid ∙ rw r.valid (append_assoc scan.valid_edges (e ∷ []) edges);
    id_once = λ id. elim (Bool-cases (e.id == id)) [
      | inl same ↦ rw same (omega (arith, l.id_new id (rw r.ids (rw same))))
      | inr other ↦ rw other (l.id_once id)
    ];
    id_new = λ id h. elim (Bool-cases (e.id == id)) [
      | inl same ↦ cc (rw (← (==_iff e.id id).0 same) at h, r.new_id)
      | inr other ↦ rw other (l.id_new id (rw r.ids (rw other h)))
    ];
    key_once = λ key. elim (Bool-cases (edge_key e == key)) [
      | inl same ↦ rw same (omega (arith, l.key_new key (rw r.keys (rw same))))
      | inr other ↦ rw other (l.key_once key)
    ];
    key_new = λ key h. elim (Bool-cases (edge_key e == key)) [
      | inl same ↦
          cc
            (rw (← (==_iff (edge_key e) key).0 same) at h, not_duplicate scan.edge_keys e r.edge_ok)
      | inr other ↦ rw other (l.key_new key (rw r.keys (rw other h)))
    ];
  }
    where
      each : (d : Edge) → Memᴰ d (e ∷ edges) → (edge_keys : List String) × EdgeOk edge_keys d
      each d (Memᴰ.head p) = (scan.edge_keys, rw p r.edge_ok)
      each d (Memᴰ.tail m) = l.each d m

  pub check_edges-LoopOk :
      (scan : EdgeScan) (edges : List Edge)
      → (check_edges lookups nodes scan edges).issues ≡ []
      → LoopOk scan (check_edges lookups nodes scan edges) edges
  unfolding check_edges
  check_edges-LoopOk scan [] h = record {
    each = λ e m. elim m [ ];
    all_valid = sym (append-nil scan.valid_edges);
    id_once = λ id. omega arith;
    id_new = λ id k. refl;
    key_once = λ key. omega arith;
    key_new = λ key k. refl;
  }
  check_edges-LoopOk scan (e ∷ edges) h =
      let (first, later) =
        append-eq-nil (check_edge lookups nodes scan e).issues
          (check_edges lookups nodes (check_edge lookups nodes scan e) edges).issues h in
      extend scan e edges (check_edges lookups nodes (check_edge lookups nodes scan e) edges) _
        (check_edge-RoundOk scan e first)
        (check_edges-LoopOk (check_edge lookups nodes scan e) edges later)
