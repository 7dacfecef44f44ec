-- ===== src/Workflow/Validator/Accepted/Nodes.antt =====
-- workflow/validator.go: a loop over the nodes that finds no issue.
use miletos.Common.{
  String, ◌≡◌, refl, sym, ◌∙◌, ◌⊎◌, inl, inr, false, none, some, List, [], ◌∷◌, ◌++◌, Memᴰ, arith,
  ◌≤◌, count_where, is_blank, string_eq, ◌==◌, ==_iff, ==_refl, Bool-cases, Option-cases,
}
use miletos.Workflow.{WorkflowNode}
use miletos.Plugin.{NodeRegistration}
use miletos.Workflow.Validator.Issues.{ValidationIssue, Lookups}
use miletos.Workflow.Validator.Nodes.{
  NodeScan, node_of, registration_of, configuration_issues, check_node, check_nodes,
}

pub append-eq-nil {ℓ} : {A : Type ℓ} (xs ys : List A) → xs ++ ys ≡ [] → (xs ≡ []) × (ys ≡ [])
append-eq-nil [] ys h = (refl, h)
append-eq-nil (x ∷ xs) ys h = cc

module _ {V : Type 0} (lookups : Lookups V) where
  -- What a node has that passed its round.
  pub record NodeOk (node : WorkflowNode V) : Type 0 where
    pub id_filled : is_blank node.id ≡ false
    pub type_filled : is_blank node.type ≡ false
    pub declaration : NodeRegistration V
    pub declared : lookups.registration node.type ≡ some declaration
    pub configured : configuration_issues lookups node ≡ []

  -- A round without an issue enters the node and its registration.
  record RoundOk (scan : NodeScan V) (node : WorkflowNode V) : Type 0 where
    node_ok : NodeOk node
    new : node_of scan.node_by_id node.id ≡ none
    entered : (check_node lookups scan node).node_by_id ≡ node ∷ scan.node_by_id
    registered :
        (check_node lookups scan node).registrations
        ≡ (node.id, node_ok.declaration) ∷ scan.registrations

  check_node-RoundOk :
      (scan : NodeScan V) (node : WorkflowNode V)
      → (check_node lookups scan node).issues ≡ []
      → RoundOk scan node
  unfolding check_node
  check_node-RoundOk scan node h = elim (Bool-cases (is_blank node.id)) [
    | inl blank ↦ absurd (ground arith)
    | inr filled ↦ elim (Option-cases (node_of scan.node_by_id node.id)) [
      | inr (old, e) ↦ absurd (ground arith)
      | inl new ↦ elim (Bool-cases (is_blank node.type)) [
        | inl blank ↦ absurd (ground arith)
        | inr typed ↦ elim (Option-cases (lookups.registration node.type)) [
          | inl missing ↦ absurd (ground arith)
          | inr (declaration, declared) ↦ record {
            node_ok = record {
              id_filled = filled;
              type_filled = typed;
              declaration = declaration;
              declared = declared;
              configured = ground arith;
            };
            new = new;
            entered = ground arith;
            registered = ground arith;
          }
        ]
      ]
    ]
  ]

  -- A loop without an issue has passed every node, and the maps answer for each of them.
  pub record LoopOk (scan final : NodeScan V) (nodes : List (WorkflowNode V)) : Type 0 where
    pub each : (n : WorkflowNode V) → Memᴰ n nodes → NodeOk n
    pub known : (n : WorkflowNode V) → Memᴰ n nodes → node_of final.node_by_id n.id ≡ some n
    pub registered :
        (n : WorkflowNode V) (m : Memᴰ n nodes)
        → registration_of final.registrations n.id ≡ lookups.registration n.type
    pub known_kept :
        (id : String) (n : WorkflowNode V)
        → node_of scan.node_by_id id ≡ some n
        → node_of final.node_by_id id ≡ some n
    pub registered_kept :
        (id : String) (n : WorkflowNode V)
        → node_of scan.node_by_id id ≡ some n
        → registration_of final.registrations id ≡ registration_of scan.registrations id
    pub once : (id : String) → count_where (λ n. n.id == id) nodes ≤ 1
    pub new_only :
        (id : String) (n : WorkflowNode V)
        → node_of scan.node_by_id id ≡ some n
        → count_where (λ n. n.id == id) nodes ≡ 0
    pub known_origin :
        (id : String) (n : WorkflowNode V)
        → node_of final.node_by_id id ≡ some n
        → (node_of scan.node_by_id id ≡ some n) ⊎ Memᴰ n nodes

  abbrev record_issues : NodeScan V → List ValidationIssue → NodeScan V
  record_issues final issues = record final { issues = issues }

  extend :
      (scan : NodeScan V) (node : WorkflowNode V) (nodes : List (WorkflowNode V))
      (final : NodeScan V) (issues : List ValidationIssue)
      → RoundOk scan node
      → LoopOk (check_node lookups scan node) final nodes
      → LoopOk scan (record_issues final issues) (node ∷ nodes)
  extend scan node nodes final issues r l = record {
    each = each;
    known = known;
    registered = registered;
    known_kept = λ id n e. l.known_kept id n (shift id n e);
    registered_kept =
        λ id n e. l.registered_kept id n (shift id n e) ∙ rw r.registered (rw (apart id n e));
    once = once;
    new_only = λ id n e. rw (apart id n e) (l.new_only id n (shift id n e));
    known_origin = origin;
  }
    where
      apart :
          (id : String) (n : WorkflowNode V)
          → node_of scan.node_by_id id ≡ some n
          → (node.id == id) ≡ false
      apart id n e = elim (Bool-cases (node.id == id)) [
        | inl same ↦ cc (rw (← (==_iff node.id id).0 same) at e, r.new)
        | inr other ↦ other
      ]

      shift :
          (id : String) (n : WorkflowNode V)
          → node_of scan.node_by_id id ≡ some n
          → node_of (check_node lookups scan node).node_by_id id ≡ some n
      shift id n e = rw r.entered (rw (apart id n e) e)

      here : node_of (check_node lookups scan node).node_by_id node.id ≡ some node
      here = rw r.entered (rw (==_refl node.id))

      once : (id : String) → count_where (λ n. n.id == id) (node ∷ nodes) ≤ 1
      once id = elim (Bool-cases (node.id == id)) [
        | inl same ↦
            let e = (==_iff node.id id).0 same in
            rw same (omega (arith, l.new_only id node (rw (← e) here)))
        | inr other ↦ rw other (l.once id)
      ]

      each : (n : WorkflowNode V) → Memᴰ n (node ∷ nodes) → NodeOk n
      each n (Memᴰ.head e) = rw e r.node_ok
      each n (Memᴰ.tail m) = l.each n m

      known : (n : WorkflowNode V) → Memᴰ n (node ∷ nodes) → node_of final.node_by_id n.id ≡ some n
      known n (Memᴰ.head e) = rw e (l.known_kept node.id node here)
      known n (Memᴰ.tail m) = l.known n m

      registered :
          (n : WorkflowNode V)
          → Memᴰ n (node ∷ nodes)
          → registration_of final.registrations n.id ≡ lookups.registration n.type
      registered n (Memᴰ.head e) = rw e (
          l.registered_kept node.id node here
          ∙ rw r.registered (rw (==_refl node.id) (sym r.node_ok.declared)))
      registered n (Memᴰ.tail m) = l.registered n m

      origin :
          (id : String) (n : WorkflowNode V)
          → node_of final.node_by_id id ≡ some n
          → (node_of scan.node_by_id id ≡ some n) ⊎ Memᴰ n (node ∷ nodes)
      origin id n e = elim (l.known_origin id n e) [
        | inr m ↦ inr (Memᴰ.tail m)
        | inl k ↦ elim (Bool-cases (node.id == id)) [
          | inl same ↦
              let k' : some node ≡ some n = rw same at (rw r.entered at k) in
              inr (Memᴰ.head (cc k'))
          | inr other ↦ inl (rw other at (rw r.entered at k))
        ]
      ]

  pub check_nodes-LoopOk :
      (scan : NodeScan V) (nodes : List (WorkflowNode V))
      → (check_nodes lookups scan nodes).issues ≡ []
      → LoopOk scan (check_nodes lookups scan nodes) nodes
  unfolding check_nodes
  check_nodes-LoopOk scan [] h = record {
    each = λ n m. elim m [ ];
    known = λ n m. elim m [ ];
    registered = λ n m. elim m [ ];
    known_kept = λ id n e. e;
    registered_kept = λ id n e. refl;
    once = λ id. omega arith;
    new_only = λ id n e. refl;
    known_origin = λ id n e. inl e;
  }
  check_nodes-LoopOk scan (node ∷ nodes) h =
      let (first, later) =
        append-eq-nil (check_node lookups scan node).issues
          (check_nodes lookups (check_node lookups scan node) nodes).issues h in
      extend scan node nodes (check_nodes lookups (check_node lookups scan node) nodes) _
        (check_node-RoundOk scan node first)
        (check_nodes-LoopOk (check_node lookups scan node) nodes later)
