-- ===== src/Workflow/Validator/Accepted/Counts.antt =====
-- workflow/validator.go: nodes whose numbers of edges raise no issue.
use miletos.Common.{
  ℕ, ◌≤◌, String, ◌≡◌, refl, true, some, List, [], ◌∷◌, map, Memᴰ, arith, string_eq, nat_eq,
}
use miletos.Workflow.{Edge, WorkflowNode}
use miletos.Plugin.{NodeRegistration, Port, EdgeConstraint}
use miletos.Workflow.Validator.Nodes.{NodeScan, registration_of}
use miletos.Workflow.Validator.Counts.{
  Direction, input, output, incoming_count, outgoing_count, port_count, constraint_issues,
  is_fixed_multi, single_port_issues, fixed_multi_input_port_issues, one_port_issues,
  port_constraint_issues,
}
use miletos.Workflow.Validator.Validate.{count_issues, all_count_issues}
use miletos.Workflow.Validator.Accepted.Nodes.{append-eq-nil}

-- The number of edges satisfies the constraint.
abbrev pub Satisfies : ℕ → EdgeConstraint → Type 0
Satisfies actual c = (c.minimum ≤ actual) × ((m : ℕ) → c.maximum ≡ some m → actual ≤ m)

pub record CountsOk {V : Type 0} (edges : List Edge) (node_id : String) (r : NodeRegistration V)
    : Type 0 where
  pub inputs : Satisfies (incoming_count edges node_id) r.input_edge_constraint
  pub outputs : Satisfies (outgoing_count edges node_id) r.output_edge_constraint
  pub fixed :
      is_fixed_multi r ≡ true
      → (p : Port) → Memᴰ p r.input_ports
      → port_count edges node_id p.name ≡ 1
  pub ports :
      (p : Port) (c : EdgeConstraint)
      → Memᴰ p r.input_ports
      → p.edge_constraint ≡ some c
      → Satisfies (port_count edges node_id p.name) c

map-eq-nil {ℓ} : {A B : Type ℓ} (f : A → B) (xs : List A) → map f xs ≡ [] → xs ≡ []
map-eq-nil f [] h = refl
map-eq-nil f (x ∷ xs) h = cc

module _ {V : Type 0} where
  constraint_issues-Satisfies :
      (node : WorkflowNode V) (d : Direction) (actual : ℕ) (c : EdgeConstraint)
      → constraint_issues node d actual c ≡ []
      → Satisfies actual c
  unfolding constraint_issues
  constraint_issues-Satisfies node d actual c h = (ground arith, λ m e. ground arith)

  single_port_issues-nil :
      (node : WorkflowNode V) (incoming : String → ℕ) (ports : List Port)
      → single_port_issues node incoming ports ≡ []
      → (p : Port) → Memᴰ p ports
      → incoming p.name ≡ 1
  single_port_issues-nil node incoming [] h p m = elim m [ ]
  single_port_issues-nil node incoming (q ∷ ps) h p (Memᴰ.head e) = rw e (ground arith)
  single_port_issues-nil node incoming (q ∷ ps) h p (Memᴰ.tail m) =
      single_port_issues-nil node incoming ps (append-eq-nil _ _ h).1 p m

  one_port_issues-Satisfies :
      (node : WorkflowNode V) (incoming : String → ℕ) (p : Port) (c : EdgeConstraint)
      → p.edge_constraint ≡ some c
      → one_port_issues node incoming p ≡ []
      → Satisfies (incoming p.name) c
  one_port_issues-Satisfies node incoming p c e h =
      constraint_issues-Satisfies node input (incoming p.name) c
        (map-eq-nil _ (constraint_issues node input (incoming p.name) c) (rw e at h))

  port_constraint_issues-Satisfies :
      (node : WorkflowNode V) (ports : List Port) (incoming : String → ℕ)
      → port_constraint_issues node ports incoming ≡ []
      → (p : Port) (c : EdgeConstraint) → Memᴰ p ports
      → p.edge_constraint ≡ some c
      → Satisfies (incoming p.name) c
  unfolding port_constraint_issues
  port_constraint_issues-Satisfies node [] incoming h p c m e = elim m [ ]
  port_constraint_issues-Satisfies node (q ∷ ps) incoming h p c (Memᴰ.head k) e =
      one_port_issues-Satisfies node incoming p c e
        (rw (← k) at (append-eq-nil (one_port_issues node incoming q) _ h).0)
  port_constraint_issues-Satisfies node (q ∷ ps) incoming h p c (Memᴰ.tail m) e =
      port_constraint_issues-Satisfies node ps incoming (append-eq-nil _ _ h).1 p c m e

  count_issues-CountsOk :
      (nodes : NodeScan V) (edges : List Edge) (node : WorkflowNode V) (r : NodeRegistration V)
      → registration_of nodes.registrations node.id ≡ some r
      → count_issues nodes edges node ≡ []
      → CountsOk edges node.id r
  unfolding count_issues
  count_issues-CountsOk nodes edges node r e h =
      let (i, h1) =
        append-eq-nil
          (constraint_issues node input (incoming_count edges node.id) r.input_edge_constraint) _
          (rw (e, count_issues) at h) in
      let (o, h2) =
        append-eq-nil
          (constraint_issues node output (outgoing_count edges node.id) r.output_edge_constraint) _
          h1 in
      let (f, p) =
        append-eq-nil (fixed_multi_input_port_issues node r (port_count edges node.id)) _ h2 in
      record {
        inputs = constraint_issues-Satisfies node input _ r.input_edge_constraint i;
        outputs = constraint_issues-Satisfies node output _ r.output_edge_constraint o;
        fixed =
            λ b. single_port_issues-nil node (port_count edges node.id) r.input_ports (rw b at f);
        ports = port_constraint_issues-Satisfies node r.input_ports (port_count edges node.id) p;
      }

  pub all_count_issues-CountsOk :
      (nodes : NodeScan V) (edges : List Edge) (all : List (WorkflowNode V))
      → all_count_issues nodes edges all ≡ []
      → (node : WorkflowNode V) (r : NodeRegistration V) → Memᴰ node all
      → registration_of nodes.registrations node.id ≡ some r
      → CountsOk edges node.id r
  unfolding all_count_issues
  all_count_issues-CountsOk nodes edges [] h node r m e = elim m [ ]
  all_count_issues-CountsOk nodes edges (x ∷ xs) h node r (Memᴰ.head k) e =
      count_issues-CountsOk nodes edges node r e
        (rw (← k) at (append-eq-nil (count_issues nodes edges x) _ h).0)
  all_count_issues-CountsOk nodes edges (x ∷ xs) h node r (Memᴰ.tail m) e =
      all_count_issues-CountsOk nodes edges xs (append-eq-nil (count_issues nodes edges x) _ h).1
        node r m e
