-- ===== src/Nodes/Conditions/Routes.antt =====
-- plugin/condition_nodes.go: the If node sends its payload along the edges of one port.
use miletos.Common.{
  ℕ, zero, suc, String, Bool, true, false, ◌&&◌, ◌||◌, ◌≡◌, refl, inl, inr, Option, none, some,
  List, [], ◌∷◌, contains, filter, arith, Bool-cases, string_eq, ◌==◌, ==_refl, ==_iff,
  if◌then◌else◌,
}
use miletos.Workflow.{Edge, Workflow}
use miletos.Execution.Routing.{value_at}
use miletos.Execution.Access.{
  NodeAccess, PushError, RunEnd, produced, broken, edge_at, push_edge, outcome, run_handler,
  routed_run, new_node_access,
}
use miletos.Execution.Access.Routed.{edge_ids}
use miletos.Values.{Value, Fields}
use miletos.Nodes.{done}
use miletos.Nodes.Conditions.{Numbers}
use miletos.Nodes.Conditions.Comparison.{evaluate_configured_condition}
use miletos.Nodes.Conditions.Handlers.{after_push, route_condition_payload, if_node}

abbrev pub NoTwice : List Edge → Type 0
NoTwice [] = Unit
NoTwice (e ∷ es) = (contains e.id (edge_ids es) ≡ false) × NoTwice es

-- The edges from an index on.
abbrev from : ℕ → List Edge → List Edge
from zero es = es
from (suc i) [] = []
from (suc i) (e ∷ es) = from i es

from-edge_at :
    (i : ℕ) (all : List Edge) (e : Edge) (es : List Edge)
    → from i all ≡ e ∷ es
    → (edge_at all i ≡ some e) × (from (suc i) all ≡ es)
from-edge_at zero [] e es h = cc
from-edge_at zero (x ∷ xs) e es h = (cc h, cc h)
from-edge_at (suc i) [] e es h = cc
from-edge_at (suc i) (x ∷ xs) e es h = from-edge_at i xs e es h

-- Whether an edge is there with this id and the port.
abbrev pub leads_from : String → String → List Edge → Bool
leads_from id port [] = false
leads_from id port (e ∷ es) = (e.id == id && e.source_output_port == port) || leads_from id port es

leads_from-absent :
    (id port : String) (es : List Edge)
    → contains id (edge_ids es) ≡ false
    → leads_from id port es ≡ false
leads_from-absent id port [] h = refl
leads_from-absent id port (e ∷ es) h = ground (arith, h, leads_from-absent id port es)

module _ {V : Type 0} where
  push_edge-free :
      (access : NodeAccess V) (i : ℕ) (payload : V) (e : Edge)
      → access.explicit ≡ true
      → access.is_closed ≡ false
      → edge_at access.edges i ≡ some e
      → value_at access.emissions e.id ≡ none
      → push_edge access i payload
        ≡ (record access { emissions = (e.id, payload) ∷ access.emissions }, none)
  unfolding push_edge
  push_edge-free access i payload e mode free found untaken =
      ground (arith, mode, free, found, untaken)

  -- What the loop leaves: the edges of the port have the payload, the others what they had.
  pub record Sent (es : List Edge) (port : String) (payload : V) (before : NodeAccess V)
      (r : NodeAccess V × RunEnd V) : Type 0 where
    pub result : r.1 ≡ produced payload
    pub mode : r.0.explicit ≡ true
    pub taken :
        (id : String)
        → value_at r.0.emissions id
          ≡ (if leads_from id port es then some payload else value_at before.emissions id)

  route-Sent :
      (es : List Edge) (i : ℕ) (port : String) (payload : V) (access : NodeAccess V)
      → from i access.edges ≡ es
      → access.explicit ≡ true
      → access.is_closed ≡ false
      → NoTwice es
      → ((id : String) → contains id (edge_ids es) ≡ true → value_at access.emissions id ≡ none)
      → Sent es port payload access (run_handler (route_condition_payload es i port payload) access)
  unfolding route_condition_payload run_handler
  route-Sent [] i port payload access at mode free distinct untaken = record {
    result = refl;
    mode = mode;
    taken = λ id. refl;
  }
  route-Sent (e ∷ es) i port payload access at mode free distinct untaken =
      let here = from-edge_at i access.edges e es at in
      elim (Bool-cases (e.source_output_port == port)) [
        | inr other ↦
            let rest =
              route-Sent es (suc i) port payload access here.1 mode free distinct.1
                (λ id known. untaken id (ground (arith, known))) in
            rw (other, route_condition_payload)
              (record {
                result = rest.result;
                mode = rest.mode;
                taken = λ id. ground (arith, rest.taken id, other);
              })
        | inl same ↦
            let pushed : NodeAccess V = record access {
              emissions = (e.id, payload) ∷ access.emissions;
            } in
            let rest =
              route-Sent es (suc i) port payload pushed here.1 mode free distinct.1
                (λ id known. still_untaken id known) in
            rw (same, route_condition_payload)
              (by_answer (push_edge access i payload)
                (push_edge-free access i payload e mode free here.0
                  (untaken e.id (ground (arith, ==_refl e.id))))
                same rest)
      ]
    where
      apart : (id : String) → contains id (edge_ids es) ≡ true → (e.id == id) ≡ false
      apart id known = elim (Bool-cases (e.id == id)) [
        | inr different ↦ different
        | inl same ↦ absurd (ground (arith, known, distinct.0, (==_iff e.id id).0 same))
      ]

      still_untaken :
          (id : String)
          → contains id (edge_ids es) ≡ true
          → value_at ((e.id, payload) ∷ access.emissions) id ≡ none
      still_untaken id known = ground (arith, apart id known, untaken id (ground (arith, known)))

      by_id :
          (id : String) (found : Option V)
          → (e.source_output_port == port) ≡ true
          → found ≡ (
              if leads_from id port es
              then some payload
              else value_at ((e.id, payload) ∷ access.emissions) id)
          → found
            ≡ (if leads_from id port (e ∷ es) then some payload else value_at access.emissions id)
      by_id id found same h = elim (Bool-cases (e.id == id)) [
        | inr different ↦ ground (arith, h, different)
        | inl equal ↦
            let gone = leads_from-absent id port es (cc ((==_iff e.id id).0 equal, distinct.0)) in
            ground (arith, h, equal, gone, same)
      ]

      by_answer :
          (answer : NodeAccess V × Option PushError)
          → answer ≡ (record access { emissions = (e.id, payload) ∷ access.emissions }, none)
          → (e.source_output_port == port) ≡ true
          → Sent es port payload
              (record access { emissions = (e.id, payload) ∷ access.emissions })
              (run_handler
                (route_condition_payload es (suc i) port payload)
                (record access { emissions = (e.id, payload) ∷ access.emissions }))
          → Sent (e ∷ es) port payload access (
              run_handler
                (after_push (route_condition_payload es (suc i) port payload) answer.1)
                answer.0)
      by_answer answer h same rest = rw h (record {
        result = rest.result;
        mode = rest.mode;
        taken = λ id. by_id id _ same (rest.taken id);
      })

abbrev pub out_edges : {V : Type 0} → Workflow V → String → List Edge
out_edges w node_id = filter (λ e. e.source_node_id == node_id) w.edges

module _ {V : Type 0} where
  -- The routes of a run that Sent describes, when the access was new.
  Sent-routes :
      (w : Workflow V) (node_id port : String) (payload : V) (r : NodeAccess V × RunEnd V)
      → Sent (out_edges w node_id) port payload (new_node_access w node_id "EXPLICIT") r
      → ((routed_run r).0 ≡ produced payload)
        × ((id : String)
            → value_at (routed_run r).1.edge_payloads id
              ≡ (if leads_from id port (out_edges w node_id) then some payload else none))
  unfolding outcome new_node_access
  Sent-routes w node_id port payload (access, broken e) sent = absurd (ground (arith, sent.result))
  Sent-routes w node_id port payload (access, produced v) sent =
      (cc (sent.result), λ id. rw (sent.mode) (sent.taken id))

module _ {N F : Type 0} (numbers : Numbers N F) where
  -- If the ids of the edges out of an If node are distinct and the condition can be evaluated, then the
  -- node produces its payload, and the routes saved with it are the edges out of the node at the port
  -- yes or no, according to the condition, each with the payload.
  pub if_node-routes :
      (w : Workflow (Value N)) (node_id : String) (configuration : Fields N) (payload : Value N)
      (matched : Bool)
      → NoTwice (out_edges w node_id)
      → evaluate_configured_condition numbers configuration payload ≡ done matched
      → let r = routed_run (
          run_handler
            (if_node numbers configuration payload (new_node_access w node_id "EXPLICIT"))
            (new_node_access w node_id "EXPLICIT")) in
        (r.0 ≡ produced payload)
        × ((id : String)
            → value_at r.1.edge_payloads id ≡ (
                if leads_from id (if matched then "yes" else "no") (out_edges w node_id)
                then some payload
                else none))
  unfolding if_node new_node_access
  if_node-routes w node_id configuration payload matched distinct evaluated =
      Sent-routes w node_id (if matched then "yes" else "no") payload _ (
        rw evaluated (
          route-Sent (out_edges w node_id) 0 (if matched then "yes" else "no") payload
            (new_node_access w node_id "EXPLICIT") refl refl refl distinct (λ id known. refl)))
