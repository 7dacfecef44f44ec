-- ===== src/Execution/Routing/Resolved.antt =====
-- execution/routing.go: the loop over the edges against a description by the routes' verdicts.
use mathlib.Core.List.{append_assoc, append-nil}
use miletos.Common.{
  suc, ◌≡◌, refl, sym, ◌∙◌, inl, inr, String, Bool, true, false, not, ◌&&◌, ◌||◌, Option, none,
  some, List, [], ◌∷◌, ◌++◌, arith, nat_eq, string_eq, ◌==◌, Bool-cases, Option-cases,
}
use miletos.Workflow.{Edge, Workflow}
use miletos.Workflow.Graph.{is_empty}
use miletos.Execution.{
  NodeStatus, node_pending, node_ready, node_queued, node_running, node_retry_pending,
  node_succeeded, node_failed, node_skipped, node_cancelled, node_timed_out,
}
use miletos.Execution.Routing.{
  NodeOutcome, RouteReadiness, Tally, value_at, is_dependency_failed, no_tally, follow,
  follow_predecessor, tally_edges, resolve_node_routes, conclude,
}
use miletos.Execution.Routing.Verdicts.{
  Verdict, carries, not_taken, broken, waiting, carried_on, into, is_broken, is_carrying,
  is_waiting, outcome_verdict, payloads, predecessor_verdict, some_broken, some_carrying,
  some_waiting, verdict,
}

module _ {V : Type 0} where
  -- The tally after one edge.
  abbrev after_verdict : Tally V → String → Verdict V → Tally V
  after_verdict t edge_id (carries v) = record t {
    active = suc t.active;
    edge_payloads = (edge_id, v) ∷ t.edge_payloads;
  }
  after_verdict t edge_id not_taken = t
  after_verdict t edge_id broken = record t { failed = true }
  after_verdict t edge_id waiting = record t { undecided = true }

  follow-verdict :
      (t : Tally V) (edge_id : String) (o : NodeOutcome V) (s : NodeStatus)
      → follow t edge_id o s ≡ after_verdict t edge_id (outcome_verdict edge_id o s)
  unfolding follow
  follow-verdict t edge_id o node_succeeded = elim (Bool-cases o.routing.explicit) [
    | inl e ↦ elim (Option-cases (value_at o.routing.edge_payloads edge_id)) [
      | inl none_there ↦ rw (e, none_there) refl
      | inr (v, there) ↦ rw (e, there) refl
    ]
    | inr e ↦ rw e refl
  ]
  follow-verdict t edge_id o node_skipped = elim (Bool-cases (is_dependency_failed o.skip_reason)) [
    | inl e ↦ rw e refl
    | inr e ↦ rw e refl
  ]
  follow-verdict t edge_id o node_failed = refl
  follow-verdict t edge_id o node_timed_out = refl
  follow-verdict t edge_id o node_cancelled = refl
  follow-verdict t edge_id o node_pending = refl
  follow-verdict t edge_id o node_ready = refl
  follow-verdict t edge_id o node_queued = refl
  follow-verdict t edge_id o node_running = refl
  follow-verdict t edge_id o node_retry_pending = refl

  follow_predecessor-verdict :
      (t : Tally V) (edge_id : String) (o : Option (NodeOutcome V))
      → follow_predecessor t edge_id o ≡ after_verdict t edge_id (predecessor_verdict edge_id o)
  follow_predecessor-verdict t edge_id none = refl
  follow_predecessor-verdict t edge_id (some o) = follow-verdict t edge_id o o.status

  -- The tally of some edges, in terms of those into the node.
  record Tallied (outcomes : String → Option (NodeOutcome V)) (t t' : Tally V) (es : List Edge)
      : Type 0 where
    counted : (t'.incoming == 0) ≡ (t.incoming == 0 && is_empty es)
    activated : (t'.active == 0) ≡ (t.active == 0 && not (some_carrying outcomes es))
    waited : t'.undecided ≡ (t.undecided || some_waiting outcomes es)
    broke : t'.failed ≡ (t.failed || some_broken outcomes es)
    paid : t'.edge_payloads ≡ payloads outcomes es ++ t.edge_payloads

  Tallied-cons :
      (outcomes : String → Option (NodeOutcome V)) (t t' : Tally V) (e : Edge) (es : List Edge)
      (v : Verdict V)
      → verdict outcomes e ≡ v
      → Tallied outcomes (after_verdict (record t { incoming = suc t.incoming }) e.id v) t' es
      → Tallied outcomes t t' (e ∷ es)
  Tallied-cons outcomes t t' e es v p h = record {
    counted = ground (arith, h.counted);
    activated = rw p (activated_by v h.activated);
    waited = rw p (waited_by v h.waited);
    broke = rw p (broke_by v h.broke);
    paid = rw p (h.paid ∙ paid_by v);
  }
    where
      counted_t : Tally V
      counted_t = record t { incoming = suc t.incoming }

      activated_by :
          (v : Verdict V)
          → (t'.active == 0)
            ≡ ((after_verdict counted_t e.id v).active == 0 && not (some_carrying outcomes es))
          → (t'.active == 0) ≡ (t.active == 0 && not (is_carrying v || some_carrying outcomes es))
      activated_by (carries x) k = ground arith
      activated_by not_taken k = ground arith
      activated_by broken k = ground arith
      activated_by waiting k = ground arith

      waited_by :
          (v : Verdict V)
          → t'.undecided ≡ ((after_verdict counted_t e.id v).undecided || some_waiting outcomes es)
          → t'.undecided ≡ (t.undecided || (is_waiting v || some_waiting outcomes es))
      waited_by (carries x) k = ground arith
      waited_by not_taken k = ground arith
      waited_by broken k = ground arith
      waited_by waiting k = ground arith

      broke_by :
          (v : Verdict V)
          → t'.failed ≡ ((after_verdict counted_t e.id v).failed || some_broken outcomes es)
          → t'.failed ≡ (t.failed || (is_broken v || some_broken outcomes es))
      broke_by (carries x) k = ground arith
      broke_by not_taken k = ground arith
      broke_by broken k = ground arith
      broke_by waiting k = ground arith

      paid_by :
          (v : Verdict V)
          → payloads outcomes es ++ (after_verdict counted_t e.id v).edge_payloads
            ≡ (payloads outcomes es ++ carried_on e.id v) ++ t.edge_payloads
      paid_by (carries x) = sym (append_assoc (payloads outcomes es) _ _)
      paid_by not_taken = sym (append_assoc (payloads outcomes es) [] _)
      paid_by broken = sym (append_assoc (payloads outcomes es) [] _)
      paid_by waiting = sym (append_assoc (payloads outcomes es) [] _)

  tally_edges-Tallied :
      (outcomes : String → Option (NodeOutcome V)) (node_id : String) (es : List Edge) (t : Tally V)
      → Tallied outcomes t (tally_edges outcomes node_id t es) (into node_id es)
  unfolding tally_edges
  tally_edges-Tallied outcomes node_id [] t = ground arith
  tally_edges-Tallied outcomes node_id (e ∷ es) t =
      elim (Bool-cases (e.target_node_id == node_id)) [
        | inl here ↦
            rw
              (
                here,
                follow_predecessor-verdict (record t { incoming = suc t.incoming }) e.id
                    (outcomes e.source_node_id),
              )
              (Tallied-cons outcomes t _ e (into node_id es) (verdict outcomes e) refl
                (tally_edges-Tallied outcomes node_id es _))
        | inr elsewhere ↦ rw elsewhere (tally_edges-Tallied outcomes node_id es t)
      ]

-- The readiness of a node, in terms of the edges into it.
pub record Resolved {V : Type 0} (outcomes : String → Option (NodeOutcome V)) (es : List Edge)
    (r : RouteReadiness V) : Type 0 where
  pub failed_when : r.failed ≡ some_broken outcomes es
  pub inactive_when : r.inactive ≡ (
      not (is_empty es)
      && not (some_broken outcomes es)
      && not (some_waiting outcomes es)
      && not (some_carrying outcomes es))
  pub ready_when : r.ready ≡ (
      is_empty es
      || (not (some_broken outcomes es)
          && not (some_waiting outcomes es)
          && some_carrying outcomes es))
  pub paid : r.edge_payloads ≡ payloads outcomes es

-- The flags by the tests of the tally, of which a node without edges has none but the first.
record Concluded {V : Type 0} (empty b w c : Bool) (t : Tally V) (r : RouteReadiness V)
    : Type 0 where
  failed_by : r.failed ≡ b
  inactive_by : r.inactive ≡ (not empty && not b && not w && not c)
  ready_by : r.ready ≡ (empty || (not b && not w && c))
  paid_by : r.edge_payloads ≡ t.edge_payloads

conclude-Concluded :
    {V : Type 0} (t : Tally V) (empty b w c : Bool)
    → (t.incoming == 0) ≡ empty
    → t.failed ≡ b
    → t.undecided ≡ w
    → (t.active == 0) ≡ not c
    → (empty ≡ true → b ≡ false)
    → Concluded empty b w c t (conclude t)
conclude-Concluded t empty b w c e₁ e₂ e₃ e₄ k = ground arith

conclude-Resolved :
    {V : Type 0} (outcomes : String → Option (NodeOutcome V)) (es : List Edge) (t : Tally V)
    → Tallied outcomes no_tally t es
    → Resolved outcomes es (conclude t)
conclude-Resolved outcomes es t h =
    let k =
      conclude-Concluded t (is_empty es) (some_broken outcomes es) (some_waiting outcomes es)
        (some_carrying outcomes es) h.counted h.broke h.waited h.activated (unbroken es) in
    record {
      failed_when = k.failed_by;
      inactive_when = k.inactive_by;
      ready_when = k.ready_by;
      paid = k.paid_by ∙ h.paid ∙ append-nil (payloads outcomes es);
    }
  where
    unbroken : (es : List Edge) → is_empty es ≡ true → some_broken outcomes es ≡ false
    unbroken [] e = refl
    unbroken (x ∷ xs) e = cc

-- `resolveNodeRoutes` decides by the edges into the node alone. It reports a failure exactly when a
-- predecessor failed, timed out, was cancelled, or was skipped because of a failure; else it reports
-- the node as inactive exactly when edges lead to it, every predecessor is decided, and none of the
-- edges was taken; and as ready exactly when no edge leads to it, or all are decided and one at
-- least was taken. The payloads are those of the taken edges: the predecessor's output, or with
-- explicit routing what it put on the edge.
pub resolve_node_routes-Resolved :
    {V : Type 0} (w : Workflow V) (node_id : String) (outcomes : String → Option (NodeOutcome V))
    → Resolved outcomes (into node_id w.edges) (resolve_node_routes w node_id outcomes)
unfolding resolve_node_routes
resolve_node_routes-Resolved w node_id outcomes =
    conclude-Resolved outcomes (into node_id w.edges) _
      (tally_edges-Tallied outcomes node_id w.edges no_tally)
