-- ===== src/Execution/Scheduler/Plans.antt =====
-- execution/scheduler.go: what `scheduleReady` does with a node, by the edges into it.
use miletos.Common.{
  ◌≡◌, refl, ap, String, Bool, true, false, not, ◌&&◌, ◌||◌, Option, none, some, List, [], ◌∷◌,
  arith, string_eq, if◌then◌else◌,
}
use miletos.Workflow.{Edge, Workflow, Object}
use miletos.Workflow.Graph.{is_empty}
use miletos.Execution.Routing.{NodeOutcome, RouteReadiness, resolve_node_routes}
use miletos.Execution.Routing.Verdicts.{into, some_broken, some_waiting, some_carrying, payloads}
use miletos.Execution.Routing.Resolved.{resolve_node_routes-Resolved}
use miletos.Execution.Store.Statuses.{is_pending}
use miletos.Execution.Scheduler.{Outcomes, outcome_at, is_inactive}
use miletos.Execution.Scheduler.Ready.{Plan, leave_it, skip_it, queue_it, plan_by, plan_for}

module _ {V : Type 0} where
  -- The plan for a pending node by the verdicts on the edges into it: it is left while one is broken
  -- or waits, else queued if no edge leads to it or one carries a payload, and skipped if none does.
  abbrev pub plan_by_edges : Workflow V → Outcomes V → String → Plan V
  plan_by_edges w os node_id =
      let outs = outcome_at os in
      let es = into node_id w.edges in
      if some_broken outs es || some_waiting outs es
      then leave_it
      else if is_empty es || some_carrying outs es
      then queue_it (payloads outs es)
      else skip_it

  abbrev pub expected_plan : Workflow V → Outcomes V → String → Plan V
  expected_plan w os node_id = elim (outcome_at os node_id) [
    | none ↦ leave_it
    | some o ↦ if is_pending o.status then plan_by_edges w os node_id else leave_it
  ]

  plan_by-flags :
      (r : RouteReadiness V) (b waits c empty : Bool) (p : Object V)
      → r.failed ≡ b
      → r.inactive ≡ (not empty && not b && not waits && not c)
      → r.ready ≡ (empty || (not b && not waits && c))
      → r.edge_payloads ≡ p
      → (empty ≡ true → b || waits ≡ false)
      → plan_by r ≡ (if b || waits then leave_it else if empty || c then queue_it p else skip_it)
  plan_by-flags r b waits c empty p e₁ e₂ e₃ e₄ k = ground arith

  empty-undisturbed :
      (outs : String → Option (NodeOutcome V)) (es : List Edge)
      → is_empty es ≡ true
      → some_broken outs es || some_waiting outs es ≡ false
  empty-undisturbed outs [] e = refl
  empty-undisturbed outs (x ∷ xs) e = cc

  -- `scheduleReady` plans by the edges into the node alone, as `plan_by_edges` says.
  pub plan_for-expected :
      (w : Workflow V) (os : Outcomes V) (node_id : String)
      → plan_for w os node_id ≡ expected_plan w os node_id
  unfolding plan_for
  plan_for-expected w os node_id =
      let outs = outcome_at os in
      let es = into node_id w.edges in
      let k = resolve_node_routes-Resolved w node_id outs in
      let same : plan_by (resolve_node_routes w node_id outs) ≡ plan_by_edges w os node_id =
        plan_by-flags (resolve_node_routes w node_id outs) (some_broken outs es)
          (some_waiting outs es) (some_carrying outs es) (is_empty es) (payloads outs es)
          k.failed_when k.inactive_when k.ready_when k.paid (empty-undisturbed outs es) in
      by_outcome (outcome_at os node_id) same
    where
      by_outcome :
          (o : Option (NodeOutcome V))
          → plan_by (resolve_node_routes w node_id (outcome_at os)) ≡ plan_by_edges w os node_id
          → Path
              (Plan V)
              (elim o [
                | none ↦ leave_it
                | some x ↦
                    if is_pending x.status
                    then plan_by (resolve_node_routes w node_id (outcome_at os))
                    else leave_it
              ])
              (elim o [
                | none ↦ leave_it
                | some x ↦ if is_pending x.status then plan_by_edges w os node_id else leave_it
              ])
      by_outcome none same = refl
      by_outcome (some x) same = rw same refl

  -- A pending node that edges lead to, of which none is broken, none waits, and none carries a payload.
  abbrev pub lacks_route : Workflow V → Outcomes V → String → Bool
  lacks_route w os node_id =
      let outs = outcome_at os in
      let es = into node_id w.edges in
      elim (outcome_at os node_id) [
        | none ↦ false
        | some o ↦
            is_pending o.status
            && (not (is_empty es)
                && not (some_broken outs es)
                && not (some_waiting outs es)
                && not (some_carrying outs es))
      ]

  pub is_inactive-expected :
      (w : Workflow V) (os : Outcomes V) (node_id : String)
      → is_inactive w os node_id ≡ lacks_route w os node_id
  unfolding is_inactive
  is_inactive-expected w os node_id =
      let outs = outcome_at os in
      let k = resolve_node_routes-Resolved w node_id outs in
      ap (λ b. elim (outcome_at os node_id) [ none ↦ false | some o ↦ is_pending o.status && b ])
        k.inactive_when
