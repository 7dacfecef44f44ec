-- ===== src/Execution/Scheduler/Rounds.antt =====
-- execution/scheduler.go: `scheduleReady` comes to an end, since each pass but the last skips a pending
-- node.
use miletos.Common.{
  ℕ, zero, suc, ◌≤◌, ◌<◌, String, Bool, true, false, ◌≡◌, refl, inl, inr, ◌⊎◌, Option, none, some,
  List, [], ◌∷◌, Memᴰ, arith, Bool-cases, length, string_eq,
}
use miletos.Workflow.{Object, WorkflowNode, Workflow}
use miletos.Workflow.Graph.{is_empty}
use miletos.Workflow.Validator.Validate.{validate_workflow_definition}
use miletos.Execution.{no_active_route}
use miletos.Execution.Store.{Store, NodeRow, Tx, Result, ok, err}
use miletos.Execution.Store.Nodes.{mark_node_skipped, queue_node_command}
use miletos.Execution.Scheduler.{Outcomes, skipped_outcome, decode_all}
use miletos.Execution.Scheduler.Programs.{
  Program, End, value, error, exhausted, ◌>>=◌, continue, call, committed, list_all_nodes, rows_of,
}
use miletos.Execution.Scheduler.Passes.{
  Finishes, pending_in, pending_count, skipped-fewer, count_where-le-length,
}
use miletos.Execution.Scheduler.Ready.{
  Plan, leave_it, skip_it, queue_it, Round, Schedule, plan_for, payload_of, queued_outcome,
  also_skipped, also_scheduled, after_queue, schedule_pass, add_scheduled, next_round,
  schedule_rounds, run_rounds, registry_lookups, schedule_ready,
}

pub Plan-cases :
    {V : Type 0} (p : Plan V)
    → (p ≡ leave_it) ⊎ ((p ≡ skip_it) ⊎ ((payloads : Object V) × (p ≡ queue_it payloads)))
Plan-cases leave_it = inl refl
Plan-cases skip_it = inr (inl refl)
Plan-cases (queue_it payloads) = inr (inr (payloads, refl))

module _ {V : Type 0} where
  plan_for-pending :
      (w : Workflow V) (os : Outcomes V) (n : WorkflowNode V)
      → plan_for w os n.id ≡ skip_it
      → pending_in os n ≡ true
  unfolding plan_for
  plan_for-pending w os n h = ground (arith, h)

  queued-no_more :
      (null : V) (id : String) (os : Outcomes V) (ns : List (WorkflowNode V))
      → pending_count ((id, queued_outcome null) ∷ os) ns ≤ pending_count os ns
  queued-no_more null id os [] = omega arith
  queued-no_more null id os (n ∷ ns) = ground (arith, queued-no_more null id os ns)

  -- A pass ends; it leaves no more pending nodes, and fewer if it skipped one.
  abbrev RoundEnds : List (WorkflowNode V) → Outcomes V → End (Round V) → Type 0
  RoundEnds all os (value r) =
      (pending_count r.outcomes all ≤ pending_count os all)
      × (r.skipped ≡ true → pending_count r.outcomes all < pending_count os all)
  RoundEnds all os (error e) = Unit
  RoundEnds all os exhausted = ⊥

  also_skipped-RoundEnds :
      (all : List (WorkflowNode V)) (os os₁ : Outcomes V) (s : Store V) (end : End (Round V))
      → pending_count os₁ all < pending_count os all
      → RoundEnds all os₁ end
      → RoundEnds all os (continue also_skipped s end).1
  also_skipped-RoundEnds all os os₁ s (value r) less h =
      (omega (arith, less, h.0), λ e. omega (arith, less, h.0))
  also_skipped-RoundEnds all os os₁ s (error e) less h = tt
  also_skipped-RoundEnds all os os₁ s exhausted less h = h

  also_scheduled-RoundEnds :
      (all : List (WorkflowNode V)) (os os₁ : Outcomes V) (s : Store V) (end : End (Round V))
      → pending_count os₁ all ≤ pending_count os all
      → RoundEnds all os₁ end
      → RoundEnds all os (continue also_scheduled s end).1
  also_scheduled-RoundEnds all os os₁ s (value r) le h =
      (omega (arith, le, h.0), λ e. omega (arith, le, h.1 e))
  also_scheduled-RoundEnds all os os₁ s (error e) le h = tt
  also_scheduled-RoundEnds all os os₁ s exhausted le h = h

  call-RoundEnds :
      {A : Type 0} (all : List (WorkflowNode V)) (os : Outcomes V) (f : A → Program V (Round V))
      (t : Tx V A) (s : Store V)
      → ((a : A) (s' : Store V) → RoundEnds all os (f a s').1)
      → RoundEnds all os ((call t >>= f) s).1
  call-RoundEnds all os f t s p = by_result (t s)
    where
      by_result :
          (r : Result V _) → RoundEnds all os (continue f (committed s r).0 (committed s r).1).1
      by_result (ok a s') = p a s'
      by_result (err e) = tt

  schedule_pass-RoundEnds :
      (c : Schedule V) (all ns : List (WorkflowNode V)) (os : Outcomes V) (s : Store V)
      → ((n : WorkflowNode V) → Memᴰ n ns → Memᴰ n all)
      → RoundEnds all os (schedule_pass c ns os s).1
  unfolding schedule_pass
  schedule_pass-RoundEnds c all [] os s sub = (omega arith, λ e. cc)
  schedule_pass-RoundEnds c all (n ∷ ns) os s sub =
      let go : (os' : Outcomes V) (s' : Store V) → RoundEnds all os' (schedule_pass c ns os' s').1 =
        λ os' s'. schedule_pass-RoundEnds c all ns os' s' (λ x m. sub x (Memᴰ.tail m)) in
      elim (Plan-cases (plan_for c.workflow os n.id)) [
        | inl idle ↦ rw (idle, schedule_pass) (go os s)
        | inr (inl dead) ↦
            let os₁ = (n.id, skipped_outcome c.json.null) ∷ os in
            let rest = schedule_pass c ns os₁ in
            let less =
              skipped-fewer c.json.null os n all (sub n (Memᴰ.head refl))
                (plan_for-pending c.workflow os n dead) in
            rw (dead, schedule_pass)
              (call-RoundEnds all os (λ _. rest >>= also_skipped)
                (mark_node_skipped c.now c.execution.company_id c.execution.id n.id no_active_route)
                s
                (λ a s'.
                  also_skipped-RoundEnds all os os₁ (rest s').0 (rest s').1 less (go os₁ s')))
        | inr (inr (payloads, ready)) ↦
            rw (ready, schedule_pass)
              (call-RoundEnds all os (after_queue (schedule_pass c ns) c.json.null n.id os)
                (queue_node_command (c.new_message_id n.id) c.now c.execution n.id
                  (payload_of c n.id payloads) c.topic)
                s (after c all ns os n go))
      ]
    where
      after :
          (c : Schedule V) (all ns : List (WorkflowNode V)) (os : Outcomes V) (n : WorkflowNode V)
          → ((os' : Outcomes V) (s' : Store V) → RoundEnds all os' (schedule_pass c ns os' s').1)
          → (found : Option (NodeRow V)) (s' : Store V)
          → RoundEnds all os (after_queue (schedule_pass c ns) c.json.null n.id os found s').1
      after c all ns os n go none s' = go os s'
      after c all ns os n go (some row) s' =
          let os₁ = (n.id, queued_outcome c.json.null) ∷ os in
          also_scheduled-RoundEnds all os os₁ (schedule_pass c ns os₁ s').0
            (schedule_pass c ns os₁ s').1 (queued-no_more c.json.null n.id os all) (go os₁ s')

  next_round-Finishes :
      (go : Outcomes V → Program V ℕ) (r : Round V) (b : Bool) (s : Store V)
      → (b ≡ true → Finishes (go r.outcomes s).1)
      → Finishes (next_round go r b s).1
  next_round-Finishes go r false s p = tt
  next_round-Finishes go r true s p = by_end (go r.outcomes s).0 (go r.outcomes s).1 (p refl)
    where
      by_end :
          (s' : Store V) (end : End ℕ)
          → Finishes end
          → Finishes (continue (add_scheduled r.scheduled) s' end).1
      by_end s' (value n) h = tt
      by_end s' (error e) h = tt
      by_end s' exhausted h = h

  enough-Finishes :
      (fuel : ℕ) (c : Schedule V) (os : Outcomes V) (s : Store V)
      → pending_count os c.workflow.nodes < fuel
      → Finishes (schedule_rounds fuel c os s).1
  unfolding schedule_rounds
  enough-Finishes zero c os s h = absurd (omega (arith, h))
  enough-Finishes (suc fuel) c os s h =
      let pass = schedule_pass c c.workflow.nodes os s in
      by_end pass.0 pass.1
        (schedule_pass-RoundEnds c c.workflow.nodes c.workflow.nodes os s (λ x m. m))
        (λ os' s' less. enough-Finishes fuel c os' s' less)
    where
      by_end :
          (s' : Store V) (end : End (Round V))
          → RoundEnds c.workflow.nodes os end
          → ((os' : Outcomes V) (s'' : Store V)
              → pending_count os' c.workflow.nodes < fuel
              → Finishes (schedule_rounds fuel c os' s'').1)
          → Finishes (continue (λ r. next_round (schedule_rounds fuel c) r r.skipped) s' end).1
      by_end s' (value r) p go =
          next_round-Finishes (schedule_rounds fuel c) r r.skipped s'
            (λ t. go r.outcomes s' (omega (arith, h, p.1 t)))
      by_end s' (error e) p go = tt
      by_end s' exhausted p go = p

  -- From any tables `scheduleReady` comes to an end, with the number of nodes queued or an error: the
  -- passes are at most as many as there are nodes and one more.
  pub schedule_ready-Finishes : (c : Schedule V) (s : Store V) → Finishes (schedule_ready c s).1
  unfolding schedule_ready list_all_nodes
  schedule_ready-Finishes c s =
      elim (Bool-cases
        (is_empty (validate_workflow_definition (registry_lookups c.registry) c.workflow))) [
          | inl valid ↦
              rw (valid, schedule_ready)
                (rounds
                  (decode_all c.json.null (some c.registry) []
                    (rows_of c.execution.company_id c.execution.id s))
                  s)
          | inr broken ↦ rw (broken, schedule_ready) tt
        ]
    where
      rounds : (os : Option (Outcomes V)) (s : Store V) → Finishes (run_rounds c os s).1
      rounds none s = tt
      rounds (some os) s =
          enough-Finishes (suc (length c.workflow.nodes)) c os s
            (omega (arith, count_where-le-length (pending_in os) c.workflow.nodes))
