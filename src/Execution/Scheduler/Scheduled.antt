-- ===== src/Execution/Scheduler/Scheduled.antt =====
-- execution/scheduler.go: what `scheduleReady`, `CompleteNode` and `ActivateFromRoot` have done when
-- they return without an error.
use miletos.Common.{
  ℕ, zero, suc, ◌+◌, ◌≡◌, refl, sym, ◌∙◌, inl, inr, Bool, true, false, Option, none, some, List, [],
  ◌∷◌, Bool-cases, length, string_eq,
}
use miletos.Workflow.{WorkflowNode, Object}
use miletos.Workflow.Graph.{is_empty}
use miletos.Workflow.Validator.Validate.{validate_workflow_definition}
use miletos.Execution.{no_active_route}
use miletos.Execution.Store.{Store, NodeRow, ok}
use miletos.Execution.Store.Nodes.{mark_node_skipped, queue_node_command}
use miletos.Execution.Scheduler.{Outcomes, skipped_outcome, decode_all}
use miletos.Execution.Scheduler.Programs.{Program, value, ◌>>=◌, call, rows_of, list_all_nodes}
use miletos.Execution.Scheduler.Ready.{
  leave_it, skip_it, queue_it, Round, Schedule, plan_for, payload_of, queued_outcome, also_skipped,
  also_scheduled, after_queue, schedule_pass, add_scheduled, next_round, schedule_rounds,
  run_rounds, registry_lookups, schedule_ready,
}
use miletos.Execution.Scheduler.Rounds.{Plan-cases}
use miletos.Execution.Scheduler.Returns.{>>=-value, call-value, pure-value}
use miletos.Execution.Scheduler.Plans.{expected_plan, plan_for-expected}

module _ {V : Type 0} (c : Schedule V) where
  -- A pass over some nodes: what it does with each, by the outcomes with what it has done before.
  pub data Pass : List (WorkflowNode V) → Outcomes V → Store V → Round V → Store V → Type 0 where
    ends :
        {os : Outcomes V} {s : Store V}
        → Pass [] os s (record { outcomes = os; scheduled = 0; skipped = false }) s
    leaves :
        {n : WorkflowNode V} {ns : List (WorkflowNode V)} {os : Outcomes V} {s s' : Store V}
        {r : Round V}
        → expected_plan c.workflow os n.id ≡ leave_it
        → Pass ns os s r s'
        → Pass (n ∷ ns) os s r s'
    skips :
        {n : WorkflowNode V} {ns : List (WorkflowNode V)} {os : Outcomes V} {s s₁ s' : Store V}
        {r : Round V}
        → expected_plan c.workflow os n.id ≡ skip_it
        → mark_node_skipped c.now c.execution.company_id c.execution.id n.id no_active_route s
          ≡ ok tt s₁
        → Pass ns ((n.id, skipped_outcome c.json.null) ∷ os) s₁ r s'
        → Pass (n ∷ ns) os s (record r { skipped = true }) s'
    queues :
        {n : WorkflowNode V} {ns : List (WorkflowNode V)} {os : Outcomes V} {s s₁ s' : Store V}
        {r : Round V} (p : Object V) (row : NodeRow V)
        → expected_plan c.workflow os n.id ≡ queue_it p
        → queue_node_command
            (c.new_message_id n.id)
            c.now
            c.execution
            n.id
            (payload_of c n.id p)
            c.topic
            s
          ≡ ok (some row) s₁
        → Pass ns ((n.id, queued_outcome c.json.null) ∷ os) s₁ r s'
        → Pass (n ∷ ns) os s (record r { scheduled = suc r.scheduled }) s'
    -- Another worker has queued the node.
    passes_over :
        {n : WorkflowNode V} {ns : List (WorkflowNode V)} {os : Outcomes V} {s s₁ s' : Store V}
        {r : Round V} (p : Object V)
        → expected_plan c.workflow os n.id ≡ queue_it p
        → queue_node_command
            (c.new_message_id n.id)
            c.now
            c.execution
            n.id
            (payload_of c n.id p)
            c.topic
            s
          ≡ ok none s₁
        → Pass ns os s₁ r s'
        → Pass (n ∷ ns) os s r s'

  -- Passes over all nodes, the last of which skips none, and the number of nodes queued.
  pub data Passes : Outcomes V → Store V → ℕ → Store V → Type 0 where
    last_pass :
        {os : Outcomes V} {s s' : Store V} (r : Round V)
        → Pass c.workflow.nodes os s r s'
        → r.skipped ≡ false
        → Passes os s r.scheduled s'
    one_more :
        {os : Outcomes V} {s s₁ s' : Store V} {m : ℕ} (r : Round V)
        → Pass c.workflow.nodes os s r s₁
        → r.skipped ≡ true
        → Passes r.outcomes s₁ m s'
        → Passes os s (r.scheduled + m) s'

  -- The definition is valid, the rows can be read, and the passes begin with them.
  pub record Scheduled (s : Store V) (n : ℕ) (s' : Store V) : Type 0 where
    pub valid : validate_workflow_definition (registry_lookups c.registry) c.workflow ≡ []
    pub outcomes : Outcomes V
    pub decoded :
        decode_all c.json.null
          (some c.registry)
          []
          (rows_of c.execution.company_id c.execution.id s)
        ≡ some outcomes
    pub passes : Passes outcomes s n s'

  after_command :
      {n : WorkflowNode V} {ns : List (WorkflowNode V)} {os : Outcomes V} {s s₁ s' : Store V}
      {r : Round V} (p : Object V) (found : Option (NodeRow V))
      → expected_plan c.workflow os n.id ≡ queue_it p
      → queue_node_command
          (c.new_message_id n.id)
          c.now
          c.execution
          n.id
          (payload_of c n.id p)
          c.topic
          s
        ≡ ok found s₁
      → ((os' : Outcomes V) (s₂ : Store V) (r₂ : Round V)
          → schedule_pass c ns os' s₁ ≡ (s₂, value r₂)
          → Pass ns os' s₁ r₂ s₂)
      → after_queue (schedule_pass c ns) c.json.null n.id os found s₁ ≡ (s', value r)
      → Pass (n ∷ ns) os s r s'
  after_command {s' = s'} {r = r} p none plan q go h = passes_over p plan q (go _ s' r h)
  after_command {n = n} {ns = ns} {os = os} {s₁ = s₁} {s' = s'} {r = r} p (some row) plan q go h =
      let os₁ = (n.id, queued_outcome c.json.null) ∷ os in
      >>=-value (schedule_pass c ns os₁) also_scheduled s₁ s' r
        (λ s₂ r₂ second h₂.
          let (same, counted) =
            pure-value s₂ s' (record r₂ { scheduled = suc r₂.scheduled }) r h₂ in
          rw (same, counted) (queues p row plan q (go os₁ s₂ r₂ second)))
        h

  schedule_pass-Pass :
      (ns : List (WorkflowNode V)) (os : Outcomes V) (s s' : Store V) (r : Round V)
      → schedule_pass c ns os s ≡ (s', value r)
      → Pass ns os s r s'
  unfolding schedule_pass
  schedule_pass-Pass [] os s s' r h =
      let (same, nothing) =
        pure-value s s' (record { outcomes = os; scheduled = 0; skipped = false }) r h in
      rw (same, nothing) ends
  schedule_pass-Pass (n ∷ ns) os s s' r h = elim (Plan-cases (plan_for c.workflow os n.id)) [
    | inl idle ↦
        leaves (sym (plan_for-expected c.workflow os n.id) ∙ idle)
          (schedule_pass-Pass ns os s s' r (rw (idle, schedule_pass) at h))
    | inr (inl dead) ↦
        let os₁ = (n.id, skipped_outcome c.json.null) ∷ os in
        let rest = schedule_pass c ns os₁ in
        let skip =
          mark_node_skipped c.now c.execution.company_id c.execution.id n.id no_active_route in
        >>=-value (call skip) (λ _. rest >>= also_skipped) s s' r
          (λ s₁ a first h₁.
            >>=-value rest also_skipped s₁ s' r
              (λ s₂ r₂ second h₂.
                let (same, noted) = pure-value s₂ s' (record r₂ { skipped = true }) r h₂ in
                rw (same, noted)
                  (skips (sym (plan_for-expected c.workflow os n.id) ∙ dead)
                    (call-value skip s s₁ a first) (schedule_pass-Pass ns os₁ s₁ s₂ r₂ second)))
              h₁)
          (rw (dead, schedule_pass) at h)
    | inr (inr (p, ready)) ↦
        let queue =
          queue_node_command (c.new_message_id n.id) c.now c.execution n.id (payload_of c n.id p)
            c.topic in
        >>=-value (call queue) (after_queue (schedule_pass c ns) c.json.null n.id os) s s' r
          (λ s₁ found first h₁.
            after_command p found (sym (plan_for-expected c.workflow os n.id) ∙ ready)
              (call-value queue s s₁ found first)
              (λ os' s₂ r₂ k. schedule_pass-Pass ns os' s₁ s₂ r₂ k) h₁)
          (rw (ready, schedule_pass) at h)
  ]

  next_round-Passes :
      (b : Bool) (r : Round V) (go : Outcomes V → Program V ℕ) (os : Outcomes V) (s s₁ s' : Store V)
      (n : ℕ)
      → r.skipped ≡ b
      → Pass c.workflow.nodes os s r s₁
      → ((s₂ : Store V) (m : ℕ) → go r.outcomes s₁ ≡ (s₂, value m) → Passes r.outcomes s₁ m s₂)
      → next_round go r b s₁ ≡ (s', value n)
      → Passes os s n s'
  next_round-Passes false r go os s s₁ s' n b k rest h =
      let (same, counted) = pure-value s₁ s' r.scheduled n h in rw (same, counted) (last_pass r k b)
  next_round-Passes true r go os s s₁ s' n b k rest h =
      >>=-value (go r.outcomes) (add_scheduled r.scheduled) s₁ s' n
        (λ s₂ m second h₂.
          let (same, counted) = pure-value s₂ s' (r.scheduled + m) n h₂ in
          rw (same, counted) (one_more r k b (rest s₂ m second)))
        h

  schedule_rounds-Passes :
      (fuel : ℕ) (os : Outcomes V) (s s' : Store V) (n : ℕ)
      → schedule_rounds fuel c os s ≡ (s', value n)
      → Passes os s n s'
  unfolding schedule_rounds
  schedule_rounds-Passes zero os s s' n h = cc
  schedule_rounds-Passes (suc fuel) os s s' n h =
      >>=-value (schedule_pass c c.workflow.nodes os)
        (λ r. next_round (schedule_rounds fuel c) r r.skipped) s s' n
        (λ s₁ r first h₁.
          next_round-Passes r.skipped r (schedule_rounds fuel c) os s s₁ s' n refl
            (schedule_pass-Pass c.workflow.nodes os s s₁ r first)
            (λ s₂ m k. schedule_rounds-Passes fuel r.outcomes s₁ s₂ m k) h₁)
        h

  -- When `scheduleReady` returns a number of nodes, the definition was valid, and it has made passes
  -- over the nodes until one skipped none, beginning with the outcomes of the rows. A pass treats each
  -- node in turn by the edges into it: a node that is not pending, or has a broken or a waiting edge,
  -- is left; else it is queued, with the payloads of its edges, if no edge leads to it or one carries
  -- a payload, and otherwise skipped for the lack of an active route. The number is that of the nodes
  -- that were queued.
  pub schedule_ready-Scheduled :
      (s s' : Store V) (n : ℕ) → schedule_ready c s ≡ (s', value n) → Scheduled s n s'
  unfolding schedule_ready list_all_nodes
  schedule_ready-Scheduled s s' n h =
      elim (Bool-cases
        (is_empty (validate_workflow_definition (registry_lookups c.registry) c.workflow))) [
          | inr broken ↦ let refused = rw (broken, schedule_ready) at h in cc
          | inl valid ↦
              by_rows
                (decode_all c.json.null (some c.registry) []
                  (rows_of c.execution.company_id c.execution.id s))
                refl (rw (valid, schedule_ready) at h)
                (is_empty-nil
                  (validate_workflow_definition (registry_lookups c.registry) c.workflow) valid)
        ]
    where
      is_empty-nil : {A : Type 0} (xs : List A) → is_empty xs ≡ true → xs ≡ []
      is_empty-nil [] e = refl
      is_empty-nil (x ∷ xs) e = cc

      by_rows :
          (os : Option (Outcomes V))
          → decode_all c.json.null
              (some c.registry)
              []
              (rows_of c.execution.company_id c.execution.id s)
            ≡ os
          → run_rounds c os s ≡ (s', value n)
          → validate_workflow_definition (registry_lookups c.registry) c.workflow ≡ []
          → Scheduled s n s'
      by_rows none d k v = cc
      by_rows (some os) d k v = record {
        valid = v;
        outcomes = os;
        decoded = d;
        passes = schedule_rounds-Passes (suc (length c.workflow.nodes)) os s s' n k;
      }
