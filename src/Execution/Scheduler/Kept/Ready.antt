-- ===== src/Execution/Scheduler/Kept/Ready.antt =====
-- execution/scheduler.go: what `scheduleReady` and `CompleteNode` keep.
use miletos.Common.{
  ℕ, zero, suc, String, Bool, true, false, ◌≡◌, inl, inr, Option, none, some, List, [], ◌∷◌, arith,
  Bool-cases, length, string_eq,
}
use miletos.Workflow.{WorkflowNode}
use miletos.Workflow.Graph.{is_empty}
use miletos.Workflow.Validator.Validate.{validate_workflow_definition}
use miletos.Execution.{no_active_route, NodeJob, is_terminal_execution_status}
use miletos.Execution.Store.{Store, ExecutionRow, NodeRow, ok}
use miletos.Execution.Store.Nodes.{mark_node_skipped, queue_node_command}
use miletos.Execution.Scheduler.{Outcomes, skipped_outcome, decode_all}
use miletos.Execution.Scheduler.Programs.{Program, ◌>>=◌, call, list_all_nodes, finalize_execution}
use miletos.Execution.Scheduler.Ready.{
  Round, Schedule, plan_for, payload_of, queued_outcome, also_skipped, also_scheduled, after_queue,
  schedule_pass, add_scheduled, next_round, schedule_rounds, run_rounds, rounds_of,
  registry_lookups, schedule_ready, finish_unless, without_start, complete_for, complete_node,
}
use miletos.Execution.Scheduler.Rounds.{Plan-cases}
use miletos.Execution.Store.Executions.{find_by_id}
use miletos.Execution.Scheduler.Kept.{
  Kept, Keeps, >>=-Keeps, skip-Keeps, queue-Keeps, reading-Keeps,
}
use miletos.Execution.Scheduler.Kept.Finalize.{finalize_execution-Keeps}

module _ {V : Type 0} where
  pub find_by_id-same :
      (company_id execution_id : String) (s s' : Store V) (e : ExecutionRow V)
      → find_by_id company_id execution_id s ≡ ok e s'
      → s' ≡ s
  unfolding find_by_id
  find_by_id-same company_id execution_id s s' e h = ground arith

module _ {V : Type 0} (K : Kept V) where
  also_skipped-Keeps : (r : Round V) → Keeps K (also_skipped r)
  also_skipped-Keeps r s = K.same s

  after_queue-Keeps :
      (go : Outcomes V → Program V (Round V)) (null : V) (node_id : String) (os : Outcomes V)
      (found : Option (NodeRow V))
      → ((os' : Outcomes V) → Keeps K (go os'))
      → Keeps K (after_queue go null node_id os found)
  after_queue-Keeps go null node_id os none p = p os
  after_queue-Keeps go null node_id os (some row) p =
      >>=-Keeps K (go ((node_id, queued_outcome null) ∷ os)) also_scheduled
        (p ((node_id, queued_outcome null) ∷ os)) (λ r s. K.same s)

  schedule_pass-Keeps :
      (c : Schedule V) (ns : List (WorkflowNode V)) (os : Outcomes V)
      → Keeps K (schedule_pass c ns os)
  unfolding schedule_pass
  schedule_pass-Keeps c [] os = λ s. K.same s
  schedule_pass-Keeps c (n ∷ ns) os = elim (Plan-cases (plan_for c.workflow os n.id)) [
    | inl idle ↦ rw (idle, schedule_pass) (schedule_pass-Keeps c ns os)
    | inr (inl dead) ↦
        let os₁ = (n.id, skipped_outcome c.json.null) ∷ os in
        let rest = schedule_pass c ns os₁ in
        rw (dead, schedule_pass)
          (>>=-Keeps K
            (call
              (mark_node_skipped c.now c.execution.company_id c.execution.id n.id no_active_route))
            (λ _. rest >>= also_skipped)
            (skip-Keeps K c.now c.execution.company_id c.execution.id n.id no_active_route)
            (λ _. >>=-Keeps K rest also_skipped (schedule_pass-Keeps c ns os₁) also_skipped-Keeps))
    | inr (inr (payloads, ready)) ↦
        rw (ready, schedule_pass)
          (>>=-Keeps K
            (call (
              queue_node_command (c.new_message_id n.id) c.now c.execution n.id
                (payload_of c n.id payloads) c.topic))
            (after_queue (schedule_pass c ns) c.json.null n.id os)
            (queue-Keeps K (c.new_message_id n.id) c.now c.execution n.id
              (payload_of c n.id payloads) c.topic)
            (λ found.
              after_queue-Keeps (schedule_pass c ns) c.json.null n.id os found
                (λ os'. schedule_pass-Keeps c ns os')))
  ]

  next_round-Keeps :
      (go : Outcomes V → Program V ℕ) (r : Round V) (b : Bool)
      → Keeps K (go r.outcomes)
      → Keeps K (next_round go r b)
  next_round-Keeps go r false p = λ s. K.same s
  next_round-Keeps go r true p =
      >>=-Keeps K (go r.outcomes) (add_scheduled r.scheduled) p (λ n s. K.same s)

  schedule_rounds-Keeps :
      (fuel : ℕ) (c : Schedule V) (os : Outcomes V) → Keeps K (schedule_rounds fuel c os)
  unfolding schedule_rounds
  schedule_rounds-Keeps zero c os = λ s. K.same s
  schedule_rounds-Keeps (suc fuel) c os =
      >>=-Keeps K (schedule_pass c c.workflow.nodes os)
        (λ r. next_round (schedule_rounds fuel c) r r.skipped)
        (schedule_pass-Keeps c c.workflow.nodes os)
        (λ r.
          next_round-Keeps (schedule_rounds fuel c) r r.skipped
            (schedule_rounds-Keeps fuel c r.outcomes))

  run_rounds-Keeps : (c : Schedule V) (os : Option (Outcomes V)) → Keeps K (run_rounds c os)
  run_rounds-Keeps c none = λ s. K.same s
  run_rounds-Keeps c (some os) = schedule_rounds-Keeps (suc (length c.workflow.nodes)) c os

  pub schedule_ready-Keeps : (c : Schedule V) → Keeps K (schedule_ready c)
  unfolding schedule_ready list_all_nodes
  schedule_ready-Keeps c =
      elim (Bool-cases
        (is_empty (validate_workflow_definition (registry_lookups c.registry) c.workflow))) [
          | inl valid ↦
              rw (valid, schedule_ready)
                (>>=-Keeps K (list_all_nodes c.execution.company_id c.execution.id) (rounds_of c)
                  (λ s. K.same s)
                  (λ rows. run_rounds-Keeps c (decode_all c.json.null (some c.registry) [] rows)))
          | inr broken ↦ rw (broken, schedule_ready) (λ s. K.same s)
        ]

  complete_for-Keeps :
      (call_of : ExecutionRow V → Schedule V) (fuel : ℕ) (e : ExecutionRow V)
      → Keeps K (complete_for call_of fuel e)
  complete_for-Keeps call_of fuel e =
      let c = call_of e in
      let rest = finalize_execution c.json.null (some c.registry) fuel c.now e c.workflow in
      elim (Bool-cases (is_terminal_execution_status e.status)) [
        | inl over ↦ rw (over, complete_for) (λ s. K.same s)
        | inr open_still ↦
            rw (open_still, complete_for)
              (>>=-Keeps K (schedule_ready (without_start c)) (finish_unless rest)
                (schedule_ready-Keeps (without_start c))
                (finish_unless-Keeps rest (
                  finalize_execution-Keeps K c.json.null (some c.registry) fuel c.now e
                    c.workflow)))
      ]
    where
      finish_unless-Keeps :
          (rest : Program V (Unit {0})) → Keeps K rest → (n : ℕ) → Keeps K (finish_unless rest n)
      finish_unless-Keeps rest p zero = p
      finish_unless-Keeps rest p (suc n) = λ s. K.same s

  pub complete_node-Keeps :
      (call_of : ExecutionRow V → Schedule V) (fuel : ℕ) (job : NodeJob V)
      → Keeps K (complete_node call_of fuel job)
  unfolding complete_node
  complete_node-Keeps call_of fuel job =
      >>=-Keeps K (call (find_by_id job.company_id job.execution_id)) (complete_for call_of fuel)
        (reading-Keeps K (find_by_id job.company_id job.execution_id)
          (λ s s' e h. find_by_id-same job.company_id job.execution_id s s' e h))
        (complete_for-Keeps call_of fuel)
