-- ===== src/Execution/Scheduler/Ready.antt =====
-- execution/scheduler.go: `scheduleReady`, which queues the nodes whose routes are decided, and
-- `CompleteNode`. The stored workflow of the execution is an argument. A node that a pass has skipped
-- has no reason in the next pass, which routing reads like the reason that it has here.
use miletos.Common.{
  ℕ, zero, suc, ◌+◌, String, Bool, true, false, not, ◌&&◌, ◌||◌, Option, none, some, List, [], ◌∷◌,
  length, if◌then◌else◌,
}
use miletos.Workflow.{Object, WorkflowNode, Workflow}
use miletos.Workflow.Validator.Issues.{Lookups}
use miletos.Workflow.Validator.Validate.{validate_workflow_definition}
use miletos.Workflow.Graph.{is_empty}
use miletos.Plugin.Registry.{NodeRegistry, get, validate_configuration, connection_restricted}
use miletos.Execution.{
  node_queued, unexplained, no_active_route, NodeJob, is_terminal_execution_status,
}
use miletos.Execution.Routing.{NodeOutcome, RouteReadiness, resolve_node_routes}
use miletos.Execution.Inputs.{Json, build_execution_node_input}
use miletos.Execution.Store.{ExecutionRow, NodeRow, invalid_outcome, invalid_workflow}
use miletos.Execution.Store.Nodes.{mark_node_skipped, queue_node_command}
use miletos.Execution.Store.Statuses.{is_pending}
use miletos.Execution.Store.Executions.{find_by_id}
use miletos.Execution.Scheduler.{Outcomes, outcome_at, decode_all, skipped_outcome}
use miletos.Execution.Scheduler.Programs.{
  Program, ◌>>=◌, ◌>>◌, call, pure, raise, exhaust, list_all_nodes, finalize_execution,
}

-- What a pass does with a node.
pub data Plan (V : Type 0) : Type 0 where
  leave_it skip_it : Plan V
  queue_it : Object V → Plan V

-- What a pass has done.
pub record Round (V : Type 0) : Type 0 where
  pub outcomes : Outcomes V
  pub scheduled : ℕ
  pub skipped : Bool

-- The parameters of a call of `scheduleReady`. The start input is a map, maybe a nil one; as an
-- argument of `buildExecutionNodeInput` it is an interface that holds a map, and never nil.
pub record Schedule (V : Type 0) : Type 0 where
  pub json : Json V
  pub registry : NodeRegistry V
  pub now : ℕ
  pub new_message_id : String → String
  pub topic : String
  pub execution : ExecutionRow V
  pub workflow : Workflow V
  pub start_input : V
  pub start_node_id : String

module _ {V : Type 0} where
  abbrev pub plan_by : RouteReadiness V → Plan V
  plan_by r =
      if r.failed || (not r.ready && not r.inactive)
      then leave_it
      else if r.inactive
      then skip_it
      else queue_it r.edge_payloads

  unfoldable pub plan_for : Workflow V → Outcomes V → String → Plan V
  unfolding resolve_node_routes
  plan_for w os node_id = elim (outcome_at os node_id) [
    | none ↦ leave_it
    | some o ↦
        if is_pending o.status
        then plan_by (resolve_node_routes w node_id (outcome_at os))
        else leave_it
  ]

  abbrev pub queued_outcome : V → NodeOutcome V
  queued_outcome null = record {
    status = node_queued;
    skip_reason = unexplained;
    output = null;
    routing = record { explicit = false; edge_payloads = [] };
  }

  abbrev pub also_skipped : Round V → Program V (Round V)
  also_skipped r = pure (record r { skipped = true })

  abbrev pub also_scheduled : Round V → Program V (Round V)
  also_scheduled r = pure (record r { scheduled = suc r.scheduled })

  -- After `QueueNodeCommand`: a node that it did not change is passed over.
  abbrev pub after_queue :
      (Outcomes V → Program V (Round V))
      → V
      → String
      → Outcomes V
      → Option (NodeRow V)
      → Program V (Round V)
  after_queue go null node_id os none = go os
  after_queue go null node_id os (some row) =
      go ((node_id, queued_outcome null) ∷ os) >>= also_scheduled

  abbrev pub payload_of : Schedule V → String → Object V → V
  payload_of c node_id payloads =
      build_execution_node_input c.json c.workflow node_id payloads c.registry (some c.start_input)
        c.start_node_id c.execution.origin

  -- One pass over the nodes.
  unfoldable pub schedule_pass :
      Schedule V → List (WorkflowNode V) → Outcomes V → Program V (Round V)
  unfolding plan_for mark_node_skipped queue_node_command build_execution_node_input
  schedule_pass c [] os = pure (record { outcomes = os; scheduled = 0; skipped = false })
  schedule_pass c (n ∷ ns) os = elim (plan_for c.workflow os n.id) [
    | leave_it ↦ schedule_pass c ns os
    | skip_it ↦
        call (mark_node_skipped c.now c.execution.company_id c.execution.id n.id no_active_route)
        >> (schedule_pass c ns ((n.id, skipped_outcome c.json.null) ∷ os) >>= also_skipped)
    | queue_it payloads ↦
        call (
          queue_node_command (c.new_message_id n.id) c.now c.execution n.id
            (payload_of c n.id payloads) c.topic)
        >>= after_queue (schedule_pass c ns) c.json.null n.id os
  ]

  abbrev pub add_scheduled : ℕ → ℕ → Program V ℕ
  add_scheduled n m = pure (n + m)

  -- A pass that has skipped a node is followed by another.
  abbrev pub next_round : (Outcomes V → Program V ℕ) → Round V → Bool → Program V ℕ
  next_round go r false = pure r.scheduled
  next_round go r true = go r.outcomes >>= add_scheduled r.scheduled

  unfoldable pub schedule_rounds : ℕ → Schedule V → Outcomes V → Program V ℕ
  unfolding schedule_pass
  schedule_rounds zero c os = exhaust
  schedule_rounds (suc fuel) c os =
      schedule_pass c c.workflow.nodes os >>= λ r. next_round (schedule_rounds fuel c) r r.skipped

  abbrev pub registry_lookups : NodeRegistry V → Lookups V
  registry_lookups registry = record {
    registration = get registry;
    validate_configuration = some (validate_configuration registry);
    connection_restricted = some (connection_restricted registry);
  }

  abbrev pub run_rounds : Schedule V → Option (Outcomes V) → Program V ℕ
  run_rounds c none = raise invalid_outcome
  run_rounds c (some os) = schedule_rounds (suc (length c.workflow.nodes)) c os

  abbrev pub rounds_of : Schedule V → List (NodeRow V) → Program V ℕ
  rounds_of c rows = run_rounds c (decode_all c.json.null (some c.registry) [] rows)

  -- `scheduleReady`: the number of nodes queued. The definition is validated anew.
  unfoldable pub schedule_ready : Schedule V → Program V ℕ
  unfolding validate_workflow_definition list_all_nodes decode_all schedule_rounds
  schedule_ready c =
      elim (is_empty (validate_workflow_definition (registry_lookups c.registry) c.workflow)) [
        | false ↦ raise invalid_workflow
        | true ↦ list_all_nodes c.execution.company_id c.execution.id >>= rounds_of c
      ]

  abbrev pub finish_unless : Program V (Unit {0}) → ℕ → Program V (Unit {0})
  finish_unless rest zero = rest
  finish_unless rest (suc n) = pure tt

  -- `CompleteNode` passes a nil map and no start node.
  abbrev pub without_start : Schedule V → Schedule V
  without_start c = record c { start_input = c.json.nil_object; start_node_id = "" }

  abbrev pub complete_for :
      (ExecutionRow V → Schedule V) → ℕ → ExecutionRow V → Program V (Unit {0})
  complete_for call_of fuel e = elim (is_terminal_execution_status e.status) [
    | true ↦ pure tt
    | false ↦
        schedule_ready (without_start (call_of e))
        >>= finish_unless (
            finalize_execution (call_of e).json.null (some (call_of e).registry) fuel
              (call_of e).now e (call_of e).workflow)
  ]

  -- `CompleteNode`, given the parameters of `scheduleReady` for the execution that is loaded.
  unfoldable pub complete_node :
      (ExecutionRow V → Schedule V) → ℕ → NodeJob V → Program V (Unit {0})
  unfolding find_by_id schedule_ready finalize_execution
  complete_node call_of fuel job =
      call (find_by_id job.company_id job.execution_id) >>= complete_for call_of fuel
