-- ===== src/Examples/Scheduling.antt =====
-- An execution whose two nodes are done, or one of whose nodes is skipped, and a registry.
use miletos.Common.{
  arith, ℕ, suc, ◌≡◌, ◌≢◌, refl, Option, none, some, List, [], ◌∷◌, length, sort_by, trim_space,
}
use miletos.Plugin.Registry.{NodeRegistry, ok, register_node, get}
use miletos.Plugin.Registry.Entries.{Accepted, register_node-Accepted}
use miletos.Execution.{node_succeeded, node_skipped}
use miletos.Execution.Store.{Store, NodeRow}
use miletos.Execution.Scheduler.{judge, succeed}
use miletos.Execution.Scheduler.Programs.{value, finalize_execution}
use miletos.Execution.Scheduler.Settle.{Judged, judge-Judged}
use miletos.Execution.Scheduler.Finalized.{Finalized, finalize_execution-Finalized}
use miletos.Execution.Scheduler.Scheduled.{Scheduled, schedule_ready-Scheduled}
use miletos.Execution.Scheduler.Ends.{finalize_execution-Finishes}
use miletos.Execution.Scheduler.Passes.{Finishes}
use miletos.Execution.Inputs.{Json}
use miletos.Execution.Store.{ExecutionRow}
use miletos.Execution.Scheduler.Ready.{Schedule, schedule_ready, complete_node}
use miletos.Execution.Scheduler.Rounds.{schedule_ready-Finishes}
use miletos.Execution.Scheduler.Jobs.{complete_node-Finishes}
use miletos.Execution.Scheduler.Completed.{Completed, complete_node-Completed}
use miletos.Execution.Scheduler.Activation.{
  activate_from_root, Activated, activate_from_root-Activated,
}
use miletos.Examples.Graphs.{straight, step}
use miletos.Examples.Stores.{run, row, initial, job}

abbrev rows : List (NodeRow ℕ)
rows =
    record row { status = node_succeeded }
    ∷ record row { id = "n2"; node_id = "b"; status = node_skipped }
    ∷ []

all_done : judge straight rows ≡ succeed
unfolding judge
all_done = refl

judge-Judged_example : Judged straight rows (judge straight rows)
judge-Judged_example = judge-Judged straight rows

abbrev done : Store ℕ
done = record initial { nodes = rows }

abbrev no_registry : Option (NodeRegistry ℕ)
no_registry = none

-- The two rows of a node that is done and of one that waits.
abbrev pub waiting : Store ℕ
waiting = record initial {
  nodes = record row { status = node_succeeded } ∷ record row { id = "n2"; node_id = "b" } ∷ [];
}

finalize_execution-Finishes_example :
    Finishes (finalize_execution 0 no_registry 3 6 run straight waiting).1
finalize_execution-Finishes_example =
    finalize_execution-Finishes 0 no_registry 3 6 run straight waiting (omega arith)

abbrev no_plugins : NodeRegistry ℕ
no_plugins = record { registrations = [] }

abbrev pub one_plugin : NodeRegistry ℕ
one_plugin = record { registrations = record step { trigger_input_mode = "ALL" } ∷ [] }

was_registered : register_node no_plugins step ≡ ok one_plugin
unfolding register_node trim_space
was_registered = refl

register_node-Accepted_example : Accepted no_plugins one_plugin step
register_node-Accepted_example = register_node-Accepted no_plugins one_plugin step was_registered

-- Both nodes are done, so that the execution ends.
done_ends : (finalize_execution 0 no_registry 3 6 run straight done).1 ≡ value tt
unfolding finalize_execution sort_by
done_ends = refl

abbrev ended : Store ℕ
unfolding finalize_execution
ended = (finalize_execution 0 no_registry 3 6 run straight done).0

has_ended : finalize_execution 0 no_registry 3 6 run straight done ≡ (ended, value tt)
unfolding finalize_execution sort_by
has_ended = refl

finalize_execution-Finalized_example : Finalized 0 6 run straight no_registry done ended
finalize_execution-Finalized_example =
    finalize_execution-Finalized 0 6 run straight no_registry 3 done ended has_ended

abbrev pub json : Json ℕ
json = record {
  null = 0;
  nil_object = 5;
  text = λ s. 1;
  number = λ n. n;
  list = λ xs. 2;
  object = λ o. 3;
}

abbrev pub call_of : ExecutionRow ℕ → Schedule ℕ
call_of e = record {
  json = json;
  registry = one_plugin;
  now = 2;
  new_message_id = λ id. id;
  topic = "jobs";
  execution = e;
  workflow = straight;
  start_input = 4;
  start_node_id = "";
}

schedule_ready-Finishes_example : Finishes (schedule_ready (call_of run) initial).1
schedule_ready-Finishes_example = schedule_ready-Finishes (call_of run) initial

complete_node-Finishes_example : Finishes (complete_node call_of 3 job waiting).1
complete_node-Finishes_example = complete_node-Finishes call_of 3 job waiting (omega arith)

-- The only node of the execution is queued.
one_queued : (schedule_ready (call_of run) initial).1 ≡ value 1
unfolding schedule_ready sort_by trim_space miletos.Common.is_blank
    miletos.Plugin.Registry.validate_configuration miletos.Workflow.Validator.Edges.fault_issues
    miletos.Workflow.Validator.Edges.edge_faults miletos.Workflow.Validator.Issues.has_port
    miletos.Plugin.Registry.connection_restricted miletos.Workflow.Graph.Cycle.find_cycle_path
one_queued = refl

abbrev ready : Store ℕ
unfolding schedule_ready
ready = (schedule_ready (call_of run) initial).0

was_ready : schedule_ready (call_of run) initial ≡ (ready, value 1)
unfolding schedule_ready sort_by trim_space miletos.Common.is_blank
    miletos.Plugin.Registry.validate_configuration miletos.Workflow.Validator.Edges.fault_issues
    miletos.Workflow.Validator.Edges.edge_faults miletos.Workflow.Validator.Issues.has_port
    miletos.Plugin.Registry.connection_restricted miletos.Workflow.Graph.Cycle.find_cycle_path
was_ready = refl

schedule_ready-Scheduled_example : Scheduled (call_of run) initial 1 ready
schedule_ready-Scheduled_example = schedule_ready-Scheduled (call_of run) initial ready 1 was_ready

abbrev completed : Store ℕ
unfolding complete_node
completed = (complete_node call_of 3 job initial).0

was_completed : complete_node call_of 3 job initial ≡ (completed, value tt)
unfolding complete_node sort_by trim_space miletos.Common.is_blank
    miletos.Plugin.Registry.validate_configuration miletos.Workflow.Validator.Edges.fault_issues
    miletos.Workflow.Validator.Edges.edge_faults miletos.Workflow.Validator.Issues.has_port
    miletos.Plugin.Registry.connection_restricted miletos.Workflow.Graph.Cycle.find_cycle_path
was_completed = refl

complete_node-Completed_example : Completed call_of job initial completed
complete_node-Completed_example =
    complete_node-Completed call_of 3 job initial completed was_completed

abbrev activated : Store ℕ
unfolding activate_from_root
activated = (activate_from_root call_of "c" "x" "a" initial).0

was_activated : activate_from_root call_of "c" "x" "a" initial ≡ (activated, value 1)
unfolding activate_from_root sort_by trim_space miletos.Common.is_blank
    miletos.Plugin.Registry.validate_configuration miletos.Workflow.Validator.Edges.fault_issues
    miletos.Workflow.Validator.Edges.edge_faults miletos.Workflow.Validator.Issues.has_port
    miletos.Plugin.Registry.connection_restricted miletos.Workflow.Graph.Cycle.find_cycle_path
was_activated = refl

activate_from_root-Activated_example :
    Activated call_of "c" "x" (trim_space "a") initial 1 activated
activate_from_root-Activated_example =
    activate_from_root-Activated call_of "c" "x" "a" initial activated 1 was_activated
