-- ===== src/Examples/Processing.antt =====
-- A worker whose handlers push their payload onto the first edge, and produce it.
use miletos.Common.{arith, ℕ, true, ◌≡◌, refl, some, [], ◌∷◌, All, string_eq}
use miletos.Execution.{NodeRoutingOutcome}
use miletos.Execution.Retry.{live}
use miletos.Execution.Access.{
  HandlerRun, ends, pushes, produced, new_node_access, outcome, push_edge, routed_run, run_handler,
}
use miletos.Execution.Access.Routed.{RoutesOf, run_handler-RoutesOf}
use miletos.Execution.Processor.{Worker, process_attempts}
use miletos.Execution.Processor.Consumer.{consume}
use miletos.Execution.Processor.Bounds.{WithinAttempts, consume-WithinAttempts}
use miletos.Execution.Processor.Ends.{process_attempts-Finishes}
use miletos.Execution.Processor.Total.{consume-Finishes}
use miletos.Execution.Scheduler.Passes.{Finishes}
use miletos.Examples.Graphs.{straight, node}
use miletos.Examples.Stores.{initial, job}
use miletos.Examples.Scheduling.{one_plugin, call_of, waiting}

abbrev pushing : HandlerRun ℕ
pushing = pushes 0 7 (λ answer. pushes 0 8 (λ again. ends (produced 7)))

abbrev pub worker : Worker ℕ
worker = record {
  null = 0;
  registry = one_plugin;
  topic = "jobs";
  maximum_attempts = 3;
  retry_delay = 1;
  stored_workflow = λ j. some straight;
  execute = λ r j configuration access. pushing;
  now = λ j. 5;
  failed_at = λ j. 5;
  deadline = 0;
  context_of = λ j. live;
  context_after_wait = λ j. live;
  new_message_id = λ j. "m2";
  schedule_of = call_of;
  finalize_fuel = 3;
}

consume-WithinAttempts_example : All (WithinAttempts 3) (consume worker (some job) initial).0.nodes
consume-WithinAttempts_example =
    consume-WithinAttempts worker (some job) initial ((omega arith, λ h. omega arith), tt)

process_attempts-Finishes_example :
    Finishes (process_attempts 4 worker true straight (node "a" "step") job initial).1
process_attempts-Finishes_example =
    process_attempts-Finishes 4 worker true straight (node "a" "step") job initial (omega arith)
      (λ h. omega arith)

consume-Finishes_example : Finishes (consume worker (some job) waiting).1
consume-Finishes_example = consume-Finishes worker (some job) waiting (omega arith)

-- The second push onto the edge is refused.
abbrev chosen : NodeRoutingOutcome ℕ
chosen = record { explicit = true; edge_payloads = ("e", 7) ∷ [] }

pushed_once :
    routed_run (run_handler pushing (new_node_access straight "a" "EXPLICIT"))
    ≡ (produced 7, chosen)
unfolding run_handler new_node_access push_edge outcome
pushed_once = refl

run_handler-RoutesOf_example : RoutesOf straight "a" "EXPLICIT" chosen
run_handler-RoutesOf_example =
    run_handler-RoutesOf straight "a" "EXPLICIT" pushing 7 chosen pushed_once
