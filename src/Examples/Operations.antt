-- ===== src/Examples/Operations.antt =====
-- A dispatcher that publishes a command, a recovery that keeps one node, and a round of the reconciler.
use miletos.Common.{ℕ, true, ◌≡◌, refl, Option, none, List, [], ◌∷◌, ◌++◌, All, string_eq}
use miletos.Plugin.Registry.{NodeRegistry}
use miletos.Execution.{execution_failed, node_succeeded, node_failed}
use miletos.Workflow.Graph.{downstream}
use miletos.Execution.Routing.{resolve_node_routes}
use miletos.Execution.Store.{NodeRow}
use miletos.Execution.Scheduler.{read_outcome}
use miletos.Execution.Dispatcher.{Dispatcher, dispatch}
use miletos.Execution.Dispatcher.Delivered.{PublishedIn, message_ids, published_ids, taken_ids}
use miletos.Execution.Dispatcher.Delivery.{dispatch-Delivered}
use miletos.Execution.Recovery.{
  RecoveryPlan, planned, plan_recovery, is_recoverable, recovery_outcomes, recovery_ready_count,
}
use miletos.Execution.Recovery.Plan.{Sound, plan_recovery-Sound}
use miletos.Execution.Reconciler.{Reconciler}
use miletos.Examples.Graphs.{straight}
use miletos.Examples.Processing.{worker}
use miletos.Examples.Stores.{row, queued}

abbrev dispatcher : Dispatcher ℕ
dispatcher = record {
  owner = "runtime";
  push = λ m. true;
  stale_before = 0;
  current_timestamp = 9;
  claimed_at = 9;
  published_at = λ m. 9;
}

dispatch-Delivered_example :
    let r = dispatch dispatcher queued in
    (message_ids r.0 ≡ message_ids queued)
    × All (PublishedIn (published_ids queued.outbox ++ taken_ids dispatcher r.1)) r.0.outbox
dispatch-Delivered_example = dispatch-Delivered dispatcher queued

abbrev no_registry : Option (NodeRegistry ℕ)
no_registry = none

-- The first node has succeeded and the second has failed.
abbrev half_done : List (NodeRow ℕ)
half_done =
    record row { status = node_succeeded }
    ∷ record row { id = "n2"; node_id = "b"; status = node_failed }
    ∷ []

abbrev half_plan : RecoveryPlan ℕ
half_plan = record {
  failed_ids = "b" ∷ [];
  out_of_scope_ids = [];
  preserved_route_skipped_ids = [];
  preserved_ids = "a" ∷ [];
  outcomes = ("a", read_outcome 0 (record row { status = node_succeeded })) ∷ [];
  scheduled = 1;
  reset = 1;
}

is_planned : plan_recovery 0 no_registry execution_failed straight half_done ≡ planned half_plan
unfolding plan_recovery downstream recovery_outcomes recovery_ready_count resolve_node_routes
is_planned = refl

plan_recovery-Sound_example :
    (is_recoverable execution_failed ≡ true) × Sound straight half_done half_plan
plan_recovery-Sound_example =
    plan_recovery-Sound 0 no_registry execution_failed straight half_done half_plan is_planned

abbrev reconciler : Reconciler ℕ
reconciler = record {
  worker = worker;
  thresholds = record { queued_before = 9; running_before = 9; retry_pending_before = 9 };
  thresholds_after = record { queued_before = 9; running_before = 9; retry_pending_before = 9 };
  current_timestamp = 9;
  now = 9;
  command_topic = "jobs";
  new_message_id = λ node. "m3";
  unwrap_summary = λ input. 5;
}
