-- ===== src/Examples/Stores.antt =====
-- A node that is queued, started and succeeds, one that fails and waits, and a message that is
-- published.
use miletos.Common.{
  update_where, ℕ, ◌+◌, String, true, false, ◌≡◌, ◌≢◌, refl, inl, none, some, [], ◌∷◌, Memᴰ, All,
  string_eq, ◌==◌, nat_eq, arith, is_blank, sort_by,
}
use miletos.Execution.{
  execution_running, node_pending, unset, NodeJob, no_failure, NodeRoutingOutcome,
}
use miletos.Execution.Store.{Store, NodeRow, ExecutionRow, Result, ok, err, state_transition}
use miletos.Execution.Store.Outbox.{OutboxMessage, mark_published, release, claim_due, publish_row}
use miletos.Execution.Store.Nodes.{queue_node_command, job_of}
use miletos.Execution.Store.Attempts.{mark_node_running, save_node_success}
use miletos.Execution.Store.Failures.{save_node_failure}
use miletos.Execution.Store.Lifecycle.{Evolved, RowOk}
use miletos.Execution.Store.Copies.{copy_successful_nodes}
use miletos.Execution.Store.Lifecycle.History.{Transaction, History, begin, next, History-Evolved}
use miletos.Execution.Store.Lifecycle.Ended.{
  StillEnded, History-terminal, History-StillEnded, History-RowOk,
}
use miletos.Execution.Store.Commands.{
  has_command, queue_node_command-has_command, save_node_failure-has_command,
}
use miletos.Execution.Store.Claims.{claim_used_once}
use miletos.Execution.Store.Repairs.{repair_queued_node_command}
use miletos.Execution.Reconciler.Rearmed.{
  awaits_publication, repair_queued_node_command-awaits_publication,
}
use miletos.Execution.Store.Once.{save_node_success-final}
use miletos.Execution.Store.Lifecycle.Started.{mark_node_running-once}

abbrev pub run : ExecutionRow ℕ
run = record {
  id = "x";
  company_id = "c";
  workflow_id = "w";
  workflow_revision = 1;
  correlation_id = "";
  origin = unset;
  status = execution_running;
  created_at = 1;
  queued_at = some 1;
  started_at = some 1;
  finished_at = none;
  updated_at = 1;
  terminal_outputs = [];
  failure = none;
  is_stalled = false;
  lock_version = 0;
  next_sequence_number = 1;
}

abbrev pub row : NodeRow ℕ
row = record {
  id = "n1";
  execution_id = "x";
  company_id = "c";
  node_id = "a";
  type = "step";
  version = "v1";
  status = node_pending;
  attempt = 1;
  created_at = 1;
  ready_at = none;
  queued_at = none;
  started_at = none;
  finished_at = none;
  next_attempt_at = none;
  updated_at = 1;
  input = none;
  output = none;
  failure = none;
  retry_max_attempts = none;
  retry_backoff_ns = none;
  lock_version = 0;
}

abbrev pub initial : Store ℕ
initial = record {
  executions = run ∷ [];
  nodes = row ∷ [];
  attempts = [];
  outbox = [];
  events = [];
  logs = [];
  errors = [];
}

abbrev pub tables : {A : Type 0} → Store ℕ → Result ℕ A → Store ℕ
tables s (ok a s') = s'
tables s (err x) = s

abbrev value : {A : Type 0} → A → Result ℕ A → A
value d (ok a s') = a
value d (err x) = d

abbrev pub job : NodeJob ℕ
job = job_of run row 5

abbrev pub queued : Store ℕ
unfolding queue_node_command
queued = tables initial (queue_node_command "m1" 2 run "a" 5 "jobs" initial)

abbrev pub queued_row : NodeRow ℕ
unfolding queue_node_command
queued_row = elim (queue_node_command "m1" 2 run "a" 5 "jobs" initial) [
  | ok (some r) s ↦ r
  | ok none s ↦ row
  | err x ↦ row
]

was_queued : queue_node_command "m1" 2 run "a" 5 "jobs" initial ≡ ok (some queued_row) queued
unfolding queue_node_command is_blank
was_queued = refl

abbrev started : Store ℕ
unfolding mark_node_running
started = tables queued (mark_node_running 3 job queued)

was_started : mark_node_running 3 job queued ≡ ok true started
unfolding mark_node_running queued is_blank
was_started = refl

abbrev broadcast : NodeRoutingOutcome ℕ
broadcast = record { explicit = false; edge_payloads = [] }

abbrev succeeded : Store ℕ
unfolding save_node_success
succeeded = tables started (save_node_success 4 job 9 broadcast started)

was_saved : save_node_success 4 job 9 broadcast started ≡ ok tt succeeded
unfolding save_node_success started queued is_blank
was_saved = refl

abbrev failed : Store ℕ
unfolding save_node_failure
failed = tables started (save_node_failure "m2" 4 job no_failure true 4 14 3 10 "jobs" started)

has_failed : save_node_failure "m2" 4 job no_failure true 4 14 3 10 "jobs" started ≡ ok tt failed
unfolding save_node_failure started queued is_blank
has_failed = refl

-- Results are copied into the execution y.
abbrev IntoY : String → Type 0
IntoY id = (id == "y") ≡ true

abbrev story : History IntoY initial succeeded
story = next (Transaction.node_was_commanded "m1" 2 run "a" 5 "jobs" (some queued_row) was_queued) (
    next (Transaction.node_was_started 3 job true was_started)
      (next (Transaction.node_has_succeeded 4 job 9 broadcast was_saved) begin))

abbrev reserved : Store ℕ
reserved = record succeeded {
  nodes = record row { id = "n2"; execution_id = "y" } ∷ succeeded.nodes;
}

abbrev recovered : Store ℕ
unfolding copy_successful_nodes
recovered = tables reserved (copy_successful_nodes "c" "x" "y" ("a" ∷ []) reserved)

was_copied : copy_successful_nodes "c" "x" "y" ("a" ∷ []) reserved ≡ ok tt recovered
unfolding copy_successful_nodes succeeded started queued is_blank
was_copied = refl

abbrev copy_story : History IntoY reserved recovered
copy_story = next (Transaction.results_were_copied "c" "x" "y" ("a" ∷ []) refl was_copied) begin

History-Evolved_example : Evolved IntoY reserved.nodes recovered.nodes
History-Evolved_example = History-Evolved copy_story

History-RowOk_example : All RowOk succeeded.nodes
History-RowOk_example = History-RowOk story (
  record {
    times = refl;
    readied = λ e. cc;
    ran = λ e. cc;
    awaiting = refl;
    numbered = omega arith;
  },
  tt,
)

was_repeated : mark_node_running 9 job succeeded ≡ ok false succeeded
unfolding mark_node_running succeeded started queued is_blank
was_repeated = refl

abbrev done_row : NodeRow ℕ
done_row = elim succeeded.nodes [ [] ↦ row | r ∷ rs ↦ r ]

History-terminal_example : Memᴰ done_row succeeded.nodes
unfolding succeeded started queued is_blank
History-terminal_example =
    History-terminal {recovers = IntoY} {s = succeeded} {s' = succeeded} done_row
      (next (Transaction.node_was_started 9 job false was_repeated) begin) (Memᴰ.head refl) refl
      (λ e. cc)

History-StillEnded_example : (r : NodeRow ℕ) × Memᴰ r recovered.nodes × StillEnded done_row r
unfolding succeeded started queued is_blank
History-StillEnded_example =
    History-StillEnded done_row copy_story (Memᴰ.tail (Memᴰ.head refl)) refl

queue_node_command-has_command_example :
    has_command (job_of run queued_row 5) queued_row.attempt queued.outbox ≡ true
queue_node_command-has_command_example =
    queue_node_command-has_command "m1" 2 run "a" 5 "jobs" queued_row initial queued was_queued

save_node_failure-has_command_example : has_command job (job.attempt + 1) failed.outbox ≡ true
save_node_failure-has_command_example =
    save_node_failure-has_command "m2" 4 job no_failure 4 14 3 10 "jobs" started failed refl
      has_failed

abbrev result_story : History IntoY started succeeded
result_story = next (Transaction.node_has_succeeded 4 job 9 broadcast was_saved) begin

mark_node_running-once_example : mark_node_running 9 job succeeded ≢ ok true succeeded
mark_node_running-once_example =
    mark_node_running-once 3 9 job queued started succeeded succeeded was_started result_story

save_node_success-final_example :
    (save_node_success 6 job 8 broadcast succeeded ≡ err state_transition)
    × (save_node_failure "m3" 6 job no_failure true 6 16 3 10 "jobs" succeeded
        ≡ err state_transition)
save_node_success-final_example =
    save_node_success-final "m3" 4 6 job 9 8 broadcast broadcast no_failure true 6 16 3 10 "jobs"
      started succeeded was_saved

abbrev claimed : Store ℕ
unfolding claim_due
claimed = tables queued (claim_due "d" 10 5 5 queued)

abbrev message : OutboxMessage ℕ
message = record {
  id = "m1";
  destination = "jobs";
  message_key = "n1";
  payload = job;
  claim_owner = "d";
  lock_version = 1;
}

abbrev sent : Store ℕ
unfolding mark_published
sent = tables claimed (mark_published 6 message claimed)

was_sent : mark_published 6 message claimed ≡ ok tt sent
unfolding mark_published claimed sort_by queued is_blank
was_sent = refl

claim_used_once_example :
    (mark_published 7 message sent ≡ err state_transition)
    × (release message sent ≡ err state_transition)
claim_used_once_example = claim_used_once 6 7 message claimed sent (inl was_sent)

-- The command of the queued node, which was published and lost.
abbrev lost : Store ℕ
lost = record queued { outbox = update_where (λ o. true) (publish_row 3) queued.outbox }

abbrev repaired : Store ℕ
unfolding repair_queued_node_command
repaired = tables lost (repair_queued_node_command "m3" 9 queued_row job "jobs" 9 lost)

was_repaired : repair_queued_node_command "m3" 9 queued_row job "jobs" 9 lost ≡ ok true repaired
unfolding repair_queued_node_command queued queued_row is_blank
was_repaired = refl

repair_queued_node_command-awaits_publication_example :
    awaits_publication job repaired.outbox ≡ true
repair_queued_node_command-awaits_publication_example =
    repair_queued_node_command-awaits_publication "m3" 9 queued_row job "jobs" 9 lost repaired
      was_repaired
