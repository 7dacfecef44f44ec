-- ===== src/Lib.antt =====
-- A model of the workflow engine of miletos (miletos-be/miletos-go/internal/features/workflow-runtime)
-- and of what makes it correct. A workflow is a graph of nodes, each of a plugin type. It is validated
-- before it is stored or run. An execution has a row, and a row for each node; the scheduler queues a
-- node once the routes into it are decided, and writes a command for it into an outbox in the same
-- transaction; a worker takes the command, starts the attempt, runs the node's handler and saves the
-- result, or a failure with a retry.
--
-- Files, and what they are about (paths below the directory above):
--   Common           lists, maps, texts, sorting and tables as lists of rows, for all others
--   Workflow         workflow/model.go
--   Workflow/Graph   workflow/graph.go: `predecessors`, `roots`, `downstream`; Graph/Reach proves
--                    `downstream`; Graph/Cycle is `find_cycle_path`, with its proofs below it
--   Workflow/Validator  workflow/validator.go: `validate_workflow_definition` returns the issues in the
--                    order of the code, and accepts with none. Nodes and Edges are its two loops, Counts
--                    the constraints on edges, Accepted the proofs
--   Plugin           plugin/model.go, errors.go; Plugin/Registry is plugin/registry.go
--   Execution        execution/model: statuses, jobs, failures
--   Execution/Routing   execution/routing.go; Routing/Resolved proves it in terms of Routing/Verdicts
--   Execution/Retry  execution/retry.go and the decisions of execution/node_processor.go
--   Execution/Access execution/node_access.go: a handler is a program of pushes, `HandlerRun`, that
--                    `run_handler` carries out on the edges of a node; Access/Routed is its proof
--   Execution/Processor  execution/node_processor.go: `process_attempts`, and `process` and `consume` in
--                    Consumer; Jobs, Bounds, Ends and Total prove what holds of them,
--                    Kept what their steps have in common
--   Execution/Reconciler  execution/reconciler.go; Store/Repairs is its repository
--   Execution/Dispatcher  execution/outbox_dispatcher.go; Execution/Recovery  execution/recovery.go, up to
--                    the reservation of the new execution
--   Execution/Store  execution/repository: the tables, and transactions on them. Observations, Outbox,
--                    Nodes, Attempts, Failures, Executions, Repairs and Copies (the results that a
--                    recovery keeps) have one function for each method, under its name, and Statuses
--                    the conditions they share; Tables says what each does to the node rows,
--                    Unattempted which leave those of attempts; Lifecycle, Commands, Claims and Once
--                    prove what holds of them
--   Execution/Inputs  execution/input_builder.go: the payload of a node
--   Execution/Scheduler  execution/scheduler.go: `finalize_execution` in Programs, `schedule_ready` and
--                    `complete_node` in Ready, `activate` in Activation. Settle is about the decision of
--                    `Finalize`; Passes, Rounds, Pending, Skips, Ends and Jobs about the end of the loops;
--                    Finalized, Scheduled, Completed and Activation say by step relations what the methods
--                    have done when they return, from Swept, Plans and Returns; Kept names what a
--                    transaction must keep for a whole program to keep it
--   Values           JSON values of Go's `any`; Values/Persisted is execution/model/persisted_value.go with
--                    what `SaveNodeSuccess` writes and `decodePersistedSummaries` reads, Values/Redaction
--                    is execution/redaction.go
--   Nodes            plugin/processing_node_helpers.go; Nodes/Conditions is plugin/condition_nodes.go,
--                    Nodes/Mapping plugin/map_node.go, Nodes/Merge plugin/merge_node.go, each with the
--                    proofs below it
--   Examples         concrete workflows and tables
--
-- How the code is rendered. Go's maps are association lists or functions, JSON values are a parameter
-- `V` of the tables and the scheduler, and the type Value where the code looks into them, over any type of
-- numbers, times are numbers with 0 for the zero time. A transaction is a function from the tables to a
-- result with the new tables, or an error; the caller keeps the old tables on an error, which is the
-- rollback. Each transaction is one step: row locks make them so in the database. Ids that are drawn at
-- random, and clocks, are arguments. The keys of the tables that inserts rely on are tested; the SHA-256
-- hash of an operation key is its input, that is, taken to have no collisions.
--
-- Loops. `downstream_loop` has one round for each start and each edge and one more, since each edge is
-- queued once; `visit` goes one level down for each node that it enters, so that the number of nodes and
-- edges bounds the levels; `skip_inactive_pending_nodes` and `schedule_rounds` make a pass for each node
-- and one more, since each pass but the last skips a node. `finalize_execution` starts anew on fuel that
-- the caller gives, and needs more than there are pending rows. `process_attempts` has a round for each
-- attempt; `process` gives it one, since its retries are later messages. These bounds are
-- proved to be enough. All other loops go down a list.
--
-- What stands outside is an argument: the worker's stored workflows, handlers, clocks and contexts
-- (`Worker`), whether the queue takes a message (`Dispatcher`), how numbers and texts compare as floats
-- (`Numbers`), the cases of letters, and the row of a database that a Merge node looks up.
--
-- Not modelled: failures of the database driver and of JSON encoding; the texts of issues; metadata of
-- events; idempotency keys; the reservation of a recovery; the order of a row's times, which the
-- database checks; the time that passes while a worker handles a job, whose clock stands still; the
-- handlers of the other plugins and what handlers do elsewhere; triggers and the transport; the Java
-- service and the web client.
pub mod Common
pub mod Values
pub mod Workflow
pub mod Plugin
pub mod Execution
pub mod Nodes
pub mod Examples
