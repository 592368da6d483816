-- ===== src/Lib.antt =====
-- Agentic Mesh: a model of the control plane's flow definitions, role queues and routing, of its event
-- outbox, of the lifecycle of work with gates and the retry policy for failures, and of the merging of
-- its settings.
--
-- The program runs software projects by role agents. A flow definition, read from the resolved
-- configuration, says which role owns each state of the work and along which routes the work moves.
-- Work waits in role queues: a running role instance claims an item under a lease, keeps the lease
-- alive by heartbeats, and completes or releases the item. The stores keep their state in Postgres,
-- and each operation is one transaction.
--
-- Flow is src/agentic_mesh_v5/flow_definition.py. Flow.antt has the data (Condition, FlowAction,
-- FlowRoute, FlowState, FlowDefinition), `applies`, `obligations` and `select_route`; Flow/Parse reads
-- states from JSON (`_state`, `_actions`, `_routes`, `_condition`, `_string_list`, `_identifier`,
-- `_digest`); Flow/Validate is `validate_flow`. The loop over the pending states runs on fuel, one
-- unit more than the flow has states, since each state is pending at most once. The other children are
-- proofs, and Flow/Scenarios has the tests.
--
-- Queue is src/agentic_mesh_v5/queues.py. Queue.antt has the rows of the tables role_queues,
-- role_instances, queue_items, leases and handoffs as records, the errors and the checks of the
-- arguments. Queue/Store and its children are the operations of RoleQueueStore, under their own names.
-- An operation takes the tables and returns the tables that it commits, or an error, after which the
-- tables are as before. What comes from outside is an argument: the clock at each statement, the fresh
-- identifiers of a claim, the rows that other transactions have locked (SKIP LOCKED), and the
-- collation of the database. Times are microseconds. Queue/History is any sequence of operations, mixed
-- with any changes by other components to the tables that the queues only read.
--
-- Routing is src/agentic_mesh_v5/routing.py: `new_draft` is RouteDraft with its checks, and `route` and
-- `route_in_transaction` are those of Router, on the tables of the queues. The hash, `json.dumps` and
-- `isoformat` are arguments. Two different texts may have the same hash: the theorems speak of the
-- fingerprints. Histories contain routes next to the operations of the queue store.
--
-- Packages is the merging of settings in src/agentic_mesh_v5/package_resolver.py: `merge` is `_merge`,
-- on dictionaries that are lists of keys and values, and `merge_settings` the loop of
-- `resolve_packages` over the contents. The order of the packages and their files are not modelled.
--
-- Journal is src/agentic_mesh_v5/events.py: Journal.antt has the drafts with their checks,
-- EventUnitOfWork.append and EventStore.read on the tables of events and of the outbox, and
-- Journal/Outbox has OutboxDispatcher.dispatch_one, one message of one transaction; Journal/Due has the order of the due messages, written apart from the
-- code. What the adapter
-- does with a message is an argument, as are the rows that others have locked. Delays are
-- microseconds.
--
-- Work has the tables that the next two stores share, of the migrations 0001, 0003, 0015 and 0016.
-- Lifecycle is src/agentic_mesh_v5/lifecycle.py: projects, work items and their transitions in
-- Lifecycle.antt, and gates with the approvals of sponsors in Lifecycle/Gates; Lifecycle/Moving and
-- Lifecycle/Gating say what a call has done where it returns. Reliability is
-- src/agentic_mesh_v5/reliability.py, with the test for restricted content from progress.py, whose
-- `re.search` is an argument: Reliability/Incidents has `start`, `_status` and `status`, and
-- Reliability/Attempts has `record_attempt`, `_advance_failed` and `_succeed`, whose checked arguments
-- and rows are in Reliability/Results. Both append to the
-- journal, and the retry policy routes its continuations by Routing. Arguments have the types that the
-- source declares, so the tests of types are left out. A status that is a closed set in the code or the
-- database is a data type, and the pair of next stage and next number is an option.
--
-- Histories is any sequence of the operations of the two stores, mixed with writes by other components
-- to tables other than work items, gates, approvals, incidents and attempts. Histories/Changes sorts
-- what an operation has done into cases, and Histories/Abstraction has the abstract life of a work
-- item. Two more modules write these tables, and their operations are not part of these histories:
-- sponsor_approvals.py writes work items, gates and approvals, and flow_engine.py writes the assigned
-- role and the version of active work. The flow columns of gates and the status "timed_out" of
-- migration 0024 are not modelled: gates here are those without a flow.
--
-- Not modelled: connections, transactions' retries and the waiting for locks, since the database
-- provides these; the JSON numbers that are not integers; `load_flow`, which looks up one settings
-- key. The other modules of src/agentic_mesh_v5 have no model here.
pub mod Prelude
pub mod Flow
pub mod Queue
pub mod Routing
pub mod Packages
pub mod Journal
pub mod Work
pub mod Lifecycle
pub mod Reliability
pub mod Histories
