-- ===== src/Lib.antt =====
-- A verification library for reactive-graph-experiment, a reactive computation graph in Rust.
--
-- The program. Sources, compute nodes and sinks are registered in a graph (src/graph.rs) under a
-- NodeId (src/node_ref.rs) and are reference counted. Activating a sink activates what it depends on
-- and enters it in a topology (src/topology.rs). A propagation cycle (src/engine.rs) drains what the
-- sources sent and what asynchronous computations produced into the value store
-- (src/value_store.rs), takes the transitive dependents of the changed nodes, sorts them
-- topologically and executes them, one after the other or in waves of threads (src/scheduler.rs);
-- asynchronous nodes are handed to a manager with policies and concurrency groups
-- (src/async_compute.rs). Subgraphs (src/subgraph.rs) are merged into a live engine and removed when
-- their handle is dropped. An event loop (src/event_loop.rs) drives an engine by commands, and a
-- bridge passes on to it what the sources send. An example program (examples/fx_pricing) prices
-- currency trades with the library.
--
-- The modules, and the code that they model.
--   Base: shared names, lists, association lists for HashMap and lists for HashSet, the interface Eq.
--   NodeRef: src/node_ref.rs.  ValueStore: src/value_store.rs.  Sender: src/sender.rs.
--   Topology: src/topology.rs; add_node, remove_node, dirty_set and topo_sort, each loop a function.
--   Graph: src/graph.rs; NodeImpl is the trait AnyNodeImpl as a record of functions.
--   Metrics: src/metrics.rs, src/error.rs, src/introspection.rs.
--   AsyncCompute: src/async_compute.rs; spawn, process_completion, drain_results and their parts.
--   Scheduler: src/scheduler.rs.
--   Engine: src/engine.rs; activation, deactivation, queries. Engine.Cycle: the propagation cycle,
--     and below it what a cycle is to achieve: Solution has it as equations without an order of
--     execution; Sequential and Parallel are about the two versions of the cycle.
--     Engine.Sound has the engines that any operations but removals make, and what the theorems on cycles
--     say of them; Engine.Ending has the end of the cascade of a deactivation.
--   Subgraph: src/subgraph.rs; register_node, build, merge and the drop of a handle. Private is about
--     subgraphs that share no node with the engine, Shared about a node that two of them share.
--   EventLoop: src/event_loop.rs, src/command.rs; Handle: src/engine_handle.rs. System has the threads
--     as a step relation: the loop, the bridge, tasks, sources and holders of handles. Sound and
--     Consistent are about loops whose commands remove nothing.
--   Builder: src/builder, src/node.rs and the builders of src/subgraph.rs; closure-based builders in
--     Source, Compute, Sink and AsyncCompute, trait-based ones in Trait, those of subgraphs in Sub; Start
--     has the functions of Graph that begin a build. The trait-based builders take at most as many
--     dependencies as the macros have instances for.
--   FxPricing: examples/fx_pricing; Types, Nodes and Api are its files of those names. Diagram and
--     Merging are about the subgraph of a trade, Trades about the life of a trade.
--   Examples: sample inputs and the theorems at concrete inputs.
--   Tests: the tests of src/lib.rs, src/topology.rs and src/value_store.rs, a module per phase. Each is
--     a Boolean definition that makes the test's assertions.
--
-- How state and operations correspond. A struct is a record with the same fields, a method is a
-- function that returns the new record. A HashMap is an association list, a HashSet a list; where the
-- code iterates over a hashed set in an order that matters, that order is an argument of the model,
-- of which the theorems assume only that it lists each member as often as the set does. A boxed value
-- is its TypeId and a number for its contents. User closures are functions in the record of a node;
-- they get the number of the calls made before, so that they may answer differently each time. The
-- tokio runtime is a list of running tasks, and that a task ends is a step of the environment.
--
-- Bounds and fuel. dirty_set runs on as many rounds as there are sources and listed dependents,
-- topo_sort on as many as there are dirty nodes, and besides on as many as there are chains of
-- dependents from the nodes that it begins with. On a mirrored topology each round takes a node off
-- the queue that is not queued again; where the two maps are not mirrored, as after a second
-- add_node of a node, a node can be queued again, and Topology.Rounds is about that. On a cycle that
-- is not mirrored the loop of the code need not end, and the model stops. activate_node runs on one
-- more than the number of registered nodes, since a call that recurs has marked one of them active;
-- deactivate_node on the same, since a call that recurs has removed one. The loop over a group's
-- queue runs on the queue's length. usize and u64 counters are not wrapped: they count nodes, tasks
-- and cycles.
--
-- The tests compute on whole numbers, which stand for their f64; the one whose numbers are not whole
-- has the arithmetic as parameters. A sleep of a test ends the tasks whose delay fits into it, and
-- the tests of the event loop are run under one schedule of its threads.
--
-- Not modelled: clock readings and sleeps; the start and the end of operating system threads;
-- the tests that only ask the type checker (test_input_tuple_arities, test_engine_handle_send_sync);
-- key_debug of NodeId, which is printed only; get_entry_mut of Graph, a borrow that no code of the
-- library calls. Of examples/fx_pricing: the start of the server, the routing of requests, and the
-- printing of quotes; its floating point operations, its hashes, the characters that a character is
-- mapped to in upper case, and the identifiers that it draws are parameters.
mod Base
pub mod NodeRef
pub mod ValueStore
pub mod Topology
pub mod Graph
pub mod Sender
pub mod Metrics
pub mod AsyncCompute
pub mod Scheduler
pub mod Engine
pub mod Subgraph
pub mod EventLoop
pub mod FxPricing
pub mod Builder
mod Examples
pub mod Tests
