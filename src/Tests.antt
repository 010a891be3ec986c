-- ===== src/Tests.antt =====
-- The tests of src/lib.rs, run on the model: each test is a definition that makes its assertions. The
-- values of the tests are whole numbers, which stand for their `f64`. A closure's effects on a shared list
-- are what the engine says was emitted, and its effects on a shared counter are what it says of calls. A
-- wait for the runtime is the end of its tasks.
pub mod Nodes
pub mod Cycles
pub mod Subgraphs
pub mod Parallel
pub mod Async
pub mod Pricing
pub mod Reports
pub mod Threads
use Prim.Native.Nat.{◌/◌, ◌%◌}
use Prim.Native.Char.{code}
use Prim.Native.String.{String, char_at, [] as no_characters, ◌∷◌ as character, ◌++◌ as concat}
use reactive_graph_experimen.Base.{
  ℕ, ◌+◌, zero, suc, ◌*◌, ◌≡◌, ◌↔◌, Bool, true, false, ◌&&◌, Option, none, some, List, [], ◌∷◌,
  ◌++◌, foldl, arith, lookup, insert, remove, contains, contains_key, keys, count, set_insert,
  set_remove, text_beq, nat_beq, ltb,
}
use reactive_graph_experimen.NodeRef.{NodeId, NodeRef, id_beq, id_eq}
use reactive_graph_experimen.ValueStore.{downcast_ref, get, set_by_id, get_by_id}
use reactive_graph_experimen.ValueStore
use reactive_graph_experimen.Topology.{add_node, remove_node, dirty_set, topo_sort, list_at}
use reactive_graph_experimen.Sender.{send}
use reactive_graph_experimen.Graph.{Graph, register_node, activate}
use reactive_graph_experimen.Builder.{Platform, make_ref, extract, read_argument, cons_value}
use reactive_graph_experimen.Builder.Compute.{extract_and_call, closure_compute_node}
use reactive_graph_experimen.Builder.Sink.{closure_sink_node}
use reactive_graph_experimen.Builder.Source
use reactive_graph_experimen.Builder.Compute
use reactive_graph_experimen.Builder.Sink
use reactive_graph_experimen.Builder.Start
use reactive_graph_experimen.Builder.Sub
use reactive_graph_experimen.Subgraph.{SubgraphBuilder}
use reactive_graph_experimen.Subgraph
use reactive_graph_experimen.Engine.{
  remove_all, Engine, graph, activate_sink, activate_node, mark_active, start_node, start_source,
  start_compute, store_result, enough, drain_pending_removals, deactivate, deactivate_node,
  drop_node, set_ref_count,
}
use reactive_graph_experimen.Engine.Cycle.{
  run_cycle, run_cycle_impl, drain_updates, accept, propagate, execute_sequential_with_async,
  execute_node, execute_entry, strategy_of, execute_compute_with_error_handling, spawn_async_work,
  record_metrics,
}
use reactive_graph_experimen.Metrics.{record_cycle}
use reactive_graph_experimen.Scheduler.{emission}
use reactive_graph_experimen.AsyncCompute.{drain_results}

-- `TypeId`s that differ.
abbrev f64 : ℕ
f64 = 7

abbrev string : ℕ
string = 8

abbrev unit : ℕ
unit = 9

-- The characters as the digits of a number: a hasher under which no two keys of the tests collide.
unfoldable digits : ℕ → String → ℕ
digits n no_characters = n
digits n (character c key) = digits (n * 256 + code c) key

abbrev platform : Platform String
platform = record {
  hash = digits 1;
  closure_source = 1;
  closure_compute = 2;
  closure_sink = 3;
  closure_async_compute = 4;
}

-- The order of the list: one order that the standard library may choose.
abbrev in_order : List NodeId → List NodeId
in_order ids = ids

-- `assert!` of each, in order.
unfoldable all_pass : List Bool → Bool
all_pass [] = true
all_pass (test ∷ tests) = test && all_pass tests

-- `assert!` of what is unwrapped.
unfoldable holds {ℓ} : {A : Type ℓ} → Option A → (A → Bool) → Bool
holds none test = false
holds (some a) test = test a

-- `== Some(&n)`
unfoldable is_value : Option ℕ → ℕ → Bool
is_value none n = false
is_value (some v) n = nat_beq v n

-- `|v: &f64| f(v)`
unfoldable unary : (ℕ → ℕ) → ℕ → List ℕ → ℕ
unary f calls [] = 0
unary f calls (v ∷ vs) = f v

-- `|a: &f64, b: &f64| f(a, b)`
unfoldable binary : (ℕ → ℕ → ℕ) → ℕ → List ℕ → ℕ
binary f calls [] = 0
binary f calls (v ∷ vs) = unary (f v) calls vs

-- `Graph::source(key).on_activate(|_tx| ()).build(g)`
unfoldable new_source : String → Graph → Graph × NodeRef
new_source key g = Source.build platform (Source.on_activate (Start.source key f64) 0 []) g

-- `Graph::compute(key).dep(..).compute(f).build(g)`
unfoldable new_compute : String → List NodeRef → (ℕ → List ℕ → ℕ) → Graph → Graph × NodeRef
new_compute key deps f g =
    Compute.build platform (Compute.compute (foldl Compute.dep (Start.compute key f64) deps) f) g

-- `Graph::sink(key).dep(..).on_emit(f).build(g)`
unfoldable new_sink : String → List NodeRef → Graph → Graph × NodeRef
new_sink key deps g =
    Sink.build platform unit (Sink.on_emit (foldl Sink.dep (Start.sink key) deps)) g

-- The same on a `SubgraphBuilder`, with `build_sub`.
unfoldable sub_source : String → SubgraphBuilder → SubgraphBuilder × NodeRef
sub_source key sb = Sub.build_sub_source platform (Source.on_activate (Sub.source key f64) 0 []) sb

unfoldable sub_compute :
    String → List NodeRef → (ℕ → List ℕ → ℕ) → SubgraphBuilder → SubgraphBuilder × NodeRef
sub_compute key deps f sb =
    Sub.build_sub_compute platform
      (Compute.compute (foldl Compute.dep (Sub.compute key f64) deps) f) sb

unfoldable sub_sink : String → List NodeRef → SubgraphBuilder → SubgraphBuilder × NodeRef
sub_sink key deps sb =
    Sub.build_sub_sink platform unit (Sink.on_emit (foldl Sink.dep (Sub.sink key) deps)) sb

-- `engine.graph()` is a mutable reference: what was built on it.
abbrev with_graph : Engine → Graph → Engine
with_graph e g = record e { graph = g }

-- `tx.send((source.id.clone(), Box::new(v))).unwrap()`
unfoldable send_value : NodeRef → ℕ → Engine → Engine
send_value node_ref v e =
    with_graph e (send (record { id = node_ref.id; value_type = node_ref.output }) e.graph v)

-- `engine.graph.value_store.get(&node_ref)`
unfoldable value_of : Engine → NodeRef → Option ℕ
value_of e node_ref = get e.graph.value_store node_ref

-- `*sink_values.lock().unwrap()`, of a sink whose closure pushes its arguments.
unfoldable pushed : List (NodeId × List ℕ) → NodeRef → List ℕ
pushed [] sink = []
pushed ((id, args) ∷ emitted) sink = elim (id_beq id sink.id) [
  | true ↦ args ++ pushed emitted sink
  | false ↦ pushed emitted sink
]

abbrev sink_values : Engine → NodeRef → List ℕ
sink_values e sink = pushed e.emitted sink

-- Whether the engine has the guard that the activation of a source returned.
unfoldable has_guard : Engine → NodeRef → Bool
has_guard e node_ref = contains_key node_ref.id e.guards

abbrev digit : ℕ → String
digit i = character (char_at "0123456789" i) no_characters

-- `format!("{}{}", prefix, i)`, for numbers below 100.
unfoldable key_of : String → ℕ → String
key_of prefix i =
    concat prefix
      (elim (ltb i 10) [ true ↦ digit i | false ↦ concat (digit (i / 10)) (digit (i % 10)) ])

-- `0..n`
unfoldable below : ℕ → List ℕ
below zero = []
below (suc n) = below n ++ n ∷ []

-- `for (i, src) in sources.iter().enumerate() { tx.send(..) }`
unfoldable send_each : List NodeRef → ℕ → Engine → Engine
send_each [] i engine = engine
send_each (src ∷ sources) i engine = send_each sources (i + 1) (send_value src i engine)

-- `!values.is_empty()` and `*values.last().unwrap() == n`
unfoldable last_is : List ℕ → ℕ → Bool
last_is [] n = false
last_is (v ∷ []) n = nat_beq v n
last_is (v ∷ w ∷ vs) n = last_is (w ∷ vs) n

-- What a test that merges subgraphs runs.
unfoldable run_merge : Unit {0}
unfolding sub_source sub_compute sub_sink Sub.source Sub.compute Sub.sink Sub.build_sub_source
    Sub.build_sub_compute Sub.build_sub_sink Subgraph.register_node Subgraph.build Subgraph.register
    Subgraph.merge Subgraph.merge_nodes Subgraph.activate_if_sink Subgraph.drop_handle remove_all
run_merge = tt

-- What a test runs.
unfoldable run : Unit {0}
unfolding all_pass holds is_value unary binary new_source new_compute new_sink send_value value_of
    pushed digits has_guard text_beq lookup insert remove contains contains_key keys count
    set_insert set_remove id_beq downcast_ref get set_by_id get_by_id ValueStore.contains add_node
    dirty_set topo_sort list_at send register_node activate make_ref extract read_argument
    cons_value Source.new Source.on_activate Source.build Source.into_parts
    Source.closure_source_activatable Start.source Compute.new Compute.dep Compute.compute
    Compute.build Compute.into_parts extract_and_call closure_compute_node Start.compute Sink.new
    Sink.dep Sink.on_emit Sink.build Sink.into_parts closure_sink_node Start.sink deactivate
    deactivate_node drop_node set_ref_count remove_node ValueStore.remove graph activate_sink
    activate_node mark_active start_node start_source start_compute store_result enough
    drain_pending_removals run_cycle run_cycle_impl drain_updates accept propagate
    execute_sequential_with_async execute_node execute_entry strategy_of
    execute_compute_with_error_handling spawn_async_work record_metrics record_cycle emission
    drain_results
run = tt
