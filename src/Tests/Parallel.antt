-- ===== src/Tests/Parallel.antt =====
-- The tests of src/lib.rs, phase 5: parallel cycles.
use reactive_graph_experimen.Base.{
  ℕ, ◌+◌, ◌*◌, ◌≡◌, refl, Bool, true, ◌&&◌, ◌++◌, foldl, List, [], ◌∷◌, ◌==◌, nat_eq,
}
use reactive_graph_experimen.NodeRef.{NodeRef}
use reactive_graph_experimen.Graph.{Graph}
use reactive_graph_experimen.Engine.{Engine, new, graph, activate_sink}
use reactive_graph_experimen.Engine.Cycle.{
  run_cycle_parallel, execute_parallel_with_async, is_sync, collect_async,
}
use reactive_graph_experimen.Scheduler.{
  execute_parallel, waves, run_wave, write_result, count_down, is_ready, count_ready,
  execute_single, begin_run,
}
use reactive_graph_experimen.Tests.{
  run, in_order, all_pass, is_value, unary, binary, new_source, new_compute, new_sink, with_graph,
  send_value, value_of, key_of, below, send_each,
}

unfoldable in_parallel : Unit {0}
unfolding run run_cycle_parallel execute_parallel_with_async is_sync collect_async execute_parallel
    waves run_wave write_result count_down is_ready count_ready execute_single begin_run
in_parallel = tt

-- Each call of a closure pushes the identifier of its thread: their number is that of the calls.
unfoldable test_parallel_independent_branches : Bool
test_parallel_independent_branches =
    let (engine, g) = graph new in
    let (g, s1) = new_source "p.s1" g in
    let (g, s2) = new_source "p.s2" g in
    let (g, c1) = new_compute "p.c1" (s1 ∷ []) (unary (λ v. v * 2)) g in
    let (g, c2) = new_compute "p.c2" (s2 ∷ []) (unary (λ v. v * 3)) g in
    let (g, sink1) = new_sink "p.sink1" (c1 ∷ []) g in
    let (g, sink2) = new_sink "p.sink2" (c2 ∷ []) g in
    let engine = activate_sink (activate_sink (with_graph engine g) sink1.id) sink2.id in
    let engine = run_cycle_parallel in_order (send_value s2 7 (send_value s1 5 engine)) in
    all_pass (
      is_value (value_of engine c1) 10
      ∷ is_value (value_of engine c2) 21
      ∷ (engine.calls == 2)
      ∷ [])

test_parallel_independent_branches_passes : test_parallel_independent_branches ≡ true
unfolding test_parallel_independent_branches in_parallel
test_parallel_independent_branches_passes = refl

-- The closure of `join` pushes its arguments. It is called once, in the third of three calls, with the
-- values of its dependencies.
unfoldable test_ready_count_ordering : Bool
test_ready_count_ordering =
    let (engine, g) = graph new in
    let (g, src) = new_source "rc.src" g in
    let (g, left) = new_compute "rc.left" (src ∷ []) (unary (λ v. v + 10)) g in
    let (g, right) = new_compute "rc.right" (src ∷ []) (unary (λ v. v * 2)) g in
    let (g, join) = new_compute "rc.join" (left ∷ right ∷ []) (binary (λ l r. l + r)) g in
    let (g, sink_ref) = new_sink "rc.sink" (join ∷ []) g in
    let engine = activate_sink (with_graph engine g) sink_ref.id in
    let engine = run_cycle_parallel in_order (send_value src 5 engine) in
    all_pass (
      (engine.calls == 3)
      ∷ is_value (value_of engine left) 15
      ∷ is_value (value_of engine right) 10
      ∷ is_value (value_of engine join) 25
      ∷ [])

test_ready_count_ordering_passes : test_ready_count_ordering ≡ true
unfolding test_ready_count_ordering in_parallel
test_ready_count_ordering_passes = refl

unfoldable test_node_computed_once : Bool
test_node_computed_once =
    let (engine, g) = graph new in
    let (g, s1) = new_source "nc.s1" g in
    let (g, s2) = new_source "nc.s2" g in
    let (g, join) = new_compute "nc.join" (s1 ∷ s2 ∷ []) (binary (λ a b. a + b)) g in
    let (g, sink_ref) = new_sink "nc.sink" (join ∷ []) g in
    let engine = activate_sink (with_graph engine g) sink_ref.id in
    let engine = run_cycle_parallel in_order (send_value s2 7 (send_value s1 3 engine)) in
    all_pass ((engine.calls == 1) ∷ is_value (value_of engine join) 10 ∷ [])

test_node_computed_once_passes : test_node_computed_once ≡ true
unfolding test_node_computed_once in_parallel
test_node_computed_once_passes = refl

-- The graph that is built in a loop, with the sources and the sinks so far.
record Chains : Type 0 where
  g : Graph
  sources : List NodeRef
  sinks : List NodeRef

-- One round: a chain of source, compute node and sink.
unfoldable add_chain : Chains → ℕ → Chains
add_chain c i =
    let (g, src) = new_source (key_of "ld.s" i) c.g in
    let (g, comp) = new_compute (key_of "ld.c" i) (src ∷ []) (unary (λ v. v * 2)) g in
    let (g, sink_ref) = new_sink (key_of "ld.sink" i) (comp ∷ []) g in
    record { g = g; sources = c.sources ++ src ∷ []; sinks = c.sinks ++ sink_ref ∷ [] }

-- `for (i, src) in sources.iter().enumerate() { assert_eq!(..) }`
unfoldable have_sent : Engine → List NodeRef → ℕ → Bool
have_sent engine [] i = true
have_sent engine (src ∷ sources) i =
    is_value (value_of engine src) i && have_sent engine sources (i + 1)

-- The number of chains is an argument; the test makes 100.
unfoldable test_large_dag : ℕ → Bool
test_large_dag n =
    let (engine, g) = graph new in
    let c = foldl add_chain (record { g = g; sources = []; sinks = [] }) (below n) in
    let engine = foldl (λ e (r : NodeRef). activate_sink e r.id) (with_graph engine c.g) c.sinks in
    let engine = run_cycle_parallel in_order (send_each c.sources 0 engine) in
    have_sent engine c.sources 0

test_large_dag_passes : test_large_dag 100 ≡ true
unfolding test_large_dag in_parallel add_chain send_each have_sent key_of below
test_large_dag_passes = refl
