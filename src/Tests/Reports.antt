-- ===== src/Tests/Reports.antt =====
-- The tests of src/lib.rs, phase 7: error strategies, metrics and snapshots.
use reactive_graph_experimen.Base.{
  ℕ, ◌*◌, ◌≡◌, refl, Bool, true, false, not, Option, none, some, List, [], ◌∷◌, length, ◌==◌,
  text_eq, nat_eq,
}
use Prim.Native.String.{String}
use reactive_graph_experimen.NodeRef.{NodeRef, id_beq}
use reactive_graph_experimen.Graph.{NodeKind, same_kind}
use reactive_graph_experimen.Metrics.{
  ErrorStrategy, propagate_stale, propagate_error, retry, NodeInfo, CycleMetrics,
}
use reactive_graph_experimen.Engine.{
  Engine, new, graph, activate_sink, set_error_strategy, engine_metrics, count_kind, is_kind,
  snapshot, snapshot_loop,
}
use reactive_graph_experimen.Engine.Cycle.{run_cycle, retry_loop, forget_value}
use reactive_graph_experimen.Tests.{
  run, in_order, all_pass, holds, is_value, unary, new_source, new_compute, new_sink, with_graph,
  send_value, value_of,
}

-- A source, a compute node that doubles its value, and a sink, under an error strategy.
record Doubling : Type 0 where
  engine : Engine
  src : NodeRef
  double : NodeRef
  sink_ref : NodeRef

-- The `let (source, compute, sink) = { .. }` that three of the tests begin with.
unfoldable doubling : String → String → String → Doubling
doubling source_key compute_key sink_key =
    let (engine, g) = graph new in
    let (g, src) = new_source source_key g in
    let (g, double) = new_compute compute_key (src ∷ []) (unary (λ v. v * 2)) g in
    let (g, sink_ref) = new_sink sink_key (double ∷ []) g in
    record { engine = with_graph engine g; src = src; double = double; sink_ref = sink_ref }

-- `engine.set_error_strategy(&compute.id, strategy); engine.activate_sink(&sink.id);`
unfoldable under : ErrorStrategy → Doubling → Engine
under strategy d = activate_sink (set_error_strategy d.engine d.double.id strategy) d.sink_ref.id

unfoldable reports : Unit {0}
unfolding run doubling under set_error_strategy retry_loop forget_value engine_metrics count_kind
    is_kind same_kind snapshot snapshot_loop
reports = tt

unfoldable test_propagate_stale : Bool
test_propagate_stale =
    let d = doubling "stale.src" "stale.compute" "stale.sink" in
    let first = run_cycle in_order (send_value d.src 5 (under propagate_stale d)) in
    let second = run_cycle in_order (send_value d.src 7 first) in
    all_pass (is_value (value_of first d.double) 10 ∷ is_value (value_of second d.double) 14 ∷ [])

test_propagate_stale_passes : test_propagate_stale ≡ true
unfolding test_propagate_stale reports
test_propagate_stale_passes = refl

unfoldable test_propagate_error : Bool
test_propagate_error =
    let d = doubling "err.src" "err.compute" "err.sink" in
    let engine = run_cycle in_order (send_value d.src 3 (under propagate_error d)) in
    is_value (value_of engine d.double) 6

test_propagate_error_passes : test_propagate_error ≡ true
unfolding test_propagate_error reports
test_propagate_error_passes = refl

-- The counter of attempts is that of the calls.
unfoldable test_retry : Bool
test_retry =
    let d = doubling "retry.src" "retry.compute" "retry.sink" in
    let engine = run_cycle in_order (send_value d.src 5 (under (retry 3 1) d)) in
    all_pass (is_value (value_of engine d.double) 10 ∷ (engine.calls == 1) ∷ [])

test_retry_passes : test_retry ≡ true
unfolding test_retry reports
test_retry_passes = refl

-- `m.last_cycle.unwrap()` has an identifier.
unfoldable cycle_is : Option CycleMetrics → ℕ → Bool
cycle_is last_cycle id = holds last_cycle (λ cycle. cycle.cycle_id == id)

-- The duration of the cycle is not modelled.
unfoldable test_metrics_cycle_duration : Bool
test_metrics_cycle_duration =
    let d = doubling "met.src" "met.compute" "met.sink" in
    let engine = activate_sink d.engine d.sink_ref.id in
    let m0 = engine_metrics engine in
    let first = run_cycle in_order (send_value d.src 5 engine) in
    let m1 = engine_metrics first in
    let m2 = engine_metrics (run_cycle in_order (send_value d.src 10 first)) in
    all_pass (
      (m0.total_cycles == 0)
      ∷ not (holds m0.last_cycle (λ cycle. true))
      ∷ (m1.total_cycles == 1)
      ∷ holds m1.last_cycle (λ cycle. true)
      ∷ cycle_is m1.last_cycle 1
      ∷ holds m1.last_cycle (λ cycle. cycle.nodes_computed == 2)
      ∷ (m1.active_sources == 1)
      ∷ (m1.active_computes == 1)
      ∷ (m1.active_sinks == 1)
      ∷ (m2.total_cycles == 2)
      ∷ cycle_is m2.last_cycle 2
      ∷ [])

test_metrics_cycle_duration_passes : test_metrics_cycle_duration ≡ true
unfolding test_metrics_cycle_duration reports cycle_is
test_metrics_cycle_duration_passes = refl

-- `snapshot.nodes.iter().find(|n| n.id == id)`
unfoldable find_info : List NodeInfo → NodeRef → Option NodeInfo
find_info [] node_ref = none
find_info (info ∷ nodes) node_ref =
    let later = find_info nodes node_ref in
    elim (id_beq info.id node_ref.id) [ true ↦ some info | false ↦ later ]

-- `info.kind == kind` and `info.deps.len() == n`
unfoldable describes : Option NodeInfo → NodeKind → ℕ → Bool
describes found kind n =
    holds found (λ info. all_pass (same_kind info.kind kind ∷ (length info.deps == n) ∷ []))

unfoldable test_introspection_snapshot : Bool
test_introspection_snapshot =
    let d = doubling "snap.src" "snap.compute" "snap.sink" in
    let snap = snapshot (activate_sink d.engine d.sink_ref.id) in
    all_pass (
      (length snap.nodes == 3)
      ∷ (length snap.edges == 2)
      ∷ describes (find_info snap.nodes d.src) NodeKind.source 0
      ∷ describes (find_info snap.nodes d.double) NodeKind.compute 1
      ∷ describes (find_info snap.nodes d.sink_ref) NodeKind.sink 1
      ∷ [])

test_introspection_snapshot_passes : test_introspection_snapshot ≡ true
unfolding test_introspection_snapshot reports find_info describes
test_introspection_snapshot_passes = refl
