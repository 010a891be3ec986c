-- ===== src/Tests/Cycles.antt =====
-- The tests of src/lib.rs, phase 2, and the one of src/topology.rs: activation, deactivation and cycles.
use reactive_graph_experimen.Base.{
  ℕ, suc, ◌+◌, ◌*◌, ◌≡◌, refl, Bool, true, false, not, Option, none, some, List, [], ◌∷◌, length,
  contains, ltb, ◌==◌, text_eq, nat_eq,
}
use Prim.Native.String.{String}
use reactive_graph_experimen.NodeRef.{NodeId, from_key, id_beq, id_eq}
use reactive_graph_experimen.Topology.{Topology, add_node, dirty_set, topo_sort}
use reactive_graph_experimen.Topology
use reactive_graph_experimen.Engine.{new, graph, activate_sink, deactivate}
use reactive_graph_experimen.Engine.Cycle.{run_cycle}
use reactive_graph_experimen.Tests.{
  run, platform, unit, in_order, all_pass, holds, is_value, unary, binary, new_source, new_compute,
  new_sink, with_graph, send_value, value_of, sink_values, has_guard,
}

unfoldable test_source_push_propagates_to_compute : Bool
test_source_push_propagates_to_compute =
    let (engine, g) = graph new in
    let (g, src) = new_source "src" g in
    let (g, double) = new_compute "double" (src ∷ []) (unary (λ v. v * 2)) g in
    let (g, sink_ref) = new_sink "sink" (double ∷ []) g in
    let engine = activate_sink (with_graph engine g) sink_ref.id in
    let engine = run_cycle in_order (send_value src 10 engine) in
    all_pass (is_value (value_of engine src) 10 ∷ is_value (value_of engine double) 20 ∷ [])

test_source_push_propagates_to_compute_passes : test_source_push_propagates_to_compute ≡ true
unfolding test_source_push_propagates_to_compute run
test_source_push_propagates_to_compute_passes = refl

unfoldable test_chain_propagation : Bool
test_chain_propagation =
    let (engine, g) = graph new in
    let (g, src) = new_source "src" g in
    let (g, c1) = new_compute "c1" (src ∷ []) (unary (λ v. v + 1)) g in
    let (g, c2) = new_compute "c2" (c1 ∷ []) (unary (λ v. v * 3)) g in
    let (g, sink_ref) = new_sink "sink" (c2 ∷ []) g in
    let engine = activate_sink (with_graph engine g) sink_ref.id in
    let engine = run_cycle in_order (send_value src 5 engine) in
    sink_values engine sink_ref == 18 ∷ []

test_chain_propagation_passes : test_chain_propagation ≡ true
unfolding test_chain_propagation run
test_chain_propagation_passes = refl

unfoldable test_diamond_dependency : Bool
test_diamond_dependency =
    let (engine, g) = graph new in
    let (g, src) = new_source "src" g in
    let (g, left) = new_compute "left" (src ∷ []) (unary (λ v. v + 10)) g in
    let (g, right) = new_compute "right" (src ∷ []) (unary (λ v. v * 2)) g in
    let (g, join) = new_compute "join" (left ∷ right ∷ []) (binary (λ l r. l + r)) g in
    let (g, sink_ref) = new_sink "sink" (join ∷ []) g in
    let engine = activate_sink (with_graph engine g) sink_ref.id in
    let engine = run_cycle in_order (send_value src 5 engine) in
    all_pass
      ((sink_values engine sink_ref == 25 ∷ []) ∷ (length (sink_values engine sink_ref) == 1) ∷ [])

test_diamond_dependency_passes : test_diamond_dependency ≡ true
unfolding test_diamond_dependency run
test_diamond_dependency_passes = refl

unfoldable test_batching : Bool
test_batching =
    let (engine, g) = graph new in
    let (g, s1) = new_source "s1" g in
    let (g, s2) = new_source "s2" g in
    let (g, sum) = new_compute "sum" (s1 ∷ s2 ∷ []) (binary (λ a b. a + b)) g in
    let (g, sink_ref) = new_sink "sink" (sum ∷ []) g in
    let engine = activate_sink (with_graph engine g) sink_ref.id in
    let engine = run_cycle in_order (send_value s2 7 (send_value s1 3 engine)) in
    sink_values engine sink_ref == 10 ∷ []

test_batching_passes : test_batching ≡ true
unfolding test_batching run
test_batching_passes = refl

-- The callback has set `activated` if the engine has its guard.
unfoldable test_activation_cascade : Bool
test_activation_cascade =
    let (engine, g) = graph new in
    let (g, src) = new_source "src" g in
    let (g, copy) = new_compute "c" (src ∷ []) (unary (λ v. v)) g in
    let (g, sink_ref) = new_sink "sink" (copy ∷ []) g in
    let engine = with_graph engine g in
    let activated = activate_sink engine sink_ref.id in
    all_pass (not (has_guard engine src) ∷ has_guard activated src ∷ [])

test_activation_cascade_passes : test_activation_cascade ≡ true
unfolding test_activation_cascade run
test_activation_cascade_passes = refl

-- The guard is dropped when the engine, which had it, has it no longer.
unfoldable test_deactivation_drops_guard : Bool
test_deactivation_drops_guard =
    let (engine, g) = graph new in
    let (g, src) = new_source "src" g in
    let (g, sink_ref) = new_sink "sink" (src ∷ []) g in
    let engine = activate_sink (with_graph engine g) sink_ref.id in
    let deactivated = deactivate engine sink_ref.id in
    all_pass (has_guard engine src ∷ not (has_guard deactivated src) ∷ [])

test_deactivation_drops_guard_passes : test_deactivation_drops_guard ≡ true
unfolding test_deactivation_drops_guard run
test_deactivation_drops_guard_passes = refl

-- `NodeId::from_key::<_, ()>(name)`, the `nid` of the tests of src/topology.rs.
unfoldable named_id : String → NodeId
named_id name = from_key platform.hash unit name

-- `sorted.iter().position(|n| n == id)`
unfoldable position : List NodeId → NodeId → Option ℕ
position [] id = none
position (first ∷ rest) id =
    let later = position rest id in
    elim (id_beq first id) [
      | true ↦ some 0
      | false ↦ elim later [ none ↦ none | some n ↦ some (suc n) ]
    ]

-- `pos_b > pos_a`
unfoldable is_behind : List NodeId → NodeId → NodeId → Bool
is_behind sorted b a =
    holds (position sorted b) (λ pos_b. holds (position sorted a) (λ pos_a. ltb pos_a pos_b))

-- The topology of both tests: `C` depends on `A` and `B`, which depend on `S`.
unfoldable diamond : NodeId → NodeId → NodeId → NodeId → Topology
diamond s a b c =
    add_node (add_node (add_node (add_node Topology.new s []) a (s ∷ [])) b (s ∷ [])) c (a ∷ b ∷ [])

unfoldable test_topo_sort_correctness : Bool
test_topo_sort_correctness =
    let s = named_id "S" in
    let a = named_id "A" in
    let b = named_id "B" in
    let c = named_id "C2" in
    let topo = diamond s a b c in
    let sorted = topo_sort in_order topo (dirty_set in_order topo (s ∷ [])) in
    all_pass ((length sorted == 3) ∷ is_behind sorted c a ∷ is_behind sorted c b ∷ [])

test_topo_sort_correctness_passes : test_topo_sort_correctness ≡ true
unfolding test_topo_sort_correctness run named_id from_key position is_behind diamond
test_topo_sort_correctness_passes = refl

-- The test of the same name in src/topology.rs.
unfoldable test_topo_sort_dirty : Bool
test_topo_sort_dirty =
    let s = named_id "S" in
    let a = named_id "A" in
    let b = named_id "B" in
    let c = named_id "C" in
    let topo = diamond s a b c in
    let dirty = dirty_set in_order topo (s ∷ []) in
    let sorted = topo_sort in_order topo dirty in
    all_pass (
      contains dirty a
      ∷ contains dirty b
      ∷ contains dirty c
      ∷ not (contains dirty s)
      ∷ (length sorted == 3)
      ∷ is_behind sorted c a
      ∷ is_behind sorted c b
      ∷ [])

test_topo_sort_dirty_passes : test_topo_sort_dirty ≡ true
unfolding test_topo_sort_dirty run named_id from_key position is_behind diamond
test_topo_sort_dirty_passes = refl
