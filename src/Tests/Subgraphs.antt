-- ===== src/Tests/Subgraphs.antt =====
-- The tests of src/lib.rs, phase 3: subgraphs, and the handles that remove them.
use reactive_graph_experimen.Base.{
  ◌*◌, ◌≡◌, refl, Bool, true, not, [], ◌∷◌, contains, ◌==◌, text_eq,
}
use reactive_graph_experimen.NodeRef.{id_eq}
use reactive_graph_experimen.Subgraph.{merge, build, drop_handle}
use reactive_graph_experimen.Subgraph
use reactive_graph_experimen.Engine.{new, graph, activate_sink}
use reactive_graph_experimen.Engine.Cycle.{run_cycle}
use reactive_graph_experimen.Tests.{
  run, run_merge, in_order, all_pass, unary, new_source, sub_source, sub_compute, sub_sink,
  with_graph, send_value, sink_values, has_guard,
}

unfoldable test_subgraph_merge : Bool
test_subgraph_merge =
    let (sb, src) = sub_source "sg.src" Subgraph.new in
    let (sb, double) = sub_compute "sg.double" (src ∷ []) (unary (λ v. v * 2)) sb in
    let (sb, sg_sink) = sub_sink "sg.sink" (double ∷ []) sb in
    let (engine, handle) = merge new (build sb) in
    let cycled = run_cycle in_order (send_value src 5 engine) in
    all_pass (
      contains engine.active src.id
      ∷ contains engine.active double.id
      ∷ (sink_values cycled sg_sink == 10 ∷ [])
      ∷ [])

test_subgraph_merge_passes : test_subgraph_merge ≡ true
unfolding test_subgraph_merge run run_merge
test_subgraph_merge_passes = refl

unfoldable test_subgraph_handle_drop : Bool
test_subgraph_handle_drop =
    let (sb, src) = sub_source "sg.src" Subgraph.new in
    let (sb, sg_sink) = sub_sink "sg.sink" (src ∷ []) sb in
    let (engine, handle) = merge new (build sb) in
    let cycled = run_cycle in_order (drop_handle engine handle) in
    all_pass (
      has_guard engine src
      ∷ contains engine.active src.id
      ∷ not (has_guard cycled src)
      ∷ not (contains cycled.active src.id)
      ∷ [])

test_subgraph_handle_drop_passes : test_subgraph_handle_drop ≡ true
unfolding test_subgraph_handle_drop run run_merge
test_subgraph_handle_drop_passes = refl

-- The guard of the shared source is that of its first registration. The test ends with the drop of
-- the second handle and asserts nothing after it.
unfoldable test_partial_deactivation : Bool
test_partial_deactivation =
    let (engine, g) = graph new in
    let (g, shared_source) = new_source "shared.src" g in
    let (sb1, src1) = sub_source "shared.src" Subgraph.new in
    let (sb1, sink1) = sub_sink "sink1" (src1 ∷ []) sb1 in
    let (sb2, src2) = sub_source "shared.src" Subgraph.new in
    let (sb2, sink2) = sub_sink "sink2" (src2 ∷ []) sb2 in
    let (engine, handle1) = merge (with_graph engine g) (build sb1) in
    let (engine, handle2) = merge engine (build sb2) in
    let engine = activate_sink engine shared_source.id in
    has_guard (drop_handle engine handle1) shared_source

test_partial_deactivation_passes : test_partial_deactivation ≡ true
unfolding test_partial_deactivation run run_merge
test_partial_deactivation_passes = refl
