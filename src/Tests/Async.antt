-- ===== src/Tests/Async.antt =====
-- The tests of src/lib.rs, phase 6: asynchronous nodes. While the thread of the test sleeps, those tasks
-- end whose own delay and whose future's sleep fit into it; a future's sleep is an argument of the wait.
use reactive_graph_experimen.Base.{
  ℕ, ◌+◌, ◌*◌, ◌≡◌, refl, Bool, true, false, List, [], ◌∷◌, ◌++◌, foldl, length, leb, ◌==◌, text_eq,
  nat_eq,
}
use Prim.Native.String.{String}
use reactive_graph_experimen.NodeRef.{NodeRef}
use reactive_graph_experimen.Graph.{Graph, AsyncPolicy}
use reactive_graph_experimen.AsyncCompute.{
  Task, ConcurrencyGroupHandle, complete, create_group, abort, spawn, spawn_by, state_entry, cancel,
  try_spawn, spawn_debounced, try_spawn_after, spawn_after, spawn_raw, group_of, find_group,
  enqueue, admit, release_group, process_completion, pop_pending, leave_group, spawn_next,
  try_spawn_from_group_queue, drain_group, take_work, queue_length,
}
use reactive_graph_experimen.Builder.AsyncCompute
use reactive_graph_experimen.Builder.Start
use reactive_graph_experimen.Engine.{
  Engine, new, graph, activate_sink, concurrency_group, snapshot, snapshot_loop, engine_metrics,
  count_kind, is_kind,
}
use reactive_graph_experimen.Engine.Cycle.{run_cycle, spawn_one, collect_spawn}
use reactive_graph_experimen.Tests.{
  run, platform, f64, in_order, all_pass, unary, new_source, new_compute, new_sink, with_graph,
  send_value, sink_values, key_of, below, last_is, send_each,
}

-- `Graph::async_compute(key).dep(..).compute_async(f)`
unfoldable async_node : String → NodeRef → (ℕ → ℕ) → AsyncCompute.AsyncComputeBuilderReady String
async_node key node_ref f =
    AsyncCompute.compute_async (AsyncCompute.dep (Start.async_compute key f64) node_ref) (unary f)

unfoldable end_task : ℕ → Engine → Task → Engine
end_task ms e task = elim (leb task.delay ms) [
  | true ↦ record e { async_manager = complete e.async_manager task }
  | false ↦ e
]

-- `std::thread::sleep(Duration::from_millis(ms))`, where the futures sleep for no more.
unfoldable sleep : ℕ → Engine → Engine
sleep ms e = foldl (end_task ms) e e.async_manager.runtime.tasks

unfoldable asynchronous : Unit {0}
unfolding run async_node end_task sleep spawn_one collect_spawn complete create_group abort spawn
    spawn_by state_entry cancel try_spawn spawn_debounced try_spawn_after spawn_after spawn_raw
    group_of find_group enqueue admit release_group process_completion pop_pending leave_group
    spawn_next try_spawn_from_group_queue drain_group take_work queue_length concurrency_group
    AsyncCompute.new AsyncCompute.dep AsyncCompute.compute_async AsyncCompute.with_policy
    AsyncCompute.with_group AsyncCompute.build AsyncCompute.closure_async_node
    AsyncCompute.async_policy_wrapper AsyncCompute.extract_and_start AsyncCompute.group_number
    Start.async_compute snapshot snapshot_loop engine_metrics count_kind is_kind
asynchronous = tt

unfoldable test_async_compute_basic : Bool
test_async_compute_basic =
    let (engine, g) = graph new in
    let (g, src) = new_source "async.src" g in
    let (g, double) = AsyncCompute.build platform (async_node "async.double" src (λ v. v * 2)) g in
    let (g, sync_compute) = new_compute "async.add1" (double ∷ []) (unary (λ v. v + 1)) g in
    let (g, sink_ref) = new_sink "async.sink" (sync_compute ∷ []) g in
    let engine = activate_sink (with_graph engine g) sink_ref.id in
    let engine = run_cycle in_order (send_value src 5 engine) in
    let engine = run_cycle in_order (sleep 50 engine) in sink_values engine sink_ref == 11 ∷ []

test_async_compute_basic_passes : test_async_compute_basic ≡ true
unfolding test_async_compute_basic asynchronous
test_async_compute_basic_passes = refl

unfoldable test_latest_wins : Bool
test_latest_wins =
    let (engine, g) = graph new in
    let (g, src) = new_source "lw.src" g in
    let ready =
      AsyncCompute.with_policy (async_node "lw.async" src (λ v. v * 10)) AsyncPolicy.latest_wins in
    let (g, lw_async) = AsyncCompute.build platform ready g in
    let (g, sink_ref) = new_sink "lw.sink" (lw_async ∷ []) g in
    let engine = activate_sink (with_graph engine g) sink_ref.id in
    let engine = run_cycle in_order (send_value src 1 engine) in
    let engine = run_cycle in_order (send_value src 2 engine) in
    let engine = run_cycle in_order (sleep 100 engine) in last_is (sink_values engine sink_ref) 20

test_latest_wins_passes : test_latest_wins ≡ true
unfolding test_latest_wins asynchronous last_is
test_latest_wins_passes = refl

-- `tx.send(..); engine.run_cycle(); sleep(10)`
unfoldable trigger : NodeRef → Engine → ℕ → Engine
trigger src e i = sleep 10 (run_cycle in_order (send_value src i e))

unfoldable test_debounce : Bool
test_debounce =
    let (engine, g) = graph new in
    let (g, src) = new_source "db.src" g in
    let ready =
      AsyncCompute.with_policy (async_node "db.async" src (λ v. v * 100))
        (AsyncPolicy.debounce 50) in
    let (g, db_async) = AsyncCompute.build platform ready g in
    let (g, sink_ref) = new_sink "db.sink" (db_async ∷ []) g in
    let engine = activate_sink (with_graph engine g) sink_ref.id in
    let engine = foldl (trigger src) engine (1 ∷ 2 ∷ 3 ∷ 4 ∷ 5 ∷ []) in
    let engine = run_cycle in_order (sleep 100 engine) in last_is (sink_values engine sink_ref) 500

test_debounce_passes : test_debounce ≡ true
unfolding test_debounce asynchronous last_is trigger
test_debounce_passes = refl

-- The graph that is built in a loop, with the sources and the sinks so far.
record Limited : Type 0 where
  g : Graph
  sources : List NodeRef
  sinks : List NodeRef

unfoldable add_limited : ConcurrencyGroupHandle → Limited → ℕ → Limited
add_limited group c i =
    let (g, src) = new_source (key_of "cg.s" i) c.g in
    let ready =
      AsyncCompute.with_group
        (AsyncCompute.with_policy (async_node (key_of "cg.ac" i) src (λ v. v * 2))
          AsyncPolicy.latest_wins)
        group in
    let (g, ac) = AsyncCompute.build platform ready g in
    let (g, sink_ref) = new_sink (key_of "cg.sink" i) (ac ∷ []) g in
    record { g = g; sources = c.sources ++ src ∷ []; sinks = c.sinks ++ sink_ref ∷ [] }

-- How many tasks run.
unfoldable running : Engine → ℕ
running e = length e.async_manager.runtime.tasks

-- The number of tasks that run is largest after a cycle, since a cycle alone starts tasks.
unfoldable test_concurrency_group_limit : Bool
test_concurrency_group_limit =
    let (engine, group) = concurrency_group new 3 in
    let (engine, g) = graph engine in
    let c = foldl (add_limited group) (record { g = g; sources = []; sinks = [] }) (below 10) in
    let engine = foldl (λ e (r : NodeRef). activate_sink e r.id) (with_graph engine c.g) c.sinks in
    let first = run_cycle in_order (send_each c.sources 0 engine) in
    let second = run_cycle in_order (sleep 300 first) in
    all_pass (leb (running first) 3 ∷ leb (running second) 3 ∷ leb 1 (running first) ∷ [])

test_concurrency_group_limit_passes : test_concurrency_group_limit ≡ true
unfolding test_concurrency_group_limit asynchronous add_limited send_each running key_of below
test_concurrency_group_limit_passes = refl

unfoldable test_async_to_sync_chain : Bool
test_async_to_sync_chain =
    let (engine, g) = graph new in
    let (g, src) = new_source "chain.src" g in
    let (g, chain_async) =
      AsyncCompute.build platform (async_node "chain.async" src (λ v. v + 100)) g in
    let (g, sync_node) = new_compute "chain.sync" (chain_async ∷ []) (unary (λ v. v * 3)) g in
    let (g, sink_ref) = new_sink "chain.sink" (sync_node ∷ []) g in
    let engine = activate_sink (with_graph engine g) sink_ref.id in
    let engine = run_cycle in_order (send_value src 5 engine) in
    let engine = run_cycle in_order (sleep 50 engine) in sink_values engine sink_ref == 315 ∷ []

test_async_to_sync_chain_passes : test_async_to_sync_chain ≡ true
unfolding test_async_to_sync_chain asynchronous
test_async_to_sync_chain_passes = refl

-- The last test of phase 7. The first assertion on the metrics stands after the first cycle.
unfoldable test_full_integration : Bool
test_full_integration =
    let (engine, g) = graph new in
    let (g, src) = new_source "full.src" g in
    let (g, full_async) =
      AsyncCompute.build platform (async_node "full.async" src (λ v. v * 2)) g in
    let (g, sync_node) = new_compute "full.sync" (full_async ∷ []) (unary (λ v. v + 100)) g in
    let (g, sink_ref) = new_sink "full.sink" (sync_node ∷ []) g in
    let engine = activate_sink (with_graph engine g) sink_ref.id in
    let snap = snapshot engine in
    let first = run_cycle in_order (send_value src 10 engine) in
    let m = engine_metrics first in
    let second = run_cycle in_order (sleep 50 first) in
    all_pass (
      (length snap.nodes == 4)
      ∷ (length snap.edges == 3)
      ∷ (m.total_cycles == 1)
      ∷ (m.active_sources == 1)
      ∷ (m.active_async_computes == 1)
      ∷ (sink_values second sink_ref == 120 ∷ [])
      ∷ ((engine_metrics second).total_cycles == 2)
      ∷ [])

test_full_integration_passes : test_full_integration ≡ true
unfolding test_full_integration asynchronous
test_full_integration_passes = refl
