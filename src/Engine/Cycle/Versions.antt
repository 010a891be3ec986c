-- ===== src/Engine/Cycle/Versions.antt =====
-- The two versions of the cycle give the same values.
use reactive_graph_experimen.Base.{
  ℕ, ◌<◌, ◌≡◌, refl, sym, subst, ap, ◌∙◌, true, false, Option, none, some, List, [], ◌∷◌, foldl,
  retain, lookup, arith, contains, contains-retain, IsOrder,
}
use reactive_graph_experimen.NodeRef.{NodeId, id_eq}
use reactive_graph_experimen.Graph.{NodeKind, source, compute, sink, async_compute, NodeEntry}
use reactive_graph_experimen.Metrics.{propagate_stale}
use reactive_graph_experimen.Topology.{list_at, dirty_set, topo_sort}
use reactive_graph_experimen.Topology.Mirror.{IsMirror}
use reactive_graph_experimen.Scheduler.{Run, execute_parallel}
use reactive_graph_experimen.Engine.{Engine}
use reactive_graph_experimen.Engine.Cycle.{
  Execution, collect_spawn, collect_async, is_sync, strategy_of, execute_parallel_with_async,
  record_metrics, propagate,
}
use reactive_graph_experimen.Engine.Cycle.Touch.{value_in}
use reactive_graph_experimen.Engine.Cycle.Solution.{IsWired, IsSolution, solution_unique}
use reactive_graph_experimen.Engine.Cycle.Parallel.{execute_parallel-IsSolution}
use reactive_graph_experimen.Engine.Cycle.Glitch.{graph-spawn_async_work}
use reactive_graph_experimen.Engine.Cycle.Sequential.{propagate-IsSolution, contains-sorted}

graph-collect_async :
    (x : Execution) (id : NodeId) → (collect_async x id).engine.graph ≡ x.engine.graph
unfolding collect_async collect_spawn
graph-collect_async x id = by_lookup (lookup id x.engine.graph.entries) refl
  where
    by_kind :
        (entry : NodeEntry)
        → lookup id x.engine.graph.entries ≡ some entry
        → (kind : NodeKind) → entry.kind ≡ kind
        → (collect_async x id).engine.graph ≡ x.engine.graph
    by_kind entry found async_compute q = rw (found, collect_async, q) refl
    by_kind entry found source q = rw (found, collect_async, q) refl
    by_kind entry found compute q = rw (found, collect_async, q) refl
    by_kind entry found sink q = rw (found, collect_async, q) refl

    by_lookup :
        (o : Option NodeEntry)
        → lookup id x.engine.graph.entries ≡ o
        → (collect_async x id).engine.graph ≡ x.engine.graph
    by_lookup none q = rw (q, collect_async) refl
    by_lookup (some entry) q = by_kind entry q entry.kind refl

graph-collect_asyncs :
    (ids : List NodeId) (x : Execution) → (foldl collect_async x ids).engine.graph ≡ x.engine.graph
graph-collect_asyncs [] x = refl
graph-collect_asyncs (id ∷ ids) x =
    graph-collect_asyncs ids (collect_async x id) ∙ graph-collect_async x id

module _ (order : List NodeId → List NodeId) (ordered : IsOrder order) (e : Engine)
    (mirror : IsMirror e.topology) (sources : List NodeId)
    (wired : IsWired e.graph.entries e.topology (dirty_set order e.topology sources))
    (rank : NodeId → ℕ)
    (ranked : (a b : NodeId)
      → contains (list_at b e.topology.deps) a ≡ true
      → rank a < rank b) where
  abbrev changed : List NodeId
  changed = dirty_set order e.topology sources

  abbrev sorted : List NodeId
  sorted = topo_sort order e.topology changed

  abbrev scheduled : Run
  scheduled =
      execute_parallel order e.graph.entries e.graph.value_store e.topology e.calls e.emitted
        (retain (is_sync e) sorted) changed

  store-propagate : (propagate order true e sources).graph.value_store ≡ scheduled.value_store
  unfolding propagate record_metrics execute_parallel_with_async
  store-propagate =
      ap (λ g. g.value_store)
        (graph-spawn_async_work (execute_parallel_with_async order e sorted changed).async_spawns
            (execute_parallel_with_async order e sorted changed).engine
          ∙ graph-collect_asyncs sorted _)

  module _ (sync : (x : NodeId) → contains changed x ≡ true → is_sync e x ≡ true) where
    all_scheduled : (x : NodeId) → contains (retain (is_sync e) sorted) x ≡ contains changed x
    all_scheduled x =
        let c = contains-retain (is_sync e) sorted x in
        let k = contains-sorted order ordered e mirror sources wired rank ranked x in
        let s = sync x in ground (arith, c, k, s)

    -- After a parallel cycle without dirty asynchronous nodes, every dirty node has the result on the
    -- values after the cycle, or its old value where there is no result, and every other node has its
    -- old value. The topology is mirrored and acyclic, and the compute nodes are pure.
    pub propagate_parallel-IsSolution :
        IsSolution e.graph.entries changed e.graph.value_store
          (propagate order true e sources).graph.value_store
    propagate_parallel-IsSolution =
        subst (IsSolution e.graph.entries changed e.graph.value_store) (sym store-propagate) (
          execute_parallel-IsSolution order ordered e.graph.entries e.topology mirror changed wired
            e.graph.value_store (retain (is_sync e) sorted) all_scheduled e.calls e.emitted rank
            ranked)

    -- The parallel cycle leaves every node with the value that the sequential cycle leaves it with, if no
    -- dirty node is asynchronous, all dirty nodes have the strategy `PropagateStale`, compute nodes are
    -- pure, and the topology is mirrored and acyclic.
    pub value_in-propagate_parallel :
        ((x : NodeId) → contains changed x ≡ true → strategy_of e x ≡ propagate_stale)
        → (x : NodeId)
        → value_in (propagate order true e sources) x ≡ value_in (propagate order false e sources) x
    value_in-propagate_parallel stale x =
        solution_unique e.graph.entries e.topology changed wired rank ranked e.graph.value_store
          (propagate order true e sources).graph.value_store
          (propagate order false e sources).graph.value_store propagate_parallel-IsSolution
          (propagate-IsSolution order ordered e mirror sources wired rank ranked stale) x
