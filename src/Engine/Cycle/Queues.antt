-- ===== src/Engine/Cycle/Queues.antt =====
-- What a cycle leaves in the queues of source values and of asynchronous results.
use reactive_graph_experimen.Base.{◌≡◌, refl, ap, ap₂, ◌∙◌, false, List, [], ◌∷◌, foldl}
use reactive_graph_experimen.NodeRef.{NodeId}
use reactive_graph_experimen.ValueStore.{AnyBox}
use reactive_graph_experimen.Topology.{dirty_set, topo_sort}
use reactive_graph_experimen.AsyncCompute.{AsyncManager, drain_results}
use reactive_graph_experimen.AsyncCompute.Received.{received-spawn, received-drain_results}
use reactive_graph_experimen.Engine.{Engine, drain_pending_removals}
use reactive_graph_experimen.Engine.Cycle.{
  AsyncSpawn, spawn_one, spawn_async_work, Execution, Drained, accept, drain_updates, execute_node,
  execute_sequential_with_async, propagate, record_metrics, run_cycle_impl, run_cycle,
}
use reactive_graph_experimen.Engine.Cycle.Touch.{execute_node-IsTouch}

-- The queue of source values and the queue of asynchronous results.
abbrev waiting : Engine → List (NodeId × AnyBox) × List (NodeId × AnyBox)
waiting e = (e.graph.source_rx, e.async_manager.result_rx)

waiting-accept :
    (updates : List (NodeId × AnyBox)) (d : Drained)
    → waiting (foldl accept d updates).engine ≡ waiting d.engine
unfolding accept
waiting-accept [] d = refl
waiting-accept (u ∷ updates) d = waiting-accept updates (accept d u)

waiting-drain_updates : (e : Engine) → waiting (drain_updates e).engine ≡ ([], [])
unfolding drain_updates
waiting-drain_updates e =
    let begin : Drained = record {
      engine = record e { graph = record e.graph { source_rx = [] } };
      updated = [];
    } in
    let d = foldl accept begin e.graph.source_rx in
    let (manager, results) = drain_results d.engine.async_manager in
    waiting-accept results
      (record { engine = record d.engine { async_manager = manager }; updated = d.updated })
    ∙ ap₂ (λ q q'. (q, q')) (ap (λ w. w.0) (waiting-accept e.graph.source_rx begin))
        (received-drain_results d.engine.async_manager)

waiting-execute :
    (ids : List NodeId) (x : Execution)
    → waiting (foldl execute_node x ids).engine ≡ waiting x.engine
waiting-execute [] x = refl
waiting-execute (id ∷ ids) x =
    waiting-execute ids (execute_node x id)
    ∙ ap₂ (λ q (m : AsyncManager). (q, m.result_rx)) (execute_node-IsTouch x id).source_rx
        (execute_node-IsTouch x id).async_manager

waiting-spawn_async_work :
    (spawns : List AsyncSpawn) (e : Engine) → waiting (spawn_async_work e spawns) ≡ waiting e
unfolding spawn_async_work spawn_one
waiting-spawn_async_work [] e = refl
waiting-spawn_async_work (s ∷ spawns) e =
    waiting-spawn_async_work spawns (spawn_one e s)
    ∙ ap (λ q. (e.graph.source_rx, q))
        (received-spawn e.async_manager s.node_id s.future s.policy s.group_id)

waiting-propagate :
    (order : List NodeId → List NodeId) (e : Engine) (sources : List NodeId)
    → waiting (propagate order false e sources) ≡ waiting e
unfolding propagate record_metrics execute_sequential_with_async
waiting-propagate order e sources =
    let sorted = topo_sort order e.topology (dirty_set order e.topology sources) in
    let x = execute_sequential_with_async e sorted in
    waiting-spawn_async_work x.async_spawns x.engine
    ∙ waiting-execute sorted (record { engine = e; async_spawns = []; timed = [] })

-- After a cycle, every source value and every asynchronous result that had arrived is processed: both queues are
-- empty.
pub waiting-run_cycle :
    (order : List NodeId → List NodeId) (e : Engine)
    → ((run_cycle order e).graph.source_rx ≡ [])
      × ((run_cycle order e).async_manager.result_rx ≡ [])
unfolding run_cycle run_cycle_impl
waiting-run_cycle order e =
    let d = drain_updates (drain_pending_removals e) in
    let both = by_updated d d.updated (waiting-drain_updates (drain_pending_removals e)) in
    (ap (λ w. w.0) both, ap (λ w. w.1) both)
  where
    by_updated :
        (d : Drained) (updated : List NodeId)
        → waiting d.engine ≡ ([], [])
        → waiting
            (elim updated [ [] ↦ d.engine | _ ∷ _ ↦ propagate order false d.engine d.updated ])
          ≡ ([], [])
    by_updated d [] drained = drained
    by_updated d (id ∷ ids) drained = waiting-propagate order d.engine d.updated ∙ drained
