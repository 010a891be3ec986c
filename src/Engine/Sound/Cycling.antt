-- ===== src/Engine/Sound/Cycling.antt =====
-- A cycle leaves alone what registry, active nodes and topology say.
use reactive_graph_experimen.Base.{
  ap, ◌∙◌, Bool, true, false, if◌then◌else◌, List, [], ◌∷◌, foldl, arith,
}
use reactive_graph_experimen.NodeRef.{NodeId, id_eq}
use reactive_graph_experimen.ValueStore.{AnyBox}
use reactive_graph_experimen.Topology.{dirty_set, topo_sort}
use reactive_graph_experimen.AsyncCompute.{drain_results}
use reactive_graph_experimen.Engine.{Engine, declared_in, drain_pending_removals}
use reactive_graph_experimen.Engine.Cycle.{
  AsyncSpawn, Execution, Drained, accept, drain_updates, execute_node,
  execute_sequential_with_async, collect_async, collect_spawn, execute_parallel_with_async,
  spawn_one, spawn_async_work, propagate, record_metrics, run_cycle_impl, run_cycle,
  run_cycle_parallel,
}
use reactive_graph_experimen.Engine.Cycle.Touch.{execute_node-IsTouch}
use reactive_graph_experimen.Engine.Sound.{IsSound, Alike, Alike-refl, Alike-trans, Alike-IsSound}
use reactive_graph_experimen.Engine.Sound.Activating.{drain_pending-Alike}

accepts-Alike :
    (updates : List (NodeId × AnyBox)) (d : Drained)
    → Alike d.engine (foldl accept d updates).engine
unfolding accept
accepts-Alike [] d = Alike-refl d.engine
accepts-Alike (u ∷ updates) d =
    let later = accepts-Alike updates (accept d u) in
    record {
      same = later.same;
      topology = later.topology;
      active = later.active;
      pending = later.pending;
    }

pub drain_updates-Alike : (e : Engine) → Alike e (drain_updates e).engine
unfolding drain_updates
drain_updates-Alike e =
    let begin : Drained = record {
      engine = record e { graph = record e.graph { source_rx = [] } };
      updated = [];
    } in
    let d = foldl accept begin e.graph.source_rx in
    let (manager, results) = drain_results d.engine.async_manager in
    let first = accepts-Alike e.graph.source_rx begin in
    let second =
      accepts-Alike results
        (record { engine = record d.engine { async_manager = manager }; updated = d.updated }) in
    record {
      same = λ x. second.same x ∙ first.same x;
      topology = second.topology ∙ first.topology;
      active = second.active ∙ first.active;
      pending = second.pending ∙ first.pending;
    }

execute_nodes-Alike :
    (ids : List NodeId) (x : Execution) → Alike x.engine (foldl execute_node x ids).engine
execute_nodes-Alike [] x = Alike-refl x.engine
execute_nodes-Alike (id ∷ ids) x =
    let touch = execute_node-IsTouch x id in
    Alike-trans
      (record {
        same = λ y. ap (λ m. declared_in m y) touch.entries;
        topology = touch.topology;
        active = touch.active;
        pending = touch.pending;
      })
      (execute_nodes-Alike ids (execute_node x id))

collect_async-Alike : (x : Execution) (id : NodeId) → Alike x.engine (collect_async x id).engine
unfolding collect_async collect_spawn
collect_async-Alike x id = record {
  same = λ y. ap (λ m. declared_in m y) (ground arith);
  topology = ground arith;
  active = ground arith;
  pending = ground arith;
}

collect_asyncs-Alike :
    (ids : List NodeId) (x : Execution) → Alike x.engine (foldl collect_async x ids).engine
collect_asyncs-Alike [] x = Alike-refl x.engine
collect_asyncs-Alike (id ∷ ids) x =
    Alike-trans (collect_async-Alike x id) (collect_asyncs-Alike ids (collect_async x id))

spawns-Alike : (spawns : List AsyncSpawn) (e : Engine) → Alike e (spawn_async_work e spawns)
unfolding spawn_async_work spawn_one
spawns-Alike [] e = Alike-refl e
spawns-Alike (s ∷ spawns) e =
    let later = spawns-Alike spawns (spawn_one e s) in
    record {
      same = later.same;
      topology = later.topology;
      active = later.active;
      pending = later.pending;
    }

executed-Alike :
    (order : List NodeId → List NodeId) (parallel : Bool) (e : Engine) (sorted dirty : List NodeId)
    → Alike e
        (if parallel
          then execute_parallel_with_async order e sorted dirty
          else execute_sequential_with_async e sorted).engine
unfolding execute_parallel_with_async execute_sequential_with_async
executed-Alike order true e sorted dirty =
    let later = collect_asyncs-Alike sorted _ in
    record {
      same = later.same;
      topology = later.topology;
      active = later.active;
      pending = later.pending;
    }
executed-Alike order false e sorted dirty =
    execute_nodes-Alike sorted (record { engine = e; async_spawns = []; timed = [] })

propagate-Alike :
    (order : List NodeId → List NodeId) (parallel : Bool) (e : Engine) (sources : List NodeId)
    → Alike e (propagate order parallel e sources)
unfolding propagate record_metrics
propagate-Alike order parallel e sources =
    let dirty = dirty_set order e.topology sources in
    let sorted = topo_sort order e.topology dirty in
    let x =
      if parallel
      then execute_parallel_with_async order e sorted dirty
      else execute_sequential_with_async e sorted in
    let both =
      Alike-trans (executed-Alike order parallel e sorted dirty)
        (spawns-Alike x.async_spawns x.engine) in
    record {
      same = both.same;
      topology = both.topology;
      active = both.active;
      pending = both.pending;
    }

run_cycle_impl-Alike :
    (order : List NodeId → List NodeId) (parallel : Bool) (e : Engine)
    → Alike e (run_cycle_impl order parallel e)
unfolding run_cycle_impl
run_cycle_impl-Alike order parallel e =
    Alike-trans (drain_updates-Alike e) (by_updated (drain_updates e).updated)
  where
    by_updated :
        (updated : List NodeId)
        → Alike (drain_updates e).engine (elim updated [
          | [] ↦ (drain_updates e).engine
          | _ ∷ _ ↦ propagate order parallel (drain_updates e).engine (drain_updates e).updated
        ])
    by_updated [] = Alike-refl (drain_updates e).engine
    by_updated (id ∷ ids) =
        propagate-Alike order parallel (drain_updates e).engine (drain_updates e).updated

pub run_cycle-IsSound :
    (order : List NodeId → List NodeId) (e : Engine) → IsSound e → IsSound (run_cycle order e)
unfolding run_cycle
run_cycle-IsSound order e sound =
    Alike-IsSound
      (Alike-trans (drain_pending-Alike e sound)
        (run_cycle_impl-Alike order false (drain_pending_removals e)))
      sound

pub run_cycle_parallel-IsSound :
    (order : List NodeId → List NodeId) (e : Engine)
    → IsSound e
    → IsSound (run_cycle_parallel order e)
unfolding run_cycle_parallel
run_cycle_parallel-IsSound order e sound =
    Alike-IsSound
      (Alike-trans (drain_pending-Alike e sound)
        (run_cycle_impl-Alike order true (drain_pending_removals e)))
      sound
