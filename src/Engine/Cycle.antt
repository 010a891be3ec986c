-- ===== src/Engine/Cycle.antt =====
-- src/engine.rs: the propagation cycle. The clock readings of a cycle are left out; a sleep
-- between two attempts of a retry changes nothing that the model has.
pub mod Outcome
pub mod Queues
pub mod Latest
pub mod Touch
pub mod Consistent
pub mod Glitch
pub mod Attempts
pub mod Solution
pub mod Fire
pub mod Waves
pub mod Rounds
pub mod Sequential
pub mod Parallel
pub mod Versions
use reactive_graph_experimen.Base.{
  ℕ, zero, suc, ◌+◌, ◌-◌, Bool, true, false, if◌then◌else◌, Option, none, some, List, [], ◌∷◌, ◌++◌,
  foldl, length, retain, set_insert, lookup,
}
use reactive_graph_experimen.NodeRef.{NodeId, id_eq}
use reactive_graph_experimen.ValueStore.{AnyBox, ValueStore, set_by_id}
use reactive_graph_experimen.ValueStore
use reactive_graph_experimen.Topology.{dirty_set, topo_sort}
use reactive_graph_experimen.Graph.{
  NodeKind, source, compute, sink, async_compute, AsyncPolicy, Future, NodeEntry,
}
use reactive_graph_experimen.Metrics.{
  ErrorStrategy, propagate_stale, propagate_error, retry, default_strategy, record_cycle,
}
use reactive_graph_experimen.AsyncCompute.{spawn, drain_results}
use reactive_graph_experimen.Scheduler.{emission, execute_parallel}
use reactive_graph_experimen.Engine.{Engine, with_store, store_result, drain_pending_removals}

pub record AsyncSpawn : Type 0 where
  pub node_id : NodeId
  pub future : Future
  pub policy : AsyncPolicy
  pub group_id : Option ℕ

-- An engine, and the nodes whose values were written in this cycle.
pub record Drained : Type 0 where
  pub engine : Engine
  pub updated : List NodeId

-- `value_store.set_by_id(&id, value); updated_sources.insert(id)`
unfoldable pub accept : Drained → NodeId × AnyBox → Drained
unfolding set_by_id
accept d (id, value) = record {
  engine = with_store d.engine (set_by_id d.engine.graph.value_store id value);
  updated = set_insert d.updated id;
}

-- Steps 1 and 1b of `run_cycle_impl`.
unfoldable pub drain_updates : Engine → Drained
unfolding accept drain_results
drain_updates e =
    let d =
      foldl accept
        (record { engine = record e { graph = record e.graph { source_rx = [] } }; updated = [] })
        e.graph.source_rx in
    let (manager, results) = drain_results d.engine.async_manager in
    foldl accept
      (record { engine = record d.engine { async_manager = manager }; updated = d.updated }) results

-- One attempt at a compute node: the result of `node_impl.compute`.
abbrev pub attempt : Engine → NodeEntry → Option AnyBox
attempt e entry = entry.node_impl.compute e.calls entry.deps e.graph.value_store

-- The loop of the `Retry` strategy, on the number of attempts that are left after this one.
unfoldable pub retry_loop : ℕ → Engine → NodeId → NodeEntry → Engine
unfolding store_result
retry_loop zero e id entry = store_result e id (attempt e entry)
retry_loop (suc left) e id entry =
    let again = retry_loop left (store_result e id none) id entry in
    elim (attempt e entry) [ some value ↦ store_result e id (some value) | none ↦ again ]

-- `self.graph.value_store.remove(node_id)`, where the result of the attempt is missing.
unfoldable pub forget_value : Engine → NodeId → Option AnyBox → Engine
forget_value e id none = with_store e (ValueStore.remove e.graph.value_store id)
forget_value e id (some _) = e

unfoldable pub execute_compute_with_error_handling :
    Engine → NodeId → NodeEntry → ErrorStrategy → Engine
unfolding store_result forget_value retry_loop
execute_compute_with_error_handling e id entry propagate_stale = store_result e id (attempt e entry)
execute_compute_with_error_handling e id entry propagate_error =
    forget_value (store_result e id (attempt e entry)) id (attempt e entry)
execute_compute_with_error_handling e id entry (retry max_attempts backoff_ms) =
    retry_loop (max_attempts - 1) e id entry

-- `self.error_strategies.get(node_id).cloned().unwrap_or_default()`
unfoldable pub strategy_of : Engine → NodeId → ErrorStrategy
strategy_of e id = elim (lookup id e.error_strategies) [ none ↦ default_strategy | some s ↦ s ]

-- The variables of the loops over the sorted nodes: the engine, the collected spawns, and the keys
-- of `per_node_durations`.
pub record Execution : Type 0 where
  pub engine : Engine
  pub async_spawns : List AsyncSpawn
  pub timed : List NodeId

-- `if let Some(future) = entry.node_impl.compute_async(..) { async_spawns.push(..) }`
unfoldable pub collect_spawn : Execution → NodeId → NodeEntry → Execution
collect_spawn x id entry = record x {
  engine = record x.engine { calls = x.engine.calls + 1 };
  async_spawns =
      elim (entry.node_impl.compute_async x.engine.calls entry.deps x.engine.graph.value_store) [
        | none ↦ x.async_spawns
        | some future ↦
            x.async_spawns
            ++ record {
              node_id = id;
              future = future;
              policy = entry.node_impl.async_policy;
              group_id = entry.node_impl.concurrency_group_id;
            }
              ∷ []
      ];
}

-- The `match entry.kind { .. }` of the sequential loop.
unfoldable pub execute_entry : NodeKind → Execution → NodeId → NodeEntry → Execution
unfolding execute_compute_with_error_handling strategy_of emission collect_spawn
execute_entry compute x id entry = record x {
  engine = execute_compute_with_error_handling x.engine id entry (strategy_of x.engine id);
}
execute_entry sink x id entry = record x {
  engine = record x.engine {
    emitted = x.engine.emitted ++ emission entry id x.engine.graph.value_store;
  };
}
execute_entry async_compute x id entry = collect_spawn x id entry
execute_entry source x id entry = x

-- The body of the sequential loop: a node that is not registered is passed over.
unfoldable pub execute_node : Execution → NodeId → Execution
unfolding execute_entry
execute_node x id = elim (lookup id x.engine.graph.entries) [
  | none ↦ x
  | some entry ↦
      let x' = execute_entry entry.kind x id entry in record x' { timed = set_insert x'.timed id }
]

unfoldable pub execute_sequential_with_async : Engine → List NodeId → Execution
unfolding execute_node
execute_sequential_with_async e sorted =
    foldl execute_node (record { engine = e; async_spawns = []; timed = [] }) sorted

-- `entries.get(id).map(|e| e.kind != AsyncCompute).unwrap_or(true)`
unfoldable pub is_sync : Engine → NodeId → Bool
is_sync e id = elim (lookup id e.graph.entries) [
  | none ↦ true
  | some entry ↦ elim entry.kind [ async_compute ↦ false | _ ↦ true ]
]

-- The body of the loop that collects the asynchronous nodes of the parallel version.
unfoldable pub collect_async : Execution → NodeId → Execution
unfolding collect_spawn
collect_async x id = elim (lookup id x.engine.graph.entries) [
  | none ↦ x
  | some entry ↦ elim entry.kind [ async_compute ↦ collect_spawn x id entry | _ ↦ x ]
]

unfoldable pub execute_parallel_with_async :
    (List NodeId → List NodeId) → Engine → (sorted dirty : List NodeId) → Execution
unfolding is_sync execute_parallel collect_async
execute_parallel_with_async order e sorted dirty =
    let r =
      execute_parallel order e.graph.entries e.graph.value_store e.topology e.calls e.emitted
        (retain (is_sync e) sorted) dirty in
    let e' : Engine = record e {
      graph = record e.graph { value_store = r.value_store };
      calls = r.calls;
      emitted = r.emitted;
    } in
    foldl collect_async (record { engine = e'; async_spawns = []; timed = [] }) sorted

unfoldable pub spawn_one : Engine → AsyncSpawn → Engine
unfolding spawn
spawn_one e s = record e {
  async_manager = spawn e.async_manager s.node_id s.future s.policy s.group_id;
}

unfoldable pub spawn_async_work : Engine → List AsyncSpawn → Engine
unfolding spawn_one
spawn_async_work e spawns = foldl spawn_one e spawns

-- `self.metrics.record_cycle(CycleMetrics { .. })`
unfoldable pub record_metrics : Engine → (nodes_computed : ℕ) → (timed : List NodeId) → Engine
unfolding record_cycle
record_metrics e nodes_computed timed = record e {
  metrics = record_cycle e.metrics (record {
    cycle_id = e.metrics.total_cycles + 1;
    nodes_computed = nodes_computed;
    per_node_durations = timed;
  });
}

-- Steps 2 and 3 of `run_cycle_impl`, for the nodes whose values were written.
unfoldable pub propagate : (List NodeId → List NodeId) → Bool → Engine → List NodeId → Engine
unfolding execute_parallel_with_async execute_sequential_with_async spawn_async_work record_metrics
propagate order parallel e updated_sources =
    let dirty = dirty_set order e.topology updated_sources in
    let sorted = topo_sort order e.topology dirty in
    let x =
      if parallel
      then execute_parallel_with_async order e sorted dirty
      else execute_sequential_with_async e sorted in
    record_metrics (spawn_async_work x.engine x.async_spawns) (length sorted) x.timed

unfoldable pub run_cycle_impl : (List NodeId → List NodeId) → Bool → Engine → Engine
unfolding drain_updates propagate
run_cycle_impl order parallel e =
    let d = drain_updates e in
    elim d.updated [ [] ↦ d.engine | _ ∷ _ ↦ propagate order parallel d.engine d.updated ]

unfoldable pub run_cycle : (List NodeId → List NodeId) → Engine → Engine
unfolding drain_pending_removals run_cycle_impl
run_cycle order e = run_cycle_impl order false (drain_pending_removals e)

unfoldable pub run_cycle_parallel : (List NodeId → List NodeId) → Engine → Engine
unfolding drain_pending_removals run_cycle_impl
run_cycle_parallel order e = run_cycle_impl order true (drain_pending_removals e)
