-- ===== src/Engine.antt =====
-- src/engine.rs: the state of the engine, the activation and deactivation of nodes and the queries.
-- Two fields are the model's: `calls` counts the calls of compute closures, `emitted` lists the
-- calls of sink closures with their arguments, oldest first.
pub mod Cycle
pub mod Frame
pub mod Quiet
pub mod Activation
pub mod Reach
pub mod Sound
pub mod Removal
pub mod Ending
use reactive_graph_experimen.Base.{
  ℕ, zero, suc, ◌+◌, ◌-◌, Bool, true, false, not, ◌&&◌, if◌then◌else◌, Option, none, some, List, [],
  ◌∷◌, ◌++◌, foldl, map, length, reverse, retain, contains, set_insert, set_remove, Map, lookup,
  insert, nat_beq,
}
use reactive_graph_experimen.Base.{remove as map_remove}
use reactive_graph_experimen.NodeRef.{NodeId, id_eq}
use reactive_graph_experimen.ValueStore.{AnyBox, ValueStore, set_by_id}
use reactive_graph_experimen.ValueStore
use reactive_graph_experimen.Topology.{Topology, add_node, remove_node}
use reactive_graph_experimen.Topology
use reactive_graph_experimen.Graph.{
  NodeKind, source, compute, sink, async_compute, NodeImpl, NodeEntry, Graph, activate, same_kind,
}
use reactive_graph_experimen.Graph
use reactive_graph_experimen.Metrics.{
  ErrorStrategy, MetricsCollector, EngineMetrics, NodeInfo, GraphSnapshot,
}
use reactive_graph_experimen.Metrics
use reactive_graph_experimen.AsyncCompute.{AsyncManager, ConcurrencyGroupHandle, create_group}
use reactive_graph_experimen.AsyncCompute

pub record Engine : Type 0 where
  pub graph : Graph
  pub topology : Topology
  pub guards : Map NodeId ℕ
  pub active : List NodeId
  pub async_manager : AsyncManager
  pub error_strategies : Map NodeId ErrorStrategy
  pub metrics : MetricsCollector
  pub pending_removals : List (List NodeId)
  pub calls : ℕ
  pub emitted : List (NodeId × List ℕ)

-- `Engine::new`
abbrev pub new : Engine
new = record {
  graph = Graph.new;
  topology = Topology.new;
  guards = [];
  active = [];
  async_manager = AsyncCompute.new;
  error_strategies = [];
  metrics = Metrics.new;
  pending_removals = [];
  calls = 0;
  emitted = [];
}

-- The dependencies that the registered entry of a node declares.
unfoldable pub declared_in : Map NodeId NodeEntry → NodeId → Option (List NodeId)
declared_in m x = elim (lookup x m) [ none ↦ none | some entry ↦ some entry.deps ]

abbrev pub declared : Engine → NodeId → Option (List NodeId)
declared e = declared_in e.graph.entries

-- Shorthands for a change of one part of the graph.
abbrev pub with_entries : Engine → Map NodeId NodeEntry → Engine
with_entries e entries = record e { graph = record e.graph { entries = entries } }

abbrev pub with_store : Engine → ValueStore → Engine
with_store e store = record e { graph = record e.graph { value_store = store } }

unfoldable pub set_error_strategy : Engine → NodeId → ErrorStrategy → Engine
set_error_strategy e id strategy = record e {
  error_strategies = insert id strategy e.error_strategies;
}

-- `if kind == NodeKind::Source { .. }` of `activate_node`.
unfoldable pub start_source : Engine → NodeId → NodeEntry → Engine
unfolding activate
start_source e id entry =
    let r = activate id entry.node_impl.activation in
    record e {
      graph = record e.graph {
        entries =
            insert id (record entry { node_impl = record entry.node_impl { activation = r.left } })
              e.graph.entries;
        source_rx = e.graph.source_rx ++ r.sent;
      };
      guards = elim r.guard [ none ↦ e.guards | some guard ↦ insert id guard e.guards ];
    }

abbrev pub all_have_values : ValueStore → List NodeId → Bool
all_have_values store [] = true
all_have_values store (d ∷ ds) = ValueStore.contains store d && all_have_values store ds

-- `if let Some(result) = .. { value_store.set_by_id(id, result) }`, after one call of `compute`.
unfoldable pub store_result : Engine → NodeId → Option AnyBox → Engine
unfolding set_by_id
store_result e id none = record e { calls = e.calls + 1 }
store_result e id (some value) = record e {
  graph = record e.graph { value_store = set_by_id e.graph.value_store id value };
  calls = e.calls + 1;
}

-- `if kind == NodeKind::Compute { .. }` of `activate_node`.
unfoldable pub start_compute : Engine → NodeId → NodeEntry → Engine
unfolding store_result
start_compute e id entry =
    if all_have_values e.graph.value_store entry.deps
    then store_result e id (entry.node_impl.compute e.calls entry.deps e.graph.value_store)
    else e

-- What `activate_node` does after it has activated the dependencies: `kind` was read before, the
-- entry is read again.
unfoldable pub start_node : Engine → NodeId → NodeKind → Engine
unfolding start_source start_compute
start_node e id kind = elim (lookup id e.graph.entries) [
  | none ↦ e
  | some entry ↦ elim kind [
    | source ↦ start_source e id entry
    | compute ↦ start_compute e id entry
    | _ ↦ e
  ]
]

-- `topology.add_node(..)` and `active.insert(..)` of `activate_node`.
unfoldable pub mark_active : Engine → NodeId → List NodeId → Engine
unfolding add_node
mark_active e id deps = record e {
  topology = add_node e.topology id deps;
  active = set_insert e.active id;
}

-- `activate_node`. A call that does not return at once makes one more registered node active, so
-- the number of registered nodes that are not active bounds the depth.
unfoldable pub activate_node : ℕ → Engine → NodeId → Engine
unfolding mark_active start_node
activate_node zero e id = e
activate_node (suc fuel) e id = elim (contains e.active id) [
  | true ↦ e
  | false ↦ elim (lookup id e.graph.entries) [
    | none ↦ e
    | some entry ↦
        start_node (foldl (activate_node fuel) (mark_active e id entry.deps) entry.deps) id
          entry.kind
  ]
]

-- One more than the number of registered nodes.
unfoldable pub enough : Engine → ℕ
enough e = suc (length e.graph.entries)

-- The part of `deactivate_node` before the cascade, for a node whose count has reached 0.
unfoldable pub drop_node : Engine → NodeId → NodeKind → Engine
unfolding remove_node
drop_node e id kind = record e {
  guards = elim kind [ source ↦ map_remove id e.guards | _ ↦ e.guards ];
  graph = record e.graph {
    value_store = ValueStore.remove e.graph.value_store id;
    entries = map_remove id e.graph.entries;
  };
  topology = remove_node e.topology id;
  active = set_remove e.active id;
  error_strategies = map_remove id e.error_strategies;
}

-- `entry.ref_count = count`
unfoldable pub set_ref_count : Engine → NodeId → NodeEntry → ℕ → Engine
set_ref_count e id entry count =
    with_entries e (insert id (record entry { ref_count = count }) e.graph.entries)

-- `deactivate_node`. A call that cascades has removed an entry, so their number bounds the depth.
unfoldable pub deactivate_node : ℕ → Engine → NodeId → Engine
unfolding drop_node set_ref_count
deactivate_node zero e id = e
deactivate_node (suc fuel) e id = elim (lookup id e.graph.entries) [
  | none ↦ e
  | some entry ↦ elim (nat_beq (entry.ref_count - 1) 0) [
    | false ↦ set_ref_count e id entry (entry.ref_count - 1)
    | true ↦ foldl (deactivate_node fuel) (drop_node e id entry.kind) entry.deps
  ]
]

unfoldable pub deactivate : Engine → NodeId → Engine
unfolding deactivate_node enough
deactivate e id = deactivate_node (enough e) e id

-- The nodes of one dropped handle, last first.
unfoldable pub remove_all : Engine → List NodeId → Engine
unfolding deactivate
remove_all e node_ids = foldl deactivate e (reverse node_ids)

unfoldable pub drain_pending_removals : Engine → Engine
unfolding remove_all
drain_pending_removals e = foldl remove_all (record e { pending_removals = [] }) e.pending_removals

unfoldable pub activate_sink : Engine → NodeId → Engine
unfolding drain_pending_removals activate_node enough
activate_sink e sink_id = let e' = drain_pending_removals e in activate_node (enough e') e' sink_id

-- `graph()`: pending removals are carried out before the graph is handed out.
unfoldable pub graph : Engine → Engine × Graph
unfolding drain_pending_removals
graph e = let e' = drain_pending_removals e in (e', e'.graph)

unfoldable pub concurrency_group : Engine → ℕ → Engine × ConcurrencyGroupHandle
unfolding create_group
concurrency_group e max_concurrent =
    let (manager, handle) = create_group e.async_manager max_concurrent in
    (record e { async_manager = manager }, handle)

-- `self.graph.entries.get(id)` is an entry of the given kind.
unfoldable pub is_kind : NodeKind → Engine → NodeId → Bool
unfolding same_kind
is_kind kind e id = elim (lookup id e.graph.entries) [
  | none ↦ false
  | some entry ↦ same_kind entry.kind kind
]

-- How many nodes of a list are registered with the given kind.
unfoldable pub count_kind : NodeKind → Engine → List NodeId → ℕ
unfolding is_kind
count_kind kind e ids = length (retain (is_kind kind e) ids)

unfoldable pub engine_metrics : Engine → EngineMetrics
unfolding count_kind
engine_metrics e = record {
  total_cycles = e.metrics.total_cycles;
  active_sources = count_kind source e e.active;
  active_computes = count_kind compute e e.active;
  active_sinks = count_kind sink e e.active;
  active_async_computes = count_kind async_compute e e.active;
  pending_async = 0;
  last_cycle = e.metrics.last_cycle;
}

-- The loop of `snapshot` over the active nodes.
unfoldable pub snapshot_loop : Engine → List NodeId → GraphSnapshot
snapshot_loop e [] = record { nodes = []; edges = [] }
snapshot_loop e (id ∷ ids) =
    let rest = snapshot_loop e ids in
    elim (lookup id e.graph.entries) [
      | none ↦ rest
      | some entry ↦ record {
        nodes =
            record { id = id; kind = entry.kind; deps = entry.deps; ref_count = entry.ref_count }
            ∷ rest.nodes;
        edges = map (λ dep. (dep, id)) entry.deps ++ rest.edges;
      }
    ]

unfoldable pub snapshot : Engine → GraphSnapshot
unfolding snapshot_loop
snapshot e = snapshot_loop e e.active
