-- ===== src/Subgraph.antt =====
-- src/subgraph.rs: subgraphs, their builder, `Engine::merge` and the handle that it returns. The
-- queue of removals that engine and handles share is the field `pending_removals` of the engine.
pub mod Registry
pub mod Fresh
pub mod Shared
pub mod Private
use reactive_graph_experimen.Base.{
  Bool, true, false, Option, none, some, List, [], ◌∷◌, ◌++◌, foldl, contains, set_insert, lookup,
}
use reactive_graph_experimen.NodeRef.{NodeId, id_eq}
use reactive_graph_experimen.Graph.{NodeKind, sink, NodeImpl}
use reactive_graph_experimen.Graph
use reactive_graph_experimen.Engine.{Engine, activate_sink, drain_pending_removals}

pub record NodeDescriptor : Type 0 where
  pub id : NodeId
  pub kind : NodeKind
  pub deps : List NodeId
  pub node_impl : NodeImpl

pub record SubgraphBuilder : Type 0 where
  pub descriptors : List NodeDescriptor
  pub node_ids : List NodeId
  pub registered : List NodeId

pub record Subgraph : Type 0 where
  pub descriptors : List NodeDescriptor
  pub node_ids : List NodeId

pub record SubgraphHandle : Type 0 where
  pub node_ids : List NodeId

-- `SubgraphBuilder::new`
abbrev pub new : SubgraphBuilder
new = record { descriptors = []; node_ids = []; registered = [] }

-- `SubgraphBuilder::register_node`
unfoldable pub register_node : SubgraphBuilder → NodeDescriptor → SubgraphBuilder × Bool
register_node b d = elim (contains b.registered d.id) [
  | true ↦ (record b { node_ids = b.node_ids ++ d.id ∷ [] }, false)
  | false ↦ (
    record {
      descriptors = b.descriptors ++ d ∷ [];
      node_ids = b.node_ids ++ d.id ∷ [];
      registered = set_insert b.registered d.id;
    },
    true,
  )
]

unfoldable pub build : SubgraphBuilder → Subgraph
build b = record { descriptors = b.descriptors; node_ids = b.node_ids }

-- `self.graph.register_node(desc.id, desc.kind, desc.deps, desc.node_impl)`
unfoldable pub register : Engine → NodeDescriptor → Engine
register e d = record e { graph = (Graph.register_node e.graph d.id d.kind d.deps d.node_impl).0 }

-- `if entry.kind == NodeKind::Sink { self.activate_sink(id) }`
unfoldable pub activate_if_sink : Engine → NodeId → Engine
unfolding activate_sink
activate_if_sink e id = elim (lookup id e.graph.entries) [
  | none ↦ e
  | some entry ↦ elim entry.kind [ sink ↦ activate_sink e id | _ ↦ e ]
]

-- The part of `merge` that the event loop has too.
unfoldable pub merge_nodes : Engine → Subgraph → Engine
unfolding register activate_if_sink
merge_nodes e s = foldl activate_if_sink (foldl register e s.descriptors) s.node_ids

-- `Engine::merge`
unfoldable pub merge : Engine → Subgraph → Engine × SubgraphHandle
unfolding drain_pending_removals merge_nodes
merge e s = (merge_nodes (drain_pending_removals e) s, record { node_ids = s.node_ids })

-- `Drop for SubgraphHandle`
unfoldable pub drop_handle : Engine → SubgraphHandle → Engine
drop_handle e h = elim h.node_ids [
  | [] ↦ e
  | id ∷ ids ↦ record e { pending_removals = e.pending_removals ++ (id ∷ ids) ∷ [] }
]
