-- ===== src/EventLoop/Handle.antt =====
-- src/engine_handle.rs: the commands that the holder of a handle sends, and the handle of a merged
-- subgraph.
use reactive_graph_experimen.Base.{ℕ, Option, none, some, List, [], ◌∷◌}
use reactive_graph_experimen.NodeRef.{NodeId, NodeRef}
use reactive_graph_experimen.Subgraph.{Subgraph}
use reactive_graph_experimen.EventLoop.{Command, source_update, remove}

pub record RemoteSubgraphHandle : Type 0 where
  pub node_ids : List NodeId

-- `EngineHandle::update_source`
unfoldable pub update_source : NodeRef → ℕ → Command
update_source node_ref value =
    source_update node_ref.id (record { type_id = node_ref.output; contents = value })

-- `EngineHandle::merge`, for what `reply_rx.recv()` returns: the command that it sends, and the handle.
unfoldable pub merge : Subgraph → Option (List NodeId) → Command × RemoteSubgraphHandle
merge subgraph reply = (
  Command.merge subgraph,
  record { node_ids = elim reply [ none ↦ [] | some node_ids ↦ node_ids ] },
)

-- `EngineHandle::shutdown`
unfoldable pub shutdown : Command
shutdown = Command.shutdown

-- `Drop for RemoteSubgraphHandle`: the commands that it sends.
unfoldable pub drop_remote : RemoteSubgraphHandle → List Command
drop_remote handle = elim handle.node_ids [ [] ↦ [] | id ∷ ids ↦ remove (id ∷ ids) ∷ [] ]
