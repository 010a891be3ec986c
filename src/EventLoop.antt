-- ===== src/EventLoop.antt =====
-- src/event_loop.rs and src/command.rs: what the thread of the loop does with
-- its own variables. The channels between the threads, and who runs when, are in EventLoop/System.
pub mod System
pub mod Commands
pub mod Awake
pub mod Bridge
pub mod Delivery
pub mod Additive
pub mod Sound
pub mod Consistent
pub mod Handle
use reactive_graph_experimen.Base.{ℕ, Bool, true, false, if◌then◌else◌, List, [], ◌∷◌, ◌++◌}
use reactive_graph_experimen.NodeRef.{NodeId}
use reactive_graph_experimen.ValueStore.{AnyBox}
use reactive_graph_experimen.AsyncCompute.{set_notifier}
use reactive_graph_experimen.Engine.{Engine, remove_all, new as new_engine}
use reactive_graph_experimen.Engine.Cycle.{run_cycle}
use reactive_graph_experimen.Subgraph.{Subgraph, merge_nodes}

-- `reply` is the receiving end of the answer; answers are collected in `LoopState`.
pub data Command : Type 0 where
  source_update : (id : NodeId) (value : AnyBox) → Command
  merge : Subgraph → Command
  remove : (node_ids : List NodeId) → Command
  async_complete source_ready shutdown : Command

-- The variables of the loop, the queue of the bridge's channel, and the answers that were sent,
-- oldest first. The loop holds `source_tx`, the sender whose receiver is `graph.source_rx`; the
-- sender of the graph is `bridge_tx`.
pub record LoopState : Type 0 where
  pub engine : Engine
  pub bridge_rx : List (NodeId × AnyBox)
  pub has_updates : Bool
  pub should_shutdown : Bool
  pub replies : List (List NodeId)

-- The state in which `run_event_loop` enters its loop.
unfoldable pub loop_start : LoopState
unfolding set_notifier
loop_start = record {
  engine = record new_engine { async_manager = set_notifier new_engine.async_manager };
  bridge_rx = [];
  has_updates = false;
  should_shutdown = false;
  replies = [];
}

-- `source_tx.send((id, value))`
unfoldable pub push_source : Engine → NodeId → AnyBox → Engine
push_source e id value = record e {
  graph = record e.graph { source_rx = e.graph.source_rx ++ (id, value) ∷ [] };
}

abbrev pub with_source_rx : Engine → List (NodeId × AnyBox) → Engine
with_source_rx e queue = record e { graph = record e.graph { source_rx = queue } }

-- `Command::Merge`: what the sources send when they are activated goes to the bridge.
unfoldable pub handle_merge : LoopState → Subgraph → LoopState
unfolding merge_nodes
handle_merge s subgraph =
    let e = merge_nodes (with_source_rx s.engine []) subgraph in
    record s {
      engine = with_source_rx e s.engine.graph.source_rx;
      bridge_rx = s.bridge_rx ++ e.graph.source_rx;
      replies = s.replies ++ subgraph.node_ids ∷ [];
    }

-- The `match cmd { .. }` of the loop.
unfoldable pub handle_command : LoopState → Command → LoopState
unfolding push_source handle_merge remove_all
handle_command s (source_update id value) = record s {
  engine = push_source s.engine id value;
  has_updates = true;
}
handle_command s source_ready = record s { has_updates = true }
handle_command s (merge subgraph) = handle_merge s subgraph
handle_command s (remove node_ids) = record s { engine = remove_all s.engine node_ids }
handle_command s async_complete = record s { has_updates = true }
handle_command s shutdown = record s { should_shutdown = true }

-- `let mut has_updates = false; let mut should_shutdown = false;`
abbrev pub begin_batch : LoopState → LoopState
begin_batch s = record s { has_updates = false; should_shutdown = false }

-- `if has_updates { engine.run_cycle(); }`
unfoldable pub end_batch : (List NodeId → List NodeId) → LoopState → LoopState
unfolding run_cycle
end_batch order s = if s.has_updates then record s { engine = run_cycle order s.engine } else s
