-- ===== src/EventLoop/Commands.antt =====
-- What the commands and the end of a batch do to `has_updates` and to the two queues of the engine.
use reactive_graph_experimen.Base.{
  ◌≡◌, refl, ap, ◌∙◌, Bool, true, false, ◌||◌, List, [], ◌∷◌, ◌++◌, foldl, arith,
}
use reactive_graph_experimen.NodeRef.{NodeId, id_eq}
use reactive_graph_experimen.ValueStore.{AnyBox}
use reactive_graph_experimen.Engine.{Engine}
use reactive_graph_experimen.Engine.Quiet.{foldl-keeps, manager-activate_sink, apart-remove_all}
use reactive_graph_experimen.Engine.Cycle.Queues.{waiting-run_cycle}
use reactive_graph_experimen.Subgraph.{Subgraph, register, activate_if_sink, merge_nodes}
use reactive_graph_experimen.EventLoop.{
  Command, source_update, merge, remove, source_ready, async_complete, shutdown, LoopState,
  with_source_rx, handle_merge, handle_command, end_batch,
}

-- The commands that set `has_updates`.
abbrev pub wakes : Command → Bool
wakes (source_update _ _) = true
wakes source_ready = true
wakes async_complete = true
wakes (merge _) = false
wakes (remove _) = false
wakes shutdown = false

abbrev pub any_wakes : List Command → Bool
any_wakes [] = false
any_wakes (command ∷ commands) = wakes command || any_wakes commands

pub any_wakes-append :
    (xs : List Command) (command : Command)
    → any_wakes (xs ++ command ∷ []) ≡ (any_wakes xs || wakes command)
any_wakes-append [] command = ground arith
any_wakes-append (x ∷ xs) command = let k = any_wakes-append xs command in ground (arith, k)

abbrev pub sources : LoopState → List (NodeId × AnyBox)
sources s = s.engine.graph.source_rx

abbrev pub results : LoopState → List (NodeId × AnyBox)
results s = s.engine.async_manager.result_rx

-- What a command does to `has_updates` and, where it does not set it, to the two queues.
pub has_updates-handle_command :
    (s : LoopState) (command : Command)
    → (handle_command s command).has_updates ≡ (s.has_updates || wakes command)
unfolding handle_command handle_merge
has_updates-handle_command s (source_update id value) = ground arith
has_updates-handle_command s (merge subgraph) = ground arith
has_updates-handle_command s (remove node_ids) = ground arith
has_updates-handle_command s source_ready = ground arith
has_updates-handle_command s async_complete = ground arith
has_updates-handle_command s shutdown = ground arith

manager-activate_if_sink :
    (e : Engine) (id : NodeId) → (activate_if_sink e id).async_manager ≡ e.async_manager
unfolding activate_if_sink
manager-activate_if_sink e id = let k = manager-activate_sink e id in ground (arith, k)

manager-merge_nodes :
    (e : Engine) (s : Subgraph) → (merge_nodes e s).async_manager ≡ e.async_manager
unfolding merge_nodes register
manager-merge_nodes e s =
    foldl-keeps (λ e'. e'.async_manager) activate_if_sink manager-activate_if_sink s.node_ids
      (foldl register e s.descriptors)
    ∙ foldl-keeps (λ e'. e'.async_manager) register (λ e' d. refl) s.descriptors e

pub queues-handle_command :
    (s : LoopState) (command : Command)
    → wakes command ≡ false
    → (sources (handle_command s command) ≡ sources s)
      × (results (handle_command s command) ≡ results s)
unfolding handle_command handle_merge
queues-handle_command s (source_update id value) sleeps = absurd (ground (arith, sleeps))
queues-handle_command s source_ready sleeps = absurd (ground (arith, sleeps))
queues-handle_command s async_complete sleeps = absurd (ground (arith, sleeps))
queues-handle_command s (merge subgraph) sleeps =
    (refl, ap (λ m. m.result_rx) (manager-merge_nodes (with_source_rx s.engine []) subgraph))
queues-handle_command s (remove node_ids) sleeps =
    let same = apart-remove_all s.engine node_ids in
    (ap (λ q. q.1) same, ap (λ q. q.0.result_rx) same)
queues-handle_command s shutdown sleeps = (refl, refl)

pub end_batch-queues :
    (order : List NodeId → List NodeId) (s : LoopState)
    → s.has_updates ≡ true
    → (sources (end_batch order s) ≡ []) × (results (end_batch order s) ≡ [])
unfolding end_batch
end_batch-queues order s updated = rw (updated, end_batch) (waiting-run_cycle order s.engine)
