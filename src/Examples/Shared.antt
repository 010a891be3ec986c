-- ===== src/Examples/Shared.antt =====
-- Two clients trade EUR/USD, and the trade of the first is removed: the node of the bid rate is
-- removed with it, though the other trade still reads it.
use reactive_graph_experimen.Base.{
  ◌≡◌, refl, map, true, false, [], ◌∷◌, lookup, contains, contains_key, insert, remove, keys, count,
  set_insert, set_remove, Text,
}
use reactive_graph_experimen.NodeRef.{id_eq, id_beq}
use reactive_graph_experimen.ValueStore
use reactive_graph_experimen.Topology.{add_node, remove_node}
use reactive_graph_experimen.Graph.{register_node, activate}
use reactive_graph_experimen.Subgraph.{Subgraph, register, activate_if_sink, merge_nodes}
use reactive_graph_experimen.Engine.{
  activate_sink, activate_node, mark_active, start_node, start_source, start_compute, enough,
  drop_node, set_ref_count, deactivate_node, deactivate, remove_all, drain_pending_removals,
}
use reactive_graph_experimen.EventLoop.{
  LoopState, loop_start, Command, handle_command, handle_merge,
}
use reactive_graph_experimen.FxPricing.Types.{eurusd, bid}
use reactive_graph_experimen.FxPricing.Nodes.{spot_rate}
use reactive_graph_experimen.FxPricing.Diagram.{trade, rate_id}
use reactive_graph_experimen.Examples.Trades.{runtime}

abbrev subgraph_of : Text → Subgraph
subgraph_of trade_id =
    let ds =
      trade runtime 1 2
        (record { trade_id = trade_id; pair = eurusd; client = trade_id; spread_bps = 20 }) [] in
    record { descriptors = ds; node_ids = map (λ d. d.id) ds }

abbrev both : LoopState
unfolding handle_command
both =
    handle_command (handle_command loop_start (Command.merge (subgraph_of (49 ∷ []))))
      (Command.merge (subgraph_of (49 ∷ 49 ∷ [])))

abbrev after_removal : LoopState
unfolding handle_command
after_removal = handle_command both (Command.remove (subgraph_of (49 ∷ [])).node_ids)

bid-both : contains_key (rate_id runtime eurusd bid) both.engine.graph.entries ≡ true
unfolding both handle_merge merge_nodes register register_node activate_if_sink activate_sink
    activate_node drain_pending_removals enough mark_active start_node start_source start_compute
    activate add_node lookup contains contains_key insert remove keys count set_insert set_remove
    id_beq loop_start spot_rate ValueStore.contains
bid-both = refl

bid-after_removal :
    contains_key (rate_id runtime eurusd bid) after_removal.engine.graph.entries ≡ false
unfolding after_removal both handle_merge merge_nodes register register_node activate_if_sink
    activate_sink activate_node drain_pending_removals enough mark_active start_node start_source
    start_compute activate add_node lookup contains contains_key insert remove keys count set_insert
    set_remove id_beq loop_start spot_rate ValueStore.contains remove_all deactivate deactivate_node
    drop_node set_ref_count remove_node
bid-after_removal = refl
