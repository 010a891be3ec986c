-- ===== src/Examples/Loops.antt =====
-- The threads of the event loop: a source sends a value while the loop waits.
use reactive_graph_experimen.Base.{
  ◌∷◌, ◌≡◌, refl, arith, some, [], insert, lookup, set_insert, contains,
}
use reactive_graph_experimen.NodeRef.{id_eq, id_beq}
use reactive_graph_experimen.ValueStore.{get_by_id, set_by_id}
use reactive_graph_experimen.Topology.{list_at, dirty_set, topo_sort}
use reactive_graph_experimen.AsyncCompute.{drain_results}
use reactive_graph_experimen.Engine.{Engine, drain_pending_removals}
use reactive_graph_experimen.Engine.Cycle.{
  accept, drain_updates, propagate, execute_sequential_with_async, spawn_async_work, record_metrics,
  run_cycle_impl, run_cycle,
}
use reactive_graph_experimen.EventLoop.{loop_start, handle_command, end_batch}
use reactive_graph_experimen.Engine.Cycle.Queues.{waiting-run_cycle}
use reactive_graph_experimen.EventLoop.System.{
  System, start, send_source, send_command, forward, notify, loop_in, loop_step, Reachable, starts,
  internal, sends_source, forwards,
}
use reactive_graph_experimen.EventLoop.Awake.{IsAwake, Reachable-IsAwake}
use reactive_graph_experimen.EventLoop.Delivery.{IsDelivered, Reachable-IsDelivered}
use reactive_graph_experimen.Engine.Cycle.Touch.{value_in}
use reactive_graph_experimen.Engine.Cycle.Latest.{value_in-run_cycle}
use reactive_graph_experimen.Topology.Dirty.{Downstream, dirty_set_iff}
use reactive_graph_experimen.Examples.{s, in_order, diamond}
use reactive_graph_experimen.Examples.Graphs.{diamond-IsMirror}
use reactive_graph_experimen.Examples.Cycles.{engine, number, program}

abbrev sent : System
unfolding send_source
sent = send_source start s (number 5)

sent-Reachable : Reachable in_order sent
unfolding send_source
sent-Reachable = sends_source starts s (number 5)

-- The bridge has forwarded the value and not yet sent its command.
Reachable-IsAwake_example : IsAwake (forward sent).phase (forward sent)
Reachable-IsAwake_example = Reachable-IsAwake (internal sent-Reachable (forwards sent))

Reachable-IsDelivered_example : IsDelivered in_order sent
unfolding sent
Reachable-IsDelivered_example = Reachable-IsDelivered in_order sent sent-Reachable refl

waiting-run_cycle_example :
    ((run_cycle in_order engine).graph.source_rx ≡ [])
    × ((run_cycle in_order engine).async_manager.result_rx ≡ [])
waiting-run_cycle_example = waiting-run_cycle in_order engine

-- The bridge forwards the value and sends its command, and the loop takes it, handles it, and runs a cycle.
abbrev after_cycle : System
unfolding forward notify send_command loop_step loop_in handle_command end_batch run_cycle
after_cycle = loop_step in_order (loop_step in_order (loop_step in_order (notify (forward sent))))

stored : get_by_id after_cycle.state.engine.graph.value_store s ≡ some (number 5)
unfolding after_cycle sent drain_pending_removals run_cycle_impl drain_updates accept drain_results
    propagate execute_sequential_with_async spawn_async_work record_metrics get_by_id set_by_id
    insert lookup dirty_set topo_sort set_insert contains loop_start list_at id_beq
stored = refl

-- The source of the diamond has sent two values.
abbrev sent_twice : Engine
sent_twice = record engine {
  graph = record engine.graph { source_rx = (s, number 4) ∷ (s, number 9) ∷ [] };
}

source_alone : ¬ Downstream diamond (s ∷ []) s
unfolding program
source_alone d =
    let m = (dirty_set_iff in_order (λ xs x. refl) diamond (s ∷ []) s).1 d in ground (arith, m)

value_in-run_cycle_example : value_in (run_cycle in_order sent_twice) s ≡ some (number 9)
unfolding program drain_pending_removals drain_updates accept drain_results
value_in-run_cycle_example =
    value_in-run_cycle in_order (λ xs x. refl) sent_twice diamond-IsMirror s source_alone
