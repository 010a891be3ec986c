-- ===== src/Examples/Fed.antt =====
-- A loop that merges a chain, gets a value for its source, and stands at the end of the batch.
use reactive_graph_experimen.Base.{◌≡◌, refl, true, some, [], ◌∷◌}
use reactive_graph_experimen.NodeRef.{id_eq}
use reactive_graph_experimen.Topology.Dirty.{direct}
use reactive_graph_experimen.AsyncCompute.{set_notifier}
use reactive_graph_experimen.Builder.{extract}
use reactive_graph_experimen.Builder.Pure.{closure_compute_node-IsPure}
use reactive_graph_experimen.Engine.Cycle.{run_cycle, run_cycle_impl}
use reactive_graph_experimen.Engine.Cycle.Touch.{value_in}
use reactive_graph_experimen.Engine.Sound.{IsSound}
use reactive_graph_experimen.Engine.Sound.Registering.{is_contained, all_in}
use reactive_graph_experimen.EventLoop.{
  Command, source_update, loop_start, push_source, handle_merge, handle_command, end_batch,
}
use reactive_graph_experimen.EventLoop.System.{
  System, start, send_command, loop_step, loop_in, loops,
}
use reactive_graph_experimen.EventLoop.Sound.{
  Fed, fed_start, fed_internal, fed_command, Fed-IsSound,
}
use reactive_graph_experimen.EventLoop.Additive.{is_additive}
use reactive_graph_experimen.EventLoop.Consistent.{loop_step_consistent}
use reactive_graph_experimen.Examples.{s, a, in_order}
use reactive_graph_experimen.Examples.Cycles.{total, number}
use reactive_graph_experimen.Examples.Cycles
use reactive_graph_experimen.Examples.Grown.{chain_graph, copied}
use reactive_graph_experimen.Examples.Grown

unfoldable in_loop : Unit {0}
unfolding Cycles.program Grown.program is_additive is_contained all_in extract run_cycle
    run_cycle_impl set_notifier loop_start push_source handle_merge handle_command end_batch
    send_command loop_step loop_in
in_loop = tt

-- The loop takes the batch of one command and handles it.
abbrev taken : System → Command → System
taken t command = loop_step in_order (loop_step in_order (send_command t command))

taken-Fed :
    (t : System) (command : Command)
    → is_additive command ≡ true
    → Fed in_order t
    → Fed in_order (taken t command)
taken-Fed t command additive fed =
    fed_internal (fed_internal (fed_command fed command additive) (loops _)) (loops _)

abbrev merged : System
merged = loop_step in_order (taken start (Command.merge chain_graph))

abbrev updated : System
updated = taken merged (source_update s (number 5))

updated-Fed : Fed in_order updated
unfolding in_loop
updated-Fed =
    taken-Fed merged (source_update s (number 5)) refl
      (fed_internal (taken-Fed start (Command.merge chain_graph) refl fed_start) (loops _))

Fed-IsSound_example : IsSound updated.state.engine
Fed-IsSound_example = Fed-IsSound updated-Fed

loop_step_consistent_example :
    value_in (loop_step in_order updated).state.engine a ≡ some (number 5)
unfolding in_loop
loop_step_consistent_example =
    loop_step_consistent in_order (λ xs x. refl) updated updated-Fed refl refl a copied (number 5)
      (direct s refl refl) refl refl (closure_compute_node-IsPure copied (7 ∷ []) 7 total refl) refl
