-- ===== src/EventLoop/Consistent.antt =====
-- src/event_loop.rs: the values at the end of a batch.
use reactive_graph_experimen.Base.{◌≡◌, refl, sym, ap, ◌∙◌, true, some, List, [], lookup, IsOrder}
use reactive_graph_experimen.NodeRef.{NodeId, id_eq}
use reactive_graph_experimen.ValueStore.{AnyBox}
use reactive_graph_experimen.Topology.Dirty.{Downstream}
use reactive_graph_experimen.Graph.{NodeEntry, compute}
use reactive_graph_experimen.Engine.Cycle.{attempt, drain_updates, run_cycle}
use reactive_graph_experimen.Engine.Cycle.Touch.{value_in}
use reactive_graph_experimen.Engine.Cycle.Consistent.{IsPure}
use reactive_graph_experimen.Engine.Sound.Cycles.{sound_consistent}
use reactive_graph_experimen.EventLoop.{end_batch}
use reactive_graph_experimen.EventLoop.System.{System, handling, loop_in, loop_step}
use reactive_graph_experimen.EventLoop.Sound.{Fed, Fed-IsSound}

loop_step-cycle :
    (order : List NodeId → List NodeId) (s : System)
    → s.phase ≡ handling []
    → s.state.has_updates ≡ true
    → (loop_step order s).state.engine ≡ run_cycle order s.state.engine
unfolding loop_step loop_in end_batch
loop_step-cycle order s at updates =
    ap (λ p. (loop_in order p s).state.engine) at ∙ rw (updates, end_batch) refl

-- The loop, in any state that the threads reach by additive commands, ends a batch that has updates: a
-- registered pure compute node downstream of a node with a new value then has the value of its function on
-- the values that its dependencies then have, under every error strategy, if there is such a value.
pub loop_step_consistent :
    (order : List NodeId → List NodeId)
    → IsOrder order
    → (s : System) → Fed order s
    → s.phase ≡ handling []
    → s.state.has_updates ≡ true
    → (x : NodeId) (entry : NodeEntry) (v : AnyBox)
    → Downstream
        (drain_updates s.state.engine).engine.topology
        (drain_updates s.state.engine).updated
        x
    → lookup x s.state.engine.graph.entries ≡ some entry
    → entry.kind ≡ compute
    → IsPure entry
    → attempt (loop_step order s).state.engine entry ≡ some v
    → value_in (loop_step order s).state.engine x ≡ some v
loop_step_consistent order ordered s fed at updates x entry v downstream found kind pure h =
    let same = loop_step-cycle order s at updates in
    ap (λ e. value_in e x) same
    ∙ sound_consistent order ordered s.state.engine (Fed-IsSound fed) x entry v downstream found
        kind pure (sym (ap (λ e. attempt e entry) same) ∙ h)
