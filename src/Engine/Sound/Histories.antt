-- ===== src/Engine/Sound/Histories.antt =====
-- The engines that the operations make from a new one without removals, and what the theorems on cycles
-- say of them.
use reactive_graph_experimen.Base.{ℕ, ◌≡◌, ◌≢◌, refl, true, none, List, contains}
use reactive_graph_experimen.NodeRef.{NodeId, id_eq}
use reactive_graph_experimen.Sender.{Sender, send}
use reactive_graph_experimen.Metrics.{ErrorStrategy}
use reactive_graph_experimen.AsyncCompute.{Task, complete}
use reactive_graph_experimen.Subgraph.{NodeDescriptor, Subgraph, register, merge_nodes, merge}
use reactive_graph_experimen.Engine.{
  Engine, new, declared, drain_pending_removals, activate_sink, set_error_strategy,
  concurrency_group,
}
use reactive_graph_experimen.Engine.Cycle.{run_cycle, run_cycle_parallel}
use reactive_graph_experimen.Engine.Sound.{
  IsSound, new-IsSound, Alike-IsSound, kept-IsSound, kept-IsSound,
}
use reactive_graph_experimen.Engine.Sound.Registering.{
  IsComplete, register-IsSound, register_all-IsSound,
}
use reactive_graph_experimen.Engine.Sound.Activating.{
  activate_sink-IsSound, activate_sinks-IsSound, drain_pending-Alike,
}
use reactive_graph_experimen.Engine.Sound.Cycling.{run_cycle-IsSound, run_cycle_parallel-IsSound}

-- What can be done to an engine, short of dropping the handle of a subgraph. A node is registered
-- after its dependencies, as the references that builders return make sure.
pub data Grown (order : List NodeId → List NodeId) : Engine → Type 0 where
  starts : Grown order new
  registers :
      {e : Engine}
      → Grown order e
      → (d : NodeDescriptor) → ((dep : NodeId) → contains d.deps dep ≡ true → declared e dep ≢ none)
      → Grown order (register e d)
  merges :
      {e : Engine}
      → Grown order e
      → (s : Subgraph) → IsComplete (drain_pending_removals e) s.descriptors
      → Grown order (merge e s).0
  activates :
      {e : Engine} → Grown order e → (sink_id : NodeId) → Grown order (activate_sink e sink_id)
  sends :
      {e : Engine}
      → Grown order e
      → (sender : Sender) (value : ℕ) → Grown order (record e { graph = send sender e.graph value })
  completes :
      {e : Engine}
      → Grown order e
      → (task : Task) → Grown order (record e { async_manager = complete e.async_manager task })
  sets_strategy :
      {e : Engine}
      → Grown order e
      → (id : NodeId) (strategy : ErrorStrategy) → Grown order (set_error_strategy e id strategy)
  makes_group :
      {e : Engine}
      → Grown order e
      → (max_concurrent : ℕ) → Grown order (concurrency_group e max_concurrent).0
  cycles : {e : Engine} → Grown order e → Grown order (run_cycle order e)
  cycles_parallel : {e : Engine} → Grown order e → Grown order (run_cycle_parallel order e)

pub merge-IsSound :
    (e : Engine) (s : Subgraph)
    → IsComplete (drain_pending_removals e) s.descriptors
    → IsSound e
    → IsSound (merge e s).0
unfolding merge merge_nodes
merge-IsSound e s complete sound = activate_sinks-IsSound s.node_ids _ (
    register_all-IsSound s.descriptors (drain_pending_removals e) complete
      (Alike-IsSound (drain_pending-Alike e sound) sound))

-- In every engine that is made without removals, the topology is mirrored and acyclic and has exactly
-- the declared dependencies of the active nodes, all registered.
pub Grown-IsSound : {order : List NodeId → List NodeId} {e : Engine} → Grown order e → IsSound e
unfolding send set_error_strategy concurrency_group
Grown-IsSound starts = new-IsSound
Grown-IsSound (registers {e} g d known) = register-IsSound e d known (Grown-IsSound g)
Grown-IsSound (merges {e} g s known) = merge-IsSound e s known (Grown-IsSound g)
Grown-IsSound (activates {e} g id) = activate_sink-IsSound e id (Grown-IsSound g)
Grown-IsSound (sends {e} g sender value) = kept-IsSound refl refl refl refl (Grown-IsSound g)
Grown-IsSound (completes {e} g task) = kept-IsSound refl refl refl refl (Grown-IsSound g)
Grown-IsSound (sets_strategy {e} g id strategy) = kept-IsSound refl refl refl refl (Grown-IsSound g)
Grown-IsSound (makes_group {e} g max_concurrent) =
    kept-IsSound refl refl refl refl (Grown-IsSound g)
Grown-IsSound {order} (cycles {e} g) = run_cycle-IsSound order e (Grown-IsSound g)
Grown-IsSound {order} (cycles_parallel {e} g) = run_cycle_parallel-IsSound order e (Grown-IsSound g)
