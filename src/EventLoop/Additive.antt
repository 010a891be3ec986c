-- ===== src/EventLoop/Additive.antt =====
-- src/event_loop.rs: commands that only add to the engine, and what the loop does on them.
use reactive_graph_experimen.Base.{
  ◌≡◌, refl, Bool, true, false, ◌&&◌, inl, inr, List, [], ◌∷◌, ◌++◌, foldl, contains, arith,
  Bool-cases,
}
use reactive_graph_experimen.NodeRef.{NodeId, id_eq}
use reactive_graph_experimen.Subgraph.{Subgraph, register, merge_nodes}
use reactive_graph_experimen.Engine.Sound.{IsSound, kept-IsSound, kept-IsSound}
use reactive_graph_experimen.Engine.Sound.Registering.{
  is_contained, is_contained-IsComplete, register_all-IsSound,
}
use reactive_graph_experimen.Engine.Sound.Activating.{activate_sinks-IsSound}
use reactive_graph_experimen.Engine.Sound.Cycling.{run_cycle-IsSound}
use reactive_graph_experimen.EventLoop.{
  Command, source_update, merge, remove, async_complete, source_ready, shutdown, LoopState,
  push_source, handle_merge, handle_command, end_batch, with_source_rx,
}

-- A command removes nothing, and a subgraph that it merges has all dependencies of its nodes.
unfoldable pub is_additive : Command → Bool
is_additive (source_update id value) = true
is_additive (merge subgraph) = is_contained [] subgraph.descriptors
is_additive (remove node_ids) = false
is_additive async_complete = true
is_additive source_ready = true
is_additive shutdown = true

unfoldable pub all_additive : List Command → Bool
all_additive [] = true
all_additive (command ∷ commands) = is_additive command && all_additive commands

pub all_additive-snoc :
    (commands : List Command) (command : Command)
    → all_additive commands ≡ true
    → is_additive command ≡ true
    → all_additive (commands ++ command ∷ []) ≡ true
unfolding all_additive
all_additive-snoc [] command all one = rw one refl
all_additive-snoc (first ∷ commands) command all one =
    let both : (is_additive first ≡ true) × (all_additive commands ≡ true) = ground (arith, all) in
    rw (both.0, all_additive-snoc commands command both.1 one) refl

handle_merge-IsSound :
    (s : LoopState) (subgraph : Subgraph)
    → is_contained [] subgraph.descriptors ≡ true
    → IsSound s.engine
    → IsSound (handle_merge s subgraph).engine
unfolding handle_merge merge_nodes contains
handle_merge-IsSound s subgraph contained sound =
    let e = with_source_rx s.engine [] in
    let begun : IsSound e = kept-IsSound refl refl refl refl sound in
    let complete =
      is_contained-IsComplete subgraph.descriptors [] e (λ x m. absurd (ground (arith, m)))
        contained in
    let merged =
      activate_sinks-IsSound subgraph.node_ids (foldl register e subgraph.descriptors)
        (register_all-IsSound subgraph.descriptors e complete begun) in
    kept-IsSound refl refl refl refl merged

pub handle_command-IsSound :
    (s : LoopState) (command : Command)
    → is_additive command ≡ true
    → IsSound s.engine
    → IsSound (handle_command s command).engine
unfolding handle_command is_additive push_source
handle_command-IsSound s (source_update id value) h sound = kept-IsSound refl refl refl refl sound
handle_command-IsSound s (merge subgraph) h sound = handle_merge-IsSound s subgraph h sound
handle_command-IsSound s (remove node_ids) h sound = absurd (ground (arith, h))
handle_command-IsSound s async_complete h sound = sound
handle_command-IsSound s source_ready h sound = sound
handle_command-IsSound s shutdown h sound = sound

pub end_batch-IsSound :
    (order : List NodeId → List NodeId) (s : LoopState)
    → IsSound s.engine
    → IsSound (end_batch order s).engine
unfolding end_batch
end_batch-IsSound order s sound = elim (Bool-cases s.has_updates) [
  | inl u ↦ rw (u, end_batch) (run_cycle-IsSound order s.engine sound)
  | inr u ↦ rw (u, end_batch) sound
]
