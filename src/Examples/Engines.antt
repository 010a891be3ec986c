-- ===== src/Examples/Engines.antt =====
-- Tests and instances for the engine and for subgraphs.
use reactive_graph_experimen.Base.{
  ◌≡◌, ◌↔◌, ◌⊎◌, refl, ap, true, [], ◌∷◌, none, some, arith, count, contains, if◌then◌else◌, lookup,
  insert, remove, foldl, set_remove, set_insert, keys, ◌==◌,
}
use reactive_graph_experimen.NodeRef.{NodeId, id_eq, id_beq}
use reactive_graph_experimen.Graph.{register_node, source, sink}
use reactive_graph_experimen.Topology.{add_node, remove_node, list_at}
use reactive_graph_experimen.Engine.{
  Engine, new, declared, declared_in, activate_sink, drain_pending_removals, remove_all, deactivate,
  enough,
}
use reactive_graph_experimen.Engine.Activation.{IsClosed}
use reactive_graph_experimen.Engine.Reach.{Needs, activate_sink_iff}
use reactive_graph_experimen.Subgraph.{register, merge, drop_handle}
use reactive_graph_experimen.Subgraph.Registry.{entry_after, lookup-register_all}
use reactive_graph_experimen.Subgraph.Shared.{IsShared, counted_twice, lookup-remove_all_shared}
use reactive_graph_experimen.Examples.{s, a, b, first_graph, second_graph, idle}

program : Unit {0}
unfolding add_node remove_node list_at lookup insert remove contains count keys id_beq set_remove
    set_insert register register_node activate_sink drain_pending_removals remove_all deactivate
    enough merge drop_handle
program = tt

-- Two subgraphs that share the source `s` were registered.
abbrev registered_twice : Engine
registered_twice = foldl register (foldl register new first_graph) second_graph

lookup-register_all_example :
    lookup s (foldl register registered_twice first_graph).graph.entries
    ≡ entry_after s (lookup s registered_twice.graph.entries) first_graph
lookup-register_all_example = lookup-register_all first_graph registered_twice s

nothing_active : IsClosed [] (drain_pending_removals registered_twice)
unfolding program
nothing_active x d deps m out h dep known = cc

activate_sink_iff_example :
    IsClosed [] (activate_sink registered_twice a)
    × ((x : NodeId)
        → (contains (activate_sink registered_twice a).active x ≡ true) ↔ (
            (contains (drain_pending_removals registered_twice).active x ≡ true)
            ⊎ Needs (drain_pending_removals registered_twice) a x))
activate_sink_iff_example = activate_sink_iff registered_twice a nothing_active

shared : IsShared registered_twice s a
unfolding program
shared = record {
  source_entry = record {
    id = s;
    kind = source;
    deps = [];
    ref_count = 2;
    node_impl = idle source;
  };
  reader_entry = record {
    id = a;
    kind = sink;
    deps = s ∷ [];
    ref_count = 1;
    node_impl = idle sink;
  };
  other = λ e. absurd (omega (arith, ap (λ (n : NodeId). n.key_hash) e));
  source_found = refl;
  source_shared = omega arith;
  source_deps = refl;
  reader_found = refl;
  reader_once = refl;
  reader_deps = refl;
}

lookup-remove_all_shared_example :
    lookup s (remove_all registered_twice (s ∷ a ∷ [])).graph.entries ≡ (
      if s == s
      then counted_twice registered_twice s a shared
      else if a == s
      then none
      else lookup s registered_twice.graph.entries)
lookup-remove_all_shared_example = lookup-remove_all_shared registered_twice s a shared s

-- After the first of two handles was dropped the second subgraph's sink is registered, its source
-- is not.
handles : Engine
unfolding program
handles =
    let (e, first) = merge new (record { descriptors = first_graph; node_ids = s ∷ a ∷ [] }) in
    let (e', second) = merge e (record { descriptors = second_graph; node_ids = s ∷ b ∷ [] }) in
    drain_pending_removals (drop_handle e' first)

handles_test :
    (declared handles s ≡ none) × (declared handles b ≡ some (s ∷ [])) × (handles.active ≡ b ∷ [])
unfolding program handles declared_in
handles_test = (refl, refl, refl)
