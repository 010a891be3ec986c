-- ===== src/Builder/Trait/Sink.antt =====
-- src/builder/trait_sink.rs, as Compute is src/builder/trait_compute.rs.
use reactive_graph_experimen.Base.{ℕ, Option, none, some, List, [], ◌∷◌, ◌++◌}
use reactive_graph_experimen.NodeRef.{NodeId, NodeRef}
use reactive_graph_experimen.Graph.{NodeKind, NodeImpl, Graph, register_node}
use reactive_graph_experimen.Builder.{make_ref, blank, extract}
use reactive_graph_experimen.Builder.Trait.{SinkNode, peel, when_wired, graph_arity}

pub record TraitSinkBuilder (Key : Type 0) : Type 0 where
  pub sink : SinkNode Key
  pub dep_ids : List NodeId
  pub remaining : List ℕ

module _ {Key : Type 0} where
  unfoldable pub new : SinkNode Key → TraitSinkBuilder Key
  new s = record { sink = s; dep_ids = []; remaining = s.inputs }

  -- `make_node_impl`, with `TraitSinkNodeImpl` as `AnyNodeImpl`.
  unfoldable pub make_node_impl : SinkNode Key → NodeImpl
  unfolding extract
  make_node_impl s = record (blank NodeKind.sink) {
    emit = λ deps store. extract s.inputs deps store;
  }

  unfoldable pub dep : TraitSinkBuilder Key → NodeRef → Option (TraitSinkBuilder Key)
  unfolding peel
  dep b node = elim (peel graph_arity b.remaining node) [
    | none ↦ none
    | some remaining ↦
        some (record b { dep_ids = b.dep_ids ++ node.id ∷ []; remaining = remaining })
  ]

  unfoldable pub build : (Key → ℕ) → TraitSinkBuilder Key → Graph → Option (Graph × NodeRef)
  unfolding make_ref make_node_impl register_node when_wired
  build hash b g =
      let s = b.sink in
      let node_ref = make_ref hash s.node.scope s.node.key s.node.output in
      let g' = (register_node g node_ref.id NodeKind.sink b.dep_ids (make_node_impl s)).0 in
      when_wired s.inputs b.remaining (g', node_ref)
