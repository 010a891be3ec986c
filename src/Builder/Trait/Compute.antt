-- ===== src/Builder/Trait/Compute.antt =====
-- src/builder/trait_compute.rs. The builder borrows the graph for as long as it lives, so `build`
-- gets the graph as it was when the builder was made. The types that remain are a field.
use reactive_graph_experimen.Base.{ℕ, Option, none, some, List, [], ◌∷◌, ◌++◌}
use reactive_graph_experimen.NodeRef.{NodeId, NodeRef}
use reactive_graph_experimen.Graph.{NodeKind, NodeImpl, Graph, register_node}
use reactive_graph_experimen.Builder.{make_ref, blank}
use reactive_graph_experimen.Builder.Compute.{extract_and_call}
use reactive_graph_experimen.Builder.Trait.{ComputeNode, peel, when_wired, graph_arity}

pub record TraitComputeBuilder (Key : Type 0) : Type 0 where
  pub compute : ComputeNode Key
  pub dep_ids : List NodeId
  pub remaining : List ℕ

module _ {Key : Type 0} where
  unfoldable pub new : ComputeNode Key → TraitComputeBuilder Key
  new c = record { compute = c; dep_ids = []; remaining = c.inputs }

  -- `make_node_impl`, with `TraitComputeNodeImpl` as `AnyNodeImpl`.
  unfoldable pub make_node_impl : ComputeNode Key → NodeImpl
  unfolding extract_and_call
  make_node_impl c = record (blank NodeKind.compute) {
    compute =
        λ calls deps store. extract_and_call c.inputs c.node.output (c.compute calls) deps store;
  }

  unfoldable pub dep : TraitComputeBuilder Key → NodeRef → Option (TraitComputeBuilder Key)
  unfolding peel
  dep b node = elim (peel graph_arity b.remaining node) [
    | none ↦ none
    | some remaining ↦
        some (record b { dep_ids = b.dep_ids ++ node.id ∷ []; remaining = remaining })
  ]

  unfoldable pub build : (Key → ℕ) → TraitComputeBuilder Key → Graph → Option (Graph × NodeRef)
  unfolding make_ref make_node_impl register_node when_wired
  build hash b g =
      let c = b.compute in
      let node_ref = make_ref hash c.node.scope c.node.key c.node.output in
      let g' = (register_node g node_ref.id NodeKind.compute b.dep_ids (make_node_impl c)).0 in
      when_wired c.inputs b.remaining (g', node_ref)
