-- ===== src/Builder/Trait/Source.antt =====
-- src/builder/trait_source.rs.
use reactive_graph_experimen.Base.{ℕ, [], map}
use reactive_graph_experimen.NodeRef.{NodeRef}
use reactive_graph_experimen.Graph.{NodeKind, NodeImpl, Activation, Graph, register_node}
use reactive_graph_experimen.Builder.{make_ref, blank}
use reactive_graph_experimen.Builder.Trait.{SourceNode}

module _ {Key : Type 0} where
  -- `make_source_impl`, with `TraitSourceImpl` as `AnyNodeImpl`: the source is not taken out.
  unfoldable pub make_source_impl : SourceNode Key → NodeImpl
  make_source_impl s = record (blank NodeKind.source) {
    activation = Activation.reusable (record {
      guard = s.guard;
      sent = map (λ v. record { type_id = s.node.output; contents = v }) s.values;
    });
  }

  unfoldable pub register_source : (Key → ℕ) → Graph → SourceNode Key → Graph × NodeRef
  unfolding make_source_impl make_ref register_node
  register_source hash g s =
      let node_ref = make_ref hash s.node.scope s.node.key s.node.output in
      ((register_node g node_ref.id NodeKind.source [] (make_source_impl s)).0, node_ref)
