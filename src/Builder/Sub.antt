-- ===== src/Builder/Sub.antt =====
-- The builders of src/subgraph.rs: the closure-based ones end in `build_sub`, the trait-based ones
-- are those of the graph with a `SubgraphBuilder` in its place.
use reactive_graph_experimen.Base.{ℕ, Option, none, some, List, [], ◌∷◌, ◌++◌}
use reactive_graph_experimen.NodeRef.{NodeId, NodeRef}
use reactive_graph_experimen.Graph.{NodeKind}
use reactive_graph_experimen.Subgraph.{NodeDescriptor, SubgraphBuilder, register_node}
use reactive_graph_experimen.Builder.{Platform, make_ref}
use reactive_graph_experimen.Builder.Source
use reactive_graph_experimen.Builder.Compute
use reactive_graph_experimen.Builder.Sink
use reactive_graph_experimen.Builder.Trait.{
  SourceNode, ComputeNode, SinkNode, peel, when_wired, subgraph_arity,
}
use reactive_graph_experimen.Builder.Trait.Source.{make_source_impl}
use reactive_graph_experimen.Builder.Trait.Compute.{make_node_impl}
use reactive_graph_experimen.Builder.Trait.Sink.{make_node_impl as make_sink_impl}

pub record SubgraphTraitComputeBuilder (Key : Type 0) : Type 0 where
  pub compute : ComputeNode Key
  pub dep_ids : List NodeId
  pub remaining : List ℕ

pub record SubgraphTraitSinkBuilder (Key : Type 0) : Type 0 where
  pub sink : SinkNode Key
  pub dep_ids : List NodeId
  pub remaining : List ℕ

module _ {Key : Type 0} where
  -- `SubgraphBuilder::source::<T>(key)`
  unfoldable pub source : Key → ℕ → Source.SourceBuilder Key
  unfolding Source.new
  source key output = Source.new key output

  -- `SubgraphBuilder::compute::<T>(key)`
  unfoldable pub compute : Key → ℕ → Compute.ComputeBuilder Key
  unfolding Compute.new
  compute key out = Compute.new key out

  -- `SubgraphBuilder::sink(key)`
  unfoldable pub sink : Key → Sink.SinkBuilder Key
  unfolding Sink.new
  sink key = Sink.new key

  -- `SourceBuilder::build_sub`
  unfoldable pub build_sub_source :
      Platform Key → Source.SourceBuilder Key → SubgraphBuilder → SubgraphBuilder × NodeRef
  unfolding Source.into_parts make_ref register_node
  build_sub_source p b builder =
      let (key, node_impl) = Source.into_parts b in
      let node_ref = make_ref p.hash p.closure_source key b.output in
      let d : NodeDescriptor = record {
        id = node_ref.id;
        kind = NodeKind.source;
        deps = [];
        node_impl = node_impl;
      } in
      ((register_node builder d).0, node_ref)

  -- `ComputeBuilderReady::build_sub`
  unfoldable pub build_sub_compute :
      Platform Key → Compute.ComputeBuilderReady Key → SubgraphBuilder → SubgraphBuilder × NodeRef
  unfolding Compute.into_parts make_ref register_node
  build_sub_compute p b builder =
      let (key, dep_ids, node_impl) = Compute.into_parts b in
      let node_ref = make_ref p.hash p.closure_compute key b.out in
      let d : NodeDescriptor = record {
        id = node_ref.id;
        kind = NodeKind.compute;
        deps = dep_ids;
        node_impl = node_impl;
      } in
      ((register_node builder d).0, node_ref)

  -- `SinkBuilderReady::build_sub`
  unfoldable pub build_sub_sink :
      Platform Key → ℕ → Sink.SinkBuilderReady Key → SubgraphBuilder → SubgraphBuilder × NodeRef
  unfolding Sink.into_parts make_ref register_node
  build_sub_sink p unit b builder =
      let (key, dep_ids, node_impl) = Sink.into_parts b in
      let node_ref = make_ref p.hash p.closure_sink key unit in
      let d : NodeDescriptor = record {
        id = node_ref.id;
        kind = NodeKind.sink;
        deps = dep_ids;
        node_impl = node_impl;
      } in
      ((register_node builder d).0, node_ref)

  unfoldable pub add_source :
      (Key → ℕ) → SubgraphBuilder → SourceNode Key → SubgraphBuilder × NodeRef
  unfolding make_source_impl make_ref register_node
  add_source hash builder s =
      let node_ref = make_ref hash s.node.scope s.node.key s.node.output in
      let d : NodeDescriptor = record {
        id = node_ref.id;
        kind = NodeKind.source;
        deps = [];
        node_impl = make_source_impl s;
      } in
      ((register_node builder d).0, node_ref)

  unfoldable pub add_compute : ComputeNode Key → SubgraphTraitComputeBuilder Key
  add_compute c = record { compute = c; dep_ids = []; remaining = c.inputs }

  unfoldable pub add_sink : SinkNode Key → SubgraphTraitSinkBuilder Key
  add_sink s = record { sink = s; dep_ids = []; remaining = s.inputs }

  -- `SubgraphTraitComputeBuilder::dep`
  unfoldable pub compute_dep :
      SubgraphTraitComputeBuilder Key → NodeRef → Option (SubgraphTraitComputeBuilder Key)
  unfolding peel
  compute_dep b node = elim (peel subgraph_arity b.remaining node) [
    | none ↦ none
    | some remaining ↦
        some (record b { dep_ids = b.dep_ids ++ node.id ∷ []; remaining = remaining })
  ]

  -- `SubgraphTraitSinkBuilder::dep`
  unfoldable pub sink_dep :
      SubgraphTraitSinkBuilder Key → NodeRef → Option (SubgraphTraitSinkBuilder Key)
  unfolding peel
  sink_dep b node = elim (peel subgraph_arity b.remaining node) [
    | none ↦ none
    | some remaining ↦
        some (record b { dep_ids = b.dep_ids ++ node.id ∷ []; remaining = remaining })
  ]

  -- `SubgraphTraitComputeBuilder::build`
  unfoldable pub build_compute :
      (Key → ℕ)
      → SubgraphTraitComputeBuilder Key
      → SubgraphBuilder
      → Option (SubgraphBuilder × NodeRef)
  unfolding make_ref make_node_impl register_node when_wired
  build_compute hash b builder =
      let c = b.compute in
      let node_ref = make_ref hash c.node.scope c.node.key c.node.output in
      let d : NodeDescriptor = record {
        id = node_ref.id;
        kind = NodeKind.compute;
        deps = b.dep_ids;
        node_impl = make_node_impl c;
      } in
      when_wired c.inputs b.remaining ((register_node builder d).0, node_ref)

  -- `SubgraphTraitSinkBuilder::build`
  unfoldable pub build_sink :
      (Key → ℕ)
      → SubgraphTraitSinkBuilder Key
      → SubgraphBuilder
      → Option (SubgraphBuilder × NodeRef)
  unfolding make_ref make_sink_impl register_node when_wired
  build_sink hash b builder =
      let s = b.sink in
      let node_ref = make_ref hash s.node.scope s.node.key s.node.output in
      let d : NodeDescriptor = record {
        id = node_ref.id;
        kind = NodeKind.sink;
        deps = b.dep_ids;
        node_impl = make_sink_impl s;
      } in
      when_wired s.inputs b.remaining ((register_node builder d).0, node_ref)
