-- ===== src/Builder/Sink.antt =====
-- src/builder/sink.rs, as Compute is src/builder/compute.rs. The output type `()` of a sink is a
-- `TypeId` too, which is an argument of `build`. What a sink's closure does is not modelled; that it
-- is called, and with which arguments, is the result of `emit`.
use reactive_graph_experimen.Base.{ℕ, List, [], ◌∷◌, ◌++◌}
use reactive_graph_experimen.NodeRef.{NodeId, NodeRef}
use reactive_graph_experimen.Graph.{NodeKind, NodeImpl, Graph, register_node}
use reactive_graph_experimen.Builder.{Platform, make_ref, extract, blank}

pub record SinkBuilder (Key : Type 0) : Type 0 where
  pub key : Key
  pub dep_ids : List NodeId
  pub deps : List ℕ

pub record SinkBuilderReady (Key : Type 0) : Type 0 where
  pub key : Key
  pub dep_ids : List NodeId
  pub node_impl : NodeImpl

-- `ClosureSinkNode` as `AnyNodeImpl`, with `extract_and_emit`.
unfoldable pub closure_sink_node : List ℕ → NodeImpl
unfolding extract
closure_sink_node types = record (blank NodeKind.sink) {
  emit = λ deps store. extract types deps store;
}

module _ {Key : Type 0} where
  -- `SinkBuilder::<()>::new(key)`
  unfoldable pub new : Key → SinkBuilder Key
  new key = record { key = key; dep_ids = []; deps = [] }

  unfoldable pub dep : SinkBuilder Key → NodeRef → SinkBuilder Key
  dep b node = record b { dep_ids = b.dep_ids ++ node.id ∷ []; deps = b.deps ++ node.output ∷ [] }

  unfoldable pub on_emit : SinkBuilder Key → SinkBuilderReady Key
  unfolding closure_sink_node
  on_emit b = record { key = b.key; dep_ids = b.dep_ids; node_impl = closure_sink_node b.deps }

  unfoldable pub into_parts : SinkBuilderReady Key → Key × List NodeId × NodeImpl
  into_parts b = (b.key, b.dep_ids, b.node_impl)

  unfoldable pub build : Platform Key → ℕ → SinkBuilderReady Key → Graph → Graph × NodeRef
  unfolding into_parts make_ref register_node
  build p unit b g =
      let (key, dep_ids, node_impl) = into_parts b in
      let node_ref = make_ref p.hash p.closure_sink key unit in
      ((register_node g node_ref.id NodeKind.sink dep_ids node_impl).0, node_ref)
