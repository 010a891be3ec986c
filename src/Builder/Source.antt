-- ===== src/Builder/Source.antt =====
-- src/builder/source.rs. A callback sends values of the type of the source.
use reactive_graph_experimen.Base.{ℕ, Option, none, some, List, [], map}
use reactive_graph_experimen.NodeRef.{NodeRef}
use reactive_graph_experimen.Graph.{NodeKind, NodeImpl, Callback, Activation, Graph, register_node}
use reactive_graph_experimen.Builder.{Platform, make_ref, blank}

pub record SourceBuilder (Key : Type 0) : Type 0 where
  pub key : Key
  pub output : ℕ
  pub activate_fn : Option Callback

-- `ClosureSourceActivatable` as `AnyNodeImpl`
unfoldable pub closure_source_activatable : Option Callback → NodeImpl
closure_source_activatable activate_fn = record (blank NodeKind.source) {
  activation = Activation.once activate_fn;
}

module _ {Key : Type 0} where
  -- `SourceBuilder::<T>::new(key)`, for the `TypeId` of `T`.
  unfoldable pub new : Key → ℕ → SourceBuilder Key
  new key output = record { key = key; output = output; activate_fn = none }

  -- The closure returns a guard and sends some values before it returns.
  unfoldable pub on_activate : SourceBuilder Key → ℕ → List ℕ → SourceBuilder Key
  on_activate b guard values = record b {
    activate_fn = some (record {
      guard = guard;
      sent = map (λ v. record { type_id = b.output; contents = v }) values;
    });
  }

  unfoldable pub into_parts : SourceBuilder Key → Key × NodeImpl
  unfolding closure_source_activatable
  into_parts b = (b.key, closure_source_activatable b.activate_fn)

  unfoldable pub build : Platform Key → SourceBuilder Key → Graph → Graph × NodeRef
  unfolding into_parts make_ref register_node
  build p b g =
      let (key, node_impl) = into_parts b in
      let node_ref = make_ref p.hash p.closure_source key b.output in
      ((register_node g node_ref.id NodeKind.source [] node_impl).0, node_ref)
