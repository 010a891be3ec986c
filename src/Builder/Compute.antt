-- ===== src/Builder/Compute.antt =====
-- src/builder/compute.rs. The macros define `dep` and `compute` for each number of dependencies up to
-- eight; here it is one definition for every number. The types that the type parameters `Out` and
-- `Deps` carry are fields. A closure gets the number of the calls made before, then its arguments.
use reactive_graph_experimen.Base.{ℕ, Option, none, some, List, [], ◌∷◌, ◌++◌}
use reactive_graph_experimen.NodeRef.{NodeId, NodeRef}
use reactive_graph_experimen.ValueStore.{AnyBox, ValueStore}
use reactive_graph_experimen.Graph.{NodeKind, NodeImpl, Graph, register_node}
use reactive_graph_experimen.Builder.{Platform, make_ref, extract, blank}

pub record ComputeBuilder (Key : Type 0) : Type 0 where
  pub key : Key
  pub dep_ids : List NodeId
  pub out : ℕ
  pub deps : List ℕ

pub record ComputeBuilderReady (Key : Type 0) : Type 0 where
  pub key : Key
  pub dep_ids : List NodeId
  pub node_impl : NodeImpl
  pub out : ℕ

-- `extract_and_call`, for the types of the arguments and of the result.
unfoldable pub extract_and_call :
    List ℕ → ℕ → (List ℕ → ℕ) → List NodeId → ValueStore → Option AnyBox
unfolding extract
extract_and_call types out f deps store = elim (extract types deps store) [
  | none ↦ none
  | some args ↦ some (record { type_id = out; contents = f args })
]

-- `ClosureComputeNode` as `AnyNodeImpl`
unfoldable pub closure_compute_node : List ℕ → ℕ → (ℕ → List ℕ → ℕ) → NodeImpl
unfolding extract_and_call
closure_compute_node types out f = record (blank NodeKind.compute) {
  compute = λ calls deps store. extract_and_call types out (f calls) deps store;
}

module _ {Key : Type 0} where
  -- `ComputeBuilder::<Out, ()>::new(key)`
  unfoldable pub new : Key → ℕ → ComputeBuilder Key
  new key out = record { key = key; dep_ids = []; out = out; deps = [] }

  unfoldable pub dep : ComputeBuilder Key → NodeRef → ComputeBuilder Key
  dep b node = record b { dep_ids = b.dep_ids ++ node.id ∷ []; deps = b.deps ++ node.output ∷ [] }

  unfoldable pub compute : ComputeBuilder Key → (ℕ → List ℕ → ℕ) → ComputeBuilderReady Key
  unfolding closure_compute_node
  compute b f = record {
    key = b.key;
    dep_ids = b.dep_ids;
    node_impl = closure_compute_node b.deps b.out f;
    out = b.out;
  }

  unfoldable pub into_parts : ComputeBuilderReady Key → Key × List NodeId × NodeImpl
  into_parts b = (b.key, b.dep_ids, b.node_impl)

  unfoldable pub build : Platform Key → ComputeBuilderReady Key → Graph → Graph × NodeRef
  unfolding into_parts make_ref register_node
  build p b g =
      let (key, dep_ids, node_impl) = into_parts b in
      let node_ref = make_ref p.hash p.closure_compute key b.out in
      ((register_node g node_ref.id NodeKind.compute dep_ids node_impl).0, node_ref)
