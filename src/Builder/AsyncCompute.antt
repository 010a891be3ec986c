-- ===== src/Builder/AsyncCompute.antt =====
-- The closure-based part of src/builder/async_compute.rs, as Compute is src/builder/compute.rs.
use reactive_graph_experimen.Base.{ℕ, Option, none, some, List, [], ◌∷◌, ◌++◌}
use reactive_graph_experimen.NodeRef.{NodeId, NodeRef}
use reactive_graph_experimen.ValueStore.{ValueStore}
use reactive_graph_experimen.Graph.{
  NodeKind, NodeImpl, Future, AsyncPolicy, default_policy, Graph, register_node,
}
use reactive_graph_experimen.AsyncCompute.{ConcurrencyGroupHandle}
use reactive_graph_experimen.Builder.{Platform, make_ref, extract, blank}

pub record AsyncComputeBuilder (Key : Type 0) : Type 0 where
  pub key : Key
  pub dep_ids : List NodeId
  pub out : ℕ
  pub deps : List ℕ

pub record AsyncComputeBuilderReady (Key : Type 0) : Type 0 where
  pub key : Key
  pub dep_ids : List NodeId
  pub node_impl : NodeImpl
  pub policy : AsyncPolicy
  pub group : Option ConcurrencyGroupHandle
  pub out : ℕ

-- `extract_and_call`: the future resolves to the boxed result of the closure's future.
unfoldable pub extract_and_start :
    List ℕ → ℕ → (List ℕ → ℕ) → List NodeId → ValueStore → Option Future
unfolding extract
extract_and_start types out f deps store = elim (extract types deps store) [
  | none ↦ none
  | some args ↦ some (record { output = record { type_id = out; contents = f args } })
]

-- `ClosureAsyncComputeNode` as `AnyNodeImpl`
unfoldable pub closure_async_node :
    List ℕ → ℕ → (ℕ → List ℕ → ℕ) → AsyncPolicy → Option ℕ → NodeImpl
unfolding extract_and_start
closure_async_node types out f policy group_id = record (blank NodeKind.async_compute) {
  compute_async = λ calls deps store. extract_and_start types out (f calls) deps store;
  async_policy = policy;
  concurrency_group_id = group_id;
}

-- `AsyncPolicyWrapper` as `AnyNodeImpl`: all but two methods are those of `inner`.
unfoldable pub async_policy_wrapper : NodeImpl → AsyncPolicy → Option ℕ → NodeImpl
async_policy_wrapper inner policy group_id = record inner {
  async_policy = policy;
  concurrency_group_id = group_id;
}

-- `group.map(|g| g.0)`
unfoldable pub group_number : Option ConcurrencyGroupHandle → Option ℕ
group_number none = none
group_number (some handle) = some handle.id

module _ {Key : Type 0} where
  -- `AsyncComputeBuilder::<Out, ()>::new(key)`
  unfoldable pub new : Key → ℕ → AsyncComputeBuilder Key
  new key out = record { key = key; dep_ids = []; out = out; deps = [] }

  unfoldable pub dep : AsyncComputeBuilder Key → NodeRef → AsyncComputeBuilder Key
  dep b node = record b { dep_ids = b.dep_ids ++ node.id ∷ []; deps = b.deps ++ node.output ∷ [] }

  unfoldable pub compute_async :
      AsyncComputeBuilder Key → (ℕ → List ℕ → ℕ) → AsyncComputeBuilderReady Key
  unfolding closure_async_node
  compute_async b f = record {
    key = b.key;
    dep_ids = b.dep_ids;
    node_impl = closure_async_node b.deps b.out f default_policy none;
    policy = default_policy;
    group = none;
    out = b.out;
  }

  -- `policy(self, policy)`
  unfoldable pub with_policy :
      AsyncComputeBuilderReady Key → AsyncPolicy → AsyncComputeBuilderReady Key
  with_policy b policy = record b { policy = policy }

  -- `group(self, group)`
  unfoldable pub with_group :
      AsyncComputeBuilderReady Key → ConcurrencyGroupHandle → AsyncComputeBuilderReady Key
  with_group b group = record b { group = some group }

  unfoldable pub build : Platform Key → AsyncComputeBuilderReady Key → Graph → Graph × NodeRef
  unfolding make_ref register_node async_policy_wrapper group_number
  build p b g =
      let node_ref = make_ref p.hash p.closure_async_compute b.key b.out in
      let node_impl = async_policy_wrapper b.node_impl b.policy (group_number b.group) in
      ((register_node g node_ref.id NodeKind.async_compute b.dep_ids node_impl).0, node_ref)

  unfoldable pub into_parts :
      AsyncComputeBuilderReady Key
      → Key × List NodeId × NodeImpl × AsyncPolicy × Option ConcurrencyGroupHandle
  into_parts b = (b.key, b.dep_ids, b.node_impl, b.policy, b.group)
