-- ===== src/Builder/Trait/AsyncCompute.antt =====
-- The trait-based part of src/builder/async_compute.rs, as Compute is src/builder/trait_compute.rs.
use reactive_graph_experimen.Base.{ℕ, Option, none, some, List, [], ◌∷◌, ◌++◌}
use reactive_graph_experimen.NodeRef.{NodeId, NodeRef}
use reactive_graph_experimen.Graph.{
  NodeKind, NodeImpl, AsyncPolicy, default_policy, Graph, register_node,
}
use reactive_graph_experimen.AsyncCompute.{ConcurrencyGroupHandle}
use reactive_graph_experimen.Builder.{make_ref, blank}
use reactive_graph_experimen.Builder.AsyncCompute.{extract_and_start, group_number}
use reactive_graph_experimen.Builder.Trait.{ComputeNode, peel, when_wired, graph_arity}

pub record TraitAsyncComputeBuilder (Key : Type 0) : Type 0 where
  pub ac : ComputeNode Key
  pub dep_ids : List NodeId
  pub policy : AsyncPolicy
  pub group : Option ConcurrencyGroupHandle
  pub remaining : List ℕ

module _ {Key : Type 0} where
  unfoldable pub new : ComputeNode Key → TraitAsyncComputeBuilder Key
  new c = record {
    ac = c;
    dep_ids = [];
    policy = default_policy;
    group = none;
    remaining = c.inputs;
  }

  -- `make_node_impl`, with `TraitAsyncComputeNodeImpl` as `AnyNodeImpl`.
  unfoldable pub make_node_impl : ComputeNode Key → AsyncPolicy → Option ℕ → NodeImpl
  unfolding extract_and_start
  make_node_impl c policy group_id = record (blank NodeKind.async_compute) {
    compute_async =
        λ calls deps store. extract_and_start c.inputs c.node.output (c.compute calls) deps store;
    async_policy = policy;
    concurrency_group_id = group_id;
  }

  unfoldable pub dep :
      TraitAsyncComputeBuilder Key → NodeRef → Option (TraitAsyncComputeBuilder Key)
  unfolding peel
  dep b node = elim (peel graph_arity b.remaining node) [
    | none ↦ none
    | some remaining ↦
        some (record b { dep_ids = b.dep_ids ++ node.id ∷ []; remaining = remaining })
  ]

  -- `policy(self, policy)`
  unfoldable pub with_policy :
      TraitAsyncComputeBuilder Key → AsyncPolicy → Option (TraitAsyncComputeBuilder Key)
  unfolding when_wired
  with_policy b policy = when_wired b.ac.inputs b.remaining (record b { policy = policy })

  -- `group(self, group)`
  unfoldable pub with_group :
      TraitAsyncComputeBuilder Key → ConcurrencyGroupHandle → Option (TraitAsyncComputeBuilder Key)
  unfolding when_wired
  with_group b group = when_wired b.ac.inputs b.remaining (record b { group = some group })

  unfoldable pub build : (Key → ℕ) → TraitAsyncComputeBuilder Key → Graph → Option (Graph × NodeRef)
  unfolding make_ref make_node_impl register_node when_wired group_number
  build hash b g =
      let c = b.ac in
      let node_ref = make_ref hash c.node.scope c.node.key c.node.output in
      let node_impl = make_node_impl c b.policy (group_number b.group) in
      let g' = (register_node g node_ref.id NodeKind.async_compute b.dep_ids node_impl).0 in
      when_wired c.inputs b.remaining (g', node_ref)
