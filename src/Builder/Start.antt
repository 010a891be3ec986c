-- ===== src/Builder/Start.antt =====
-- The functions of `Graph` in src/graph.rs with which a build begins. The trait-based builders hold
-- the graph until `build`, which gets it as an argument here.
use reactive_graph_experimen.Base.{ℕ}
use reactive_graph_experimen.NodeRef.{NodeRef}
use reactive_graph_experimen.Graph.{Graph}
use reactive_graph_experimen.Builder.Source
use reactive_graph_experimen.Builder.Compute
use reactive_graph_experimen.Builder.Sink
use reactive_graph_experimen.Builder.AsyncCompute
use reactive_graph_experimen.Builder.Trait.{SourceNode, ComputeNode, SinkNode}
use reactive_graph_experimen.Builder.Trait.Source.{register_source}
use reactive_graph_experimen.Builder.Trait.Compute as TraitCompute
use reactive_graph_experimen.Builder.Trait.Sink as TraitSink
use reactive_graph_experimen.Builder.Trait.AsyncCompute as TraitAsyncCompute

module _ {Key : Type 0} where
  -- `Graph::source::<T>(key)`
  unfoldable pub source : Key → ℕ → Source.SourceBuilder Key
  unfolding Source.new
  source key output = Source.new key output

  -- `Graph::compute::<T>(key)`
  unfoldable pub compute : Key → ℕ → Compute.ComputeBuilder Key
  unfolding Compute.new
  compute key out = Compute.new key out

  -- `Graph::sink(key)`
  unfoldable pub sink : Key → Sink.SinkBuilder Key
  unfolding Sink.new
  sink key = Sink.new key

  -- `Graph::async_compute::<T>(key)`
  unfoldable pub async_compute : Key → ℕ → AsyncCompute.AsyncComputeBuilder Key
  unfolding AsyncCompute.new
  async_compute key out = AsyncCompute.new key out

  -- `Graph::add_source`
  unfoldable pub add_source : (Key → ℕ) → Graph → SourceNode Key → Graph × NodeRef
  unfolding register_source
  add_source hash g node = register_source hash g node

  -- `Graph::add_compute`
  unfoldable pub add_compute : ComputeNode Key → TraitCompute.TraitComputeBuilder Key
  unfolding TraitCompute.new
  add_compute node = TraitCompute.new node

  -- `Graph::add_async_compute`
  unfoldable pub add_async_compute :
      ComputeNode Key → TraitAsyncCompute.TraitAsyncComputeBuilder Key
  unfolding TraitAsyncCompute.new
  add_async_compute node = TraitAsyncCompute.new node

  -- `Graph::add_sink`
  unfoldable pub add_sink : SinkNode Key → TraitSink.TraitSinkBuilder Key
  unfolding TraitSink.new
  add_sink node = TraitSink.new node
