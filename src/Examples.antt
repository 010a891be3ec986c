-- ===== src/Examples.antt =====
-- Sample inputs, tests that run the definitions on them, and theorems at concrete inputs.
mod Graphs
mod Engines
mod Builders
mod Async
mod Cycles
mod Versions
mod Loops
mod Trades
mod Shared
mod Grown
mod Fed
use reactive_graph_experimen.Base.{ℕ, Bool, Option, none, some, List, [], ◌∷◌, map}
use reactive_graph_experimen.NodeRef.{NodeId}
use reactive_graph_experimen.ValueStore.{AnyBox, ValueStore, get_by_id}
use reactive_graph_experimen.Topology.{Topology, add_node}
use reactive_graph_experimen.Topology
use reactive_graph_experimen.Graph.{
  NodeKind, source, compute, sink, async_compute, NodeImpl, Activation, AsyncPolicy, Callback,
}
use reactive_graph_experimen.Subgraph.{NodeDescriptor, Subgraph}

abbrev pub nid : ℕ → NodeId
nid n = record { type_id = 0; key_hash = n }

abbrev pub s : NodeId
s = nid 0

abbrev pub a : NodeId
a = nid 1

abbrev pub b : NodeId
b = nid 2

abbrev pub c : NodeId
c = nid 3

-- The order of the list: one order that the standard library may choose.
abbrev pub in_order : List NodeId → List NodeId
in_order xs = xs

abbrev pub chain : Topology
chain = add_node (add_node Topology.new s []) a (s ∷ [])

abbrev pub fork : Topology
fork = add_node chain b (s ∷ [])

-- `S -> A -> C` and `S -> B -> C`, as in `test_topo_sort_correctness`.
abbrev pub diamond : Topology
diamond = add_node fork c (a ∷ b ∷ [])

abbrev pub rank : NodeId → ℕ
rank id = id.key_hash

-- A node that does nothing.
abbrev pub idle : NodeKind → NodeImpl
idle kind = record {
  activation = Activation.inert;
  compute = λ _ _ _. none;
  emit = λ _ _. none;
  kind = kind;
  compute_async = λ _ _ _. none;
  async_policy = AsyncPolicy.latest_wins;
  concurrency_group_id = none;
}

abbrev pub describe : NodeId → NodeKind → List NodeId → NodeDescriptor
describe id kind deps = record { id = id; kind = kind; deps = deps; node_impl = idle kind }

-- A source `s`, read by the sink `a`.
abbrev pub first_graph : List NodeDescriptor
first_graph = describe s source [] ∷ describe a sink (s ∷ []) ∷ []

-- The same source, read by the sink `b`.
abbrev pub second_graph : List NodeDescriptor
second_graph = describe s source [] ∷ describe b sink (s ∷ []) ∷ []
