-- ===== src/Examples/Builders.antt =====
-- Tests and instances for the builders. A key is a number, which is its own hash.
use reactive_graph_experimen.Base.{
  ℕ, ◌+◌, ◌≡◌, ◌≢◌, ◌↔◌, refl, none, some, List, [], ◌∷◌, lookup, arith,
}
use reactive_graph_experimen.NodeRef.{NodeRef, id_eq}
use reactive_graph_experimen.ValueStore.{ValueStore}
use reactive_graph_experimen.Graph.{Graph, NodeEntry, NodeKind, register_node}
use reactive_graph_experimen.Graph
use reactive_graph_experimen.Builder.{Platform}
use reactive_graph_experimen.Builder.Compute
use reactive_graph_experimen.Builder.Arguments.{typed_values, boxed_result, ids, outputs}
use reactive_graph_experimen.Builder.Wired.{wire, key_id, lookup-build}
use reactive_graph_experimen.Builder.Trait.{ComputeNode}
use reactive_graph_experimen.Builder.Trait.Wired.{
  IsArity, build_with, build_with-some_iff, lookup-build_with,
}
use reactive_graph_experimen.Examples.{a, b}

abbrev platform : Platform ℕ
platform = record {
  hash = λ k. k;
  closure_source = 1;
  closure_compute = 2;
  closure_sink = 3;
  closure_async_compute = 4;
}

abbrev bid : NodeRef
bid = record { id = a; output = 7 }

abbrev ask : NodeRef
ask = record { id = b; output = 7 }

abbrev total : List ℕ → ℕ
total [] = 0
total (v ∷ vs) = v + total vs

abbrev quotes : List NodeRef
quotes = bid ∷ ask ∷ []

lookup-build_example :
    (entry : NodeEntry) × (lookup
        (key_id platform 5 7)
        (Compute.build platform
          (Compute.compute (wire (Compute.new 5 7) quotes) (λ n. total))
          Graph.new).0.entries
      ≡ some entry)
    × (entry.kind ≡ NodeKind.compute)
    × (entry.deps ≡ ids quotes)
    × ((calls : ℕ) (store : ValueStore)
        → entry.node_impl.compute calls entry.deps store
          ≡ boxed_result 7 total (typed_values store quotes))
unfolding lookup
lookup-build_example = lookup-build platform 5 7 quotes (λ n. total) Graph.new refl

abbrev spread : ComputeNode ℕ
spread = record {
  node = record { scope = 9; output = 7; key = 5 };
  inputs = 7 ∷ 7 ∷ [];
  compute = λ calls. total;
}

lookup-build_with_example :
    (g' : Graph) × (r : NodeRef) × (entry : NodeEntry) × (build_with
        (λ k. k)
        Graph.new
        spread
        quotes
      ≡ some (g', r))
    × (lookup r.id g'.entries ≡ some entry)
    × (entry.kind ≡ NodeKind.compute)
    × (entry.deps ≡ ids quotes)
    × ((calls : ℕ) (store : ValueStore)
        → entry.node_impl.compute calls entry.deps store
          ≡ boxed_result 7 total (typed_values store quotes))
unfolding lookup
lookup-build_with_example =
    lookup-build_with (λ k. k) Graph.new spread quotes refl (omega arith, omega arith) refl

build_with-some_iff_example :
    (build_with (λ k. k) Graph.new spread (bid ∷ []) ≢ none)
    ↔ ((spread.inputs ≡ outputs (bid ∷ [])) × IsArity spread)
build_with-some_iff_example = build_with-some_iff (λ k. k) Graph.new spread (bid ∷ [])
