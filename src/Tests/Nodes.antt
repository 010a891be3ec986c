-- ===== src/Tests/Nodes.antt =====
-- The tests of src/lib.rs, phase 1, and those of src/value_store.rs: values, builders, and the registry.
use reactive_graph_experimen.Base.{
  ℕ, ◌+◌, ◌*◌, ◌≡◌, refl, Bool, true, false, not, Option, none, some, List, [], ◌∷◌, length, nat_eq,
  nat_beq,
}
use Prim.Native.String.{String}
use reactive_graph_experimen.NodeRef.{NodeId, NodeRef, from_key, id_beq, id_eq}
use reactive_graph_experimen.ValueStore.{set, get, remove as remove_value}
use reactive_graph_experimen.ValueStore
use reactive_graph_experimen.Graph.{Graph, NodeKind, get_entry, same_kind, new}
use reactive_graph_experimen.Builder.Start
use reactive_graph_experimen.Builder.Trait.{SourceNode, ComputeNode, SinkNode, peel, when_wired}
use reactive_graph_experimen.Builder.Trait.Source.{register_source, make_source_impl}
use reactive_graph_experimen.Builder.Trait.Compute as TraitCompute
use reactive_graph_experimen.Builder.Trait.Sink as TraitSink
use reactive_graph_experimen.Tests.{
  run, platform, f64, string, unit, digits, all_pass, holds, is_value, unary, binary, new_source,
  new_compute, new_sink,
}

-- `make_ref::<T>(name)`
unfoldable named_ref : ℕ → String → NodeRef
named_ref type name = record { id = from_key platform.hash unit name; output = type }

-- A text stands in a box as its digits.
abbrev text : String → ℕ
text = digits 1

unfoldable test_value_store_typed_access : Bool
test_value_store_typed_access =
    let float_ref = named_ref f64 "test.float" in
    let string_ref = named_ref string "test.string" in
    let store = set (set ValueStore.new float_ref 42) string_ref (text "hello") in
    all_pass
      (is_value (get store float_ref) 42 ∷ is_value (get store string_ref) (text "hello") ∷ [])

test_value_store_typed_access_passes : test_value_store_typed_access ≡ true
unfolding test_value_store_typed_access run named_ref from_key set
test_value_store_typed_access_passes = refl

-- The test of the same name in src/value_store.rs.
unfoldable test_value_store_update_remove : Bool
test_value_store_update_remove =
    let float_ref = named_ref f64 "test.float" in
    let string_ref = named_ref string "test.string" in
    let store = set (set ValueStore.new float_ref 42) string_ref (text "hello") in
    let updated = set store float_ref 99 in
    let removed = remove_value updated float_ref.id in
    all_pass (
      is_value (get store float_ref) 42
      ∷ is_value (get store string_ref) (text "hello")
      ∷ is_value (get updated float_ref) 99
      ∷ not (holds (get removed float_ref) (λ v. true))
      ∷ [])

test_value_store_update_remove_passes : test_value_store_update_remove ≡ true
unfolding test_value_store_update_remove run named_ref from_key set remove_value
test_value_store_update_remove_passes = refl

-- `graph.get_entry(&id).unwrap()`, its kind, and the number of its dependencies.
unfoldable is_entry : Graph → NodeRef → NodeKind → ℕ → Bool
is_entry g node_ref kind deps =
    holds (get_entry g node_ref.id)
      (λ entry. all_pass (same_kind entry.kind kind ∷ nat_beq (length entry.deps) deps ∷ []))

-- `graph.get_entry(&id).unwrap().ref_count`
unfoldable has_ref_count : Graph → NodeRef → ℕ → Bool
has_ref_count g node_ref n = holds (get_entry g node_ref.id) (λ entry. nat_beq entry.ref_count n)

unfoldable test_source_builder_produces_node_ref : Bool
test_source_builder_produces_node_ref =
    let (g, s1) = new_source "my.source" new in
    all_pass (
      holds (get_entry g s1.id) (λ entry. true)
      ∷ holds (get_entry g s1.id) (λ entry. same_kind entry.kind NodeKind.source)
      ∷ has_ref_count g s1 1
      ∷ [])

test_source_builder_produces_node_ref_passes : test_source_builder_produces_node_ref ≡ true
unfolding test_source_builder_produces_node_ref run has_ref_count get_entry same_kind
test_source_builder_produces_node_ref_passes = refl

unfoldable test_compute_builder_type_safety : Bool
test_compute_builder_type_safety =
    let (g, s1) = new_source "s1" new in
    let (g, s2) = new_source "s2" g in
    let (g, sum) = new_compute "sum" (s1 ∷ s2 ∷ []) (binary (λ a b. a + b)) g in
    is_entry g sum NodeKind.compute 2

test_compute_builder_type_safety_passes : test_compute_builder_type_safety ≡ true
unfolding test_compute_builder_type_safety run is_entry get_entry same_kind
test_compute_builder_type_safety_passes = refl

unfoldable test_sink_builder : Bool
test_sink_builder =
    let (g, s1) = new_source "s1" new in
    let (g, my_sink) = new_sink "my.sink" (s1 ∷ []) g in is_entry g my_sink NodeKind.sink 1

test_sink_builder_passes : test_sink_builder ≡ true
unfolding test_sink_builder run is_entry get_entry same_kind
test_sink_builder_passes = refl

-- `TestSource`, `TestCompute` and `TestSinkNode`, whose `TypeId`s differ.
unfoldable test_source : String → SourceNode String
test_source key = record {
  node = record { scope = 20; output = f64; key = key };
  guard = 0;
  values = [];
}

unfoldable test_compute : String → ComputeNode String
test_compute key = record {
  node = record { scope = 21; output = f64; key = key };
  inputs = f64 ∷ f64 ∷ [];
  compute = binary (λ a b. a + b);
}

unfoldable test_sink_node : String → SinkNode String
test_sink_node key = record {
  node = record { scope = 22; output = unit; key = key };
  inputs = f64 ∷ [];
}

-- `graph.add_source(..)`
abbrev add_source : SourceNode String → Graph → Graph × NodeRef
add_source node g = Start.add_source platform.hash g node

-- `?` on what does not type-check.
unfoldable and_then {ℓ} : {A B : Type ℓ} → Option A → (A → Option B) → Option B
and_then none f = none
and_then (some a) f = f a

-- `entry.deps[0] == id`
unfoldable is_first : List NodeId → NodeRef → Bool
is_first [] node_ref = false
is_first (id ∷ ids) node_ref = id_beq id node_ref.id

unfoldable traits : Unit {0}
unfolding is_entry has_ref_count is_first get_entry same_kind test_source and_then peel when_wired
    register_source make_source_impl Start.add_source Start.add_compute Start.add_sink
    TraitCompute.new TraitCompute.dep TraitCompute.build TraitCompute.make_node_impl TraitSink.new
    TraitSink.dep TraitSink.build TraitSink.make_node_impl
traits = tt

unfoldable test_trait_compute_builder : Bool
test_trait_compute_builder =
    let (g, s1) = add_source (test_source "ts1") new in
    let (g, s2) = add_source (test_source "ts2") g in
    let built =
      and_then (TraitCompute.dep (Start.add_compute (test_compute "tc")) s1)
        (λ b. and_then (TraitCompute.dep b s2) (λ b'. TraitCompute.build platform.hash b' g)) in
    holds built (λ r. is_entry r.0 r.1 NodeKind.compute 2)

test_trait_compute_builder_passes : test_trait_compute_builder ≡ true
unfolding test_trait_compute_builder run traits test_compute
test_trait_compute_builder_passes = refl

unfoldable test_trait_sink_builder : Bool
test_trait_sink_builder =
    let (g, s1) = add_source (test_source "ts_for_sink") new in
    let built =
      and_then (TraitSink.dep (Start.add_sink (test_sink_node "tsink")) s1)
        (λ b. TraitSink.build platform.hash b g) in
    holds built (λ r. holds (get_entry r.0 (r.1).id) (λ entry. same_kind entry.kind NodeKind.sink))

test_trait_sink_builder_passes : test_trait_sink_builder ≡ true
unfolding test_trait_sink_builder run traits test_sink_node
test_trait_sink_builder_passes = refl

unfoldable test_node_deduplication : Bool
test_node_deduplication =
    let (g, s1) = add_source (test_source "shared") new in
    let (g, s2) = add_source (test_source "shared") g in
    all_pass (id_beq s1.id s2.id ∷ has_ref_count g s1 2 ∷ [])

test_node_deduplication_passes : test_node_deduplication ≡ true
unfolding test_node_deduplication run traits
test_node_deduplication_passes = refl

unfoldable test_closure_and_trait_interop : Bool
test_closure_and_trait_interop =
    let (g, trait_source) = add_source (test_source "trait.source") new in
    let (g, doubled) = new_compute "doubled" (trait_source ∷ []) (unary (λ v. v * 2)) g in
    all_pass (
      is_entry g doubled NodeKind.compute 1
      ∷ holds (get_entry g doubled.id) (λ entry. is_first entry.deps trait_source)
      ∷ [])

test_closure_and_trait_interop_passes : test_closure_and_trait_interop ≡ true
unfolding test_closure_and_trait_interop run traits
test_closure_and_trait_interop_passes = refl
