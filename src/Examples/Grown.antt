-- ===== src/Examples/Grown.antt =====
-- An engine that is made by a merge: a source `s`, a compute node `a` that copies it, and a sink `b`.
use reactive_graph_experimen.Base.{
  ◌≤◌, ◌≡◌, ◌≢◌, refl, sym, ap, ◌∙◌, inl, inr, ◌⊎◌, true, Option, none, some, List, [], ◌∷◌,
  contains, count, keys, contains_key, lookup, insert, remove, set_insert, set_remove, arith,
  eq_cases,
}
use reactive_graph_experimen.NodeRef.{NodeId, id_eq, id_beq}
use reactive_graph_experimen.ValueStore
use reactive_graph_experimen.Sender.{send}
use reactive_graph_experimen.Graph.{
  NodeKind, source, compute, sink, NodeEntry, NodeImpl, register_node, activate,
}
use reactive_graph_experimen.Topology.{add_node, list_at, dirty_set}
use reactive_graph_experimen.Topology.Dirty.{direct}
use reactive_graph_experimen.AsyncCompute.{drain_results}
use reactive_graph_experimen.Subgraph.{
  NodeDescriptor, Subgraph, register, activate_if_sink, merge_nodes, merge, drop_handle,
}
use reactive_graph_experimen.Subgraph.Registry.{descriptors_of}
use reactive_graph_experimen.Subgraph.Private.Removed.{IsBack, drop_handle-merge}
use reactive_graph_experimen.Engine.Sound.Registering.{is_contained, all_in}
use reactive_graph_experimen.Builder.{extract}
use reactive_graph_experimen.Builder.Compute.{closure_compute_node}
use reactive_graph_experimen.Builder.Pure.{closure_compute_node-IsPure}
use reactive_graph_experimen.Engine.{
  Engine, new, declared, declared_in, activate_sink, activate_node, mark_active, start_node,
  start_source, start_compute, enough, drain_pending_removals, deactivate_node, deactivate,
}
use reactive_graph_experimen.Engine.Cycle.{
  accept, drain_updates, is_sync, strategy_of, run_cycle_impl, run_cycle, run_cycle_parallel,
}
use reactive_graph_experimen.Engine.Ending.{deactivate-ends}
use reactive_graph_experimen.Engine.Cycle.Touch.{value_in}
use reactive_graph_experimen.Engine.Cycle.Consistent.{IsPure}
use reactive_graph_experimen.Engine.Sound.{IsSound}
use reactive_graph_experimen.Engine.Sound.Registering.{IsComplete}
use reactive_graph_experimen.Engine.Sound.Histories.{Grown, starts, merges, sends, Grown-IsSound}
use reactive_graph_experimen.Engine.Sound.Cycles.{
  run_cycle_consistent, value_in-run_cycle_parallel, dirty_in,
}
use reactive_graph_experimen.Examples.{s, a, b, in_order, describe, idle}
use reactive_graph_experimen.Examples.Cycles.{total, number}
use reactive_graph_experimen.Examples.Cycles

unfoldable pub program : Unit {0}
unfolding merge_nodes register register_node activate_if_sink activate_sink activate_node
    drain_pending_removals enough mark_active start_node start_source start_compute activate
    add_node lookup contains contains_key insert remove keys count set_insert set_remove id_beq
    ValueStore.contains declared_in merge send drain_updates accept drain_results
    ValueStore.set_by_id dirty_set list_at
program = tt

abbrev pub copy : NodeDescriptor
copy = record (describe a compute (s ∷ [])) {
  node_impl = closure_compute_node (7 ∷ []) 7 (λ calls. total);
}

abbrev pub chain_graph : Subgraph
chain_graph = record {
  descriptors = describe s source [] ∷ copy ∷ describe b sink (a ∷ []) ∷ [];
  node_ids = s ∷ a ∷ b ∷ [];
}

-- A registered node may be the dependency of a node.
one_known :
    (e : Engine) (x : NodeId) (deps : List NodeId)
    → declared e x ≡ some deps
    → (dep : NodeId) → contains (x ∷ []) dep ≡ true
    → declared e dep ≢ none
unfolding contains
one_known e x deps known dep m gone = elim (eq_cases x dep) [
  | inl same ↦ cc (known, gone, same.1)
  | inr other ↦ let k = other.0 in absurd (ground (arith, k, m))
]

abbrev with_source : Engine
unfolding drain_pending_removals register
with_source = register (drain_pending_removals new) (describe s source [])

complete : IsComplete (drain_pending_removals new) chain_graph.descriptors
unfolding program with_source
complete = (
  λ dep m. ground (arith, m),
  (one_known with_source s [] refl, (one_known (register with_source copy) a (s ∷ []) refl, tt)),
)

abbrev sent : Engine
unfolding program
sent =
    let e = (merge new chain_graph).0 in
    record e { graph = send (record { id = s; value_type = 7 }) e.graph 5 }

sent-Grown : Grown in_order sent
unfolding sent
sent-Grown = sends (merges starts chain_graph complete) (record { id = s; value_type = 7 }) 5

Grown-IsSound_example : IsSound sent
Grown-IsSound_example = Grown-IsSound sent-Grown

abbrev pub copied : NodeEntry
copied = record {
  id = a;
  kind = compute;
  deps = s ∷ [];
  ref_count = 1;
  node_impl = closure_compute_node (7 ∷ []) 7 (λ calls. total);
}

run_cycle_consistent_example : value_in (run_cycle in_order sent) a ≡ some (number 5)
unfolding program sent Cycles.program run_cycle run_cycle_impl extract
run_cycle_consistent_example =
    run_cycle_consistent in_order (λ xs x. refl) sent sent-Grown a copied (number 5)
      (direct s refl refl) refl refl (closure_compute_node-IsPure copied (7 ∷ []) 7 total refl) refl

changed : (x : NodeId) → contains (dirty_in in_order sent) x ≡ true → (x ≡ a) ⊎ (x ≡ b)
unfolding program sent
changed x m = elim (eq_cases x a) [
  | inl p ↦ inl p.1
  | inr p ↦ elim (eq_cases x b) [
    | inl q ↦ inr q.1
    | inr q ↦ absurd (let k = p.0 in let l = q.0 in ground (arith, k, l, m))
  ]
]

kind_of : Option NodeEntry → NodeKind
kind_of none = sink
kind_of (some entry) = entry.kind

impl_of : Option NodeEntry → NodeImpl
impl_of none = idle source
impl_of (some entry) = entry.node_impl

pure :
    (x : NodeId) (entry : NodeEntry)
    → lookup x sent.graph.entries ≡ some entry
    → entry.kind ≡ compute
    → IsPure entry
unfolding program sent kind_of impl_of
pure x entry found kind = elim (eq_cases x s) [
  | inl p ↦
      let k = ap kind_of (ap (λ y. lookup y sent.graph.entries) (sym p.1) ∙ found) ∙ kind in
      absurd (ground (arith, k))
  | inr p ↦ elim (eq_cases x a) [
    | inl q ↦
        closure_compute_node-IsPure entry (7 ∷ []) 7 total
          (sym (ap impl_of (ap (λ y. lookup y sent.graph.entries) (sym q.1) ∙ found)))
    | inr q ↦ elim (eq_cases x b) [
      | inl r ↦
          let k = ap kind_of (ap (λ y. lookup y sent.graph.entries) (sym r.1) ∙ found) ∙ kind in
          absurd (ground (arith, k))
      | inr r ↦ absurd (let k = p.0 in let l = q.0 in let n = r.0 in ground (arith, k, l, n, found))
    ]
  ]
]

value_in-run_cycle_parallel_example :
    value_in (run_cycle_parallel in_order sent) a ≡ value_in (run_cycle in_order sent) a
unfolding program sent is_sync strategy_of
value_in-run_cycle_parallel_example =
    value_in-run_cycle_parallel in_order (λ xs x. refl) sent sent-Grown pure
      (λ x m. elim (changed x m) [ inl p ↦ ap (is_sync sent) p | inr p ↦ ap (is_sync sent) p ])
      (λ x m. refl) a

deactivate-ends_example : deactivate_node 40 sent b ≡ deactivate sent b
unfolding program sent
deactivate-ends_example = deactivate-ends sent b 40 (omega arith)

one_each : (x : NodeId) → descriptors_of x chain_graph.descriptors ≤ 1
unfolding id_beq
one_each x = ground arith

drop_handle-merge_example :
    IsBack new
      (drain_pending_removals (drop_handle (merge new chain_graph).0 (merge new chain_graph).1))
      a
unfolding lookup is_contained all_in contains id_beq
drop_handle-merge_example =
    drop_handle-merge new chain_graph refl refl one_each (λ x m. (refl, refl, refl)) refl a
