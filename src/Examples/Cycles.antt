-- ===== src/Examples/Cycles.antt =====
-- A sequential cycle over the diamond: the source `s` has the new value 5, the nodes `a` and `b` copy
-- it, and `c` adds them up.
use reactive_graph_experimen.Base.{
  ℕ, ◌+◌, ◌≡◌, ◌<◌, refl, arith, leb, if◌then◌else◌, false, some, none, List, [], ◌∷◌, Map, lookup,
  insert, remove, contains, count, keys, set_remove, set_insert,
}
use reactive_graph_experimen.NodeRef.{NodeId, id_eq, id_beq}
use reactive_graph_experimen.ValueStore.{AnyBox, set_by_id, get_by_id, downcast_ref}
use reactive_graph_experimen.Graph.{Graph, NodeKind, NodeEntry}
use reactive_graph_experimen.Graph
use reactive_graph_experimen.Topology.{add_node, list_at, dirty_set, topo_sort}
use reactive_graph_experimen.Topology.Dirty.{Downstream, direct, further, dirty_set_iff}
use reactive_graph_experimen.Builder.{extract, read_argument, cons_value}
use reactive_graph_experimen.Builder.Compute.{closure_compute_node, extract_and_call}
use reactive_graph_experimen.Builder.Pure.{closure_compute_node-IsPure}
use reactive_graph_experimen.Engine.{Engine, new, store_result}
use reactive_graph_experimen.Engine.Cycle.{
  propagate, execute_sequential_with_async, execute_node, execute_entry,
  execute_compute_with_error_handling, strategy_of, spawn_async_work, record_metrics,
}
use reactive_graph_experimen.Engine.Cycle.Touch.{value_in}
use reactive_graph_experimen.Metrics.{retry, propagate_error}
use reactive_graph_experimen.Engine.Cycle.Attempts.{
  attempt_after, execute_compute_succeeding, execute_compute_failing,
}
use reactive_graph_experimen.Engine.Cycle.Glitch.{propagate_consistent, propagate_others}
use reactive_graph_experimen.Examples.{s, a, b, c, in_order, diamond, rank, idle}
use reactive_graph_experimen.Examples.Graphs.{diamond-IsMirror, diamond-ranked}

unfoldable pub program : Unit {0}
unfolding add_node lookup insert remove contains count keys id_beq set_remove set_insert list_at
    dirty_set topo_sort propagate execute_sequential_with_async execute_node execute_entry
    execute_compute_with_error_handling strategy_of spawn_async_work record_metrics store_result
    closure_compute_node extract_and_call extract read_argument cons_value downcast_ref get_by_id
    set_by_id
program = tt

abbrev pub total : List ℕ → ℕ
total [] = 0
total (v ∷ vs) = v + total vs

abbrev pub number : ℕ → AnyBox
number n = record { type_id = 7; contents = n }

abbrev pub sum_of : NodeId → List ℕ → List NodeId → NodeEntry
sum_of id types deps = record {
  id = id;
  kind = NodeKind.compute;
  deps = deps;
  ref_count = 1;
  node_impl = closure_compute_node types 7 (λ calls. total);
}

abbrev pub entries : Map NodeId NodeEntry
entries =
    (
      s,
      record {
        id = s;
        kind = NodeKind.source;
        deps = [];
        ref_count = 1;
        node_impl = idle NodeKind.source;
      },
    )
    ∷ (a, sum_of a (7 ∷ []) (s ∷ []))
    ∷ (b, sum_of b (7 ∷ []) (s ∷ []))
    ∷ (c, sum_of c (7 ∷ 7 ∷ []) (a ∷ b ∷ []))
    ∷ []

abbrev pub engine : Engine
engine = record new {
  graph = record Graph.new {
    entries = entries;
    value_store = record { values = (s, number 5) ∷ [] };
  };
  topology = diamond;
}

downstream : Downstream diamond (s ∷ []) c
unfolding program
downstream = further a (direct s refl refl) refl

propagate_consistent_example :
    value_in (propagate in_order false engine (s ∷ [])) c ≡ some (number 10)
unfolding program
propagate_consistent_example =
    propagate_consistent in_order (λ xs x. refl) engine diamond-IsMirror (s ∷ []) rank
      diamond-ranked c (sum_of c (7 ∷ 7 ∷ []) (a ∷ b ∷ [])) (number 10) downstream refl refl refl
      (closure_compute_node-IsPure (sum_of c (7 ∷ 7 ∷ []) (a ∷ b ∷ [])) (7 ∷ 7 ∷ []) 7 total refl)
      refl

upstream : ¬ Downstream diamond (a ∷ []) b
unfolding program
upstream d =
    let m = (dirty_set_iff in_order (λ xs x. refl) diamond (a ∷ []) b).1 d in ground (arith, m)

propagate_others_example : value_in (propagate in_order false engine (a ∷ [])) b ≡ value_in engine b
propagate_others_example =
    propagate_others in_order (λ xs x. refl) engine diamond-IsMirror (a ∷ []) b upstream

-- A compute node that has a result from its third call on.
abbrev flaky : NodeEntry
flaky = record {
  id = s;
  kind = NodeKind.compute;
  deps = [];
  ref_count = 1;
  node_impl = record (idle NodeKind.compute) {
    compute = λ calls deps store. if leb 2 calls then some (number calls) else none;
  };
}

flaky-fails : (j : ℕ) → j < 2 → attempt_after j engine flaky ≡ none
flaky-fails j below = ground (arith, below)

execute_compute_succeeding_example :
    ((execute_compute_with_error_handling engine s flaky (retry 3 10)).calls ≡ 3)
    × (value_in (execute_compute_with_error_handling engine s flaky (retry 3 10)) s
        ≡ some (number 2))
execute_compute_succeeding_example =
    execute_compute_succeeding engine s flaky (retry 3 10) 2 (number 2) (omega arith) flaky-fails
      refl

-- The dependencies of the node have no values yet.
c-fails : (j : ℕ) → j < 1 → attempt_after j engine (sum_of c (7 ∷ 7 ∷ []) (a ∷ b ∷ [])) ≡ none
unfolding program
c-fails j below = refl

execute_compute_failing_example :
    ((execute_compute_with_error_handling engine c
        (sum_of c (7 ∷ 7 ∷ []) (a ∷ b ∷ []))
        propagate_error).calls
      ≡ 1)
    × (value_in
          (execute_compute_with_error_handling engine c
            (sum_of c (7 ∷ 7 ∷ []) (a ∷ b ∷ []))
            propagate_error)
          c
        ≡ none)
execute_compute_failing_example =
    execute_compute_failing engine c (sum_of c (7 ∷ 7 ∷ []) (a ∷ b ∷ [])) propagate_error c-fails
