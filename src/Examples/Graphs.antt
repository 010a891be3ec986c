-- ===== src/Examples/Graphs.antt =====
-- Tests and instances for the topology and the value store.
use reactive_graph_experimen.Base.{
  ◌≡◌, ◌↔◌, ◌<◌, refl, true, false, [], ◌∷◌, arith, count, contains, if◌then◌else◌, lookup, insert,
  keys, remove, set_remove,
}
use reactive_graph_experimen.NodeRef.{NodeId, id_eq, id_beq}
use reactive_graph_experimen.Topology.{
  Topology, add_node, remove_node, list_at, dirty_search, dirty_set, sort_loop, sort_start,
  topo_search, topo_sort,
}
use reactive_graph_experimen.Topology
use reactive_graph_experimen.Topology.Mirror.{IsMirror, add_node-IsMirror, remove_node-IsMirror}
use reactive_graph_experimen.Topology.Dirty.{Downstream, dirty_set_iff, queue-dirty_search}
use reactive_graph_experimen.Topology.Sorted.{
  Follows, topo_sort-Follows, count-topo_sort, topo_sort_left_out, queue-topo_search,
}
use reactive_graph_experimen.Examples.{s, a, b, c, in_order, chain, fork, diamond, rank}

program : Unit {0}
unfolding add_node remove_node list_at dirty_set topo_sort lookup insert remove contains count keys
    id_beq set_remove
program = tt

dirty-diamond : dirty_set in_order diamond (s ∷ []) ≡ a ∷ b ∷ c ∷ []
unfolding program
dirty-diamond = refl

sorted-diamond : topo_sort in_order diamond (c ∷ b ∷ a ∷ []) ≡ b ∷ a ∷ c ∷ []
unfolding program
sorted-diamond = refl

new-IsMirror : IsMirror Topology.new
unfolding list_at lookup count
new-IsMirror x y = refl

chain-IsMirror : IsMirror chain
unfolding program
chain-IsMirror =
    add_node-IsMirror (add_node Topology.new s []) a (s ∷ []) refl
      (add_node-IsMirror Topology.new s [] refl new-IsMirror)

pub diamond-IsMirror : IsMirror diamond
unfolding program
diamond-IsMirror =
    add_node-IsMirror fork c (a ∷ b ∷ []) refl
      (add_node-IsMirror chain b (s ∷ []) refl chain-IsMirror)

add_node-IsMirror_example : IsMirror (add_node fork c (a ∷ b ∷ []))
unfolding program
add_node-IsMirror_example =
    add_node-IsMirror fork c (a ∷ b ∷ []) refl
      (add_node-IsMirror chain b (s ∷ []) refl chain-IsMirror)

remove_node-IsMirror_example : IsMirror (remove_node diamond c)
unfolding program
remove_node-IsMirror_example = remove_node-IsMirror diamond c refl diamond-IsMirror

dirty_set_iff_example :
    (contains (dirty_set in_order diamond (s ∷ [])) c ≡ true) ↔ Downstream diamond (s ∷ []) c
dirty_set_iff_example = dirty_set_iff in_order (λ xs x. refl) diamond (s ∷ []) c

queue-dirty_search_example : (dirty_search in_order diamond (s ∷ [])).queue ≡ []
queue-dirty_search_example = queue-dirty_search in_order (λ xs x. refl) diamond (s ∷ [])

pub diamond-ranked : (x y : NodeId) → contains (list_at y diamond.deps) x ≡ true → rank x < rank y
unfolding program
diamond-ranked x y m = ground arith

count-topo_sort_example :
    count c (topo_sort in_order diamond (c ∷ b ∷ a ∷ []))
    ≡ (if contains (c ∷ b ∷ a ∷ []) c then 1 else 0)
count-topo_sort_example =
    count-topo_sort in_order (λ xs x. refl) diamond diamond-IsMirror (c ∷ b ∷ a ∷ []) rank
      diamond-ranked c

topo_sort-Follows_example : Follows diamond (c ∷ b ∷ a ∷ []) (b ∷ a ∷ []) c
unfolding program
topo_sort-Follows_example =
    topo_sort-Follows in_order (λ xs x. refl) diamond diamond-IsMirror (c ∷ b ∷ a ∷ []) (b ∷ a ∷ [])
      [] c refl

queue-topo_search_example :
    ((topo_search in_order diamond (c ∷ b ∷ a ∷ [])).queue ≡ [])
    × (sort_loop diamond 5 (sort_start in_order diamond (c ∷ b ∷ a ∷ []))
        ≡ topo_search in_order diamond (c ∷ b ∷ a ∷ []))
queue-topo_search_example =
    queue-topo_search in_order (λ xs x. refl) diamond diamond-IsMirror (c ∷ b ∷ a ∷ []) 5
      (omega arith)

-- Two nodes that read one another are both left out.
abbrev cycle : Topology
cycle = add_node (add_node Topology.new a (b ∷ [])) b (a ∷ [])

cycle-IsMirror : IsMirror cycle
unfolding program
cycle-IsMirror =
    add_node-IsMirror (add_node Topology.new a (b ∷ [])) b (a ∷ []) refl
      (add_node-IsMirror Topology.new a (b ∷ []) refl new-IsMirror)

topo_sort_left_out_example :
    (d : NodeId) × (contains (list_at a cycle.deps) d ≡ true)
    × (contains (a ∷ b ∷ []) d ≡ true)
    × (contains (topo_sort in_order cycle (a ∷ b ∷ [])) d ≡ false)
unfolding program
topo_sort_left_out_example =
    topo_sort_left_out in_order (λ xs x. refl) cycle cycle-IsMirror (a ∷ b ∷ []) a refl refl
