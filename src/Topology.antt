-- ===== src/Topology.antt =====
-- src/topology.rs. `order` stands for the order in which the standard library iterates over a
-- hashed set or map, which is not specified: the theorems hold for every order.
pub mod Mirror
pub mod Dirty
pub mod Kahn
mod Start
pub mod Sorted
pub mod Rounds
use reactive_graph_experimen.Base.{
  ℕ, zero, suc, ◌+◌, ◌-◌, Bool, true, false, if◌then◌else◌, Option, none, some, List, [], ◌∷◌, ◌++◌,
  foldl, map, length, retain, contains, set_remove, nat_beq, Map, lookup, insert, remove, keys,
}
use reactive_graph_experimen.NodeRef.{NodeId, id_eq}

pub record Topology : Type 0 where
  pub deps : Map NodeId (List NodeId)
  pub dependents : Map NodeId (List NodeId)

-- `Topology::new`
abbrev pub new : Topology
new = record { deps = []; dependents = [] }

-- What `if let Some(list) = map.get(id) { for x in list { .. } }` iterates over.
unfoldable pub list_at : NodeId → Map NodeId (List NodeId) → List NodeId
list_at id m = elim (lookup id m) [ none ↦ [] | some ids ↦ ids ]

-- `dependents.entry(dep).or_default().push(id)`
unfoldable pub push_dependent :
    NodeId → Map NodeId (List NodeId) → NodeId → Map NodeId (List NodeId)
push_dependent id m dep = insert dep (list_at dep m ++ id ∷ []) m

-- `map.entry(id).or_default()`, the result unused.
unfoldable pub or_default : NodeId → Map NodeId (List NodeId) → Map NodeId (List NodeId)
or_default id m = elim (lookup id m) [ none ↦ insert id [] m | some _ ↦ m ]

unfoldable pub add_node : Topology → NodeId → List NodeId → Topology
unfolding push_dependent or_default
add_node t id deps = record {
  deps = insert id deps t.deps;
  dependents = or_default id (foldl (push_dependent id) t.dependents deps);
}

-- `if let Some(list) = dependents.get_mut(dep) { list.retain(|d| d != id) }`
unfoldable pub forget : NodeId → Map NodeId (List NodeId) → NodeId → Map NodeId (List NodeId)
forget id m dep = elim (lookup dep m) [ none ↦ m | some ids ↦ insert dep (set_remove ids id) m ]

unfoldable pub remove_node : Topology → NodeId → Topology
unfolding forget
remove_node t id = record {
  deps = remove id t.deps;
  dependents = remove id (foldl (forget id) t.dependents (list_at id t.deps));
}

-- The variables of the loop of `dirty_set`.
pub record Search : Type 0 where
  pub dirty : List NodeId
  pub queue : List NodeId

-- `if dirty.insert(dep) { queue.push_back(dep) }`
unfoldable pub offer : Search → NodeId → Search
offer s dep =
    if contains s.dirty dep
    then s
    else record { dirty = s.dirty ++ dep ∷ []; queue = s.queue ++ dep ∷ [] }

unfoldable pub dirty_round : Topology → Search → NodeId → List NodeId → Search
unfolding offer
dirty_round t s node rest = foldl offer (record s { queue = rest }) (list_at node t.dependents)

-- The `while` loop of `dirty_set`.
unfoldable pub dirty_loop : Topology → ℕ → Search → Search
unfolding dirty_round
dirty_loop t zero s = s
dirty_loop t (suc fuel) s = elim s.queue [
  | [] ↦ s
  | node ∷ rest ↦ dirty_loop t fuel (dirty_round t s node rest)
]

-- Every entry of every list of a map.
unfoldable pub all_listed : Map NodeId (List NodeId) → List NodeId
all_listed [] = []
all_listed ((k, ids) ∷ m) = ids ++ all_listed m

-- A round takes one node off the queue, and a node is queued once, so this many rounds are enough.
abbrev pub dirty_fuel : Topology → List NodeId → ℕ
dirty_fuel t sources = length sources + length (all_listed t.dependents)

unfoldable pub dirty_search : (List NodeId → List NodeId) → Topology → List NodeId → Search
unfolding dirty_loop all_listed
dirty_search order t sources =
    let queue = order sources in
    dirty_loop t (dirty_fuel t queue) (record { dirty = []; queue = queue })

unfoldable pub dirty_set : (List NodeId → List NodeId) → Topology → List NodeId → List NodeId
unfolding dirty_search
dirty_set order t sources = (dirty_search order t sources).dirty

-- `deps.iter().filter(|d| dirty.contains(d)).count()`
unfoldable pub dirty_dep_count : List NodeId → List NodeId → ℕ
dirty_dep_count dirty deps = length (retain (contains dirty) deps)

-- `in_degree.entry(node).or_insert(0)`
unfoldable pub or_zero : NodeId → Map NodeId ℕ → Map NodeId ℕ
or_zero node m = elim (lookup node m) [ none ↦ insert node 0 m | some _ ↦ m ]

-- One round of the loop that fills `in_degree`.
unfoldable pub init_degree : Topology → List NodeId → Map NodeId ℕ → NodeId → Map NodeId ℕ
unfolding dirty_dep_count or_zero
init_degree t dirty m node = elim (lookup node t.deps) [
  | none ↦ or_zero node m
  | some deps ↦ insert node (dirty_dep_count dirty deps) (or_zero node m)
]

-- `in_degree.iter().filter(|(_, deg)| **deg == 0)`
unfoldable pub has_degree_zero : Map NodeId ℕ → NodeId → Bool
has_degree_zero m id = elim (lookup id m) [ none ↦ false | some deg ↦ nat_beq deg 0 ]

-- The variables of the loop of `topo_sort`.
pub record Sort : Type 0 where
  pub in_degree : Map NodeId ℕ
  pub queue : List NodeId
  pub sorted : List NodeId

-- The body of the loop over the dependents. `-` stops at 0, as `saturating_sub` does.
unfoldable pub relax : Sort → NodeId → Sort
relax s dep = elim (lookup dep s.in_degree) [
  | none ↦ s
  | some deg ↦ record {
    in_degree = insert dep (deg - 1) s.in_degree;
    queue = if nat_beq (deg - 1) 0 then s.queue ++ dep ∷ [] else s.queue;
    sorted = s.sorted;
  }
]

unfoldable pub sort_round : Topology → Sort → NodeId → List NodeId → Sort
unfolding relax
sort_round t s node rest =
    foldl relax (record s { queue = rest; sorted = s.sorted ++ node ∷ [] })
      (list_at node t.dependents)

-- The `while` loop of `topo_sort`.
unfoldable pub sort_loop : Topology → ℕ → Sort → Sort
unfolding sort_round
sort_loop t zero s = s
sort_loop t (suc fuel) s = elim s.queue [
  | [] ↦ s
  | node ∷ rest ↦ sort_loop t fuel (sort_round t s node rest)
]

unfoldable pub sort_start : (List NodeId → List NodeId) → Topology → List NodeId → Sort
unfolding init_degree has_degree_zero
sort_start order t dirty =
    let in_degree = foldl (init_degree t dirty) [] (order dirty) in
    record {
      in_degree = in_degree;
      queue = retain (has_degree_zero in_degree) (order (keys in_degree));
      sorted = [];
    }

abbrev pub total_rounds : List ℕ → ℕ
total_rounds [] = 0
total_rounds (n ∷ ns) = n + total_rounds ns

-- A node that is taken from the queue, and those that can be queued after it along chains of the given
-- length, each as often as there are such chains.
unfoldable pub rounds_from : Topology → ℕ → NodeId → ℕ
rounds_from t zero x = 1
rounds_from t (suc depth) x = 1 + total_rounds (map (rounds_from t depth) (list_at x t.dependents))

-- The rounds that the loop of `topo_sort` is given. They are enough on every mirrored topology, and on any
-- other where no chain of dependents is longer than the number of dirty nodes. On a cycle whose maps
-- are not mirrored, `saturating_sub` lets a node be queued again and again, and the loop of the code
-- need not end.
unfoldable pub sort_rounds : Topology → List NodeId → Sort → ℕ
unfolding rounds_from
sort_rounds t dirty s = length dirty + total_rounds (map (rounds_from t (length dirty)) s.queue)

-- The variables of `topo_sort` after its loop.
unfoldable pub topo_search : (List NodeId → List NodeId) → Topology → List NodeId → Sort
unfolding sort_loop sort_start sort_rounds
topo_search order t dirty =
    let start = sort_start order t dirty in sort_loop t (sort_rounds t dirty start) start

unfoldable pub topo_sort : (List NodeId → List NodeId) → Topology → List NodeId → List NodeId
unfolding topo_search
topo_sort order t [] = []
topo_sort order t (node ∷ nodes) = (topo_search order t (node ∷ nodes)).sorted
