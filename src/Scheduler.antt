-- ===== src/Scheduler.antt =====
-- src/scheduler.rs: execution in waves. The threads of a wave all read the value store as it was
-- when the wave began, and their results are written after the last has ended; the model runs them
-- in the order of the list, which fixes an order of the sinks' calls within a wave.
use reactive_graph_experimen.Base.{
  ℕ, zero, suc, ◌+◌, ◌-◌, Bool, true, Option, none, some, List, [], ◌∷◌, ◌++◌, foldl, length,
  retain, set_insert, set_remove, Map, lookup, insert, nat_beq,
}
use reactive_graph_experimen.NodeRef.{NodeId, id_eq}
use reactive_graph_experimen.ValueStore.{AnyBox, ValueStore, set_by_id}
use reactive_graph_experimen.Topology.{Topology, list_at, dirty_dep_count}
use reactive_graph_experimen.Graph.{compute, sink, NodeEntry}

-- The variables of `execute_parallel`, the counter of calls and the calls of sink closures.
pub record Run : Type 0 where
  pub value_store : ValueStore
  pub ready_count : Map NodeId ℕ
  pub remaining : List NodeId
  pub calls : ℕ
  pub emitted : List (NodeId × List ℕ)

-- What the threads of a wave have done so far.
pub record Wave : Type 0 where
  pub results : List (NodeId × Option AnyBox)
  pub calls : ℕ
  pub emitted : List (NodeId × List ℕ)

-- The call of `emit`, as it is entered in the list of calls.
unfoldable pub emission : NodeEntry → NodeId → ValueStore → List (NodeId × List ℕ)
emission entry id store = elim (entry.node_impl.emit entry.deps store) [
  | none ↦ []
  | some arguments ↦ (id, arguments) ∷ []
]

-- `execute_single`, in a wave.
unfoldable pub execute_single : Map NodeId NodeEntry → ValueStore → Wave → NodeId → Wave
unfolding emission
execute_single entries store w id = elim (lookup id entries) [
  | none ↦ record w { results = w.results ++ (id, none) ∷ [] }
  | some entry ↦ elim entry.kind [
    | compute ↦ record w {
      results = w.results ++ (id, entry.node_impl.compute w.calls entry.deps store) ∷ [];
      calls = w.calls + 1;
    }
    | sink ↦ record w {
      results = w.results ++ (id, none) ∷ [];
      emitted = w.emitted ++ emission entry id store;
    }
    | _ ↦ record w { results = w.results ++ (id, none) ∷ [] }
  ]
]

-- One round of the loop that fills `ready_count`.
unfoldable pub count_ready : Topology → List NodeId → Map NodeId ℕ → NodeId → Map NodeId ℕ
unfolding dirty_dep_count
count_ready t dirty m id = elim (lookup id t.deps) [
  | none ↦ insert id 0 m
  | some deps ↦ insert id (dirty_dep_count dirty deps) m
]

-- `ready_count.get(id).copied().unwrap_or(0) == 0`
unfoldable pub is_ready : Map NodeId ℕ → NodeId → Bool
is_ready m id = elim (lookup id m) [ none ↦ true | some count ↦ nat_beq count 0 ]

-- `if let Some(count) = ready_count.get_mut(dep) { *count = count.saturating_sub(1) }`
unfoldable pub count_down : Map NodeId ℕ → NodeId → Map NodeId ℕ
count_down m dep = elim (lookup dep m) [ none ↦ m | some count ↦ insert dep (count - 1) m ]

-- The body of the loop that writes the results of a wave.
unfoldable pub write_result : Topology → Run → NodeId × Option AnyBox → Run
unfolding count_down set_by_id
write_result t r (id, result) = record r {
  value_store = elim result [
    | none ↦ r.value_store
    | some value ↦ set_by_id r.value_store id value
  ];
  ready_count = foldl count_down r.ready_count (list_at id t.dependents);
  remaining = set_remove r.remaining id;
}

unfoldable pub run_wave : Map NodeId NodeEntry → Topology → Run → List NodeId → Run
unfolding execute_single write_result
run_wave entries t r ready =
    let w =
      foldl (execute_single entries r.value_store)
        (record { results = []; calls = r.calls; emitted = r.emitted }) ready in
    foldl (write_result t) (record r { calls = w.calls; emitted = w.emitted }) w.results

-- The `while` loop. A wave that is not empty takes a node out of `remaining`.
unfoldable pub waves : (List NodeId → List NodeId) → Map NodeId NodeEntry → Topology → ℕ → Run → Run
unfolding is_ready run_wave
waves order entries t zero r = r
waves order entries t (suc fuel) r = elim (retain (is_ready r.ready_count) (order r.remaining)) [
  | [] ↦ r
  | id ∷ ids ↦ waves order entries t fuel (run_wave entries t r (id ∷ ids))
]

-- The variables before the loop.
unfoldable pub begin_run :
    Topology → ValueStore → ℕ → List (NodeId × List ℕ) → (sorted dirty : List NodeId) → Run
unfolding count_ready
begin_run t value_store calls emitted sorted dirty = record {
  value_store = value_store;
  ready_count = foldl (count_ready t dirty) [] sorted;
  remaining = foldl set_insert [] sorted;
  calls = calls;
  emitted = emitted;
}

unfoldable pub execute_parallel :
    (List NodeId → List NodeId)
    → Map NodeId NodeEntry
    → ValueStore
    → Topology
    → ℕ
    → List (NodeId × List ℕ)
    → (sorted dirty : List NodeId) → Run
unfolding waves begin_run
execute_parallel order entries value_store t calls emitted sorted dirty =
    waves order entries t (length sorted) (begin_run t value_store calls emitted sorted dirty)
