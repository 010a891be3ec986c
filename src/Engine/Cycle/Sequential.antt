-- ===== src/Engine/Cycle/Sequential.antt =====
-- The sequential cycle achieves what a cycle is to achieve.
use reactive_graph_experimen.Base.{
  ℕ, ◌<◌, ◌≡◌, refl, sym, subst, ap, ◌∙◌, true, false, List, [], ◌∷◌, ◌++◌, foldl, arith, contains,
  contains_iff, IsOrder, split-of_contains, Map, Bool-cases, inl, inr,
}
use reactive_graph_experimen.NodeRef.{NodeId, id_eq}
use reactive_graph_experimen.Graph.{NodeEntry}
use reactive_graph_experimen.Metrics.{propagate_stale}
use reactive_graph_experimen.Topology.{Topology, list_at, dirty_set}
use reactive_graph_experimen.Topology.Mirror.{IsMirror}
use reactive_graph_experimen.Topology.Sorted.{count-topo_sort}
use reactive_graph_experimen.Engine.{Engine}
use reactive_graph_experimen.Engine.Cycle.{
  Execution, execute_node, execute_sequential_with_async, strategy_of, propagate,
}
use reactive_graph_experimen.Engine.Cycle.Outcome.{result_of, or_old}
use reactive_graph_experimen.Engine.Cycle.Touch.{
  value_in, execute_node-IsTouch, value_in-execute_node_stale,
}
use reactive_graph_experimen.Engine.Cycle.Consistent.{value_in-execute_others}
use reactive_graph_experimen.Engine.Cycle.Solution.{IsWired, IsSolution, result_of_cong}
use reactive_graph_experimen.Engine.Cycle.Glitch.{sorted, executed, graph-propagate, sorted_placed}

module _ (entries : Map NodeId NodeEntry) (t : Topology) (dirty : List NodeId)
    (wired : IsWired entries t dirty) where
  abbrev Solves : Execution → Execution → NodeId → Type 0
  Solves x last id =
      value_in last.engine id
      ≡ or_old (result_of entries 0 last.engine.graph.value_store id) (value_in x.engine id)

  Solves-head :
      (x : Execution) (id : NodeId) (later : List NodeId)
      → x.engine.graph.entries ≡ entries
      → strategy_of x.engine id ≡ propagate_stale
      → contains dirty id ≡ true
      → contains later id ≡ false
      → ((d : NodeId) → contains (list_at id t.deps) d ≡ true → contains (id ∷ later) d ≡ false)
      → Solves x (foldl execute_node x (id ∷ later)) id
  Solves-head x id later same stale m new placed =
      value_in-execute_others later (execute_node x id) id new
      ∙ value_in-execute_node_stale x id stale
      ∙ ap
          (λ es.
            or_old (result_of es x.engine.calls x.engine.graph.value_store id)
              (value_in x.engine id))
          same
      ∙ ap (λ o. or_old o (value_in x.engine id))
          (result_of_cong entries t dirty wired x.engine.calls 0 x.engine.graph.value_store
            (foldl execute_node x (id ∷ later)).engine.graph.value_store id m
            (λ d m. sym (value_in-execute_others (id ∷ later) x d (placed d m))))

  strategy_of-execute_node :
      (x : Execution) (i id : NodeId)
      → strategy_of (execute_node x i).engine id ≡ strategy_of x.engine id
  unfolding strategy_of
  strategy_of-execute_node x i id = rw ((execute_node-IsTouch x i).strategies, strategy_of) refl

  Solves-at :
      (before : List NodeId) (x : Execution) (id : NodeId) (later : List NodeId)
      → x.engine.graph.entries ≡ entries
      → strategy_of x.engine id ≡ propagate_stale
      → contains before id ≡ false
      → contains dirty id ≡ true
      → contains later id ≡ false
      → ((d : NodeId) → contains (list_at id t.deps) d ≡ true → contains (id ∷ later) d ≡ false)
      → Solves x (foldl execute_node x (before ++ id ∷ later)) id
  unfolding contains
  Solves-at [] x id later same stale fresh m new placed =
      Solves-head x id later same stale m new placed
  Solves-at (b ∷ before) x id later same stale fresh m new placed =
      Solves-at before (execute_node x b) id later ((execute_node-IsTouch x b).entries ∙ same)
        (strategy_of-execute_node x b id ∙ stale) (ground (arith, fresh)) m new placed
      ∙ ap
          (or_old (
            result_of entries 0
              (foldl execute_node x ((b ∷ before) ++ id ∷ later)).engine.graph.value_store id))
          ((execute_node-IsTouch x b).others id (ground (arith, fresh)))

module _ (order : List NodeId → List NodeId) (ordered : IsOrder order) (e : Engine)
    (mirror : IsMirror e.topology) (sources : List NodeId)
    (wired : IsWired e.graph.entries e.topology (dirty_set order e.topology sources))
    (rank : NodeId → ℕ)
    (ranked : (a b : NodeId)
      → contains (list_at b e.topology.deps) a ≡ true
      → rank a < rank b) where
  abbrev changed : List NodeId
  changed = dirty_set order e.topology sources

  begin : Execution
  begin = record { engine = e; async_spawns = []; timed = [] }

  pub contains-sorted :
      (x : NodeId) → contains (sorted order ordered e mirror sources) x ≡ contains changed x
  contains-sorted x =
      let c = contains_iff (sorted order ordered e mirror sources) x in
      let n = count-topo_sort order ordered e.topology mirror changed rank ranked x in
      ground (arith, c, n)

  executed-IsSolution :
      ((x : NodeId) → contains changed x ≡ true → strategy_of e x ≡ propagate_stale)
      → IsSolution e.graph.entries changed e.graph.value_store
          (executed order ordered e mirror sources).graph.value_store
  unfolding execute_sequential_with_async begin
  executed-IsSolution stale x = elim (Bool-cases (contains changed x)) [
    | inr out ↦ rw out (
        let k = contains-sorted x in
        value_in-execute_others (sorted order ordered e mirror sources) begin x
          (ground (arith, k, out)))
    | inl m ↦ rw m (
        let k = contains-sorted x in
        let (before, after, split) =
          split-of_contains (sorted order ordered e mirror sources) x (ground (arith, k, m)) in
        let (fresh, new, placed) =
          sorted_placed order ordered e mirror sources rank ranked x before after m split in
        subst
          (λ ids.
            Solves e.graph.entries e.topology changed wired begin (foldl execute_node begin ids) x)
          (sym split)
          (Solves-at e.graph.entries e.topology changed wired before begin x after refl (stale x m)
            fresh m new placed))
  ]

  -- After a sequential cycle in which all dirty nodes have the strategy `PropagateStale`, every dirty
  -- node has the result on the values after the cycle, or its old value where there is no result, and
  -- every other node has its old value. The topology is mirrored and acyclic, and the compute nodes are pure.
  pub propagate-IsSolution :
      ((x : NodeId) → contains changed x ≡ true → strategy_of e x ≡ propagate_stale)
      → IsSolution e.graph.entries changed e.graph.value_store
          (propagate order false e sources).graph.value_store
  propagate-IsSolution stale =
      subst (λ g. IsSolution e.graph.entries changed e.graph.value_store g.value_store)
        (sym (graph-propagate order ordered e mirror sources)) (executed-IsSolution stale)
