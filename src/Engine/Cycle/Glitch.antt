-- ===== src/Engine/Cycle/Glitch.antt =====
-- The values after a whole sequential cycle.
use reactive_graph_experimen.Base.{
  ℕ, ◌+◌, ◌<◌, ◌≡◌, refl, sym, subst, ap, ◌∙◌, true, false, some, List, [], ◌∷◌, ◌++◌, lookup,
  arith, if◌then◌else◌, ◌==◌, eq_refl, eq_cases, Bool-cases, contains, count, contains_iff,
  count-append, IsOrder, split-of_contains, inl, inr,
}
use reactive_graph_experimen.NodeRef.{NodeId, id_eq}
use reactive_graph_experimen.ValueStore.{AnyBox, get_by_id}
use reactive_graph_experimen.Graph.{NodeKind, NodeEntry}
use reactive_graph_experimen.Topology.{list_at, dirty_set, topo_sort}
use reactive_graph_experimen.Topology.Mirror.{IsMirror}
use reactive_graph_experimen.Topology.Dirty.{Downstream, dirty_set_iff}
use reactive_graph_experimen.Topology.Sorted.{
  count-topo_sort, count-topo_sort-le, topo_sort-Follows,
}
use reactive_graph_experimen.Engine.{Engine}
use reactive_graph_experimen.Engine.Cycle.{
  AsyncSpawn, attempt, execute_sequential_with_async, spawn_one, spawn_async_work, record_metrics,
  propagate,
}
use reactive_graph_experimen.Engine.Cycle.Touch.{value_in}
use reactive_graph_experimen.Engine.Cycle.Consistent.{
  IsPure, IsPlaced, execute_sequential_consistent, value_in-execute_others,
}

pub graph-spawn_async_work :
    (spawns : List AsyncSpawn) (e : Engine) → (spawn_async_work e spawns).graph ≡ e.graph
unfolding spawn_async_work spawn_one
graph-spawn_async_work [] e = refl
graph-spawn_async_work (s ∷ spawns) e = graph-spawn_async_work spawns (spawn_one e s)

module _ (order : List NodeId → List NodeId) (ordered : IsOrder order) (e : Engine)
    (mirror : IsMirror e.topology) (sources : List NodeId) where
  abbrev pub dirty : List NodeId
  dirty = dirty_set order e.topology sources

  abbrev pub sorted : List NodeId
  sorted = topo_sort order e.topology dirty

  -- The engine after the nodes were executed.
  abbrev pub executed : Engine
  executed = (execute_sequential_with_async e sorted).engine

  pub graph-propagate : (propagate order false e sources).graph ≡ executed.graph
  unfolding propagate record_metrics
  graph-propagate =
      graph-spawn_async_work (execute_sequential_with_async e sorted).async_spawns executed

  -- A sequential cycle changes no value of a node that is not downstream of a source whose value was
  -- written. The topology is mirrored; it may have cycles.
  pub propagate_others :
      (y : NodeId)
      → ¬ Downstream e.topology sources y
      → value_in (propagate order false e sources) y ≡ value_in e y
  unfolding execute_sequential_with_async
  propagate_others y outside =
      ap (λ g. get_by_id g.value_store y) graph-propagate
      ∙ value_in-execute_others sorted (record { engine = e; async_spawns = []; timed = [] }) y
          absent
    where
      absent : contains sorted y ≡ false
      absent =
          let once = count-topo_sort-le order ordered e.topology mirror dirty y in
          let c = contains_iff sorted y in
          elim (Bool-cases (contains sorted y)) [
            | inl m ↦ absurd (
                outside (
                  (dirty_set_iff order ordered e.topology sources y).0
                    (ground (arith, once, c, m))))
            | inr n ↦ n
          ]

  module _ (rank : NodeId → ℕ)
      (ranked : (a b : NodeId)
        → contains (list_at b e.topology.deps) a ≡ true
        → rank a < rank b) where
    -- The nodes sorted behind a node are others, and none of its dependencies.
    pub sorted_placed :
        (x : NodeId) (before after : List NodeId)
        → contains dirty x ≡ true
        → sorted ≡ before ++ x ∷ after
        → (contains before x ≡ false)
          × (contains after x ≡ false)
          × ((d : NodeId)
              → contains (list_at x e.topology.deps) d ≡ true
              → contains (x ∷ after) d ≡ false)
    unfolding count contains
    sorted_placed x before after m split = (
      let once = counted x in
          let out = contains_iff before x in ground (arith, once, m, out, eq_refl x),
      let once = counted x in
          let out = contains_iff after x in ground (arith, once, m, out, eq_refl x),
      λ d dep.
          let less = ranked d x dep in
          let first =
            topo_sort-Follows order ordered e.topology mirror dirty before after x split d dep in
          let once = counted d in
          let fore = contains_iff before d in
          let back = contains_iff after d in
          elim (eq_cases x d) [
            | inl (t, q) ↦ let level = ap rank q in absurd (omega (arith, level, less))
            | inr (t, q) ↦ ground (arith, once, first, fore, back, t)
          ],
    )
      where
        counted :
            (y : NodeId)
            → count y before + ((if x == y then 1 else 0) + count y after)
              ≡ (if contains dirty y then 1 else 0)
        counted y =
            sym (count-append y before (x ∷ after))
            ∙ ap (count y) (sym split)
            ∙ count-topo_sort order ordered e.topology mirror dirty rank ranked y

    sorted-IsPlaced :
        (x : NodeId) (entry : NodeEntry) (before after : List NodeId)
        → contains dirty x ≡ true
        → list_at x e.topology.deps ≡ entry.deps
        → sorted ≡ before ++ x ∷ after
        → IsPlaced entry x after
    sorted-IsPlaced x entry before after m known split =
        let (_, after_out, deps_out) = sorted_placed x before after m split in
        (after_out, λ d in_deps. deps_out d (rw known in_deps))

    -- A cycle leaves no stale value: a compute node downstream of a source whose value was written, that
    -- is registered with the dependencies that the topology has, and whose result depends on nothing but
    -- their values, has at the end of the sequential cycle the result on the values that they have at
    -- the end, if there is a result. The topology is mirrored and without a cycle.
    pub propagate_consistent :
        (x : NodeId) (entry : NodeEntry) (v : AnyBox)
        → Downstream e.topology sources x
        → lookup x e.graph.entries ≡ some entry
        → entry.kind ≡ NodeKind.compute
        → list_at x e.topology.deps ≡ entry.deps
        → IsPure entry
        → attempt (propagate order false e sources) entry ≡ some v
        → value_in (propagate order false e sources) x ≡ some v
    propagate_consistent x entry v downstream found kind known pure h =
        let m = (dirty_set_iff order ordered e.topology sources x).1 downstream in
        let once = count-topo_sort order ordered e.topology mirror dirty rank ranked x in
        let in_sorted : contains sorted x ≡ true =
          let c = contains_iff sorted x in ground (arith, c, once, m) in
        let (before, after, split) = split-of_contains sorted x in_sorted in
        let placed = sorted-IsPlaced x entry before after m known split in
        let at_split =
          execute_sequential_consistent e before x after entry v found kind pure placed in
        ap (λ g. get_by_id g.value_store x) graph-propagate
        ∙ subst
            (λ ids.
              attempt (execute_sequential_with_async e ids).engine entry ≡ some v
              → value_in (execute_sequential_with_async e ids).engine x ≡ some v)
            (sym split) at_split
            (pure executed.calls (propagate order false e sources).calls executed.graph.value_store
                (propagate order false e sources).graph.value_store
                (λ d dep. ap (λ g. get_by_id g.value_store d) (sym graph-propagate))
              ∙ h)
