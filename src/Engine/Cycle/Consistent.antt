-- ===== src/Engine/Cycle/Consistent.antt =====
-- The values after the sequential execution of a cycle.
use reactive_graph_experimen.Base.{
  ℕ, ◌≡◌, refl, sym, ap, ◌∙◌, true, false, some, List, [], ◌∷◌, ◌++◌, foldl, lookup, arith,
  contains,
}
use reactive_graph_experimen.NodeRef.{NodeId, id_eq}
use reactive_graph_experimen.ValueStore.{AnyBox, ValueStore, get_by_id}
use reactive_graph_experimen.Graph.{NodeKind, NodeEntry}
use reactive_graph_experimen.Engine.{Engine}
use reactive_graph_experimen.Engine.Cycle.{
  Execution, execute_node, execute_sequential_with_async, attempt,
}
use reactive_graph_experimen.Engine.Cycle.Touch.{
  value_in, execute_node-IsTouch, value_in-execute_node,
}

-- The result of the node depends on nothing but the values of its dependencies.
abbrev pub IsPure : NodeEntry → Type 0
IsPure entry =
    (calls calls' : ℕ) (store store' : ValueStore)
    → ((d : NodeId) → contains entry.deps d ≡ true → get_by_id store d ≡ get_by_id store' d)
    → entry.node_impl.compute calls entry.deps store
      ≡ entry.node_impl.compute calls' entry.deps store'

-- After the node, the list has neither the node again nor one of its dependencies; and the node does
-- not depend on itself.
abbrev pub IsPlaced : NodeEntry → NodeId → List NodeId → Type 0
IsPlaced entry id later =
    (contains later id ≡ false)
    × ((d : NodeId) → contains entry.deps d ≡ true → contains (id ∷ later) d ≡ false)

pub entries-execute :
    (ids : List NodeId) (x : Execution)
    → (foldl execute_node x ids).engine.graph.entries ≡ x.engine.graph.entries
entries-execute [] x = refl
entries-execute (i ∷ ids) x =
    entries-execute ids (execute_node x i) ∙ (execute_node-IsTouch x i).entries

pub value_in-execute_others :
    (ids : List NodeId) (x : Execution) (y : NodeId)
    → contains ids y ≡ false
    → value_in (foldl execute_node x ids).engine y ≡ value_in x.engine y
unfolding contains
value_in-execute_others [] x y absent = refl
value_in-execute_others (i ∷ ids) x y absent =
    value_in-execute_others ids (execute_node x i) y (ground (arith, absent))
    ∙ (execute_node-IsTouch x i).others y (ground (arith, absent))

-- The node is executed with the values that its dependencies have in the end.
consistent_head :
    (x : Execution) (id : NodeId) (later : List NodeId) (entry : NodeEntry) (v : AnyBox)
    → lookup id x.engine.graph.entries ≡ some entry
    → entry.kind ≡ NodeKind.compute
    → IsPure entry
    → IsPlaced entry id later
    → attempt (foldl execute_node x (id ∷ later)).engine entry ≡ some v
    → value_in (foldl execute_node x (id ∷ later)).engine id ≡ some v
consistent_head x id later entry v found kind pure placed h =
    value_in-execute_others later (execute_node x id) id placed.0
    ∙ value_in-execute_node x id entry v found kind (
        pure x.engine.calls _ x.engine.graph.value_store _
          (λ d m. sym (value_in-execute_others (id ∷ later) x d (placed.1 d m)))
        ∙ h)

consistent_at :
    (before : List NodeId) (x : Execution) (id : NodeId) (later : List NodeId) (entry : NodeEntry)
    (v : AnyBox)
    → lookup id x.engine.graph.entries ≡ some entry
    → entry.kind ≡ NodeKind.compute
    → IsPure entry
    → IsPlaced entry id later
    → attempt (foldl execute_node x (before ++ id ∷ later)).engine entry ≡ some v
    → value_in (foldl execute_node x (before ++ id ∷ later)).engine id ≡ some v
consistent_at [] x id later entry v found kind pure placed h =
    consistent_head x id later entry v found kind pure placed h
consistent_at (b ∷ before) x id later entry v found kind pure placed h =
    consistent_at before (execute_node x b) id later entry v
      ((ap (lookup id) (execute_node-IsTouch x b).entries) ∙ found) kind pure placed h

-- Sequential execution leaves no stale value: where a compute node is executed after its dependencies
-- and once, its result depends on their values alone, and this result on the values at the end is
-- some value, then the node has this value at the end, under every error strategy.
pub execute_sequential_consistent :
    (e : Engine) (before : List NodeId) (id : NodeId) (later : List NodeId) (entry : NodeEntry)
    (v : AnyBox)
    → lookup id e.graph.entries ≡ some entry
    → entry.kind ≡ NodeKind.compute
    → IsPure entry
    → IsPlaced entry id later
    → attempt (execute_sequential_with_async e (before ++ id ∷ later)).engine entry ≡ some v
    → value_in (execute_sequential_with_async e (before ++ id ∷ later)).engine id ≡ some v
unfolding execute_sequential_with_async
execute_sequential_consistent e before id later entry v found kind pure placed h =
    consistent_at before (record { engine = e; async_spawns = []; timed = [] }) id later entry v
      found kind pure placed h
