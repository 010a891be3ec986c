-- ===== src/Engine/Cycle/Outcome.antt =====
-- The outcome of one execution of a node, apart from the engine that executes it.
use reactive_graph_experimen.Base.{ℕ, Option, none, some, Map, lookup}
use reactive_graph_experimen.NodeRef.{NodeId, id_eq}
use reactive_graph_experimen.ValueStore.{AnyBox, ValueStore}
use reactive_graph_experimen.Graph.{compute, NodeEntry}

-- What the call of `compute` gives, for a node that is registered as a compute node.
unfoldable pub result_of : Map NodeId NodeEntry → ℕ → ValueStore → NodeId → Option AnyBox
result_of entries calls store id = elim (lookup id entries) [
  | none ↦ none
  | some entry ↦ elim entry.kind [
    | compute ↦ entry.node_impl.compute calls entry.deps store
    | _ ↦ none
  ]
]

-- A result replaces the old value; without a result the old value stays.
abbrev pub or_old : Option AnyBox → Option AnyBox → Option AnyBox
or_old none old = old
or_old (some v) old = some v
