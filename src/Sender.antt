-- ===== src/Sender.antt =====
-- src/sender.rs. The channel is the queue `source_rx` of the graph.
use reactive_graph_experimen.Base.{ℕ, [], ◌∷◌, ◌++◌}
use reactive_graph_experimen.NodeRef.{NodeId}
use reactive_graph_experimen.Graph.{Graph}

-- `Sender<T>`: the phantom type `T` is kept as its `TypeId`.
pub record Sender : Type 0 where
  pub id : NodeId
  pub value_type : ℕ

unfoldable pub send : Sender → Graph → ℕ → Graph
send s g value = record g {
  source_rx = g.source_rx ++ (s.id, record { type_id = s.value_type; contents = value }) ∷ [];
}
