-- ===== src/Engine/Cycle/Touch.antt =====
-- What the execution of one node changes in the value store, in the sequential version of the cycle.
use reactive_graph_experimen.Base.{
  ℕ, zero, suc, ◌-◌, ◌≡◌, refl, sym, subst, ◌∙◌, false, Option, none, some, lookup, ◌⊎◌, inl, inr,
  ◌==◌, eq_refl, Option-cases,
}
use reactive_graph_experimen.NodeRef.{NodeId, id_eq}
use reactive_graph_experimen.ValueStore.{AnyBox, get_by_id}
use reactive_graph_experimen.ValueStore.Typed.{get_by_id-set_by_id, get_by_id-remove}
use reactive_graph_experimen.Graph.{NodeKind, source, compute, sink, async_compute, NodeEntry}
use reactive_graph_experimen.Metrics.{ErrorStrategy, propagate_stale, propagate_error, retry}
use reactive_graph_experimen.Engine.Cycle.Outcome.{result_of, or_old}
use reactive_graph_experimen.Engine.{Engine, store_result}
use reactive_graph_experimen.Engine.Cycle.{
  Execution, attempt, retry_loop, forget_value, execute_compute_with_error_handling, collect_spawn,
  execute_entry, execute_node, strategy_of,
}

abbrev pub value_in : Engine → NodeId → Option AnyBox
value_in e y = get_by_id e.graph.value_store y

-- The second engine differs from the first in no entry, in no queue, in nothing that is asynchronous,
-- and in no value but that of the node.
pub record IsTouch (id : NodeId) (e e' : Engine) : Type 0 where
  pub entries : e'.graph.entries ≡ e.graph.entries
  pub strategies : e'.error_strategies ≡ e.error_strategies
  pub source_rx : e'.graph.source_rx ≡ e.graph.source_rx
  pub async_manager : e'.async_manager ≡ e.async_manager
  pub topology : e'.topology ≡ e.topology
  pub active : e'.active ≡ e.active
  pub pending : e'.pending_removals ≡ e.pending_removals
  pub others : (y : NodeId) → (id == y) ≡ false → value_in e' y ≡ value_in e y

refl-IsTouch : (id : NodeId) (e : Engine) → IsTouch id e e
refl-IsTouch id e = record {
  entries = refl;
  strategies = refl;
  source_rx = refl;
  async_manager = refl;
  topology = refl;
  active = refl;
  pending = refl;
  others = λ y differ. refl;
}

trans-IsTouch : (id : NodeId) (e f g : Engine) → IsTouch id e f → IsTouch id f g → IsTouch id e g
trans-IsTouch id e f g first second = record {
  entries = second.entries ∙ first.entries;
  strategies = second.strategies ∙ first.strategies;
  source_rx = second.source_rx ∙ first.source_rx;
  async_manager = second.async_manager ∙ first.async_manager;
  topology = second.topology ∙ first.topology;
  active = second.active ∙ first.active;
  pending = second.pending ∙ first.pending;
  others = λ y differ. second.others y differ ∙ first.others y differ;
}

store_result-IsTouch :
    (e : Engine) (id : NodeId) (r : Option AnyBox) → IsTouch id e (store_result e id r)
unfolding store_result
store_result-IsTouch e id none = record {
  entries = refl;
  strategies = refl;
  source_rx = refl;
  async_manager = refl;
  topology = refl;
  active = refl;
  pending = refl;
  others = λ y differ. refl;
}
store_result-IsTouch e id (some v) = record {
  entries = refl;
  strategies = refl;
  source_rx = refl;
  async_manager = refl;
  topology = refl;
  active = refl;
  pending = refl;
  others = λ y differ. get_by_id-set_by_id e.graph.value_store id y v ∙ rw differ refl;
}

pub value_in-store_result :
    (e : Engine) (id : NodeId) (v : AnyBox) → value_in (store_result e id (some v)) id ≡ some v
unfolding store_result
value_in-store_result e id v =
    get_by_id-set_by_id e.graph.value_store id id v ∙ rw (eq_refl id) refl

retry_loop-IsTouch :
    (left : ℕ) (e : Engine) (id : NodeId) (entry : NodeEntry)
    → IsTouch id e (retry_loop left e id entry)
unfolding retry_loop
retry_loop-IsTouch zero e id entry = store_result-IsTouch e id (attempt e entry)
retry_loop-IsTouch (suc left) e id entry = by_attempt (attempt e entry) (
    trans-IsTouch id e (store_result e id none) _ (store_result-IsTouch e id none)
      (retry_loop-IsTouch left (store_result e id none) id entry))
  where
    by_attempt :
        (r : Option AnyBox)
        → IsTouch id e (retry_loop left (store_result e id none) id entry)
        → IsTouch id e (elim r [
          | some value ↦ store_result e id (some value)
          | none ↦ retry_loop left (store_result e id none) id entry
        ])
    by_attempt none again = again
    by_attempt (some v) again = store_result-IsTouch e id (some v)

forget_value-IsTouch :
    (e : Engine) (id : NodeId) (r : Option AnyBox) → IsTouch id e (forget_value e id r)
unfolding forget_value
forget_value-IsTouch e id none = record {
  entries = refl;
  strategies = refl;
  source_rx = refl;
  async_manager = refl;
  topology = refl;
  active = refl;
  pending = refl;
  others = λ y differ. get_by_id-remove e.graph.value_store id y ∙ rw differ refl;
}
forget_value-IsTouch e id (some v) = refl-IsTouch id e

execute_compute-IsTouch :
    (e : Engine) (id : NodeId) (entry : NodeEntry) (strategy : ErrorStrategy)
    → IsTouch id e (execute_compute_with_error_handling e id entry strategy)
unfolding execute_compute_with_error_handling
execute_compute-IsTouch e id entry propagate_stale = store_result-IsTouch e id (attempt e entry)
execute_compute-IsTouch e id entry propagate_error =
    let r = attempt e entry in
    trans-IsTouch id e (store_result e id r) _ (store_result-IsTouch e id r)
      (forget_value-IsTouch (store_result e id r) id r)
execute_compute-IsTouch e id entry (retry max_attempts backoff_ms) =
    retry_loop-IsTouch (max_attempts - 1) e id entry

-- Under every strategy, a node whose first attempt gives a value has that value.
value_in-execute_compute :
    (e : Engine) (id : NodeId) (entry : NodeEntry) (strategy : ErrorStrategy) (v : AnyBox)
    → attempt e entry ≡ some v
    → value_in (execute_compute_with_error_handling e id entry strategy) id ≡ some v
unfolding execute_compute_with_error_handling forget_value
value_in-execute_compute e id entry propagate_stale v h = rw h (value_in-store_result e id v)
value_in-execute_compute e id entry propagate_error v h = rw h (value_in-store_result e id v)
value_in-execute_compute e id entry (retry max_attempts backoff_ms) v h =
    by_count (max_attempts - 1)
  where
    by_count : (left : ℕ) → value_in (retry_loop left e id entry) id ≡ some v
    by_count zero = rw (h, retry_loop) (value_in-store_result e id v)
    by_count (suc left) = rw (h, retry_loop) (value_in-store_result e id v)

execute_entry-IsTouch :
    (kind : NodeKind) (x : Execution) (id : NodeId) (entry : NodeEntry)
    → IsTouch id x.engine (execute_entry kind x id entry).engine
unfolding execute_entry collect_spawn
execute_entry-IsTouch compute x id entry =
    execute_compute-IsTouch x.engine id entry (strategy_of x.engine id)
execute_entry-IsTouch sink x id entry = record {
  entries = refl;
  strategies = refl;
  source_rx = refl;
  async_manager = refl;
  topology = refl;
  active = refl;
  pending = refl;
  others = λ y differ. refl;
}
execute_entry-IsTouch async_compute x id entry = record {
  entries = refl;
  strategies = refl;
  source_rx = refl;
  async_manager = refl;
  topology = refl;
  active = refl;
  pending = refl;
  others = λ y differ. refl;
}
execute_entry-IsTouch source x id entry = refl-IsTouch id x.engine

pub execute_node-IsTouch :
    (x : Execution) (id : NodeId) → IsTouch id x.engine (execute_node x id).engine
unfolding execute_node
execute_node-IsTouch x id = by_lookup (Option-cases (lookup id x.engine.graph.entries))
  where
    by_lookup :
        (lookup id x.engine.graph.entries ≡ none)
          ⊎ ((entry : NodeEntry) × (lookup id x.engine.graph.entries ≡ some entry))
        → IsTouch id x.engine (execute_node x id).engine
    by_lookup (inl absent) = rw (absent, execute_node) (refl-IsTouch id x.engine)
    by_lookup (inr (entry, found)) =
        rw (found, execute_node) (execute_entry-IsTouch entry.kind x id entry)

pub value_in-execute_node :
    (x : Execution) (id : NodeId) (entry : NodeEntry) (v : AnyBox)
    → lookup id x.engine.graph.entries ≡ some entry
    → entry.kind ≡ NodeKind.compute
    → attempt x.engine entry ≡ some v
    → value_in (execute_node x id).engine id ≡ some v
unfolding execute_node execute_entry
value_in-execute_node x id entry v found kind h =
    rw (found, execute_node)
      (subst (λ k. value_in (execute_entry k x id entry).engine id ≡ some v) (sym kind)
        (value_in-execute_compute x.engine id entry (strategy_of x.engine id) v h))

-- Under `PropagateStale`, the node has the result of its one attempt, or keeps its value.
pub value_in-execute_node_stale :
    (x : Execution) (id : NodeId)
    → strategy_of x.engine id ≡ propagate_stale
    → value_in (execute_node x id).engine id
      ≡ or_old
          (result_of x.engine.graph.entries x.engine.calls x.engine.graph.value_store id)
          (value_in x.engine id)
unfolding execute_node execute_entry execute_compute_with_error_handling collect_spawn result_of
    store_result
value_in-execute_node_stale x id stale = by_lookup (lookup id x.engine.graph.entries) refl
  where
    Goal : Type 0
    Goal =
        value_in (execute_node x id).engine id
        ≡ or_old (result_of x.engine.graph.entries x.engine.calls x.engine.graph.value_store id)
            (value_in x.engine id)

    by_result :
        (entry : NodeEntry) (r : Option AnyBox)
        → value_in (store_result x.engine id r) id ≡ or_old r (value_in x.engine id)
    by_result entry none = refl
    by_result entry (some v) = value_in-store_result x.engine id v

    by_kind :
        (entry : NodeEntry)
        → lookup id x.engine.graph.entries ≡ some entry
        → (kind : NodeKind) → entry.kind ≡ kind
        → Goal
    by_kind entry found compute q =
        rw (found, execute_node, result_of)
          (subst
            (λ k.
              value_in (execute_entry k x id entry).engine id
              ≡ or_old (elim k [ compute ↦ attempt x.engine entry | _ ↦ none ])
                  (value_in x.engine id))
            (sym q)
            (subst
              (λ s.
                value_in (execute_compute_with_error_handling x.engine id entry s) id
                ≡ or_old (attempt x.engine entry) (value_in x.engine id))
              (sym stale) (by_result entry (attempt x.engine entry))))
    by_kind entry found source q = rw (found, execute_node, result_of, q) refl
    by_kind entry found sink q = rw (found, execute_node, result_of, q) refl
    by_kind entry found async_compute q = rw (found, execute_node, result_of, q) refl

    by_lookup : (o : Option NodeEntry) → lookup id x.engine.graph.entries ≡ o → Goal
    by_lookup none q = rw (q, execute_node, result_of) refl
    by_lookup (some entry) q = by_kind entry q entry.kind refl
