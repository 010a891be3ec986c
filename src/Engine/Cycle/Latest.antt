-- ===== src/Engine/Cycle/Latest.antt =====
-- Which value a node has after a cycle, of those that arrived for it.
use reactive_graph_experimen.Base.{
  ◌≡◌, refl, sym, Bool, ap, ◌∙◌, true, false, if◌then◌else◌, Option, none, some, List, [], ◌∷◌,
  ◌++◌, foldl, ◌==◌, IsOrder,
}
use reactive_graph_experimen.NodeRef.{NodeId, id_eq}
use reactive_graph_experimen.ValueStore.{AnyBox}
use reactive_graph_experimen.ValueStore.Typed.{get_by_id-set_by_id}
use reactive_graph_experimen.AsyncCompute.{AsyncManager, drain_results}
use reactive_graph_experimen.Topology.Mirror.{IsMirror}
use reactive_graph_experimen.Topology.Dirty.{Downstream}
use reactive_graph_experimen.Engine.{Engine, drain_pending_removals}
use reactive_graph_experimen.Engine.Cycle.{
  Drained, accept, drain_updates, propagate, run_cycle_impl, run_cycle,
}
use reactive_graph_experimen.Engine.Cycle.Outcome.{or_old}
use reactive_graph_experimen.Engine.Cycle.Touch.{value_in}
use reactive_graph_experimen.Engine.Cycle.Glitch.{propagate_others}

-- The last value for a node in a queue.
abbrev pub latest : NodeId → List (NodeId × AnyBox) → Option AnyBox
latest id [] = none
latest id (update ∷ updates) =
    or_old (latest id updates) (if update.0 == id then some update.1 else none)

or_old_assoc : (a b c : Option AnyBox) → or_old a (or_old b c) ≡ or_old (or_old a b) c
or_old_assoc none b c = refl
or_old_assoc (some v) b c = refl

value_in-accept :
    (updates : List (NodeId × AnyBox)) (d : Drained) (id : NodeId)
    → value_in (foldl accept d updates).engine id
      ≡ or_old (latest id updates) (value_in d.engine id)
unfolding accept
value_in-accept [] d id = refl
value_in-accept (u ∷ updates) d id =
    value_in-accept updates (accept d u) id
    ∙ ap (or_old (latest id updates)) (
        get_by_id-set_by_id d.engine.graph.value_store u.0 id u.1
        ∙ written u.1 (u.0 == id) (value_in d.engine id))
    ∙ or_old_assoc (latest id updates) (if u.0 == id then some u.1 else none) (value_in d.engine id)
  where
    written :
        (v : AnyBox) (b : Bool) (old : Option AnyBox)
        → (if b then some v else old) ≡ or_old (if b then some v else none) old
    written v true old = refl
    written v false old = refl

manager-accept :
    (updates : List (NodeId × AnyBox)) (d : Drained)
    → (foldl accept d updates).engine.async_manager ≡ d.engine.async_manager
unfolding accept
manager-accept [] d = refl
manager-accept (u ∷ updates) d = manager-accept updates (accept d u)

latest-append :
    (id : NodeId) (xs ys : List (NodeId × AnyBox))
    → latest id (xs ++ ys) ≡ or_old (latest id ys) (latest id xs)
latest-append id [] ys = or_old_none (latest id ys)
  where
    or_old_none : (a : Option AnyBox) → a ≡ or_old a none
    or_old_none none = refl
    or_old_none (some v) = refl
latest-append id (x ∷ xs) ys =
    let head = if x.0 == id then some x.1 else none in
    ap (λ o. or_old o head) (latest-append id xs ys)
    ∙ sym (or_old_assoc (latest id ys) (latest id xs) head)

-- What has arrived for the nodes when a cycle begins: the values of sources, then the results of
-- asynchronous nodes.
abbrev pub arrived : Engine → List (NodeId × AnyBox)
arrived e = e.graph.source_rx ++ e.async_manager.result_rx

value_in-drain_updates :
    (e : Engine) (id : NodeId)
    → value_in (drain_updates e).engine id ≡ or_old (latest id (arrived e)) (value_in e id)
unfolding drain_updates drain_results
value_in-drain_updates e id =
    let begin : Drained = record {
      engine = record e { graph = record e.graph { source_rx = [] } };
      updated = [];
    } in
    let d = foldl accept begin e.graph.source_rx in
    let (manager, results) = drain_results d.engine.async_manager in
    value_in-accept results
      (record { engine = record d.engine { async_manager = manager }; updated = d.updated }) id
    ∙ ap (λ (m : AsyncManager). or_old (latest id m.result_rx) (value_in d.engine id))
        (manager-accept e.graph.source_rx begin)
    ∙ ap (or_old (latest id e.async_manager.result_rx)) (value_in-accept e.graph.source_rx begin id)
    ∙ or_old_assoc (latest id e.async_manager.result_rx) (latest id e.graph.source_rx)
        (value_in e id)
    ∙ ap (λ o. or_old o (value_in e id))
        (sym (latest-append id e.graph.source_rx e.async_manager.result_rx))

-- After a cycle, a node that is not downstream of a node with a new value has the last value that had
-- arrived for it, from a source or an asynchronous computation, and its old value if none had: no
-- value is lost, and later values win. The topology is mirrored.
pub value_in-run_cycle :
    (order : List NodeId → List NodeId)
    → IsOrder order
    → (e : Engine) → IsMirror (drain_updates (drain_pending_removals e)).engine.topology
    → (id : NodeId)
    → ¬ Downstream
        (drain_updates (drain_pending_removals e)).engine.topology
        (drain_updates (drain_pending_removals e)).updated
        id
    → value_in (run_cycle order e) id
      ≡ or_old
          (latest id (arrived (drain_pending_removals e)))
          (value_in (drain_pending_removals e) id)
unfolding run_cycle run_cycle_impl
value_in-run_cycle order ordered e mirror id outside =
    let begin = drain_pending_removals e in
    by_updated (drain_updates begin) (drain_updates begin).updated mirror outside
    ∙ value_in-drain_updates begin id
  where
    by_updated :
        (d : Drained) (updated : List NodeId)
        → IsMirror d.engine.topology
        → ¬ Downstream d.engine.topology d.updated id
        → value_in
            (elim updated [ [] ↦ d.engine | _ ∷ _ ↦ propagate order false d.engine d.updated ])
            id
          ≡ value_in d.engine id
    by_updated d [] mirror outside = refl
    by_updated d (u ∷ us) mirror outside =
        propagate_others order ordered d.engine mirror d.updated id outside
