-- ===== src/Engine/Quiet.antt =====
-- Activation and deactivation leave the asynchronous manager alone, and deactivation leaves the queue of
-- source values alone.
use reactive_graph_experimen.Base.{
  ℕ, zero, suc, ◌≡◌, refl, ap, ◌∙◌, List, [], ◌∷◌, foldl, arith, reverse,
}
use reactive_graph_experimen.NodeRef.{NodeId, id_eq}
use reactive_graph_experimen.ValueStore.{AnyBox}
use reactive_graph_experimen.Graph.{NodeKind}
use reactive_graph_experimen.AsyncCompute.{AsyncManager}
use reactive_graph_experimen.Engine.{
  Engine, store_result, start_source, start_compute, start_node, mark_active, activate_node,
  set_ref_count, drop_node, deactivate_node, deactivate, enough, remove_all, drain_pending_removals,
  activate_sink,
}
use reactive_graph_experimen.Engine.Removal.{deactivate_node_cases}
use reactive_graph_experimen.Engine.Frame.{activate_node_cases}

-- A pass over a list keeps what each of its steps keeps.
pub foldl-keeps {ℓ ℓ'} :
    {A : Type ℓ} {B : Type 0} {V : Type ℓ'} (view : A → V) (f : A → B → A)
    → ((a : A) (b : B) → view (f a b) ≡ view a)
    → (bs : List B) (a : A) → view (foldl f a bs) ≡ view a
foldl-keeps view f keeps [] a = refl
foldl-keeps view f keeps (b ∷ bs) a = foldl-keeps view f keeps bs (f a b) ∙ keeps a b

abbrev manager : Engine → AsyncManager
manager e = e.async_manager

manager-start_node :
    (e : Engine) (id : NodeId) (kind : NodeKind) → manager (start_node e id kind) ≡ manager e
unfolding start_node start_source start_compute store_result
manager-start_node e id kind = ground arith

manager-activate_node :
    (fuel : ℕ) (e : Engine) (id : NodeId) → manager (activate_node fuel e id) ≡ manager e
unfolding activate_node mark_active
manager-activate_node zero e id = refl
manager-activate_node (suc fuel) e id =
    activate_node_cases (λ e'. manager e' ≡ manager e) fuel e id (λ _. refl) (λ _. refl)
      (λ entry _ _.
        manager-start_node _ id entry.kind
        ∙ foldl-keeps manager (activate_node fuel) (manager-activate_node fuel) entry.deps
            (mark_active e id entry.deps))

-- What deactivation leaves alone.
abbrev pub apart : Engine → AsyncManager × List (NodeId × AnyBox)
apart e = (e.async_manager, e.graph.source_rx)

apart-deactivate_node :
    (fuel : ℕ) (e : Engine) (id : NodeId) → apart (deactivate_node fuel e id) ≡ apart e
unfolding deactivate_node drop_node set_ref_count
apart-deactivate_node zero e id = refl
apart-deactivate_node (suc fuel) e id =
    deactivate_node_cases (λ e'. apart e' ≡ apart e) fuel e id (λ _. refl) (λ entry _ _. refl)
      (λ entry _ _.
        foldl-keeps apart (deactivate_node fuel) (apart-deactivate_node fuel) entry.deps
          (drop_node e id entry.kind))

pub apart-remove_all : (e : Engine) (ids : List NodeId) → apart (remove_all e ids) ≡ apart e
unfolding remove_all deactivate
apart-remove_all e ids =
    foldl-keeps apart deactivate (λ e' id. apart-deactivate_node (enough e') e' id) (reverse ids) e

apart-drain_pending_removals : (e : Engine) → apart (drain_pending_removals e) ≡ apart e
unfolding drain_pending_removals
apart-drain_pending_removals e =
    foldl-keeps apart remove_all apart-remove_all e.pending_removals
      (record e { pending_removals = [] })

pub manager-activate_sink : (e : Engine) (id : NodeId) → manager (activate_sink e id) ≡ manager e
unfolding activate_sink
manager-activate_sink e id =
    let e' = drain_pending_removals e in
    manager-activate_node (enough e') e' id ∙ ap (λ p. p.0) (apart-drain_pending_removals e)
