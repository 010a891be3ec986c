-- ===== src/Engine/Sound/Activating.antt =====
-- Activation keeps registry, active nodes and topology fit together.
use reactive_graph_experimen.Base.{
  ℕ, zero, suc, ◌≡◌, refl, sym, ap, subst, ◌∙◌, inl, inr, false, Option, none, some, List, [], ◌∷◌,
  foldl, lookup, lookup-insert, contains, arith, ◌==◌, eq_cases,
}
use reactive_graph_experimen.NodeRef.{NodeId, id_eq}
use reactive_graph_experimen.Graph.{NodeKind, source, compute, sink, async_compute, NodeEntry}
use reactive_graph_experimen.Topology.{add_node}
use reactive_graph_experimen.Topology.Mirror.{add_node-IsMirror, list_at-insert}
use reactive_graph_experimen.Subgraph.{activate_if_sink}
use reactive_graph_experimen.Engine.{
  Engine, declared, start_source, start_compute, start_node, store_result, mark_active,
  activate_node, activate_sink, drain_pending_removals, remove_all, enough,
}
use reactive_graph_experimen.Engine.Frame.{
  declared_in-of_lookup, active-mark_active, activate_node_cases, start_node_cases,
  active-start_node, topology-start_node, declared-start_node,
}
use reactive_graph_experimen.Engine.Sound.{IsSound, Alike, Alike-IsSound}

pending-start_node :
    (e : Engine) (id : NodeId) (kind : NodeKind)
    → (start_node e id kind).pending_removals ≡ e.pending_removals
unfolding start_source start_compute store_result
pending-start_node e id kind =
    start_node_cases e id (λ e'. e'.pending_removals ≡ e.pending_removals) kind refl
      (λ entry h. refl) (λ entry. ground arith)

start_node-Alike : (e : Engine) (id : NodeId) (kind : NodeKind) → Alike e (start_node e id kind)
start_node-Alike e id kind = record {
  same = declared-start_node e id kind;
  topology = topology-start_node e id kind;
  active = active-start_node e id kind;
  pending = pending-start_node e id kind;
}

-- The node is entered in the topology with the dependencies that its entry declares.
mark_active-IsSound :
    (e : Engine) (id : NodeId) (entry : NodeEntry)
    → contains e.active id ≡ false
    → lookup id e.graph.entries ≡ some entry
    → IsSound e
    → IsSound (mark_active e id entry.deps)
unfolding mark_active add_node
mark_active-IsSound e id entry inactive found sound = record {
  rank = sound.rank;
  limit = sound.limit;
  below = sound.below;
  ordered = sound.ordered;
  mirror = add_node-IsMirror e.topology id entry.deps (sound.untracked id inactive) sound.mirror;
  tracked = λ x m. elim (eq_cases id x) [
    | inl (same, q) ↦
        subst (λ y. declared e y ≡ some entry.deps) q
          (declared_in-of_lookup e.graph.entries id entry found)
        ∙ ap some (sym (list_at-insert id x entry.deps e.topology.deps ∙ rw same refl))
    | inr (other, q) ↦
        let k = active-mark_active e id entry.deps x in
        sound.tracked x (ground (arith, k, m, other))
        ∙ ap some (sym (list_at-insert id x entry.deps e.topology.deps ∙ rw other refl))
  ];
  untracked = λ x m.
      let k = active-mark_active e id entry.deps x in
      let other : (id == x) ≡ false = ground (arith, k, m) in
      lookup-insert id x entry.deps e.topology.deps
      ∙ rw other (sound.untracked x (ground (arith, k, m)));
  settled = sound.settled;
}

fold-IsSound :
    (f : Engine → NodeId → Engine)
    → ((e : Engine) (id : NodeId) → IsSound e → IsSound (f e id))
    → (ids : List NodeId) (e : Engine) → IsSound e
    → IsSound (foldl f e ids)
fold-IsSound f keeps [] e sound = sound
fold-IsSound f keeps (id ∷ ids) e sound = fold-IsSound f keeps ids (f e id) (keeps e id sound)

pub activate_node-IsSound :
    (fuel : ℕ) (e : Engine) (id : NodeId) → IsSound e → IsSound (activate_node fuel e id)
unfolding activate_node
activate_node-IsSound zero e id sound = sound
activate_node-IsSound (suc fuel) e id sound =
    activate_node_cases IsSound fuel e id (λ _. sound) (λ _. sound)
      (λ entry new h. Alike-IsSound (start_node-Alike _ id entry.kind) (
        fold-IsSound (activate_node fuel) (activate_node-IsSound fuel) entry.deps
          (mark_active e id entry.deps) (mark_active-IsSound e id entry new h sound)))

-- With no removals pending, there is nothing to carry out.
pub drain_pending-Alike : (e : Engine) → IsSound e → Alike e (drain_pending_removals e)
unfolding drain_pending_removals
drain_pending-Alike e sound =
    subst (λ removals. Alike e (foldl remove_all (record e { pending_removals = [] }) removals))
      (sym sound.settled)
      (record { same = λ x. refl; topology = refl; active = refl; pending = sym sound.settled })

pub activate_sink-IsSound : (e : Engine) (id : NodeId) → IsSound e → IsSound (activate_sink e id)
unfolding activate_sink
activate_sink-IsSound e id sound =
    activate_node-IsSound (enough (drain_pending_removals e)) (drain_pending_removals e) id
      (Alike-IsSound (drain_pending-Alike e sound) sound)

pub activate_sinks-IsSound :
    (ids : List NodeId) (e : Engine) → IsSound e → IsSound (foldl activate_if_sink e ids)
unfolding activate_if_sink
activate_sinks-IsSound ids e sound = fold-IsSound activate_if_sink one ids e sound
  where
    one : (e : Engine) (id : NodeId) → IsSound e → IsSound (activate_if_sink e id)
    one e id sound = by_entry (lookup id e.graph.entries) refl
      where
        by_kind :
            (entry : NodeEntry)
            → lookup id e.graph.entries ≡ some entry
            → (kind : NodeKind) → entry.kind ≡ kind
            → IsSound (activate_if_sink e id)
        by_kind entry h sink q = rw (h, activate_if_sink, q) (activate_sink-IsSound e id sound)
        by_kind entry h source q = rw (h, activate_if_sink, q) sound
        by_kind entry h compute q = rw (h, activate_if_sink, q) sound
        by_kind entry h async_compute q = rw (h, activate_if_sink, q) sound

        by_entry :
            (o : Option NodeEntry) → lookup id e.graph.entries ≡ o → IsSound (activate_if_sink e id)
        by_entry none h = rw (h, activate_if_sink) sound
        by_entry (some entry) h = by_kind entry h entry.kind refl
