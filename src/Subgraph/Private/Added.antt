-- ===== src/Subgraph/Private/Added.antt =====
-- The merge of a subgraph that shares nothing with the engine.
use reactive_graph_experimen.Base.{
  ℕ, zero, suc, ◌≤◌, ◌≡◌, ◌⊎◌, refl, sym, ap, ◌∙◌, subst, true, false, inl, inr, Option, none, some,
  List, [], foldl, Map, lookup, insert, lookup-insert, contains, contains-set_insert, arith,
  eq_cases, ◌==◌, ◌≢◌, Bool-cases,
}
use reactive_graph_experimen.NodeRef.{NodeId, id_eq}
use reactive_graph_experimen.ValueStore.{AnyBox, set_by_id}
use reactive_graph_experimen.Graph.{NodeEntry, NodeKind, source, compute, sink, async_compute}
use reactive_graph_experimen.Engine.{
  Engine, drain_pending_removals, remove_all, activate_node, activate_sink, start_source,
  start_compute, store_result, all_have_values, declared, declared_in, mark_active, enough,
}
use reactive_graph_experimen.Engine.Frame.{
  activate_node_cases, start_node_cases, Grows-trans, mark_active-Grows, foldl-Grows,
  activate_node-Grows, declared_in-of_lookup,
}
use reactive_graph_experimen.Engine.Sound.Registering.{is_contained}
use reactive_graph_experimen.Subgraph.{NodeDescriptor, register, activate_if_sink}
use reactive_graph_experimen.Subgraph.Registry.{descriptors_of}
use reactive_graph_experimen.Subgraph.Private.{IsHeld, kept-IsHeld, foldl-IsHeld, values}
use reactive_graph_experimen.Subgraph.Private.Registered.{ids_of, registered-IsHeld}

-- What a map with a new entry holds is the new entry, or an old one under another key.
lookup-of_insert :
    (id x : NodeId) (new entry : NodeEntry) (m : Map NodeId NodeEntry)
    → lookup x (insert id new m) ≡ some entry
    → (new ≡ entry) ⊎ (lookup x m ≡ some entry)
lookup-of_insert id x new entry m h = elim (eq_cases id x) [
  | inl (same, q) ↦
      let found : lookup x (insert id new m) ≡ some new =
        rw (lookup-insert id x new m, same) refl in
      inl (cc (found, h))
  | inr (other, q) ↦
      let found : lookup x (insert id new m) ≡ lookup x m =
        rw (lookup-insert id x new m, other) refl in
      inr (sym found ∙ h)
]

lookup-none-of_insert :
    (id x : NodeId) (new : NodeEntry) (m : Map NodeId NodeEntry)
    → lookup x (insert id new m) ≡ none
    → lookup x m ≡ none
lookup-none-of_insert id x new m h = elim (eq_cases id x) [
  | inl (same, q) ↦
      let found : lookup x (insert id new m) ≡ some new =
        rw (lookup-insert id x new m, same) refl in
      absurd (cc (found, h))
  | inr (other, q) ↦
      let found : lookup x (insert id new m) ≡ lookup x m =
        rw (lookup-insert id x new m, other) refl in
      sym found ∙ h
]

-- A node of the subgraph is none of the others.
pub apart :
    (own : List NodeId) (id x : NodeId)
    → contains own id ≡ true
    → contains own x ≡ false
    → (id == x) ≡ false
apart own id x m n = elim (eq_cases id x) [
  | inl (same, q) ↦ absurd (let k = ap (contains own) q in ground (arith, k, m, n))
  | inr (other, q) ↦ other
]

-- A node that is declared is registered.
registered-of_declared :
    (e : Engine) (id : NodeId) (deps : List NodeId)
    → declared e id ≡ some deps
    → lookup id e.graph.entries ≢ none
unfolding declared_in
registered-of_declared e id deps h gone =
    let k : declared e id ≡ none = rw (gone, declared_in) refl in cc (k, h)

module _ {own : List NodeId} {base : Engine} where
  start_source-IsHeld :
      (e : Engine) (id : NodeId) (entry : NodeEntry)
      → contains own id ≡ true
      → lookup id e.graph.entries ≡ some entry
      → IsHeld own base e
      → IsHeld own base (start_source e id entry)
  unfolding start_source
  start_source-IsHeld e id entry m h held = record {
    outside = λ x n.
        let before = held.outside x n in
        (
          lookup-insert id x _ e.graph.entries ∙ rw (apart own id x m n) before.0,
          before.1,
          before.2,
        );
    inside = λ x entry' n h'. elim (lookup-of_insert id x _ entry' e.graph.entries h') [
      | inl new ↦
          let kept = held.inside id entry m h in
          (
            ap (λ (k : NodeEntry). k.ref_count) (sym new) ∙ kept.0,
            λ d k. kept.1 d (ap (λ (k : NodeEntry). contains k.deps d) new ∙ k),
          )
      | inr old ↦ held.inside x entry' n old
    ];
    absent = λ x n h'. held.absent x n (lookup-none-of_insert id x _ e.graph.entries h');
    settled = held.settled;
  }

  store_result-IsHeld :
      (e : Engine) (id : NodeId) (result : Option AnyBox)
      → contains own id ≡ true
      → lookup id e.graph.entries ≢ none
      → IsHeld own base e
      → IsHeld own base (store_result e id result)
  unfolding store_result set_by_id
  store_result-IsHeld e id none m present held = kept-IsHeld refl refl refl refl held
  store_result-IsHeld e id (some value) m present held = record {
    outside = λ x n.
        let before = held.outside x n in
        (
          before.0,
          lookup-insert id x value (values e) ∙ rw (apart own id x m n) before.1,
          before.2,
        );
    inside = held.inside;
    absent = λ x n h.
        let before = held.absent x n h in
        elim (eq_cases id x) [
          | inl (same, q) ↦ absurd (present (ap (λ y. lookup y e.graph.entries) q ∙ h))
          | inr (other, q) ↦ (lookup-insert id x value (values e) ∙ rw other before.0, before.1)
        ];
    settled = held.settled;
  }

  start_compute-IsHeld :
      (e : Engine) (id : NodeId) (entry : NodeEntry)
      → contains own id ≡ true
      → lookup id e.graph.entries ≢ none
      → IsHeld own base e
      → IsHeld own base (start_compute e id entry)
  unfolding start_compute
  start_compute-IsHeld e id entry m present held =
      elim (Bool-cases (all_have_values e.graph.value_store entry.deps)) [
        | inl ready ↦
            rw (ready, start_compute)
              (store_result-IsHeld e id
                (entry.node_impl.compute e.calls entry.deps e.graph.value_store) m present held)
        | inr waiting ↦ rw (waiting, start_compute) held
      ]

  mark_active-IsHeld :
      (e : Engine) (id : NodeId) (deps : List NodeId)
      → contains own id ≡ true
      → lookup id e.graph.entries ≢ none
      → IsHeld own base e
      → IsHeld own base (mark_active e id deps)
  unfolding mark_active
  mark_active-IsHeld e id deps m present held = record {
    outside = λ x n.
        let before = held.outside x n in
        let other = apart own id x m n in
        let added = contains-set_insert e.active id x in
        (before.0, before.1, added ∙ rw other (ground (arith, before.2)));
    inside = held.inside;
    absent = λ x n h.
        let before = held.absent x n h in
        elim (eq_cases id x) [
          | inl (same, q) ↦ absurd (present (ap (λ y. lookup y e.graph.entries) q ∙ h))
          | inr (other, q) ↦
              let added = contains-set_insert e.active id x in
              (before.0, added ∙ rw (before.1, other) refl)
        ];
    settled = held.settled;
  }

  activate_node-IsHeld :
      (fuel : ℕ) (e : Engine) (id : NodeId)
      → contains own id ≡ true
      → IsHeld own base e
      → IsHeld own base (activate_node fuel e id)
  unfolding activate_node
  activate_node-IsHeld zero e id m held = held
  activate_node-IsHeld (suc fuel) e id m held =
      activate_node_cases (IsHeld own base) fuel e id (λ _. held) (λ _. held)
        (λ entry new h.
          let begun = mark_active e id entry.deps in
          let known : declared e id ≡ some entry.deps =
            declared_in-of_lookup e.graph.entries id entry h in
          let grown =
            Grows-trans (mark_active-Grows e id entry.deps)
              (foldl-Grows (activate_node fuel) (activate_node-Grows fuel) entry.deps begun) in
          let e' = foldl (activate_node fuel) begun entry.deps in
          let held' =
            foldl-IsHeld (activate_node fuel) (activate_node-IsHeld fuel) entry.deps
              (held.inside id entry m h).1 begun
              (mark_active-IsHeld e id entry.deps m (registered-of_declared e id entry.deps known)
                held) in
          start_node_cases e' id (IsHeld own base) entry.kind held'
            (λ entry' h'. start_source-IsHeld e' id entry' m h' held')
            (λ entry'.
              start_compute-IsHeld e' id entry' m
                (registered-of_declared e' id entry.deps (grown.same id ∙ known)) held'))

  -- Nothing is pending, so nothing is carried out.
  pub drain_pending-IsHeld :
      (e : Engine) → IsHeld own base e → IsHeld own base (drain_pending_removals e)
  unfolding drain_pending_removals
  drain_pending-IsHeld e held =
      subst
        (λ removals.
          IsHeld own base (foldl remove_all (record e { pending_removals = [] }) removals))
        (sym held.settled) (kept-IsHeld refl refl refl (sym held.settled) held)

  activate_if_sink-IsHeld :
      (e : Engine) (id : NodeId)
      → contains own id ≡ true
      → IsHeld own base e
      → IsHeld own base (activate_if_sink e id)
  unfolding activate_if_sink activate_sink
  activate_if_sink-IsHeld e id m held = by_entry (lookup id e.graph.entries) refl
    where
      activated : IsHeld own base (activate_sink e id)
      activated =
          activate_node-IsHeld (enough (drain_pending_removals e)) (drain_pending_removals e) id m
            (drain_pending-IsHeld e held)

      by_kind :
          (entry : NodeEntry)
          → lookup id e.graph.entries ≡ some entry
          → (kind : NodeKind) → entry.kind ≡ kind
          → IsHeld own base (activate_if_sink e id)
      by_kind entry h sink q = rw (h, activate_if_sink, q) activated
      by_kind entry h source q = rw (h, activate_if_sink, q) held
      by_kind entry h compute q = rw (h, activate_if_sink, q) held
      by_kind entry h async_compute q = rw (h, activate_if_sink, q) held

      by_entry :
          (o : Option NodeEntry)
          → lookup id e.graph.entries ≡ o
          → IsHeld own base (activate_if_sink e id)
      by_entry none h = rw (h, activate_if_sink) held
      by_entry (some entry) h = by_kind entry h entry.kind refl

module _ (e : Engine) (ds : List NodeDescriptor) (settled : e.pending_removals ≡ [])
    (once : (x : NodeId) → descriptors_of x ds ≤ 1)
    (fresh : (x : NodeId) → contains (ids_of ds) x ≡ true → lookup x e.graph.entries ≡ none)
    (within : is_contained [] ds ≡ true) where
  pub merged-IsHeld :
      IsHeld (ids_of ds) e (foldl activate_if_sink (foldl register e ds) (ids_of ds))
  merged-IsHeld =
      foldl-IsHeld activate_if_sink activate_if_sink-IsHeld (ids_of ds) (λ d m. m)
        (foldl register e ds) (registered-IsHeld e ds settled once fresh within)
