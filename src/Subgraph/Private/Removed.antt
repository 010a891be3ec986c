-- ===== src/Subgraph/Private/Removed.antt =====
-- The removal of a subgraph that shares nothing with the engine.
use reactive_graph_experimen.Base.{
  ℕ, zero, suc, ◌-◌, ◌≤◌, ◌≡◌, refl, sym, ap, ◌∙◌, subst, true, false, inl, inr, none, some, List,
  [], ◌∷◌, ◌++◌, foldl, lookup, remove, lookup-remove, contains, contains-snoc, contains-set_remove,
  reverse, arith, eq_cases, eq_refl, nat_beq, length, Bool-cases,
}
use mathlib.Core.List.{reverse-cons}
use reactive_graph_experimen.NodeRef.{NodeId, id_eq}
use reactive_graph_experimen.ValueStore
use reactive_graph_experimen.Graph.{NodeEntry, NodeKind}
use reactive_graph_experimen.Engine.{
  Engine, drain_pending_removals, remove_all, deactivate_node, deactivate, drop_node, enough,
}
use reactive_graph_experimen.Engine.Removal.{
  deactivate_node_cases, deactivate_node-StaysAbsent, foldl-StaysAbsent,
}
use reactive_graph_experimen.Engine.Sound.Registering.{is_contained}
use reactive_graph_experimen.Subgraph.{
  Subgraph, register, activate_if_sink, merge_nodes, merge, drop_handle,
}
use reactive_graph_experimen.Subgraph.Registry.{descriptors_of}
use reactive_graph_experimen.Subgraph.Private.{IsHeld, kept-IsHeld, foldl-IsHeld, values}
use reactive_graph_experimen.Subgraph.Private.Registered.{ids_of}
use reactive_graph_experimen.Subgraph.Private.Added.{apart, merged-IsHeld, drain_pending-IsHeld}

module _ {own : List NodeId} {base : Engine} where
  drop_node-IsHeld :
      (e : Engine) (id : NodeId) (kind : NodeKind)
      → contains own id ≡ true
      → IsHeld own base e
      → IsHeld own base (drop_node e id kind)
  unfolding drop_node ValueStore.remove
  drop_node-IsHeld e id kind m held = record {
    outside = λ x n.
        let before = held.outside x n in
        let other = apart own id x m n in
        let removed = contains-set_remove e.active id x in
        (
          lookup-remove id x e.graph.entries ∙ rw other before.0,
          lookup-remove id x (values e) ∙ rw other before.1,
          removed ∙ rw other (ground (arith, before.2)),
        );
    inside = λ x entry n h. elim (eq_cases id x) [
      | inl (same, q) ↦
          let gone : lookup x (remove id e.graph.entries) ≡ none =
            rw (lookup-remove id x e.graph.entries, same) refl in
          absurd (cc (gone, h))
      | inr (other, q) ↦
          let kept : lookup x (remove id e.graph.entries) ≡ lookup x e.graph.entries =
            rw (lookup-remove id x e.graph.entries, other) refl in
          held.inside x entry n (sym kept ∙ h)
    ];
    absent = λ x n h. elim (eq_cases id x) [
      | inl (same, q) ↦ (
        lookup-remove id x (values e) ∙ rw same refl,
        contains-set_remove e.active id x ∙ rw same (ground arith),
      )
      | inr (other, q) ↦
          let kept : lookup x (remove id e.graph.entries) ≡ lookup x e.graph.entries =
            rw (lookup-remove id x e.graph.entries, other) refl in
          let before = held.absent x n (sym kept ∙ h) in
          (
            lookup-remove id x (values e) ∙ rw other before.0,
            contains-set_remove e.active id x ∙ rw before.1 refl,
          )
    ];
    settled = held.settled;
  }

  -- The count of a node of the subgraph does not stay above 0.
  never_counted :
      (e : Engine) (id : NodeId) (entry : NodeEntry)
      → contains own id ≡ true
      → IsHeld own base e
      → lookup id e.graph.entries ≡ some entry
      → ¬ (nat_beq (entry.ref_count - 1) 0 ≡ false)
  never_counted e id entry m held h counted =
      let one = (held.inside id entry m h).0 in ground (arith, one, counted)

  deactivate_node-IsHeld :
      (fuel : ℕ) (e : Engine) (id : NodeId)
      → contains own id ≡ true
      → IsHeld own base e
      → IsHeld own base (deactivate_node fuel e id)
  unfolding deactivate_node
  deactivate_node-IsHeld zero e id m held = held
  deactivate_node-IsHeld (suc fuel) e id m held =
      deactivate_node_cases (IsHeld own base) fuel e id (λ _. held)
        (λ entry h counted. absurd (never_counted e id entry m held h counted))
        (λ entry h last.
          foldl-IsHeld (deactivate_node fuel) (deactivate_node-IsHeld fuel) entry.deps
            (held.inside id entry m h).1 (drop_node e id entry.kind)
            (drop_node-IsHeld e id entry.kind m held))

  deactivate-IsHeld :
      (e : Engine) (id : NodeId)
      → contains own id ≡ true
      → IsHeld own base e
      → IsHeld own base (deactivate e id)
  unfolding deactivate
  deactivate-IsHeld e id m held = deactivate_node-IsHeld (enough e) e id m held

  gone-deactivate :
      (e : Engine) (id : NodeId)
      → contains own id ≡ true
      → IsHeld own base e
      → lookup id (deactivate e id).graph.entries ≡ none
  unfolding deactivate enough drop_node
  gone-deactivate e id m held =
      let n = length e.graph.entries in
      deactivate_node_cases (λ e'. lookup id e'.graph.entries ≡ none) n e id (λ h. h)
        (λ entry h counted. absurd (never_counted e id entry m held h counted))
        (λ entry h last.
          foldl-StaysAbsent (deactivate_node n) (deactivate_node-StaysAbsent n) entry.deps
            (drop_node e id entry.kind) id
            (lookup-remove id id e.graph.entries ∙ rw (eq_refl id) refl))

  gone-deactivates :
      (ids : List NodeId) (e : Engine)
      → ((d : NodeId) → contains ids d ≡ true → contains own d ≡ true)
      → IsHeld own base e
      → (x : NodeId) → contains ids x ≡ true
      → lookup x (foldl deactivate e ids).graph.entries ≡ none
  unfolding contains deactivate
  gone-deactivates [] e within held x m = absurd (ground (arith, m))
  gone-deactivates (id ∷ ids) e within held x m =
      let first = within id (ground (arith, eq_refl id)) in
      elim (eq_cases id x) [
        | inl (same, q) ↦
            foldl-StaysAbsent deactivate (λ e' id'. deactivate_node-StaysAbsent (enough e') e' id')
              ids (deactivate e id) x
              (subst (λ y. lookup y (deactivate e id).graph.entries ≡ none) q
                (gone-deactivate e id first held))
        | inr (other, q) ↦
            gone-deactivates ids (deactivate e id) (λ d k. within d (ground (arith, k)))
              (deactivate-IsHeld e id first held) x (ground (arith, m, other))
      ]

contains-reverse : (ids : List NodeId) (x : NodeId) → contains (reverse ids) x ≡ contains ids x
unfolding contains
contains-reverse [] x = refl
contains-reverse (id ∷ ids) x =
    let later = contains-reverse ids x in
    let last = contains-snoc (reverse ids) id x in
    ap (λ xs. contains xs x) (reverse-cons id ids) ∙ last ∙ ground (arith, later)

-- The registry, the values and the active nodes are what they were.
pub record IsBack (base e : Engine) (x : NodeId) : Type 0 where
  pub registered : lookup x e.graph.entries ≡ lookup x base.graph.entries
  pub value : lookup x (values e) ≡ lookup x (values base)
  pub active : contains e.active x ≡ contains base.active x

-- A node is not registered, has no value and is not active.
abbrev pub IsNew : Engine → NodeId → Type 0
IsNew e x =
    (lookup x e.graph.entries ≡ none) × (lookup x (values e) ≡ none) × (contains e.active x ≡ false)

-- Removal of all nodes of the subgraph takes back the merge.
restored :
    (own : List NodeId) (base e : Engine)
    → ((x : NodeId) → contains own x ≡ true → IsNew base x)
    → IsHeld own base e
    → (x : NodeId) → IsBack base (remove_all e own) x
unfolding remove_all
restored own base e fresh held x =
    let within : (d : NodeId) → contains (reverse own) d ≡ true → contains own d ≡ true =
      λ d m. sym (contains-reverse own d) ∙ m in
    let after = foldl-IsHeld deactivate deactivate-IsHeld (reverse own) within e held in
    elim (Bool-cases (contains own x)) [
      | inl m ↦
          let gone = gone-deactivates (reverse own) e within held x (contains-reverse own x ∙ m) in
          let none_left = after.absent x m gone in
          let new = fresh x m in
          record {
            registered = gone ∙ sym new.0;
            value = none_left.0 ∙ sym new.1;
            active = none_left.1 ∙ sym new.2;
          }
      | inr m ↦
          let same = after.outside x m in
          record { registered = same.0; value = same.1; active = same.2 }
    ]

-- The drop of the handle has its effect in the next call of the engine.
dropped :
    (own : List NodeId) (base e : Engine)
    → ((x : NodeId) → contains own x ≡ true → IsNew base x)
    → IsHeld own base e
    → (x : NodeId)
    → IsBack base (drain_pending_removals (drop_handle e (record { node_ids = own }))) x
unfolding drop_handle drain_pending_removals contains
dropped [] base e fresh held x =
    let same = (drain_pending-IsHeld e held).outside x refl in
    record { registered = same.0; value = same.1; active = same.2 }
dropped (id ∷ ids) base e fresh held x =
    subst
      (λ removals.
        IsBack base
          (foldl remove_all (record e { pending_removals = [] }) (removals ++ (id ∷ ids) ∷ [])) x)
      (sym held.settled)
      (restored (id ∷ ids) base (record e { pending_removals = [] }) fresh
        (kept-IsHeld refl refl refl (sym held.settled) held) x)

-- A subgraph is merged and its handle is dropped. When the next call of the engine has carried out the
-- pending removals, with which it begins, the registry, the values and the active nodes are as they were
-- before the merge; of what the call does after that nothing is said. No removal was pending, the nodes of
-- the subgraph are those of its descriptors, one for each node, each stands behind its dependencies, and
-- none of them was registered, had a value or was active before.
pub drop_handle-merge :
    (e : Engine) (s : Subgraph)
    → e.pending_removals ≡ []
    → s.node_ids ≡ ids_of s.descriptors
    → ((x : NodeId) → descriptors_of x s.descriptors ≤ 1)
    → ((x : NodeId) → contains (ids_of s.descriptors) x ≡ true → IsNew e x)
    → is_contained [] s.descriptors ≡ true
    → (x : NodeId) → IsBack e (drain_pending_removals (drop_handle (merge e s).0 (merge e s).1)) x
unfolding merge merge_nodes drain_pending_removals
drop_handle-merge e s settled named once fresh within x =
    let same : drain_pending_removals e ≡ e =
      ap (λ removals. foldl remove_all (record e { pending_removals = [] }) removals) settled
      ∙ ap (λ removals. record e { pending_removals = removals }) (sym settled) in
    let after : List NodeId → Engine → Engine = λ ids e'. drain_pending_removals (
      drop_handle (foldl activate_if_sink (foldl register e' s.descriptors) ids)
        (record { node_ids = ids })) in
    let moved : after (ids_of s.descriptors) e ≡ after s.node_ids (drain_pending_removals e) = sym (
      ap (λ ids. after ids (drain_pending_removals e)) named
      ∙ ap (after (ids_of s.descriptors)) same) in
    subst (λ e'. IsBack e e' x) moved
      (dropped (ids_of s.descriptors) e
        (foldl activate_if_sink (foldl register e s.descriptors) (ids_of s.descriptors)) fresh
        (merged-IsHeld e s.descriptors settled once (λ y m. (fresh y m).0) within) x)
