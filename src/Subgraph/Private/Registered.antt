-- ===== src/Subgraph/Private/Registered.antt =====
-- The registration of a subgraph that shares nothing with the engine.
use reactive_graph_experimen.Base.{
  ◌≤◌, ◌<◌, ◌≡◌, ◌⊎◌, refl, sym, ap, ◌∙◌, true, false, ◌||◌, inl, inr, Option, none, some, List, [],
  ◌∷◌, foldl, map, lookup, contains, arith, eq_cases, Option-cases, ◌≢◌,
}
use reactive_graph_experimen.NodeRef.{NodeId, id_eq}
use reactive_graph_experimen.Graph.{NodeEntry, register_node}
use reactive_graph_experimen.Engine.{Engine}
use reactive_graph_experimen.Engine.Quiet.{foldl-keeps}
use reactive_graph_experimen.Engine.Sound.Registering.{is_contained, all_in, contains-all_in}
use reactive_graph_experimen.Subgraph.{NodeDescriptor, register}
use reactive_graph_experimen.Subgraph.Registry.{
  descriptors_of, first_for, entry_after, lookup-register_all,
}
use reactive_graph_experimen.Subgraph.Private.{IsHeld, values}

abbrev pub ids_of : List NodeDescriptor → List NodeId
ids_of ds = map (λ d. d.id) ds

-- Registration writes no value.
values-register : (e : Engine) (d : NodeDescriptor) → values (register e d) ≡ values e
unfolding register register_node
values-register e d = elim (Option-cases (lookup d.id e.graph.entries)) [
  | inl h ↦ rw (h, register, register_node) refl
  | inr (entry, h) ↦ rw (h, register, register_node) refl
]

-- A descriptor is among the first ones for its node.
first_for-cases :
    (x : NodeId) (ds : List NodeDescriptor)
    → ((contains (ids_of ds) x ≡ false) × (first_for x ds ≡ none) × (descriptors_of x ds ≡ 0))
      ⊎ ((d : NodeDescriptor) × (contains (ids_of ds) x ≡ true)
          × (first_for x ds ≡ some d)
          × (0 < descriptors_of x ds))
unfolding contains
first_for-cases x [] = inl (refl, refl, refl)
first_for-cases x (d ∷ ds) = elim (eq_cases d.id x) [
  | inl (same, q) ↦ inr (d, rw same refl, rw same refl, rw same (omega arith))
  | inr (other, q) ↦ elim (first_for-cases x ds) [
    | inl (a, b, c) ↦ inl (rw other a, rw other b, rw other (omega (arith, c)))
    | inr (first, a, b, c) ↦ inr (first, rw other a, rw other b, rw other (omega (arith, c)))
  ]
]

-- The dependencies of a contained descriptor are known, or are nodes of the list.
deps-contained :
    (ds : List NodeDescriptor) (known : List NodeId) (x : NodeId) (d : NodeDescriptor) (y : NodeId)
    → is_contained known ds ≡ true
    → first_for x ds ≡ some d
    → contains d.deps y ≡ true
    → (contains known y || contains (ids_of ds) y) ≡ true
unfolding is_contained contains
deps-contained [] known x d y within first m = absurd (ground (arith, first))
deps-contained (d' ∷ ds) known x d y within first m =
    let both : (all_in known d'.deps ≡ true) × (is_contained (d'.id ∷ known) ds ≡ true) =
      ground (arith, within) in
    elim (eq_cases d'.id x) [
      | inl (same, q) ↦
          let found : first_for x (d' ∷ ds) ≡ some d' = rw same refl in
          let is_first : d' ≡ d = cc (found, first) in
          rw
            (contains-all_in known d'.deps y both.0
              (ap (λ (k : NodeDescriptor). contains k.deps y) is_first ∙ m))
            refl
      | inr (other, q) ↦
          let skipped : first_for x (d' ∷ ds) ≡ first_for x ds = rw other refl in
          let later = deps-contained ds (d'.id ∷ known) x d y both.1 (sym skipped ∙ first) m in
          ground (arith, later)
    ]

entry_after-none :
    (x : NodeId) (old : Option NodeEntry) (ds : List NodeDescriptor)
    → first_for x ds ≡ none
    → descriptors_of x ds ≡ 0
    → entry_after x old ds ≡ old
entry_after-none x none ds first zero_of = rw (first, entry_after) refl
entry_after-none x (some entry) ds first zero_of = rw (zero_of, entry_after) (ground arith)

module _ (e : Engine) (ds : List NodeDescriptor) (settled : e.pending_removals ≡ [])
    (once : (x : NodeId) → descriptors_of x ds ≤ 1)
    (fresh : (x : NodeId) → contains (ids_of ds) x ≡ true → lookup x e.graph.entries ≡ none)
    (within : is_contained [] ds ≡ true) where
  registered-outside :
      (x : NodeId)
      → contains (ids_of ds) x ≡ false
      → lookup x (foldl register e ds).graph.entries ≡ lookup x e.graph.entries
  registered-outside x m = lookup-register_all ds e x ∙ elim (first_for-cases x ds) [
    | inl (a, first, zero_of) ↦ entry_after-none x (lookup x e.graph.entries) ds first zero_of
    | inr (d, present, first, positive) ↦ absurd (ground (arith, m, present))
  ]

  -- The entry that a first registration makes.
  abbrev made : NodeId → NodeDescriptor → NodeEntry
  made x d = record {
    id = d.id;
    kind = d.kind;
    deps = d.deps;
    ref_count = descriptors_of x ds;
    node_impl = d.node_impl;
  }

  registered-inside :
      (x : NodeId) (entry : NodeEntry)
      → contains (ids_of ds) x ≡ true
      → lookup x (foldl register e ds).graph.entries ≡ some entry
      → (entry.ref_count ≡ 1)
        × ((y : NodeId) → contains entry.deps y ≡ true → contains (ids_of ds) y ≡ true)
  unfolding contains
  registered-inside x entry m h = elim (first_for-cases x ds) [
    | inl (absent, first, zero_of) ↦ absurd (ground (arith, m, absent))
    | inr (d, present, first, positive) ↦
        let after : entry_after x none ds ≡ some (made x d) = rw (first, entry_after) refl in
        let same : some entry ≡ some (made x d) =
          sym h
          ∙ lookup-register_all ds e x
          ∙ ap (λ old. entry_after x old ds) (fresh x m)
          ∙ after in
        let is_made : entry ≡ made x d = cc same in
        let bound = once x in
        (
          ap (λ (k : NodeEntry). k.ref_count) is_made ∙ omega (arith, bound, positive),
          λ y k.
              deps-contained ds [] x d y within first
                (ap (λ (n : NodeEntry). contains n.deps y) (sym is_made) ∙ k),
        )
  ]

  registered-present :
      (x : NodeId)
      → contains (ids_of ds) x ≡ true
      → lookup x (foldl register e ds).graph.entries ≢ none
  registered-present x m gone = elim (first_for-cases x ds) [
    | inl (absent, first, zero_of) ↦ absurd (ground (arith, m, absent))
    | inr (d, present, first, positive) ↦
        let after : entry_after x none ds ≡ some (made x d) = rw (first, entry_after) refl in
        let found =
          lookup-register_all ds e x ∙ ap (λ old. entry_after x old ds) (fresh x m) ∙ after in
        cc (found, gone)
  ]

  pub registered-IsHeld : IsHeld (ids_of ds) e (foldl register e ds)
  unfolding register
  registered-IsHeld = record {
    outside = λ x m. (
      registered-outside x m,
      ap (lookup x) (foldl-keeps values register values-register ds e),
      ap (λ ids. contains ids x)
          (foldl-keeps (λ (k : Engine). k.active) register (λ k d. refl) ds e),
    );
    inside = registered-inside;
    absent = λ x m gone. absurd (registered-present x m gone);
    settled =
        foldl-keeps (λ (k : Engine). k.pending_removals) register (λ k d. refl) ds e ∙ settled;
  }
