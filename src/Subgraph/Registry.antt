-- ===== src/Subgraph/Registry.antt =====
-- Registration: the first registration of a node fixes its entry, and the later ones are counted.
use reactive_graph_experimen.Base.{
  ℕ, ◌+◌, ◌≡◌, refl, ◌∙◌, ap, inl, inr, if◌then◌else◌, Option, none, some, List, [], ◌∷◌, foldl,
  arith, lookup, insert, lookup-insert, eq_cases, ◌==◌, Option-cases,
}
use reactive_graph_experimen.NodeRef.{NodeId, id_eq}
use reactive_graph_experimen.Graph.{NodeEntry, register_node}
use reactive_graph_experimen.Engine.{Engine}
use reactive_graph_experimen.Subgraph.{NodeDescriptor, register}

-- How many of the descriptors are for `x`.
abbrev pub descriptors_of : NodeId → List NodeDescriptor → ℕ
descriptors_of x [] = 0
descriptors_of x (d ∷ ds) = (if d.id == x then 1 else 0) + descriptors_of x ds

-- The first descriptor for `x`.
abbrev pub first_for : NodeId → List NodeDescriptor → Option NodeDescriptor
first_for x [] = none
first_for x (d ∷ ds) = if d.id == x then some d else first_for x ds

-- The entry of `x` after the descriptors were registered, given the entry before: an old entry is
-- kept, and otherwise the first descriptor gives the new one; each descriptor counts once.
abbrev pub entry_after : NodeId → Option NodeEntry → List NodeDescriptor → Option NodeEntry
entry_after x (some entry) ds =
    some (record entry { ref_count = entry.ref_count + descriptors_of x ds })
entry_after x none ds = elim (first_for x ds) [
  | none ↦ none
  | some d ↦ some (record {
    id = d.id;
    kind = d.kind;
    deps = d.deps;
    ref_count = descriptors_of x ds;
    node_impl = d.node_impl;
  })
]

module _ (e : Engine) (d : NodeDescriptor) where
  pub register_old :
      (entry : NodeEntry)
      → lookup d.id e.graph.entries ≡ some entry
      → (register e d).graph.entries
        ≡ insert d.id (record entry { ref_count = entry.ref_count + 1 }) e.graph.entries
  unfolding register register_node
  register_old entry h = rw (h, register, register_node) refl

  pub register_new :
      lookup d.id e.graph.entries ≡ none
      → (register e d).graph.entries
        ≡ insert d.id
            (record {
              id = d.id;
              kind = d.kind;
              deps = d.deps;
              ref_count = 1;
              node_impl = d.node_impl;
            })
            e.graph.entries
  unfolding register register_node
  register_new h = rw (h, register, register_node) refl

  lookup-register :
      (x : NodeId)
      → lookup x (register e d).graph.entries ≡ entry_after x (lookup x e.graph.entries) (d ∷ [])
  lookup-register x = elim (Option-cases (lookup d.id e.graph.entries)) [
    | inl h ↦
        rw (register_new h, lookup-insert)
          (elim (eq_cases d.id x) [
            | inl (same, q) ↦ ground (arith, ap (λ k. lookup k e.graph.entries) q)
            | inr (other, q) ↦ ground (arith, Option-cases (lookup x e.graph.entries))
          ])
    | inr (entry, h) ↦
        rw (register_old entry h, lookup-insert)
          (elim (eq_cases d.id x) [
            | inl (same, q) ↦ ground (arith, ap (λ k. lookup k e.graph.entries) q)
            | inr (other, q) ↦ ground (arith, Option-cases (lookup x e.graph.entries))
          ])
  ]

entry_after-cons :
    (x : NodeId) (old : Option NodeEntry) (d : NodeDescriptor) (ds : List NodeDescriptor)
    → entry_after x (entry_after x old (d ∷ [])) ds ≡ entry_after x old (d ∷ ds)
entry_after-cons x (some entry) d ds = ground arith
entry_after-cons x none d ds = ground arith

-- After a subgraph's descriptors were registered every entry is as `entry_after` says.
pub lookup-register_all :
    (ds : List NodeDescriptor) (e : Engine) (x : NodeId)
    → lookup x (foldl register e ds).graph.entries ≡ entry_after x (lookup x e.graph.entries) ds
lookup-register_all [] e x = ground (arith, Option-cases (lookup x e.graph.entries))
lookup-register_all (d ∷ ds) e x =
    lookup-register_all ds (register e d) x
    ∙ (rw (lookup-register e d x) (entry_after-cons x (lookup x e.graph.entries) d ds))
