-- ===== src/Builder/Trait/Wired.antt =====
-- Nodes that the trait-based builder of compute nodes makes.
use reactive_graph_experimen.Base.{
  ℕ, ◌≡◌, ◌↔◌, ◌≢◌, ◌∙◌, ap, refl, Option, none, some, List, [], ◌∷◌, ◌++◌, append_assoc,
  append-nil, lookup, arith, subst, length, ◌≤◌, ◌<◌,
}
use reactive_graph_experimen.NodeRef.{NodeRef, id_eq}
use reactive_graph_experimen.ValueStore.{ValueStore}
use reactive_graph_experimen.Graph.{NodeEntry, NodeKind, Graph, register_node}
use reactive_graph_experimen.Builder.{make_ref}
use reactive_graph_experimen.Builder.Arguments.{typed_values, boxed_result, ids, outputs}
use reactive_graph_experimen.Builder.Trait.{ComputeNode, peel, when_wired, graph_arity}
use reactive_graph_experimen.Builder.Trait.Compute.{
  TraitComputeBuilder, new, dep, build, make_node_impl,
}
use reactive_graph_experimen.Builder.Wired.{extract_and_call-typed_values, lookup-register_node}

-- `Remaining` after a list of calls of `dep`.
unfoldable pub peel_all : List ℕ → List NodeRef → Option (List ℕ)
unfolding peel
peel_all types [] = some types
peel_all types (r ∷ refs) = elim (peel graph_arity types r) [
  | none ↦ none
  | some rest ↦ peel_all rest refs
]

peel_all-outputs :
    (refs : List NodeRef)
    → length (outputs refs) ≤ graph_arity
    → peel_all (outputs refs) refs ≡ some []
unfolding peel_all peel
peel_all-outputs [] few = refl
peel_all-outputs (r ∷ refs) few =
    let later = peel_all-outputs refs (omega (arith, few)) in ground (arith, few, later)

outputs-of_peel_all :
    (types : List ℕ) (refs : List NodeRef)
    → peel_all types refs ≡ some []
    → (types ≡ outputs refs) × (length types ≤ graph_arity)
unfolding peel_all peel
outputs-of_peel_all [] [] q = (refl, omega arith)
outputs-of_peel_all (t ∷ ts) [] q = ground (arith, q)
outputs-of_peel_all [] (r ∷ refs) q = ground (arith, q)
outputs-of_peel_all (t ∷ ts) (r ∷ refs) q = ground (arith, q, outputs-of_peel_all ts refs)

when_wired-nil :
    {A : Type 0} (inputs : List ℕ) (a : A) → 0 < length inputs → when_wired inputs [] a ≡ some a
unfolding when_wired
when_wired-nil [] a h = absurd (omega (arith, h))
when_wired-nil (i ∷ is) a h = refl

when_wired-some :
    {A : Type 0} (inputs types : List ℕ) (a : A)
    → when_wired inputs types a ≢ none
    → (types ≡ []) × (0 < length inputs)
unfolding when_wired
when_wired-some [] types a h = absurd (h refl)
when_wired-some (i ∷ is) [] a h = (refl, omega arith)
when_wired-some (i ∷ is) (t ∷ ts) a h = absurd (h refl)

module _ {Key : Type 0} where
  -- `.dep(r1).dep(r2)..`; nothing if one of the calls does not type-check.
  unfoldable pub wire : TraitComputeBuilder Key → List NodeRef → Option (TraitComputeBuilder Key)
  unfolding dep
  wire b [] = some b
  wire b (r ∷ refs) = elim (dep b r) [ none ↦ none | some b' ↦ wire b' refs ]

  -- The whole of `add_compute(c).dep(r1)..build()`.
  unfoldable pub build_with :
      (Key → ℕ) → Graph → ComputeNode Key → List NodeRef → Option (Graph × NodeRef)
  unfolding wire new build
  build_with hash g c refs = elim (wire (new c) refs) [ none ↦ none | some b ↦ build hash b g ]

  -- What `build_with` returns where it type-checks.
  abbrev pub built : (Key → ℕ) → Graph → ComputeNode Key → List NodeRef → Graph × NodeRef
  built hash g c refs =
      let r : NodeRef = make_ref hash c.node.scope c.node.key c.node.output in
      ((register_node g r.id NodeKind.compute (ids refs) (make_node_impl c)).0, r)

  -- `wire` by the types alone.
  abbrev pub wired :
      TraitComputeBuilder Key → List NodeRef → Option (List ℕ) → Option (TraitComputeBuilder Key)
  wired b refs rest = elim rest [
    | none ↦ none
    | some types ↦ some (record b { dep_ids = b.dep_ids ++ ids refs; remaining = types })
  ]

  -- One step of `wire_lem`, by the result of the first `dep`.
  wire_step :
      (b : TraitComputeBuilder Key) (r : NodeRef) (refs : List NodeRef) (rest : Option (List ℕ))
      → peel graph_arity b.remaining r ≡ rest
      → ((b' : TraitComputeBuilder Key) → wire b' refs ≡ wired b' refs (peel_all b'.remaining refs))
      → wire b (r ∷ refs) ≡ wired b (r ∷ refs) (peel_all b.remaining (r ∷ refs))
  unfolding dep wire peel_all
  wire_step b r refs none q later = rw (q, wire, dep, peel_all) refl
  wire_step b r refs (some types) q later =
      let b' : TraitComputeBuilder Key = record b {
        dep_ids = b.dep_ids ++ r.id ∷ [];
        remaining = types;
      } in
      rw (q, wire, dep, peel_all)
        (later b'
          ∙ ap
              (λ all. elim (peel_all types refs) [
                | none ↦ none
                | some ts ↦ some (record b { dep_ids = all; remaining = ts })
              ])
              (append_assoc b.dep_ids (r.id ∷ []) (ids refs)))

  wire_lem :
      (b : TraitComputeBuilder Key) (refs : List NodeRef)
      → wire b refs ≡ wired b refs (peel_all b.remaining refs)
  unfolding wire peel_all
  wire_lem b [] = rw (append-nil b.dep_ids) refl
  wire_lem b (r ∷ refs) =
      wire_step b r refs (peel graph_arity b.remaining r) refl (λ b'. wire_lem b' refs)

  -- By the types alone.
  build_with_step :
      (hash : Key → ℕ) (g : Graph) (c : ComputeNode Key) (refs : List NodeRef)
      → build_with hash g c refs ≡ elim (peel_all c.inputs refs) [
        | none ↦ none
        | some rest ↦ when_wired c.inputs rest (built hash g c refs)
      ]
  unfolding build_with new build
  build_with_step hash g c refs =
      rw (wire_lem (new c) refs, build_with) (by_cases (peel_all c.inputs refs))
    where
      by_cases :
          (rest : Option (List ℕ))
          → elim (wired (new c) refs rest) [ none ↦ none | some b ↦ build hash b g ] ≡ elim rest [
            | none ↦ none
            | some types ↦ when_wired c.inputs types (built hash g c refs)
          ]
      by_cases none = refl
      by_cases (some types) = refl

  -- A node with one to eight inputs: the macros have no other instances.
  abbrev pub IsArity : ComputeNode Key → Type 0
  IsArity c = (0 < length c.inputs) × (length c.inputs ≤ graph_arity)

  build_with-built :
      (hash : Key → ℕ) (g : Graph) (c : ComputeNode Key) (refs : List NodeRef)
      → c.inputs ≡ outputs refs
      → IsArity c
      → build_with hash g c refs ≡ some (built hash g c refs)
  build_with-built hash g c refs same arity =
      let short = subst (λ types. length types ≤ graph_arity) same arity.1 in
      build_with_step hash g c refs
      ∙ rw (ap (λ types. peel_all types refs) same ∙ peel_all-outputs refs short)
          (when_wired-nil c.inputs (built hash g c refs) arity.0)

  -- One direction of `build_with-some_iff`, by the types that remain.
  inputs-of_rest :
      (hash : Key → ℕ) (g : Graph) (c : ComputeNode Key) (refs : List NodeRef)
      (rest : Option (List ℕ))
      → peel_all c.inputs refs ≡ rest
      → build_with hash g c refs ≢ none
      → (c.inputs ≡ outputs refs) × IsArity c
  inputs-of_rest hash g c refs none q present =
      absurd (present (build_with_step hash g c refs ∙ rw q refl))
  inputs-of_rest hash g c refs (some types) q present =
      let (wired, some_input) =
        when_wired-some c.inputs types (built hash g c refs)
          (λ gone. present (build_with_step hash g c refs ∙ rw q gone)) in
      let (same, few) = outputs-of_peel_all c.inputs refs (q ∙ ap some wired) in
      (same, (some_input, few))

  -- The calls `add_compute(c).dep(r1)..build()` type-check exactly where the references have the types
  -- of the inputs of the node, in their order, and there are one to eight; otherwise there is no node.
  pub build_with-some_iff :
      (hash : Key → ℕ) (g : Graph) (c : ComputeNode Key) (refs : List NodeRef)
      → (build_with hash g c refs ≢ none) ↔ ((c.inputs ≡ outputs refs) × IsArity c)
  build_with-some_iff hash g c refs = (
    inputs-of_rest hash g c refs (peel_all c.inputs refs) refl,
    λ fits gone. ground (arith, gone, build_with-built hash g c refs fits.0 fits.1),
  )

  -- Where the references have the types of the inputs of the node, one to eight, and its key is not registered, the
  -- node is built and registered with these references as dependencies, in order, and on every store
  -- its `compute` is the function of the node on the values of the references, read with their types,
  -- boxed with the output type of the node; it is nothing if one of these values is missing.
  pub lookup-build_with :
      (hash : Key → ℕ) (g : Graph) (c : ComputeNode Key) (refs : List NodeRef)
      → c.inputs ≡ outputs refs
      → IsArity c
      → lookup (make_ref hash c.node.scope c.node.key c.node.output).id g.entries ≡ none
      → (g' : Graph) × (r : NodeRef) × (entry : NodeEntry) × (build_with hash g c refs
          ≡ some (g', r))
        × (lookup r.id g'.entries ≡ some entry)
        × (entry.kind ≡ NodeKind.compute)
        × (entry.deps ≡ ids refs)
        × ((calls : ℕ) (store : ValueStore)
            → entry.node_impl.compute calls entry.deps store
              ≡ boxed_result c.node.output (c.compute calls) (typed_values store refs))
  unfolding make_node_impl
  lookup-build_with hash g c refs same few absent = (
    (built hash g c refs).0,
    (built hash g c refs).1,
    record {
      id = (built hash g c refs).1.id;
      kind = NodeKind.compute;
      deps = ids refs;
      ref_count = 1;
      node_impl = make_node_impl c;
    },
    build_with-built hash g c refs same few,
    lookup-register_node g (built hash g c refs).1.id NodeKind.compute (ids refs) (make_node_impl c)
        absent,
    refl,
    refl,
    λ calls store.
        rw (same) (extract_and_call-typed_values c.node.output (c.compute calls) store refs),
  )
