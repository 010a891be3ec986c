-- ===== src/Topology/Start.antt =====
-- `Topology::topo_sort` before its loop: the in-degrees and the first queue.
use reactive_graph_experimen.Base.{
  ℕ, ◌≡◌, refl, inl, inr, Bool, false, if◌then◌else◌, none, some, List, [], ◌∷◌, foldl, arith,
  contains, count, count-retain, ◌||◌, ◌==◌, eq_refl, eq_cases, lookup, keys, lookup-insert, Map,
  contains_iff, Option-cases, IsOrder, IsKeyed, insert-IsKeyed, contains_key,
}
use reactive_graph_experimen.NodeRef.{NodeId, id_eq, id_beq_iff}
use reactive_graph_experimen.Topology.{
  Topology, list_at, dirty_dep_count, or_zero, init_degree, has_degree_zero, sort_start,
}
use reactive_graph_experimen.Topology.Kahn.{pending-nil, Inv}

module _ (t : Topology) (dirty : List NodeId) where
  abbrev degree_of : NodeId → ℕ
  degree_of x = dirty_dep_count dirty (list_at x t.deps)

  -- An entry of `in_degree` is there once its node was visited, with its degree.
  abbrev IsFilled : (NodeId → Bool) → Map NodeId ℕ → Type 0
  IsFilled visited m = (x : NodeId) → lookup x m ≡ (if visited x then some (degree_of x) else none)

  lookup-or_zero :
      (node x : NodeId) (m : Map NodeId ℕ)
      → lookup x (or_zero node m) ≡ (
          if node == x
          then (elim (lookup node m) [ none ↦ some 0 | some d ↦ some d ])
          else lookup x m)
  unfolding or_zero
  lookup-or_zero node x m = ground (arith, lookup-insert node x 0 m, id_beq_iff node x)

  init_degree_self :
      (visited : NodeId → Bool) (m : Map NodeId ℕ) (node : NodeId)
      → IsFilled visited m
      → lookup node (init_degree t dirty m node) ≡ some (degree_of node)
  unfolding init_degree list_at dirty_dep_count
  init_degree_self visited m node filled = elim (Option-cases (lookup node t.deps)) [
    | inl e ↦
        rw (e, init_degree, list_at)
          (ground (arith, lookup-or_zero node node m, eq_refl node, filled node))
    | inr (ids, e) ↦
        rw (e, init_degree, list_at)
          (ground (
            arith,
            lookup-insert node node (dirty_dep_count dirty ids) (or_zero node m),
            eq_refl node,
          ))
  ]

  init_degree_other :
      (m : Map NodeId ℕ) (node x : NodeId)
      → (node == x) ≡ false
      → lookup x (init_degree t dirty m node) ≡ lookup x m
  unfolding init_degree
  init_degree_other m node x other = elim (Option-cases (lookup node t.deps)) [
    | inl e ↦ rw (e, init_degree) (ground (arith, lookup-or_zero node x m))
    | inr (ids, e) ↦
        rw (e, init_degree)
          (ground (
            arith,
            lookup-insert node x (dirty_dep_count dirty ids) (or_zero node m),
            lookup-or_zero node x m,
          ))
  ]

  IsFilled-init_degree :
      (visited : NodeId → Bool) (m : Map NodeId ℕ) (node : NodeId)
      → IsFilled visited m
      → IsFilled (λ x. visited x || (node == x)) (init_degree t dirty m node)
  IsFilled-init_degree visited m node filled x = elim (eq_cases node x) [
    | inl (same, q) ↦
        rw (← q) (ground (arith, init_degree_self visited m node filled, eq_refl node))
    | inr (other, q) ↦ ground (arith, init_degree_other m node x other, filled x)
  ]

  IsFilled-init_degrees :
      (ds : List NodeId) (visited : NodeId → Bool) (m : Map NodeId ℕ)
      → IsFilled visited m
      → IsFilled (λ x. visited x || contains ds x) (foldl (init_degree t dirty) m ds)
  unfolding contains
  IsFilled-init_degrees [] visited m filled x = ground (arith, filled x)
  IsFilled-init_degrees (d ∷ ds) visited m filled x = ground (
    arith,
    IsFilled-init_degrees ds (λ y. visited y || (d == y)) (init_degree t dirty m d)
        (IsFilled-init_degree visited m d filled) x,
  )

  or_zero-IsKeyed : (d : NodeId) (m : Map NodeId ℕ) → IsKeyed m → IsKeyed (or_zero d m)
  unfolding or_zero
  or_zero-IsKeyed d m k = elim (Option-cases (lookup d m)) [
    | inl e ↦ rw (e, or_zero) (insert-IsKeyed d 0 m k)
    | inr (v, e) ↦ rw (e, or_zero) k
  ]

  init_degree-IsKeyed :
      (d : NodeId) (m : Map NodeId ℕ) → IsKeyed m → IsKeyed (init_degree t dirty m d)
  unfolding init_degree
  init_degree-IsKeyed d m k = elim (Option-cases (lookup d t.deps)) [
    | inl e ↦ rw (e, init_degree) (or_zero-IsKeyed d m k)
    | inr (ids, e) ↦ rw (e, init_degree) (insert-IsKeyed d _ (or_zero d m) (or_zero-IsKeyed d m k))
  ]

  init_degrees-IsKeyed :
      (ds : List NodeId) (m : Map NodeId ℕ) → IsKeyed m → IsKeyed (foldl (init_degree t dirty) m ds)
  init_degrees-IsKeyed [] m h = h
  init_degrees-IsKeyed (d ∷ ds) m h =
      init_degrees-IsKeyed ds (init_degree t dirty m d) (init_degree-IsKeyed d m h)

  module _ (order : List NodeId → List NodeId) (ordered : IsOrder order) where
    abbrev in_degrees : Map NodeId ℕ
    in_degrees = foldl (init_degree t dirty) [] (order dirty)

    in_degrees-IsFilled : IsFilled (contains dirty) in_degrees
    unfolding lookup
    in_degrees-IsFilled x = ground (
      arith,
      IsFilled-init_degrees (order dirty) (λ _. false) [] (λ _. refl) x,
      ordered dirty x,
      contains_iff dirty x,
      contains_iff (order dirty) x,
    )

    in_degrees-IsKeyed : IsKeyed in_degrees
    unfolding contains_key keys lookup count
    in_degrees-IsKeyed = init_degrees-IsKeyed (order dirty) [] (λ k. refl)

    pub Inv-sort_start : Inv t dirty [] (sort_start order t dirty)
    unfolding sort_start has_degree_zero count contains_key
    Inv-sort_start = record {
      degree = λ x. ground (arith, in_degrees-IsFilled x, pending-nil dirty (list_at x t.deps));
      placed = λ x. ground (
        arith,
        count-retain (has_degree_zero in_degrees) (order (keys in_degrees)) x,
        ordered (keys in_degrees) x,
        in_degrees-IsKeyed x,
      );
    }

    pub sorted-sort_start : (sort_start order t dirty).sorted ≡ []
    unfolding sort_start
    sorted-sort_start = refl
