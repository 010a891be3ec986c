-- ===== src/Engine/Cycle/Solution.antt =====
-- What a cycle is to achieve, apart from any order of execution: which values the nodes have, given
-- the values before and the dirty nodes.
use reactive_graph_experimen.Base.{
  ℕ, zero, suc, ◌<◌, ◌≡◌, refl, sym, ap, ◌∙◌, true, false, Option, none, some, List, lookup, arith,
  Map, if◌then◌else◌, contains, Bool-cases, ◌⊎◌, inl, inr,
}
use reactive_graph_experimen.NodeRef.{NodeId, id_eq}
use reactive_graph_experimen.ValueStore.{ValueStore, get_by_id}
use reactive_graph_experimen.Graph.{NodeKind, source, compute, sink, async_compute, NodeEntry}
use reactive_graph_experimen.Topology.{Topology, list_at}
use reactive_graph_experimen.Engine.Cycle.Outcome.{result_of, or_old}
use reactive_graph_experimen.Engine.Cycle.Consistent.{IsPure}

-- A dirty compute node depends on nothing but the nodes that the topology lists for it.
abbrev pub IsWired : Map NodeId NodeEntry → Topology → List NodeId → Type 0
IsWired entries t dirty =
    (x : NodeId) (entry : NodeEntry)
    → contains dirty x ≡ true
    → lookup x entries ≡ some entry
    → entry.kind ≡ compute
    → IsPure entry × (list_at x t.deps ≡ entry.deps)

-- Two stores have the same values at the dependencies of a node.
abbrev pub Agree : Topology → NodeId → ValueStore → ValueStore → Type 0
Agree t x store store' =
    (d : NodeId) → contains (list_at x t.deps) d ≡ true → get_by_id store d ≡ get_by_id store' d

-- The values after a cycle: a dirty node has the result on the values after the cycle, or keeps its
-- value where there is none, and every other node keeps its value.
abbrev pub IsSolution :
    Map NodeId NodeEntry → (dirty : List NodeId) → (before after : ValueStore) → Type 0
IsSolution entries dirty before after =
    (x : NodeId)
    → get_by_id after x ≡ (
        if contains dirty x
        then or_old (result_of entries 0 after x) (get_by_id before x)
        else get_by_id before x)

module _ (entries : Map NodeId NodeEntry) (t : Topology) (dirty : List NodeId)
    (wired : IsWired entries t dirty) where
  pub result_of_cong :
      (n n' : ℕ) (store store' : ValueStore) (x : NodeId)
      → contains dirty x ≡ true
      → Agree t x store store'
      → result_of entries n store x ≡ result_of entries n' store' x
  unfolding result_of
  result_of_cong n n' store store' x m agree = by_lookup (lookup x entries) refl
    where
      by_kind :
          (entry : NodeEntry)
          → lookup x entries ≡ some entry
          → (kind : NodeKind) → entry.kind ≡ kind
          → result_of entries n store x ≡ result_of entries n' store' x
      by_kind entry found compute q =
          let w = wired x entry m found q in
          rw (found, result_of, q) (w.0 n n' store store' (λ d m. agree d (rw (w.1) m)))
      by_kind entry found source q = rw (found, result_of, q) refl
      by_kind entry found sink q = rw (found, result_of, q) refl
      by_kind entry found async_compute q = rw (found, result_of, q) refl

      by_lookup :
          (o : Option NodeEntry)
          → lookup x entries ≡ o
          → result_of entries n store x ≡ result_of entries n' store' x
      by_lookup none q = rw (q, result_of) refl
      by_lookup (some entry) q = by_kind entry q entry.kind refl

  -- Without a cycle among the dependencies there is one solution at most.
  module _ (rank : NodeId → ℕ)
      (ranked : (a b : NodeId) → contains (list_at b t.deps) a ≡ true → rank a < rank b)
      (before one other : ValueStore) (first : IsSolution entries dirty before one)
      (second : IsSolution entries dirty before other) where
    solution_below : (n : ℕ) (x : NodeId) → rank x < n → get_by_id one x ≡ get_by_id other x
    solution_below zero x less = absurd (omega arith)
    solution_below (suc n) x less =
        first x
        ∙ by_dirty (λ d lower. solution_below n d lower) (Bool-cases (contains dirty x))
        ∙ sym (second x)
      where
        by_dirty :
            ((d : NodeId) → rank d < n → get_by_id one d ≡ get_by_id other d)
            → (contains dirty x ≡ true) ⊎ (contains dirty x ≡ false)
            → (if contains dirty x
                then or_old (result_of entries 0 one x) (get_by_id before x)
                else get_by_id before x)
              ≡ (if contains dirty x
                  then or_old (result_of entries 0 other x) (get_by_id before x)
                  else get_by_id before x)
        by_dirty later (inr out) = rw out refl
        by_dirty later (inl m) = rw m (
            ap (λ o. or_old o (get_by_id before x))
              (result_of_cong 0 0 one other x m
                (λ d dep. let lower = ranked d x dep in later d (omega (arith, lower, less)))))

    pub solution_unique : (x : NodeId) → get_by_id one x ≡ get_by_id other x
    solution_unique x = solution_below (suc (rank x)) x (omega arith)
