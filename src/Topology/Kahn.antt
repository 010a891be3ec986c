-- ===== src/Topology/Kahn.antt =====
-- The loop of `Topology::topo_sort`: what it keeps, on a topology whose two maps mirror one another.
use reactive_graph_experimen.Base.{
  ℕ, ◌+◌, ◌-◌, ◌≡◌, refl, ◌∙◌, ap, inl, inr, true, false, not, if◌then◌else◌, Option, none, some,
  List, [], ◌∷◌, ◌++◌, foldl, arith, contains, count, length, count-snoc, retain, contains-snoc,
  ◌&&◌, eq_refl, eq_cases, lookup, insert, lookup-insert, nat_beq, Map, contains_iff, Bool-cases,
}
use reactive_graph_experimen.NodeRef.{NodeId, id_eq, id_beq_iff}
use reactive_graph_experimen.Topology.{Topology, list_at, dirty_dep_count, Sort, relax, sort_round}
use reactive_graph_experimen.Topology.Mirror.{IsMirror}

-- The dirty dependencies that are not sorted yet.
abbrev pub pending : List NodeId → List NodeId → List NodeId → ℕ
pending dirty sorted ids = length (retain (λ d. contains dirty d && not (contains sorted d)) ids)

pending-snoc :
    (dirty sorted : List NodeId) (node : NodeId) (ids : List NodeId)
    → contains dirty node ≡ true
    → contains sorted node ≡ false
    → pending dirty (sorted ++ node ∷ []) ids + count node ids ≡ pending dirty sorted ids
unfolding count
pending-snoc dirty sorted node [] m new = omega arith
pending-snoc dirty sorted node (d ∷ ds) m new = elim (eq_cases d node) [
  | inl (same, q) ↦ rw q (
      ground (
        arith,
        pending-snoc dirty sorted node ds m new,
        contains-snoc sorted node node,
        eq_refl node,
      ))
  | inr (other, q) ↦ ground (
    arith,
    pending-snoc dirty sorted node ds m new,
    contains-snoc sorted node d,
    id_beq_iff node d,
  )
]

pub pending-nil : (dirty ids : List NodeId) → pending dirty [] ids ≡ dirty_dep_count dirty ids
unfolding dirty_dep_count contains
pending-nil dirty [] = refl
pending-nil dirty (d ∷ ds) = ground (arith, pending-nil dirty ds)

-- 1 if the node has its in-degree at 0, and 0 otherwise.
abbrev pub settled : Map NodeId ℕ → NodeId → ℕ
settled m x = elim (lookup x m) [ none ↦ 0 | some deg ↦ if nat_beq deg 0 then 1 else 0 ]

module _ (t : Topology) (dirty : List NodeId) where
  abbrev pub expected : (List NodeId) → List NodeId → NodeId → Option ℕ
  expected sorted rest x =
      if contains dirty x
      then some (pending dirty sorted (list_at x t.deps) + count x rest)
      else none

  -- `rest` are the dependents of the last sorted node that are still to be relaxed.
  pub record Inv (rest : List NodeId) (s : Sort) : Type 0 where
    pub degree : (x : NodeId) → lookup x s.in_degree ≡ expected s.sorted rest x
    pub placed : (x : NodeId) → count x s.queue + count x s.sorted ≡ settled s.in_degree x

  sorted-relax : (s : Sort) (dep : NodeId) → (relax s dep).sorted ≡ s.sorted
  unfolding relax
  sorted-relax s dep = ground arith

  relax_out : (s : Sort) (dep : NodeId) → lookup dep s.in_degree ≡ none → relax s dep ≡ s
  unfolding relax
  relax_out s dep e = rw (e, relax) refl

  relax_in :
      (s : Sort) (dep : NodeId) (deg : ℕ)
      → lookup dep s.in_degree ≡ some deg
      → relax s dep ≡ record {
        in_degree = insert dep (deg - 1) s.in_degree;
        queue = if nat_beq (deg - 1) 0 then s.queue ++ dep ∷ [] else s.queue;
        sorted = s.sorted;
      }
  unfolding relax
  relax_in s dep deg e = rw (e, relax) refl

  module _ (s : Sort) (dep : NodeId) (rest : List NodeId) (inv : Inv (dep ∷ rest) s) where
    Inv-relax_in : (m : contains dirty dep ≡ true) → Inv rest (relax s dep)
    unfolding count
    Inv-relax_in m = rw (relax_in s dep deg at_dep) (record {
      degree = λ x. elim (eq_cases dep x) [
        | inl (same, q) ↦
            rw (← q) (ground (arith, lookup-insert dep dep (deg - 1) s.in_degree, eq_refl dep))
        | inr (other, q) ↦ ground (arith, lookup-insert dep x (deg - 1) s.in_degree, inv.degree x)
      ];
      placed = λ x. elim (eq_cases dep x) [
        | inl (same, q) ↦ rw (← q) (
            ground (
              arith,
              lookup-insert dep dep (deg - 1) s.in_degree,
              eq_refl dep,
              inv.placed dep,
              at_dep,
              count-snoc dep s.queue dep,
            ))
        | inr (other, q) ↦ ground (
          arith,
          lookup-insert dep x (deg - 1) s.in_degree,
          inv.placed x,
          count-snoc x s.queue dep,
        )
      ];
    })
      where
        deg : ℕ
        deg = pending dirty s.sorted (list_at dep t.deps) + count dep (dep ∷ rest)

        at_dep : lookup dep s.in_degree ≡ some deg
        at_dep = inv.degree dep ∙ (rw m refl)

    Inv-relax : Inv rest (relax s dep)
    unfolding count
    Inv-relax = elim (Bool-cases (contains dirty dep)) [
      | inl m ↦ Inv-relax_in m
      | inr m ↦ rw (relax_out s dep (ground (arith, inv.degree dep))) (record {
        degree = λ x. ground (arith, inv.degree x, id_beq_iff dep x);
        placed = λ x. inv.placed x;
      })
    ]

  Inv-relaxes : (rest : List NodeId) (s : Sort) → Inv rest s → Inv [] (foldl relax s rest)
  Inv-relaxes [] s inv = inv
  Inv-relaxes (dep ∷ rest) s inv = Inv-relaxes rest (relax s dep) (Inv-relax s dep rest inv)

  sorted-relaxes : (ds : List NodeId) (s : Sort) → (foldl relax s ds).sorted ≡ s.sorted
  sorted-relaxes [] s = refl
  sorted-relaxes (d ∷ ds) s = sorted-relaxes ds (relax s d) ∙ sorted-relax s d

  -- The node at the head of the queue is dirty, was not sorted before, and waits for nothing.
  pub record IsNext (s : Sort) (node : NodeId) : Type 0 where
    pub is_dirty : contains dirty node ≡ true
    pub is_new : contains s.sorted node ≡ false
    pub is_ready : pending dirty s.sorted (list_at node t.deps) ≡ 0

  pub Inv-IsNext :
      (s : Sort) (node : NodeId) (rest : List NodeId)
      → s.queue ≡ node ∷ rest
      → Inv [] s
      → IsNext s node
  unfolding count
  Inv-IsNext s node rest e inv = ground (
    arith,
    inv.placed node,
    inv.degree node,
    ap (count node) e,
    eq_refl node,
    contains_iff s.sorted node,
  )

  pub sorted-sort_round :
      (s : Sort) (node : NodeId) (rest : List NodeId)
      → (sort_round t s node rest).sorted ≡ s.sorted ++ node ∷ []
  unfolding sort_round
  sorted-sort_round s node rest = sorted-relaxes (list_at node t.dependents) _

  module _ (mirror : IsMirror t) where
    pub Inv-sort_round :
        (s : Sort) (node : NodeId) (rest : List NodeId)
        → s.queue ≡ node ∷ rest
        → Inv [] s
        → Inv [] (sort_round t s node rest)
    unfolding sort_round count
    Inv-sort_round s node rest e inv = Inv-relaxes (list_at node t.dependents) _ (record {
      degree = λ x. ground (
        arith,
        inv.degree x,
        mirror node x,
        pending-snoc dirty s.sorted node (list_at x t.deps) is_dirty is_new,
      );
      placed = λ x. omega (arith, inv.placed x, ap (count x) e, count-snoc x s.sorted node);
    })
      where
        open (Inv-IsNext s node rest e inv) use {is_dirty, is_new}
