-- ===== src/Topology/Rounds.antt =====
-- The rounds of the loop of `Topology::topo_sort`, on a topology whose maps need not be mirrored.
use reactive_graph_experimen.Base.{
  ℕ, zero, suc, ◌+◌, ◌≤◌, ◌<◌, ◌≡◌, refl, ap, ap₂, inl, inr, Bool, true, false, if◌then◌else◌,
  nat_beq, ◌-◌, insert, Option, none, some, List, [], ◌∷◌, ◌++◌, arith, map, foldl, contains,
  length, eq_refl, List-cases, lookup,
}
use reactive_graph_experimen.NodeRef.{NodeId, id_eq}
use reactive_graph_experimen.Topology.{
  Topology, list_at, Sort, relax, sort_round, sort_loop, sort_start, sort_rounds, rounds_from,
  total_rounds, topo_search,
}

sort_loop_done : (t : Topology) (fuel : ℕ) (s : Sort) → s.queue ≡ [] → sort_loop t fuel s ≡ s
unfolding sort_loop
sort_loop_done t zero s e = refl
sort_loop_done t (suc fuel) s e =
    ap
      (λ (queue : List NodeId). elim queue [
        | [] ↦ s
        | node ∷ rest ↦ sort_loop t fuel (sort_round t s node rest)
      ])
      e

-- Rounds after the end of the loop change nothing.
pub sort_loop_enough :
    (t : Topology) (fuel more : ℕ) (s : Sort)
    → fuel ≤ more
    → (sort_loop t fuel s).queue ≡ []
    → sort_loop t more s ≡ sort_loop t fuel s
unfolding sort_loop
sort_loop_enough t zero more s h e = sort_loop_done t more s e
sort_loop_enough t (suc fuel) zero s h e = absurd (omega arith)
sort_loop_enough t (suc fuel) (suc more) s h e = elim (List-cases s.queue) [
  | inl q ↦ rw (q, sort_loop) refl
  | inr (node, rest, q) ↦
      rw (q, sort_loop)
        (sort_loop_enough t fuel more (sort_round t s node rest) (omega arith)
          (rw (q, sort_loop) at e))
]

module _ (t : Topology) where
  total_cong :
      (n : ℕ) (ds : List NodeId)
      → ((d : NodeId) → contains ds d ≡ true → rounds_from t (suc n) d ≡ rounds_from t n d)
      → total_rounds (map (rounds_from t (suc n)) ds) ≡ total_rounds (map (rounds_from t n) ds)
  unfolding contains
  total_cong n [] h = refl
  total_cong n (d ∷ ds) h =
      ap₂ (λ k m. k + m) (h d (ground (arith, eq_refl d)))
        (total_cong n ds (λ c m. h c (ground (arith, m))))

  total-snoc :
      (n : ℕ) (xs : List NodeId) (x : NodeId)
      → total_rounds (map (rounds_from t n) (xs ++ x ∷ []))
        ≡ total_rounds (map (rounds_from t n) xs) + rounds_from t n x
  total-snoc n [] x = omega arith
  total-snoc n (y ∷ ys) x = omega (arith, total-snoc n ys x)

  abbrev weight : ℕ → Sort → ℕ
  weight n s = total_rounds (map (rounds_from t n) s.queue)

  weight-relax :
      (n : ℕ) (s : Sort) (d : NodeId) → weight n (relax s d) ≤ weight n s + rounds_from t n d
  unfolding relax
  weight-relax n s d = by_degree (lookup d s.in_degree)
    where
      by_zero :
          (b : Bool)
          → total_rounds (map (rounds_from t n) (if b then s.queue ++ d ∷ [] else s.queue))
            ≤ weight n s + rounds_from t n d
      by_zero true = omega (arith, total-snoc n s.queue d)
      by_zero false = omega arith

      by_degree :
          (found : Option ℕ)
          → weight n (elim found [
            | none ↦ s
            | some deg ↦ record {
              in_degree = insert d (deg - 1) s.in_degree;
              queue = if nat_beq (deg - 1) 0 then s.queue ++ d ∷ [] else s.queue;
              sorted = s.sorted;
            }
          ])
            ≤ weight n s + rounds_from t n d
      by_degree none = omega arith
      by_degree (some deg) = by_zero (nat_beq (deg - 1) 0)

  weight-relax_all :
      (n : ℕ) (ds : List NodeId) (s : Sort)
      → weight n (foldl relax s ds) ≤ weight n s + total_rounds (map (rounds_from t n) ds)
  weight-relax_all n [] s = omega arith
  weight-relax_all n (d ∷ ds) s =
      omega (arith, weight-relax n s d, weight-relax_all n ds (relax s d))

  module _ (rank : NodeId → ℕ)
      (descends : (a b : NodeId)
        → contains (list_at a t.dependents) b ≡ true
        → rank b < rank a) where
    rounds_from-suc :
        (n : ℕ) (x : NodeId) → rank x ≤ n → rounds_from t (suc n) x ≡ rounds_from t n x
    unfolding rounds_from contains
    rounds_from-suc zero x h = elim (List-cases (list_at x t.dependents)) [
      | inl e ↦ rw e refl
      | inr (b, bs, e) ↦ absurd (omega (arith, descends x b (rw e (ground (arith, eq_refl b)))))
    ]
    rounds_from-suc (suc n) x h =
        ap (λ k. 1 + k)
          (total_cong n (list_at x t.dependents)
            (λ d m. rounds_from-suc n d (omega (arith, descends x d m))))

    weight-sort_round :
        (n : ℕ) (s : Sort) (node : NodeId) (rest : List NodeId)
        → rank node ≤ n
        → s.queue ≡ node ∷ rest
        → weight n (sort_round t s node rest) < weight n s
    unfolding sort_round rounds_from
    weight-sort_round n s node rest h e = omega (
      arith,
      weight-relax_all n (list_at node t.dependents)
          (record s { queue = rest; sorted = s.sorted ++ node ∷ [] }),
      rounds_from-suc n node h,
      ap (λ q. total_rounds (map (rounds_from t n) q)) e,
    )

    module _ (n : ℕ) (bounded : (x : NodeId) → rank x ≤ n) where
      sort_loop_ends_by :
          (fuel : ℕ) (s : Sort) → weight n s ≤ fuel → (sort_loop t fuel s).queue ≡ []
      unfolding sort_loop
      sort_loop_ends_by zero s h = elim (List-cases s.queue) [
        | inl e ↦ e
        | inr (node, rest, e) ↦
            absurd (omega (arith, weight-sort_round n s node rest (bounded node) e))
      ]
      sort_loop_ends_by (suc fuel) s h = elim (List-cases s.queue) [
        | inl e ↦ rw (e, sort_loop) e
        | inr (node, rest, e) ↦
            rw (e, sort_loop)
              (sort_loop_ends_by fuel (sort_round t s node rest)
                (omega (arith, weight-sort_round n s node rest (bounded node) e)))
      ]

-- The loop of `topo_sort` ends by its own test on any topology, mirrored or not, on which a rank falls
-- along the dependents and is at most the number of dirty nodes.
pub queue-topo_search_ranked :
    (order : List NodeId → List NodeId) (t : Topology) (dirty : List NodeId) (rank : NodeId → ℕ)
    → ((a b : NodeId) → contains (list_at a t.dependents) b ≡ true → rank b < rank a)
    → ((x : NodeId) → rank x ≤ length dirty)
    → (topo_search order t dirty).queue ≡ []
unfolding topo_search sort_rounds
queue-topo_search_ranked order t dirty rank descends bounded =
    sort_loop_ends_by t rank descends (length dirty) bounded _ (sort_start order t dirty)
      (omega arith)
