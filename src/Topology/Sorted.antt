-- ===== src/Topology/Sorted.antt =====
-- `Topology::topo_sort` on a mirrored topology: the rounds of its loop, the order of the result, and
-- the nodes in it.
use reactive_graph_experimen.Base.{
  ℕ, zero, suc, ◌≤◌, ◌<◌, ◌≡◌, refl, sym, ◌∙◌, ap, subst, inl, inr, true, false, not, if◌then◌else◌,
  List, [], ◌∷◌, ◌++◌, arith, contains, count, length, ◌&&◌, eq_refl, eq_cases, lookup, nat_beq,
  contains_iff, List-cases, Bool-cases, IsOrder, append_assoc, append-nil,
}
use reactive_graph_experimen.NodeRef.{NodeId, id_eq}
use reactive_graph_experimen.Topology.{
  Topology, list_at, Sort, sort_round, sort_loop, sort_start, sort_rounds, topo_search, topo_sort,
}
use reactive_graph_experimen.Topology.Mirror.{IsMirror}
use reactive_graph_experimen.Topology.Dirty.{unseen, unseen-snoc}
use reactive_graph_experimen.Topology.Kahn.{
  pending, Inv, Inv-IsNext, sorted-sort_round, Inv-sort_round,
}
use reactive_graph_experimen.Topology.Rounds.{sort_loop_enough}
use reactive_graph_experimen.Topology.Start.{Inv-sort_start, sorted-sort_start}

unseen-nil-le : (us : List NodeId) → unseen [] us ≤ length us
unfolding contains
unseen-nil-le [] = omega arith
unseen-nil-le (u ∷ us) = omega (arith, unseen-nil-le us)

-- A positive number of pending dependencies is one of them at least.
pending_pos :
    (dirty sorted ids : List NodeId)
    → 0 < pending dirty sorted ids
    → (d : NodeId) × (contains ids d ≡ true)
      × (contains dirty d ≡ true)
      × (contains sorted d ≡ false)
unfolding contains
pending_pos dirty sorted [] h = absurd (omega arith)
pending_pos dirty sorted (d ∷ ds) h =
    elim (Bool-cases (contains dirty d && not (contains sorted d))) [
      | inl now ↦ (d, ground (arith, eq_refl d), ground arith, ground arith)
      | inr later ↦
          let (c, m, p, q) = pending_pos dirty sorted ds (ground arith) in (c, ground arith, p, q)
    ]

pending_zero :
    (dirty sorted ids : List NodeId) (d : NodeId)
    → pending dirty sorted ids ≡ 0
    → contains ids d ≡ true
    → contains dirty d ≡ true
    → contains sorted d ≡ true
unfolding contains
pending_zero dirty sorted [] d z m p = cc
pending_zero dirty sorted (c ∷ cs) d z m p = elim (eq_cases c d) [
  | inl (same, q) ↦ ground (arith, ap (contains dirty) q, ap (contains sorted) q)
  | inr (other, q) ↦ ground (arith, pending_zero dirty sorted cs d)
]

module _ (t : Topology) (dirty : List NodeId) where
  -- All dirty dependencies of `x` are in `before`.
  abbrev pub Follows : List NodeId → NodeId → Type 0
  Follows before x =
      (d : NodeId)
      → contains (list_at x t.deps) d ≡ true
      → contains dirty d ≡ true
      → contains before d ≡ true

  abbrev InOrder : List NodeId → List NodeId → Type 0
  InOrder before [] = Unit {0}
  InOrder before (x ∷ xs) = Follows before x × InOrder (before ++ x ∷ []) xs

  InOrder-snoc :
      (before xs : List NodeId) (x : NodeId)
      → InOrder before xs
      → Follows (before ++ xs) x
      → InOrder before (xs ++ x ∷ [])
  InOrder-snoc before [] x h f = (rw append-nil at f, tt)
  InOrder-snoc before (y ∷ ys) x h f =
      (h.0, InOrder-snoc (before ++ y ∷ []) ys x h.1 (rw append_assoc f))

  InOrder-split :
      (before middle after : List NodeId) (x : NodeId)
      → InOrder before (middle ++ x ∷ after)
      → Follows (before ++ middle) x
  InOrder-split before [] after x h = rw append-nil h.0
  InOrder-split before (y ∷ ys) after x h =
      rw append_assoc at (InOrder-split (before ++ y ∷ []) ys after x h.1)

  module _ (mirror : IsMirror t) where
    record Good (s : Sort) : Type 0 where
      inv : Inv t dirty [] s
      in_order : InOrder [] s.sorted

    Good-round :
        (s : Sort) (node : NodeId) (rest : List NodeId)
        → s.queue ≡ node ∷ rest
        → Good s
        → Good (sort_round t s node rest)
    Good-round s node rest e g = record {
      inv = Inv-sort_round t dirty mirror s node rest e g.inv;
      in_order = rw (sorted-sort_round t dirty s node rest) (
          InOrder-snoc [] s.sorted node g.in_order (λ d.
            pending_zero dirty s.sorted (list_at node t.deps) d
              (Inv-IsNext t dirty s node rest e g.inv).is_ready));
    }

    Good-loop : (fuel : ℕ) (s : Sort) → Good s → Good (sort_loop t fuel s)
    unfolding sort_loop
    Good-loop zero s g = g
    Good-loop (suc fuel) s g = elim (List-cases s.queue) [
      | inl e ↦ rw (e, sort_loop) g
      | inr (node, rest, e) ↦
          rw (e, sort_loop) (Good-loop fuel (sort_round t s node rest) (Good-round s node rest e g))
    ]

    unseen-round :
        (s : Sort) (node : NodeId) (rest : List NodeId)
        → s.queue ≡ node ∷ rest
        → Good s
        → unseen (sort_round t s node rest).sorted dirty < unseen s.sorted dirty
    unseen-round s node rest e g =
        let next = Inv-IsNext t dirty s node rest e g.inv in
        rw (sorted-sort_round t dirty s node rest) (
          omega (
            arith,
            unseen-snoc s.sorted node dirty next.is_new,
            (contains_iff dirty node).0 next.is_dirty,
          ))

    sort_loop_ends :
        (fuel : ℕ) (s : Sort)
        → Good s
        → unseen s.sorted dirty ≤ fuel
        → (sort_loop t fuel s).queue ≡ []
    unfolding sort_loop
    sort_loop_ends zero s g h = elim (List-cases s.queue) [
      | inl e ↦ e
      | inr (node, rest, e) ↦ absurd (omega (arith, unseen-round s node rest e g))
    ]
    sort_loop_ends (suc fuel) s g h = elim (List-cases s.queue) [
      | inl e ↦ rw (e, sort_loop) e
      | inr (node, rest, e) ↦
          rw (e, sort_loop)
            (sort_loop_ends fuel (sort_round t s node rest) (Good-round s node rest e g)
              (omega (arith, unseen-round s node rest e g)))
    ]

module _ (order : List NodeId → List NodeId) (ordered : IsOrder order) (t : Topology)
    (mirror : IsMirror t) where
  module _ (dirty : List NodeId) where
    Good-sort_start : Good t dirty mirror (sort_start order t dirty)
    Good-sort_start = record {
      inv = Inv-sort_start t dirty order ordered;
      in_order = rw (sorted-sort_start t dirty order ordered) tt;
    }

    unseen-sort_start : unseen (sort_start order t dirty).sorted dirty ≤ length dirty
    unseen-sort_start = rw (sorted-sort_start t dirty order ordered) (unseen-nil-le dirty)

    abbrev rounds : ℕ
    rounds = sort_rounds t dirty (sort_start order t dirty)

    enough_rounds : length dirty ≤ rounds
    unfolding sort_rounds
    enough_rounds = omega arith

    Good-topo_search : Good t dirty mirror (topo_search order t dirty)
    unfolding topo_search
    Good-topo_search = Good-loop t dirty mirror rounds (sort_start order t dirty) Good-sort_start

    queue-sort_loop :
        (fuel : ℕ) → length dirty ≤ fuel → (sort_loop t fuel (sort_start order t dirty)).queue ≡ []
    queue-sort_loop fuel enough =
        sort_loop_ends t dirty mirror fuel (sort_start order t dirty) Good-sort_start
          (omega (arith, unseen-sort_start, enough))

    -- On a mirrored topology the queue of the loop of `topo_sort` is empty after as many rounds as
    -- there are dirty nodes, so the loop has ended by its own test, and more rounds change nothing.
    pub queue-topo_search :
        (fuel : ℕ)
        → length dirty ≤ fuel
        → ((topo_search order t dirty).queue ≡ [])
          × (sort_loop t fuel (sort_start order t dirty) ≡ topo_search order t dirty)
    unfolding topo_search
    queue-topo_search fuel enough = (
      queue-sort_loop rounds enough_rounds,
      sort_loop_enough t (length dirty) fuel (sort_start order t dirty) enough
            (queue-sort_loop (length dirty) (omega arith))
          ∙ sym (
              sort_loop_enough t (length dirty) rounds (sort_start order t dirty) enough_rounds
                (queue-sort_loop (length dirty) (omega arith))),
    )

  -- What holds of the variables of the loop at its end, for an empty dirty set too.
  record Ended (dirty : List NodeId) : Type 0 where
    last : Sort
    result : last.sorted ≡ topo_sort order t dirty
    empty : last.queue ≡ []
    good : Good t dirty mirror last

  topo_sort-Ended : (dirty : List NodeId) → Ended dirty
  unfolding topo_sort count contains lookup
  topo_sort-Ended [] = record {
    last = record { in_degree = []; queue = []; sorted = [] };
    result = refl;
    empty = refl;
    good = record { inv = record { degree = λ x. refl; placed = λ x. omega arith }; in_order = tt };
  }
  topo_sort-Ended (x ∷ xs) = record {
    last = topo_search order t (x ∷ xs);
    result = refl;
    empty = (queue-topo_search (x ∷ xs) (length (x ∷ xs)) (omega arith)).0;
    good = Good-topo_search (x ∷ xs);
  }

  module _ (dirty : List NodeId) where
    -- On a mirrored topology a node stands in the result behind all of its dirty dependencies.
    pub topo_sort-Follows :
        (before after : List NodeId) (x : NodeId)
        → topo_sort order t dirty ≡ before ++ x ∷ after
        → Follows t dirty before x
    topo_sort-Follows before after x e =
        InOrder-split t dirty [] before after x
          (subst (InOrder t dirty []) (ended.result ∙ e) ended.good.in_order)
      where
        ended : Ended dirty
        ended = topo_sort-Ended dirty

    sorted_cases :
        (x : NodeId) (s : Sort)
        → s.queue ≡ []
        → Inv t dirty [] s
        → count x s.sorted ≡ (
            if contains dirty x && nat_beq (pending dirty s.sorted (list_at x t.deps)) 0
            then 1
            else 0)
    unfolding count
    sorted_cases x s e inv = ground (arith, inv.placed x, inv.degree x, ap (count x) e)

    -- On a mirrored topology the result holds dirty nodes only, and each of them once at most.
    pub count-topo_sort-le :
        (x : NodeId) → count x (topo_sort order t dirty) ≤ (if contains dirty x then 1 else 0)
    count-topo_sort-le x =
        rw (← ended.result) (ground (arith, sorted_cases x ended.last ended.empty ended.good.inv))
      where
        ended : Ended dirty
        ended = topo_sort-Ended dirty

    -- On a mirrored topology a dirty node is left out only if it waits for a dirty dependency that is
    -- left out too.
    pub topo_sort_left_out :
        (x : NodeId)
        → contains dirty x ≡ true
        → contains (topo_sort order t dirty) x ≡ false
        → (d : NodeId) × (contains (list_at x t.deps) d ≡ true)
          × (contains dirty d ≡ true)
          × (contains (topo_sort order t dirty) d ≡ false)
    topo_sort_left_out x m out = rw (← ended.result) (
        pending_pos dirty ended.last.sorted (list_at x t.deps) (
          ground (
            arith,
            sorted_cases x ended.last ended.empty ended.good.inv,
            contains_iff ended.last.sorted x,
            ap (λ l. contains l x) ended.result,
          )))
      where
        ended : Ended dirty
        ended = topo_sort-Ended dirty

    module _ (rank : NodeId → ℕ)
        (ranked : (a b : NodeId) → contains (list_at b t.deps) a ≡ true → rank a < rank b) where
      descent :
          (n : ℕ) (x : NodeId)
          → rank x < n
          → contains dirty x ≡ true
          → contains (topo_sort order t dirty) x ≡ true
      descent zero x h m = absurd (omega arith)
      descent (suc n) x h m = elim (Bool-cases (contains (topo_sort order t dirty) x)) [
        | inl there ↦ there
        | inr out ↦
            let (d, dep, p, q) = topo_sort_left_out x m out in
            cc (descent n d (omega (arith, ranked d x dep)) p)
      ]

      -- On a mirrored topology without a cycle the result holds every dirty node exactly once, and no
      -- other node.
      pub count-topo_sort :
          (x : NodeId) → count x (topo_sort order t dirty) ≡ (if contains dirty x then 1 else 0)
      count-topo_sort x = ground (
        arith,
        count-topo_sort-le x,
        descent (suc (rank x)) x (omega arith),
        contains_iff (topo_sort order t dirty) x,
      )
