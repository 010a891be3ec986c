-- ===== src/Topology/Dirty.antt =====
-- `Topology::dirty_set` finds exactly the nodes downstream of the sources.
use reactive_graph_experimen.Base.{
  ℕ, zero, suc, ◌+◌, ◌≤◌, ◌≡◌, ◌↔◌, refl, ap, inl, inr, Bool, true, false, not, List, [], ◌∷◌, ◌++◌,
  foldl, arith, contains, count, length, length-append, count-snoc, retain, contains-append,
  contains-snoc, ◌||◌, ◌&&◌, ◌==◌, eq_refl, eq_cases, lookup, Map, contains_iff, List-cases,
  Bool-cases, IsOrder,
}
use reactive_graph_experimen.NodeRef.{NodeId, id_eq, id_beq_iff}
use reactive_graph_experimen.Topology.{
  Topology, list_at, Search, offer, dirty_round, dirty_loop, all_listed, dirty_fuel, dirty_search,
  dirty_set,
}

-- An edge of the propagation graph: `b` reads from `a`.
abbrev pub Feeds : Topology → NodeId → NodeId → Type 0
Feeds t a b = contains (list_at a t.dependents) b ≡ true

-- The transitive dependents of `sources`: the nodes at the end of a path of at least one edge.
pub data Downstream (t : Topology) (sources : List NodeId) : NodeId → Type 0 where
  direct :
      (a : NodeId) {b : NodeId} → contains sources a ≡ true → Feeds t a b → Downstream t sources b
  further :
      (a : NodeId) {b : NodeId} → Downstream t sources a → Feeds t a b → Downstream t sources b

-- One round over the dependents of a node.
module _ (x : NodeId) where
  dirty-offer :
      (s : Search) (d : NodeId) → contains (offer s d).dirty x ≡ (contains s.dirty x || (d == x))
  unfolding offer
  dirty-offer s d = elim (eq_cases d x) [
    | inl (t, q) ↦ rw q (ground (arith, contains-snoc s.dirty x x, eq_refl x))
    | inr (t, q) ↦ ground (arith, contains-snoc s.dirty d x)
  ]

  queue-offer :
      (s : Search) (d : NodeId)
      → contains (offer s d).queue x
        ≡ (contains s.queue x || ((d == x) && not (contains s.dirty x)))
  unfolding offer
  queue-offer s d = elim (eq_cases d x) [
    | inl (t, q) ↦ rw q (ground (arith, contains-snoc s.queue x x, eq_refl x))
    | inr (t, q) ↦ ground (arith, contains-snoc s.queue d x)
  ]

  dirty-offers :
      (ds : List NodeId) (s : Search)
      → contains (foldl offer s ds).dirty x ≡ (contains s.dirty x || contains ds x)
  unfolding contains
  dirty-offers [] s = ground arith
  dirty-offers (d ∷ ds) s = ground (arith, dirty-offers ds (offer s d), dirty-offer s d)

  queue-offers :
      (ds : List NodeId) (s : Search)
      → contains (foldl offer s ds).queue x
        ≡ (contains s.queue x || (contains ds x && not (contains s.dirty x)))
  unfolding contains
  queue-offers [] s = ground arith
  queue-offers (d ∷ ds) s =
      ground (arith, queue-offers ds (offer s d), dirty-offer s d, queue-offer s d)

-- The entries of `universe` that are not dirty yet.
abbrev pub unseen : List NodeId → List NodeId → ℕ
unseen dirty universe = length (retain (λ u. not (contains dirty u)) universe)

pub unseen-snoc :
    (dirty : List NodeId) (d : NodeId) (universe : List NodeId)
    → contains dirty d ≡ false
    → unseen (dirty ++ d ∷ []) universe + count d universe ≡ unseen dirty universe
unfolding count
unseen-snoc dirty d [] new = omega arith
unseen-snoc dirty d (u ∷ us) new = elim (eq_cases u d) [
  | inl (t, q) ↦
      rw q (ground (arith, unseen-snoc dirty d us new, contains-snoc dirty d d, eq_refl d))
  | inr (t, q) ↦ ground (arith, unseen-snoc dirty d us new, contains-snoc dirty d u, id_beq_iff d u)
]

pub unseen-le :
    (a b universe : List NodeId)
    → ((x : NodeId) → contains a x ≡ true → contains b x ≡ true)
    → unseen b universe ≤ unseen a universe
unseen-le a b [] sub = omega arith
unseen-le a b (u ∷ us) sub = ground (arith, unseen-le a b us sub, sub u)

-- Where nothing is unseen, all is seen.
pub contains_of_unseen :
    (a universe : List NodeId) (x : NodeId)
    → unseen a universe ≡ 0
    → contains universe x ≡ true
    → contains a x ≡ true
unfolding contains
contains_of_unseen a [] x none_left m = cc
contains_of_unseen a (u ∷ us) x none_left m = elim (eq_cases u x) [
  | inl (same, q) ↦ ground (arith, ap (contains a) q)
  | inr (other, q) ↦ ground (arith, contains_of_unseen a us x)
]

abbrev work : List NodeId → Search → ℕ
work universe s = unseen s.dirty universe + length s.queue

work-offer :
    (universe : List NodeId) (s : Search) (d : NodeId)
    → contains universe d ≡ true
    → work universe (offer s d) ≤ work universe s
unfolding offer
work-offer universe s d known = elim (Bool-cases (contains s.dirty d)) [
  | inl old ↦ rw old (omega arith)
  | inr new ↦ rw new (
      omega (
        arith,
        unseen-snoc s.dirty d universe new,
        (contains_iff universe d).0 known,
        length-append s.queue (d ∷ []),
      ))
]

work-offers :
    (universe ds : List NodeId) (s : Search)
    → ((x : NodeId) → contains ds x ≡ true → contains universe x ≡ true)
    → work universe (foldl offer s ds) ≤ work universe s
unfolding contains
work-offers universe [] s sub = omega arith
work-offers universe (d ∷ ds) s sub = omega (
  arith,
  work-offer universe s d (sub d (ground (arith, eq_refl d))),
  work-offers universe ds (offer s d) (λ x m. sub x (ground arith)),
)

all_listed_sup :
    (a x : NodeId) (m : Map NodeId (List NodeId))
    → contains (list_at a m) x ≡ true
    → contains (all_listed m) x ≡ true
unfolding list_at lookup all_listed contains
all_listed_sup a x [] h = h
all_listed_sup a x ((k, ids) ∷ m) h =
    ground (arith, contains-append ids (all_listed m) x, all_listed_sup a x m)

-- With fuel for its work the loop ends with an empty queue.
dirty_loop_ends :
    (t : Topology) (fuel : ℕ) (s : Search)
    → work (all_listed t.dependents) s ≤ fuel
    → (dirty_loop t fuel s).queue ≡ []
unfolding dirty_loop dirty_round
dirty_loop_ends t zero s h = elim (List-cases s.queue) [
  | inl e ↦ e
  | inr (x, rest, e) ↦ absurd (omega (arith, ap length e))
]
dirty_loop_ends t (suc fuel) s h = elim (List-cases s.queue) [
  | inl e ↦ rw (e, dirty_loop) e
  | inr (node, rest, e) ↦
      rw (e, dirty_loop)
        (dirty_loop_ends t fuel _ (
          omega (
            arith,
            ap length e,
            work-offers (all_listed t.dependents) (list_at node t.dependents)
                (record s { queue = rest }) (λ x. all_listed_sup node x t.dependents),
          )))
]

count-offer_le :
    (x : NodeId) (s : Search) (d : NodeId) → count x s.dirty ≤ 1 → count x (offer s d).dirty ≤ 1
unfolding offer
count-offer_le x s d h = elim (eq_cases d x) [
  | inl (t, q) ↦ rw q (ground (arith, count-snoc x s.dirty x, eq_refl x, contains_iff s.dirty x))
  | inr (t, q) ↦ ground (arith, count-snoc x s.dirty d)
]

count-offers_le :
    (x : NodeId) (ds : List NodeId) (s : Search)
    → count x s.dirty ≤ 1
    → count x (foldl offer s ds).dirty ≤ 1
count-offers_le x [] s h = h
count-offers_le x (d ∷ ds) s h = count-offers_le x ds (offer s d) (count-offer_le x s d h)

module _ (t : Topology) (sources : List NodeId) where
  abbrev seen : Search → NodeId → Bool
  seen s x = contains sources x || contains s.dirty x

  record Inv (s : Search) : Type 0 where
    queued : (x : NodeId) → contains s.queue x ≡ true → seen s x ≡ true
    sound : (x : NodeId) → contains s.dirty x ≡ true → Downstream t sources x
    closed :
        (a b : NodeId)
        → seen s a ≡ true
        → Feeds t a b
        → (contains s.queue a || contains s.dirty b) ≡ true
    once : (x : NodeId) → count x s.dirty ≤ 1

  Downstream-of_seen :
      (s : Search) (a b : NodeId) → Inv s → seen s a ≡ true → Feeds t a b → Downstream t sources b
  Downstream-of_seen s a b inv h f = elim (Bool-cases (contains sources a)) [
    | inl m ↦ direct a m f
    | inr m ↦ further a (inv.sound a (ground arith)) f
  ]

  module _ (s : Search) (node : NodeId) (rest : List NodeId) where
    dirty-round :
        (x : NodeId)
        → contains (dirty_round t s node rest).dirty x
          ≡ (contains s.dirty x || contains (list_at node t.dependents) x)
    unfolding dirty_round
    dirty-round x = dirty-offers x (list_at node t.dependents) (record s { queue = rest })

    queue-round :
        (x : NodeId)
        → contains (dirty_round t s node rest).queue x ≡ (
            contains rest x || (contains (list_at node t.dependents) x && not (contains s.dirty x)))
    unfolding dirty_round
    queue-round x = queue-offers x (list_at node t.dependents) (record s { queue = rest })

    count-round_le :
        (x : NodeId) → count x s.dirty ≤ 1 → count x (dirty_round t s node rest).dirty ≤ 1
    unfolding dirty_round
    count-round_le x = count-offers_le x (list_at node t.dependents) (record s { queue = rest })

    heads :
        s.queue ≡ node ∷ rest → (x : NodeId) → contains s.queue x ≡ ((node == x) || contains rest x)
    unfolding contains
    heads e x = rw e refl

    Inv-round : s.queue ≡ node ∷ rest → Inv s → Inv (dirty_round t s node rest)
    Inv-round e inv = record {
      queued = λ x m. ground (arith, dirty-round x, queue-round x, heads e x, inv.queued x);
      sound = λ x m. elim (Bool-cases (contains s.dirty x)) [
        | inl old ↦ inv.sound x old
        | inr new ↦
            Downstream-of_seen s node x inv
              (inv.queued node (ground (arith, heads e node, eq_refl node)))
              (ground (arith, dirty-round x))
      ];
      closed = λ a b m f. elim (eq_cases node a) [
        | inl (same, q) ↦
            ground (arith, dirty-round b, ap (λ c. contains (list_at c t.dependents) b) q)
        | inr (other, q) ↦
            ground (arith, dirty-round a, dirty-round b, queue-round a, heads e a, inv.closed a b)
      ];
      once = λ x. count-round_le x (inv.once x);
    }

  Inv-loop : (fuel : ℕ) (s : Search) → Inv s → Inv (dirty_loop t fuel s)
  unfolding dirty_loop
  Inv-loop zero s inv = inv
  Inv-loop (suc fuel) s inv = elim (List-cases s.queue) [
    | inl e ↦ rw (e, dirty_loop) inv
    | inr (node, rest, e) ↦
        rw (e, dirty_loop) (Inv-loop fuel (dirty_round t s node rest) (Inv-round s node rest e inv))
  ]

module _ (order : List NodeId → List NodeId) (ordered : IsOrder order) (t : Topology)
    (sources : List NodeId) where
  contains-order : (x : NodeId) → contains (order sources) x ≡ contains sources x
  contains-order x =
      ground (arith, contains_iff (order sources) x, contains_iff sources x, ordered sources x)

  Inv-search : Inv t sources (dirty_search order t sources)
  unfolding dirty_search contains count
  Inv-search = Inv-loop t sources (dirty_fuel t (order sources)) _ (record {
    queued = λ x m. ground (arith, contains-order x);
    sound = λ x m. cc;
    closed = λ a b m f. ground (arith, contains-order a);
    once = λ x. omega arith;
  })

  -- The loop ends by its test: the queue is empty.
  pub queue-dirty_search : (dirty_search order t sources).queue ≡ []
  unfolding dirty_search contains
  queue-dirty_search =
      dirty_loop_ends t (dirty_fuel t (order sources)) _ (unseen-le (all_listed t.dependents))
    where
      unseen-le :
          (us : List NodeId)
          → unseen [] us + length (order sources) ≤ length (order sources) + length us
      unseen-le [] = omega arith
      unseen-le (u ∷ us) = omega (arith, unseen-le us)

  not-contains-queue : (x : NodeId) → contains (dirty_search order t sources).queue x ≡ false
  unfolding contains
  not-contains-queue x = rw queue-dirty_search refl

  closed_end :
      (a b : NodeId)
      → seen t sources (dirty_search order t sources) a ≡ true
      → Feeds t a b
      → contains (dirty_search order t sources).dirty b ≡ true
  closed_end a b m f = ground (arith, Inv-search.closed a b m f, not-contains-queue a)

  complete :
      {y : NodeId} → Downstream t sources y → contains (dirty_search order t sources).dirty y ≡ true
  complete (direct a m f) = closed_end a _ (ground arith) f
  complete (further a d f) = closed_end a _ (ground (arith, complete d)) f

  -- A node is in the dirty set exactly when it is a transitive dependent of a source.
  pub dirty_set_iff :
      (x : NodeId) → (contains (dirty_set order t sources) x ≡ true) ↔ Downstream t sources x
  unfolding dirty_set
  dirty_set_iff x = (Inv-search.sound x, complete)

  pub count-dirty_set_le : (x : NodeId) → count x (dirty_set order t sources) ≤ 1
  unfolding dirty_set
  count-dirty_set_le x = Inv-search.once x
