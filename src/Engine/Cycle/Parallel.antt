-- ===== src/Engine/Cycle/Parallel.antt =====
-- The parallel cycle achieves what a cycle is to achieve, and gives the values of the sequential one.
use reactive_graph_experimen.Base.{
  ℕ, ◌+◌, ◌≤◌, ◌<◌, ◌≡◌, refl, sym, ap, ◌∙◌, true, ◌||◌, Option, none, some, List, [], ◌∷◌, foldl,
  length, lookup, insert, lookup-insert, arith, if◌then◌else◌, ◌==◌, eq_cases, contains, count,
  contains_iff, count-snoc, length-append, set_insert, contains-set_insert, IsOrder, Map,
  Bool-cases, inl, inr,
}
use reactive_graph_experimen.NodeRef.{NodeId, id_eq}
use reactive_graph_experimen.ValueStore.{ValueStore}
use reactive_graph_experimen.Graph.{NodeEntry}
use reactive_graph_experimen.Topology.{Topology, list_at, dirty_dep_count}
use reactive_graph_experimen.Topology.Mirror.{IsMirror}
use reactive_graph_experimen.Scheduler.{Run, count_ready, begin_run, execute_parallel}
use reactive_graph_experimen.Engine.Cycle.Solution.{IsWired, IsSolution}
use reactive_graph_experimen.Engine.Cycle.Rounds.{Holds, waves_end}

count_ready_lem :
    (t : Topology) (dirty : List NodeId) (m : Map NodeId ℕ) (id : NodeId)
    → count_ready t dirty m id ≡ insert id (dirty_dep_count dirty (list_at id t.deps)) m
unfolding count_ready list_at dirty_dep_count
count_ready_lem t dirty m id = by_lookup (lookup id t.deps) refl
  where
    by_lookup :
        (o : Option (List NodeId))
        → lookup id t.deps ≡ o
        → count_ready t dirty m id ≡ insert id (dirty_dep_count dirty (list_at id t.deps)) m
    by_lookup none q = rw (q, count_ready, list_at) refl
    by_lookup (some ids) q = rw (q, count_ready, list_at) refl

lookup-count_readys :
    (t : Topology) (dirty ids : List NodeId) (m : Map NodeId ℕ) (x : NodeId)
    → lookup x (foldl (count_ready t dirty) m ids)
      ≡ (if contains ids x then some (dirty_dep_count dirty (list_at x t.deps)) else lookup x m)
unfolding contains
lookup-count_readys t dirty [] m x = refl
lookup-count_readys t dirty (id ∷ ids) m x =
    let later = lookup-count_readys t dirty ids (count_ready t dirty m id) x in
    let now : lookup x (count_ready t dirty m id)
        ≡ (if id == x then some (dirty_dep_count dirty (list_at id t.deps)) else lookup x m) =
      rw (count_ready_lem t dirty m id)
        (lookup-insert id x (dirty_dep_count dirty (list_at id t.deps)) m) in
    elim (eq_cases id x) [
      | inl (t', q) ↦
          let same = ap (λ z. some (dirty_dep_count dirty (list_at z t.deps))) q in
          ground (arith, later, now, t', same)
      | inr (t', q) ↦ ground (arith, later, now, t')
    ]

contains-set_inserts :
    (xs acc : List NodeId) (x : NodeId)
    → contains (foldl set_insert acc xs) x ≡ (contains acc x || contains xs x)
unfolding contains
contains-set_inserts [] acc x = ground arith
contains-set_inserts (y ∷ xs) acc x =
    ground (arith, contains-set_inserts xs (set_insert acc y) x, contains-set_insert acc y x)

count-set_inserts :
    (xs acc : List NodeId) (x : NodeId)
    → ((y : NodeId) → count y acc ≤ 1)
    → count x (foldl set_insert acc xs) ≤ 1
unfolding set_insert
count-set_inserts [] acc x once = once x
count-set_inserts (y ∷ xs) acc x once = count-set_inserts xs (set_insert acc y) x (λ z.
    let k = once z in
    let c = count-snoc z acc y in
    let i = contains_iff acc z in
    elim (eq_cases y z) [
      | inl (t, q) ↦ let same = ap (contains acc) q in ground (arith, k, c, i, t, same)
      | inr (f, q) ↦ ground (arith, k, c, f)
    ])

length-set_inserts :
    (xs acc : List NodeId) → length (foldl set_insert acc xs) ≤ length acc + length xs
unfolding set_insert
length-set_inserts [] acc = omega arith
length-set_inserts (y ∷ xs) acc =
    let later = length-set_inserts xs (set_insert acc y) in
    let l = length-append acc (y ∷ []) in ground (arith, later, l)

dirty_dep_count_ext :
    (xs ys deps : List NodeId)
    → ((d : NodeId) → contains xs d ≡ contains ys d)
    → dirty_dep_count xs deps ≡ dirty_dep_count ys deps
unfolding dirty_dep_count
dirty_dep_count_ext xs ys [] same = refl
dirty_dep_count_ext xs ys (d ∷ deps) same =
    let k = same d in ground (arith, k, dirty_dep_count_ext xs ys deps same)

module _ (order : List NodeId → List NodeId) (ordered : IsOrder order)
    (entries : Map NodeId NodeEntry) (t : Topology) (mirror : IsMirror t) (dirty : List NodeId)
    (wired : IsWired entries t dirty) (before : ValueStore) (sorted : List NodeId)
    (all : (x : NodeId) → contains sorted x ≡ contains dirty x) (calls : ℕ)
    (emitted : List (NodeId × List ℕ)) where
  abbrev started : Run
  started = begin_run t before calls emitted sorted dirty

  contains-started : (x : NodeId) → contains started.remaining x ≡ contains dirty x
  unfolding begin_run contains
  contains-started x = contains-set_inserts sorted [] x ∙ all x

  begin_run-Inv : Holds order ordered entries t mirror dirty wired before started
  unfolding begin_run count lookup
  begin_run-Inv = record {
    inside = λ x m. sym (contains-started x) ∙ m;
    once = λ x. count-set_inserts sorted [] x (λ y. omega arith);
    counted = λ x m.
        let found = lookup-count_readys t dirty sorted [] x in
        let here = all x in
        let same =
          dirty_dep_count_ext dirty started.remaining (list_at x t.deps)
            (λ d. sym (contains-started d)) in
        ground (arith, found, here, m, same);
    waiting = λ x m. refl;
    clean = λ x m. refl;
    done = λ x m out. let k = contains-started x in absurd (ground (arith, k, m, out));
    closed = λ x m out. let k = contains-started x in absurd (ground (arith, k, m, out));
  }

  length-started : length started.remaining ≤ length sorted
  unfolding begin_run
  length-started = let l = length-set_inserts sorted [] in omega (arith, l)

  module _ (rank : NodeId → ℕ)
      (ranked : (a b : NodeId) → contains (list_at b t.deps) a ≡ true → rank a < rank b) where
    -- The wave scheduler executes every dirty node, after its dependencies, and ends: afterwards every
    -- dirty node has the result on the values at the end, or its old value, and every other node its
    -- old value. The topology is mirrored and acyclic, all dirty nodes are given, and compute nodes are pure.
    pub execute_parallel-IsSolution :
        IsSolution entries dirty before
          (execute_parallel order entries before t calls emitted sorted dirty).value_store
    unfolding execute_parallel
    execute_parallel-IsSolution x =
        let (inv, none_left) =
          waves_end order ordered entries t mirror dirty wired before rank ranked (length sorted)
            started begin_run-Inv length-started in
        elim (Bool-cases (contains dirty x)) [
          | inl m ↦ rw m (inv.done x m (none_left x))
          | inr out ↦ rw out (inv.clean x out)
        ]
