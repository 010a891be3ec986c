-- ===== src/Engine/Cycle/Fire.antt =====
-- The wave scheduler, one result at a time: what holds between two results that are written, where
-- each node of a wave is seen as executed at the moment at which its result is written.
use reactive_graph_experimen.Base.{
  ℕ, ◌+◌, ◌-◌, ◌≤◌, ◌≡◌, ◌≢◌, refl, sym, subst, ap, ◌∙◌, true, false, not, ◌&&◌, Option, none, some,
  List, [], ◌∷◌, foldl, lookup, insert, lookup-insert, arith, Map, if◌then◌else◌, ◌==◌, eq_refl,
  eq_cases, contains, count, set_remove, contains-set_remove, count-set_remove, Option-cases, ◌⊎◌,
  inl, inr,
}
use reactive_graph_experimen.NodeRef.{NodeId, id_eq, id_beq_iff}
use reactive_graph_experimen.ValueStore.{AnyBox, ValueStore, get_by_id}
use reactive_graph_experimen.ValueStore.Typed.{get_by_id-set_by_id}
use reactive_graph_experimen.Graph.{NodeEntry}
use reactive_graph_experimen.Topology.{Topology, list_at, dirty_dep_count}
use reactive_graph_experimen.Topology.Mirror.{IsMirror}
use reactive_graph_experimen.Scheduler.{Run, count_down, write_result}
use reactive_graph_experimen.Engine.Cycle.Outcome.{result_of, or_old}
use reactive_graph_experimen.Engine.Cycle.Solution.{IsWired, Agree, result_of_cong}

count_down-some :
    (m : Map NodeId ℕ) (d : NodeId) (k : ℕ)
    → lookup d m ≡ some k
    → count_down m d ≡ insert d (k - 1) m
unfolding count_down
count_down-some m d k found = rw (found, count_down) refl

count_down-none : (m : Map NodeId ℕ) (d : NodeId) → lookup d m ≡ none → count_down m d ≡ m
unfolding count_down
count_down-none m d absent = rw (absent, count_down) refl

lookup-count_down :
    (m : Map NodeId ℕ) (d x : NodeId) (k : ℕ)
    → lookup x m ≡ some k
    → lookup x (count_down m d) ≡ some (k - (if d == x then 1 else 0))
lookup-count_down m d x k found = by_cases (eq_cases d x) (Option-cases (lookup d m))
  where
    by_cases :
        ((d == x) ≡ true) × (d ≡ x) ⊎ ((d == x) ≡ false) × (d ≢ x)
        → (lookup d m ≡ none) ⊎ ((j : ℕ) × (lookup d m ≡ some j))
        → lookup x (count_down m d) ≡ some (k - (if d == x then 1 else 0))
    by_cases (inl (t, q)) o =
        rw (count_down-some m d k (rw q found)) (ground (arith, t, lookup-insert d x (k - 1) m))
    by_cases (inr (t, q)) (inl absent) = rw (count_down-none m d absent) (ground (arith, t, found))
    by_cases (inr (t, q)) (inr (j, there)) =
        rw (count_down-some m d j there) (ground (arith, t, found, lookup-insert d x (j - 1) m))

lookup-count_downs :
    (ids : List NodeId) (m : Map NodeId ℕ) (x : NodeId) (k : ℕ)
    → lookup x m ≡ some k
    → lookup x (foldl count_down m ids) ≡ some (k - count x ids)
unfolding count
lookup-count_downs [] m x k found = found ∙ ap some (omega arith)
lookup-count_downs (d ∷ ids) m x k found =
    lookup-count_downs ids (count_down m d) x _ (lookup-count_down m d x k found)
    ∙ ap some (omega arith)

dirty_dep_count-set_remove :
    (remaining : List NodeId) (y : NodeId) (deps : List NodeId)
    → contains remaining y ≡ true
    → dirty_dep_count (set_remove remaining y) deps + count y deps ≡ dirty_dep_count remaining deps
unfolding dirty_dep_count count
dirty_dep_count-set_remove remaining y [] m = omega arith
dirty_dep_count-set_remove remaining y (d ∷ ds) m = elim (eq_cases d y) [
  | inl (same, q) ↦ rw q (
      ground (
        arith,
        dirty_dep_count-set_remove remaining y ds m,
        contains-set_remove remaining y y,
        m,
        eq_refl y,
      ))
  | inr (other, q) ↦ ground (
    arith,
    dirty_dep_count-set_remove remaining y ds m,
    contains-set_remove remaining y d,
    id_beq_iff y d,
  )
]

module _ (entries : Map NodeId NodeEntry) (t : Topology) (mirror : IsMirror t) (dirty : List NodeId)
    (wired : IsWired entries t dirty) (before : ValueStore) where
  -- No dependency of the node is left to be executed.
  abbrev pub IsFree : Run → NodeId → Type 0
  IsFree r x = (d : NodeId) → contains (list_at x t.deps) d ≡ true → contains r.remaining d ≡ false

  pub record Inv (r : Run) : Type 0 where
    pub inside : (x : NodeId) → contains r.remaining x ≡ true → contains dirty x ≡ true
    pub once : (x : NodeId) → count x r.remaining ≤ 1
    -- The counters count the dependencies that are left.
    pub counted :
        (x : NodeId)
        → contains dirty x ≡ true
        → lookup x r.ready_count ≡ some (dirty_dep_count r.remaining (list_at x t.deps))
    -- What is left, and what is not dirty, has its old value.
    pub waiting :
        (x : NodeId)
        → contains r.remaining x ≡ true
        → get_by_id r.value_store x ≡ get_by_id before x
    pub clean :
        (x : NodeId) → contains dirty x ≡ false → get_by_id r.value_store x ≡ get_by_id before x
    -- What was executed has the result on the present values, and its dependencies were executed.
    pub done :
        (x : NodeId)
        → contains dirty x ≡ true
        → contains r.remaining x ≡ false
        → get_by_id r.value_store x
          ≡ or_old (result_of entries 0 r.value_store x) (get_by_id before x)
    pub closed :
        (x : NodeId) → contains dirty x ≡ true → contains r.remaining x ≡ false → IsFree r x

  -- The result of a node that is left and free, computed with the present values.
  pub record CanFire (r : Run) (y : NodeId) (result : Option AnyBox) : Type 0 where
    pub left : contains r.remaining y ≡ true
    pub free : IsFree r y
    pub computed : (n : ℕ) × (result ≡ result_of entries n r.value_store y)

  value-write_result :
      (r : Run) (y : NodeId) (result : Option AnyBox) (x : NodeId)
      → get_by_id (write_result t r (y, result)).value_store x
        ≡ (if y == x then or_old result (get_by_id r.value_store x) else get_by_id r.value_store x)
  unfolding write_result
  value-write_result r y none x = ground arith
  value-write_result r y (some v) x = get_by_id-set_by_id r.value_store y x v

  module _ (r : Run) (y : NodeId) (result : Option AnyBox) (inv : Inv r)
      (can : CanFire r y result) where
    abbrev pub fired : Run
    fired = write_result t r (y, result)

    pub remaining-fired :
        (x : NodeId) → contains fired.remaining x ≡ (contains r.remaining x && not (y == x))
    unfolding write_result
    remaining-fired x = contains-set_remove r.remaining y x

    -- Writing the result changes no value at the dependencies of a node that does not wait for it.
    pub fired-Agree : (x : NodeId) → IsFree r x → Agree t x fired.value_store r.value_store
    fired-Agree x free d m =
        let w = value-write_result r y result d in
        let out = free d m in
        elim (eq_cases y d) [
          | inl (t', q) ↦
              absurd (let left = can.left in ground (arith, left, out, ap (contains r.remaining) q))
          | inr (t', q) ↦ ground (arith, w, t')
        ]

    counted-fired :
        (x : NodeId)
        → contains dirty x ≡ true
        → lookup x fired.ready_count ≡ some (dirty_dep_count fired.remaining (list_at x t.deps))
    unfolding write_result
    counted-fired x m =
        lookup-count_downs (list_at y t.dependents) r.ready_count x _ (inv.counted x m)
        ∙ ap some (
            let split = dirty_dep_count-set_remove r.remaining y (list_at x t.deps) can.left in
            omega (arith, split, mirror y x))

    done-fired :
        (x : NodeId)
        → contains dirty x ≡ true
        → contains fired.remaining x ≡ false
        → get_by_id fired.value_store x
          ≡ or_old (result_of entries 0 fired.value_store x) (get_by_id before x)
    done-fired x m out = by_cases (eq_cases y x)
      where
        same_result :
            (z : NodeId) (n : ℕ)
            → contains dirty z ≡ true
            → IsFree r z
            → result_of entries n r.value_store z ≡ result_of entries 0 fired.value_store z
        same_result z n m free = sym (
            result_of_cong entries t dirty wired 0 n fired.value_store r.value_store z m
              (fired-Agree z free))

        at_y :
            get_by_id fired.value_store y
            ≡ or_old (result_of entries 0 fired.value_store y) (get_by_id before y)
        at_y =
            (value-write_result r y result y ∙ rw (eq_refl y) refl)
            ∙ ap (λ o. or_old o (get_by_id r.value_store y))
                (can.computed.1 ∙ same_result y can.computed.0 (inv.inside y can.left) can.free)
            ∙ ap (or_old (result_of entries 0 fired.value_store y)) (inv.waiting y can.left)

        by_cases :
            ((y == x) ≡ true) × (y ≡ x) ⊎ ((y == x) ≡ false) × (y ≢ x)
            → get_by_id fired.value_store x
              ≡ or_old (result_of entries 0 fired.value_store x) (get_by_id before x)
        by_cases (inl (same, q)) =
            subst
              (λ z.
                get_by_id fired.value_store z
                ≡ or_old (result_of entries 0 fired.value_store z) (get_by_id before z))
              q at_y
        by_cases (inr (differ, q)) =
            let k = remaining-fired x in
            let out_before : contains r.remaining x ≡ false = ground (arith, k, out, differ) in
            (value-write_result r y result x ∙ rw differ refl)
            ∙ inv.done x m out_before
            ∙ ap (λ o. or_old o (get_by_id before x))
                (same_result x 0 m (inv.closed x m out_before))

    -- The value of a node other than the fired one.
    value_of_other :
        (x : NodeId) → (y == x) ≡ false → get_by_id fired.value_store x ≡ get_by_id r.value_store x
    value_of_other x differ = value-write_result r y result x ∙ rw differ refl

    clean-fired :
        (x : NodeId) → contains dirty x ≡ false → get_by_id fired.value_store x ≡ get_by_id before x
    clean-fired x m = elim (eq_cases y x) [
      | inl (same, q) ↦
          let there = inv.inside y can.left in
          absurd (ground (arith, there, m, ap (contains dirty) q))
      | inr (differ, q) ↦ value_of_other x differ ∙ inv.clean x m
    ]

    closed-fired :
        (x : NodeId) → contains dirty x ≡ true → contains fired.remaining x ≡ false → IsFree fired x
    closed-fired x m out d dep = elim (eq_cases y x) [
      | inl (same, q) ↦
          let k = remaining-fired d in let f = can.free d (rw q dep) in ground (arith, k, f)
      | inr (differ, q) ↦
          let here = remaining-fired x in
          let k = remaining-fired d in
          let f = inv.closed x m (ground (arith, here, out, differ)) d dep in ground (arith, k, f)
    ]

    once-fired : (x : NodeId) → count x fired.remaining ≤ 1
    unfolding write_result
    once-fired x =
        let k = inv.once x in let c = count-set_remove r.remaining y x in ground (arith, k, c)

    pub fire-Inv : Inv fired
    fire-Inv = record {
      inside = λ x m. inv.inside x (let k = remaining-fired x in ground (arith, k, m));
      once = once-fired;
      counted = counted-fired;
      waiting = λ x m.
          let k = remaining-fired x in
          value_of_other x (ground (arith, k, m)) ∙ inv.waiting x (ground (arith, k, m));
      clean = clean-fired;
      done = done-fired;
      closed = closed-fired;
    }
