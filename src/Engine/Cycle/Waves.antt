-- ===== src/Engine/Cycle/Waves.antt =====
-- The loop of the wave scheduler, as a sequence of results that are written one by one.
use reactive_graph_experimen.Base.{
  ℕ, suc, ◌+◌, ◌≤◌, ◌<◌, ◌≡◌, refl, sym, ap, ◌∙◌, true, false, not, ◌&&◌, Option, none, some, List,
  [], ◌∷◌, ◌++◌, append_assoc, append-nil, map, foldl, lookup, arith, Map, ◌==◌, eq_refl, eq_cases,
  contains, count, contains_iff, set_remove, Bool-cases, length, inl, inr,
}
use reactive_graph_experimen.NodeRef.{NodeId, id_eq, id_beq_iff}
use reactive_graph_experimen.ValueStore.{AnyBox, ValueStore}
use reactive_graph_experimen.Graph.{NodeKind, source, compute, sink, async_compute, NodeEntry}
use reactive_graph_experimen.Topology.{Topology, dirty_dep_count}
use reactive_graph_experimen.Topology.Mirror.{IsMirror}
use reactive_graph_experimen.Scheduler.{Run, Wave, write_result, execute_single}
use reactive_graph_experimen.Engine.Cycle.Outcome.{result_of}
use reactive_graph_experimen.Engine.Cycle.Solution.{IsWired, result_of_cong}
use reactive_graph_experimen.Engine.Cycle.Fire.{
  Inv, CanFire, IsFree, remaining-fired, fired-Agree, fire-Inv,
}

-- A thread of a wave gives the result of its node on the store that it was given.
results-execute_single :
    (entries : Map NodeId NodeEntry) (store : ValueStore) (w : Wave) (id : NodeId)
    → (execute_single entries store w id).results
      ≡ w.results ++ (id, result_of entries w.calls store id) ∷ []
unfolding execute_single result_of
results-execute_single entries store w id = by_lookup (lookup id entries) refl
  where
    by_kind :
        (entry : NodeEntry)
        → lookup id entries ≡ some entry
        → (kind : NodeKind) → entry.kind ≡ kind
        → (execute_single entries store w id).results
          ≡ w.results ++ (id, result_of entries w.calls store id) ∷ []
    by_kind entry found compute q = rw (found, execute_single, result_of, q) refl
    by_kind entry found source q = rw (found, execute_single, result_of, q) refl
    by_kind entry found sink q = rw (found, execute_single, result_of, q) refl
    by_kind entry found async_compute q = rw (found, execute_single, result_of, q) refl

    by_lookup :
        (o : Option NodeEntry)
        → lookup id entries ≡ o
        → (execute_single entries store w id).results
          ≡ w.results ++ (id, result_of entries w.calls store id) ∷ []
    by_lookup none q = rw (q, execute_single, result_of) refl
    by_lookup (some entry) q = by_kind entry q entry.kind refl

length-set_remove-le : (xs : List NodeId) (y : NodeId) → length (set_remove xs y) ≤ length xs
unfolding set_remove
length-set_remove-le [] y = omega arith
length-set_remove-le (x ∷ xs) y = ground (arith, length-set_remove-le xs y)

length-set_remove :
    (xs : List NodeId) (y : NodeId) → contains xs y ≡ true → length (set_remove xs y) < length xs
unfolding set_remove contains
length-set_remove [] y m = ground (arith, m)
length-set_remove (x ∷ xs) y m =
    let le = length-set_remove-le xs y in
    elim (Bool-cases (x == y)) [
      | inl t ↦ ground (arith, le, t)
      | inr f ↦ let less = length-set_remove xs y (ground (arith, m, f)) in ground (arith, less, f)
    ]

-- A counter at 0 means that no dependency is left, and a positive one names such a dependency.
pub free_of_count :
    (remaining deps : List NodeId)
    → dirty_dep_count remaining deps ≡ 0
    → (d : NodeId) → contains deps d ≡ true
    → contains remaining d ≡ false
unfolding dirty_dep_count contains
free_of_count remaining [] q d m = ground (arith, m)
free_of_count remaining (x ∷ deps) q d m = elim (eq_cases x d) [
  | inl (t, same) ↦ rw (← same) (ground (arith, q))
  | inr (t, other) ↦ free_of_count remaining deps (ground (arith, q)) d (ground (arith, m, t))
]

pub left_of_count :
    (remaining deps : List NodeId)
    → 0 < dirty_dep_count remaining deps
    → (d : NodeId) × (contains deps d ≡ true) × (contains remaining d ≡ true)
unfolding dirty_dep_count contains
left_of_count remaining [] q = absurd (omega (arith, q))
left_of_count remaining (x ∷ deps) q = elim (Bool-cases (contains remaining x)) [
  | inl m ↦ (x, (let r = eq_refl x in ground (arith, r)), m)
  | inr n ↦
      let (d, dep, m) = left_of_count remaining deps (ground (arith, q, n)) in
      (d, ground (arith, dep), m)
]

pub ids_of : List (NodeId × Option AnyBox) → List NodeId
ids_of ws = map (λ w. w.0) ws

pub length-ids_of : (ws : List (NodeId × Option AnyBox)) → length (ids_of ws) ≡ length ws
unfolding ids_of
length-ids_of [] = refl
length-ids_of (w ∷ ws) = ap suc (length-ids_of ws)

module _ (entries : Map NodeId NodeEntry) (t : Topology) (mirror : IsMirror t) (dirty : List NodeId)
    (wired : IsWired entries t dirty) (before : ValueStore) where
  abbrev pub Invariant : Run → Type 0
  Invariant r = Inv entries t mirror dirty wired before r

  abbrev Fires : Run → NodeId → Option AnyBox → Type 0
  Fires r y result = CanFire entries t mirror dirty wired before r y result

  abbrev pub Free : Run → NodeId → Type 0
  Free r y = IsFree entries t mirror dirty wired before r y

  -- Results of different nodes, each of which may be written now.
  pub Enabled : Run → List (NodeId × Option AnyBox) → Type 0
  Enabled r [] = Unit {0}
  Enabled r ((y, result) ∷ ws) = Fires r y result × (contains (ids_of ws) y ≡ false) × Enabled r ws

  -- Nodes that are different, left and free.
  pub Startable : Run → List NodeId → Type 0
  Startable r [] = Unit {0}
  Startable r (y ∷ ys) =
      (contains r.remaining y ≡ true) × Free r y × (contains ys y ≡ false) × Startable r ys

  pub Startable-of_members :
      (r : Run) (ids : List NodeId)
      → ((y : NodeId) → contains ids y ≡ true → (contains r.remaining y ≡ true) × Free r y)
      → ((y : NodeId) → count y ids ≤ 1)
      → Startable r ids
  unfolding Startable contains count
  Startable-of_members r [] member once = tt
  Startable-of_members r (y ∷ ys) member once =
      let same = eq_refl y in
      let (left, free) = member y (ground (arith, same)) in
      let single = once y in
      let c = contains_iff ys y in
      (
        left,
        free,
        ground (arith, single, c, same),
        Startable-of_members r ys (λ z m. member z (ground (arith, m)))
            (λ z. let k = once z in ground (arith, k)),
      )

  -- The threads of a wave give results that may be written.
  pub wave_results :
      (r : Run) (ids : List NodeId) (w : Wave)
      → Startable r ids
      → (ws : List (NodeId × Option AnyBox)) × ((foldl
            (execute_single entries r.value_store)
            w
            ids).results
          ≡ w.results ++ ws)
        × (ids_of ws ≡ ids)
        × Enabled r ws
  unfolding Startable Enabled ids_of
  wave_results r [] w start = ([], sym (append-nil w.results), refl, tt)
  wave_results r (y ∷ ys) w (left, free, new, start) =
      let w' = execute_single entries r.value_store w y in
      let result = result_of entries w.calls r.value_store y in
      let (ws, q, same, enabled) = wave_results r ys w' start in
      (
        (y, result) ∷ ws,
        q
            ∙ ap (λ rs. rs ++ ws) (results-execute_single entries r.value_store w y)
            ∙ append_assoc w.results ((y, result) ∷ []) ws,
        ap (λ is. y ∷ is) same,
        (record { left = left; free = free; computed = (w.calls, refl) }, rw same new, enabled),
      )

  module _ (r : Run) (y : NodeId) (result : Option AnyBox) (inv : Invariant r)
      (can : Fires r y result) where
    abbrev next : Run
    next = write_result t r (y, result)

    remaining-next :
        (x : NodeId) → contains next.remaining x ≡ (contains r.remaining x && not (y == x))
    remaining-next x = remaining-fired entries t mirror dirty wired before r y result inv can x

    Fires-next :
        (z : NodeId) (other : Option AnyBox)
        → (y == z) ≡ false
        → Fires r z other
        → Fires next z other
    Fires-next z other differ f = record {
      left = let k = remaining-next z in let left = f.left in ground (arith, k, left, differ);
      free = λ d m. let k = remaining-next d in let out = f.free d m in ground (arith, k, out);
      computed = (
        f.computed.0,
        f.computed.1
            ∙ sym (
                result_of_cong entries t dirty wired f.computed.0 f.computed.0 next.value_store
                  r.value_store z (inv.inside z f.left)
                  (fired-Agree entries t mirror dirty wired before r y result inv can z f.free)),
      );
    }

    Enabled-next :
        (ws : List (NodeId × Option AnyBox))
        → contains (ids_of ws) y ≡ false
        → Enabled r ws
        → Enabled next ws
    unfolding Enabled ids_of contains
    Enabled-next [] new enabled = tt
    Enabled-next ((z, other) ∷ ws) new (f, fresh, enabled) =
        let sym_eq = id_beq_iff y z in
        let sym_eq' = id_beq_iff z y in
        (
          Fires-next z other (ground (arith, new, sym_eq, sym_eq')) f,
          fresh,
          Enabled-next ws (ground (arith, new)) enabled,
        )

    length-next : length next.remaining < length r.remaining
    unfolding write_result
    length-next = length-set_remove r.remaining y can.left

  -- Writing all results of a wave keeps the invariant, and each of them takes a node away.
  pub writes-Inv :
      (ws : List (NodeId × Option AnyBox)) (r : Run)
      → Invariant r
      → Enabled r ws
      → Invariant (foldl (write_result t) r ws)
        × (length (foldl (write_result t) r ws).remaining + length ws ≤ length r.remaining)
  unfolding Enabled
  writes-Inv [] r inv enabled = (inv, omega arith)
  writes-Inv ((y, result) ∷ ws) r inv (can, new, enabled) =
      let shorter = length-next r y result inv can in
      let (inv', bound) =
        writes-Inv ws (next r y result inv can)
          (fire-Inv entries t mirror dirty wired before r y result inv can)
          (Enabled-next r y result inv can ws new enabled) in
      (inv', omega (arith, shorter, bound))

  -- The invariant says nothing of the counters of the model.
  pub Inv-counters :
      (r : Run) (calls : ℕ) (emitted : List (NodeId × List ℕ))
      → Invariant r
      → Invariant (record r { calls = calls; emitted = emitted })
  Inv-counters r calls emitted inv = record {
    inside = inv.inside;
    once = inv.once;
    counted = inv.counted;
    waiting = inv.waiting;
    clean = inv.clean;
    done = inv.done;
    closed = inv.closed;
  }
