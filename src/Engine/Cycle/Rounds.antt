-- ===== src/Engine/Cycle/Rounds.antt =====
-- The rounds of the wave scheduler: each keeps the invariant, and they end when no node is left.
use reactive_graph_experimen.Base.{
  ℕ, zero, suc, ◌+◌, ◌≤◌, ◌<◌, ◌≡◌, refl, sym, subst, ap, ◌∙◌, true, false, some, List, [], ◌∷◌,
  foldl, lookup, arith, Map, contains, contains_iff, Bool-cases, length, retain, count-retain,
  contains-retain, nat_beq, inl, inr, IsOrder,
}
use reactive_graph_experimen.NodeRef.{NodeId, id_eq}
use reactive_graph_experimen.ValueStore.{ValueStore}
use reactive_graph_experimen.Graph.{NodeEntry}
use reactive_graph_experimen.Topology.{Topology, list_at, dirty_dep_count}
use reactive_graph_experimen.Topology.Mirror.{IsMirror}
use reactive_graph_experimen.Scheduler.{
  Run, run_wave, waves, is_ready, execute_single, Wave, write_result,
}
use reactive_graph_experimen.Engine.Cycle.Solution.{IsWired}
use reactive_graph_experimen.Engine.Cycle.Waves.{
  Invariant, Startable, Startable-of_members, wave_results, writes-Inv, Inv-counters, length-ids_of,
  free_of_count, left_of_count,
}

is_ready-of_lookup :
    (m : Map NodeId ℕ) (y : NodeId) (k : ℕ) → lookup y m ≡ some k → is_ready m y ≡ nat_beq k 0
unfolding is_ready
is_ready-of_lookup m y k found = rw (found, is_ready) refl

module _ (order : List NodeId → List NodeId) (ordered : IsOrder order)
    (entries : Map NodeId NodeEntry) (t : Topology) (mirror : IsMirror t) (dirty : List NodeId)
    (wired : IsWired entries t dirty) (before : ValueStore) where
  abbrev pub Holds : Run → Type 0
  Holds r = Invariant entries t mirror dirty wired before r

  abbrev ready_in : Run → List NodeId
  ready_in r = retain (is_ready r.ready_count) (order r.remaining)

  contains-order : (xs : List NodeId) (y : NodeId) → contains (order xs) y ≡ contains xs y
  contains-order xs y =
      let a = contains_iff (order xs) y in
      let b = contains_iff xs y in let c = ordered xs y in ground (arith, a, b, c)

  ready_iff :
      (r : Run) (y : NodeId)
      → Holds r
      → contains r.remaining y ≡ true
      → contains (ready_in r) y ≡ nat_beq (dirty_dep_count r.remaining (list_at y t.deps)) 0
  ready_iff r y inv left =
      let c = contains-retain (is_ready r.ready_count) (order r.remaining) y in
      let o = contains-order r.remaining y in
      let k = is_ready-of_lookup r.ready_count y _ (inv.counted y (inv.inside y left)) in
      ground (arith, c, o, k, left)

  ready_left :
      (r : Run) (y : NodeId) → contains (ready_in r) y ≡ true → contains r.remaining y ≡ true
  ready_left r y m =
      let c = contains-retain (is_ready r.ready_count) (order r.remaining) y in
      let o = contains-order r.remaining y in ground (arith, c, o, m)

  Startable-ready :
      (r : Run) → Holds r → Startable entries t mirror dirty wired before r (ready_in r)
  Startable-ready r inv =
      Startable-of_members entries t mirror dirty wired before r (ready_in r)
        (λ y m.
          let left = ready_left r y m in
          let zero_left = ready_iff r y inv left in
          (left, free_of_count r.remaining (list_at y t.deps) (ground (arith, zero_left, m))))
        (λ y.
          let once = inv.once y in
          let c = count-retain (is_ready r.ready_count) (order r.remaining) y in
          let o = ordered r.remaining y in ground (arith, once, c, o))

  run_wave-Inv :
      (r : Run)
      → Holds r
      → Holds (run_wave entries t r (ready_in r))
        × (length (run_wave entries t r (ready_in r)).remaining + length (ready_in r)
            ≤ length r.remaining)
  unfolding run_wave
  run_wave-Inv r inv =
      let begin : Wave = record { results = []; calls = r.calls; emitted = r.emitted } in
      let w : Wave = foldl (execute_single entries r.value_store) begin (ready_in r) in
      let r' : Run = record r { calls = w.calls; emitted = w.emitted } in
      let inv' = Inv-counters entries t mirror dirty wired before r w.calls w.emitted inv in
      let (ws, q, same, enabled) =
        wave_results entries t mirror dirty wired before r' (ready_in r) begin
          (Startable-ready r' inv') in
      let (after, bound) = writes-Inv entries t mirror dirty wired before ws r' inv' enabled in
      let size : length (ready_in r) ≡ length ws = ap length (sym same) ∙ length-ids_of ws in
      subst
        (λ rs.
          Holds (foldl (write_result t) r' rs)
          × (length (foldl (write_result t) r' rs).remaining + length (ready_in r)
              ≤ length r.remaining))
        (sym q) (after, omega (arith, bound, size))

  module _ (rank : NodeId → ℕ)
      (ranked : (a b : NodeId) → contains (list_at b t.deps) a ≡ true → rank a < rank b) where
    -- Where no node is ready, no node is left.
    none_left_below :
        (r : Run)
        → Holds r
        → ready_in r ≡ []
        → (n : ℕ) (x : NodeId) → rank x < n
        → contains r.remaining x ≡ false
    unfolding contains
    none_left_below r inv stuck zero x lower = absurd (omega (arith, lower))
    none_left_below r inv stuck (suc n) x lower = elim (Bool-cases (contains r.remaining x)) [
      | inr out ↦ out
      | inl left ↦
          let ready = ready_iff r x inv left in
          let empty = ap (λ ids. contains ids x) stuck in
          let (d, dep, m) =
            left_of_count r.remaining (list_at x t.deps) (ground (arith, ready, empty)) in
          let less = ranked d x dep in
          let out = none_left_below r inv stuck n d (omega (arith, less, lower)) in
          absurd (ground (arith, out, m))
    ]

    none_left :
        (r : Run) → Holds r → ready_in r ≡ [] → (x : NodeId) → contains r.remaining x ≡ false
    none_left r inv stuck x = none_left_below r inv stuck (suc (rank x)) x (omega arith)

    abbrev Ends : Run → Type 0
    Ends r = Holds r × ((x : NodeId) → contains r.remaining x ≡ false)

    waves_step :
        (fuel : ℕ) (r : Run)
        → Holds r
        → length r.remaining ≤ suc fuel
        → ((r' : Run)
            → Holds r'
            → length r'.remaining ≤ fuel
            → Ends (waves order entries t fuel r'))
        → (ids : List NodeId) → ready_in r ≡ ids
        → Ends (waves order entries t (suc fuel) r)
    unfolding waves
    waves_step fuel r inv enough later [] q = rw (q, waves) (inv, none_left r inv q)
    waves_step fuel r inv enough later (id ∷ ids) q =
        let (after, bound) = run_wave-Inv r inv in
        rw (q, waves)
          (subst (λ is. Ends (waves order entries t fuel (run_wave entries t r is))) q
            (later (run_wave entries t r (ready_in r)) after
              (let size = ap length q in ground (arith, bound, enough, size))))

    -- On fuel for every node that is left, all of them are executed.
    pub waves_end :
        (fuel : ℕ) (r : Run)
        → Holds r
        → length r.remaining ≤ fuel
        → Ends (waves order entries t fuel r)
    unfolding waves contains
    waves_end zero r inv enough = (inv, λ x. none_in r.remaining x enough)
      where
        none_in : (xs : List NodeId) (x : NodeId) → length xs ≤ 0 → contains xs x ≡ false
        none_in [] x h = refl
        none_in (y ∷ ys) x h = absurd (omega (arith, h))
    waves_end (suc fuel) r inv enough =
        waves_step fuel r inv enough (λ r'. waves_end fuel r') (ready_in r) refl
