-- ===== src/Engine/Sound/Cycles.antt =====
-- What the theorems on cycles say of the engines that are made without removals.
use reactive_graph_experimen.Base.{
  ◌≡◌, refl, sym, ap, ◌∙◌, inl, inr, Bool, true, false, some, List, [], ◌∷◌, foldl, lookup,
  contains, contains_iff, arith, Bool-cases, IsOrder,
}
use reactive_graph_experimen.NodeRef.{NodeId, id_eq}
use reactive_graph_experimen.ValueStore.{AnyBox}
use reactive_graph_experimen.Topology.{Topology, list_at, dirty_set}
use reactive_graph_experimen.Topology.Mirror.{list_at_of_none}
use reactive_graph_experimen.Topology.Dirty.{Downstream, direct, further, Feeds, dirty_set_iff}
use reactive_graph_experimen.Graph.{compute, NodeEntry}
use reactive_graph_experimen.Metrics.{propagate_stale}
use reactive_graph_experimen.AsyncCompute.{drain_results}
use reactive_graph_experimen.Engine.{Engine, drain_pending_removals, remove_all}
use reactive_graph_experimen.Engine.Frame.{declared_in-of_lookup}
use reactive_graph_experimen.Engine.Quiet.{foldl-keeps}
use reactive_graph_experimen.Engine.Cycle.{
  Drained, accept, drain_updates, attempt, is_sync, strategy_of, propagate, run_cycle_impl,
  run_cycle, run_cycle_parallel,
}
use reactive_graph_experimen.Engine.Cycle.Touch.{value_in}
use reactive_graph_experimen.Engine.Cycle.Consistent.{IsPure}
use reactive_graph_experimen.Engine.Cycle.Glitch.{propagate_consistent}
use reactive_graph_experimen.Engine.Cycle.Solution.{IsWired}
use reactive_graph_experimen.Engine.Cycle.Versions.{value_in-propagate_parallel}
use reactive_graph_experimen.Engine.Sound.{IsSound, ranked, Alike-IsSound}
use reactive_graph_experimen.Engine.Sound.Histories.{Grown, Grown-IsSound}
use reactive_graph_experimen.Engine.Sound.Cycling.{drain_updates-Alike}

drain_pending-same : (e : Engine) → IsSound e → drain_pending_removals e ≡ e
unfolding drain_pending_removals
drain_pending-same e sound =
    ap (λ removals. foldl remove_all (record e { pending_removals = [] }) removals) sound.settled
    ∙ ap (λ removals. record e { pending_removals = removals }) (sym sound.settled)

-- What `drain_updates` leaves alone.
kept-drain_updates :
    (e : Engine)
    → ((drain_updates e).engine.graph.entries ≡ e.graph.entries)
      × ((drain_updates e).engine.error_strategies ≡ e.error_strategies)
unfolding drain_updates accept
kept-drain_updates e =
    let begin : Drained = record {
      engine = record e { graph = record e.graph { source_rx = [] } };
      updated = [];
    } in
    let d = foldl accept begin e.graph.source_rx in
    let (manager, results) = drain_results d.engine.async_manager in
    let begin2 : Drained = record {
      engine = record d.engine { async_manager = manager };
      updated = d.updated;
    } in
    (
      foldl-keeps (λ (d : Drained). d.engine.graph.entries) accept (λ d u. refl) results begin2
          ∙ foldl-keeps (λ (d : Drained). d.engine.graph.entries) accept (λ d u. refl)
              e.graph.source_rx begin,
      foldl-keeps (λ (d : Drained). d.engine.error_strategies) accept (λ d u. refl) results begin2
          ∙ foldl-keeps (λ (d : Drained). d.engine.error_strategies) accept (λ d u. refl)
              e.graph.source_rx begin,
    )

module _ {e : Engine} (sound : IsSound e) where
  -- A node that has a dependency in the topology is active, and its entry declares them.
  listed :
      (a x : NodeId) (entry : NodeEntry)
      → contains (list_at x e.topology.deps) a ≡ true
      → lookup x e.graph.entries ≡ some entry
      → list_at x e.topology.deps ≡ entry.deps
  unfolding contains
  listed a x entry m found = elim (Bool-cases (contains e.active x)) [
    | inl is_active ↦
        let declares = declared_in-of_lookup e.graph.entries x entry found in
        cc (sym (sound.tracked x is_active) ∙ declares)
    | inr inactive ↦
        let gone = list_at_of_none x e.topology.deps (sound.untracked x inactive) in
        absurd (ground (arith, ap (λ ids. contains ids a) gone, m))
  ]

  Feeds-listed :
      (a x : NodeId) → Feeds e.topology a x → contains (list_at x e.topology.deps) a ≡ true
  Feeds-listed a x feeds =
      let k = sound.mirror a x in
      let c = contains_iff (list_at a e.topology.dependents) x in
      let c' = contains_iff (list_at x e.topology.deps) a in ground (arith, k, c, c', feeds)

  Downstream-listed :
      (sources : List NodeId) (x : NodeId) (entry : NodeEntry)
      → Downstream e.topology sources x
      → lookup x e.graph.entries ≡ some entry
      → list_at x e.topology.deps ≡ entry.deps
  Downstream-listed sources x entry (direct a m feeds) found =
      listed a x entry (Feeds-listed a x feeds) found
  Downstream-listed sources x entry (further a d feeds) found =
      listed a x entry (Feeds-listed a x feeds) found

nothing_below : {t : Topology} (x : NodeId) → ¬ Downstream t [] x
unfolding contains
nothing_below x (direct a m feeds) = ground (arith, m)
nothing_below x (further a d feeds) = nothing_below a d

-- A cycle of a sound engine begins with what has arrived.
begins :
    (order : List NodeId → List NodeId) (e : Engine)
    → IsSound e
    → (run_cycle order e ≡ run_cycle_impl order false e)
      × (run_cycle_parallel order e ≡ run_cycle_impl order true e)
unfolding run_cycle run_cycle_parallel
begins order e sound =
    let same = drain_pending-same e sound in
    (ap (run_cycle_impl order false) same, ap (run_cycle_impl order true) same)

-- The nodes downstream of a node with a new value.
abbrev pub dirty_in : (List NodeId → List NodeId) → Engine → List NodeId
dirty_in order e = dirty_set order (drain_updates e).engine.topology (drain_updates e).updated

module _ (order : List NodeId → List NodeId) (ordered : IsOrder order) (e : Engine)
    (sound : IsSound e) where
  abbrev begin : Engine
  begin = (drain_updates e).engine

  abbrev updated : List NodeId
  updated = (drain_updates e).updated

  begin-IsSound : IsSound begin
  begin-IsSound = Alike-IsSound (drain_updates-Alike e) sound

  -- What holds after a sequential cycle of a sound engine.
  pub sound_consistent :
      (x : NodeId) (entry : NodeEntry) (v : AnyBox)
      → Downstream (drain_updates e).engine.topology (drain_updates e).updated x
      → lookup x e.graph.entries ≡ some entry
      → entry.kind ≡ compute
      → IsPure entry
      → attempt (run_cycle order e) entry ≡ some v
      → value_in (run_cycle order e) x ≡ some v
  unfolding run_cycle_impl
  sound_consistent x entry v downstream found kind pure h =
      let same = (begins order e sound).0 in
      ap (λ f. value_in f x) same
      ∙ by_updated updated downstream (sym (ap (λ f. attempt f entry) same) ∙ h)
    where
      cycled : List NodeId → Engine
      cycled ids = elim ids [ [] ↦ begin | _ ∷ _ ↦ propagate order false begin updated ]

      by_updated :
          (ids : List NodeId)
          → Downstream begin.topology ids x
          → attempt (cycled ids) entry ≡ some v
          → value_in (cycled ids) x ≡ some v
      by_updated [] none_up h' = absurd (nothing_below x none_up)
      by_updated (id ∷ ids) some_up h' =
          propagate_consistent order ordered begin begin-IsSound.mirror updated begin-IsSound.rank
            (ranked begin-IsSound) x entry v downstream
            (ap (lookup x) (kept-drain_updates e).0 ∙ found) kind
            (Downstream-listed begin-IsSound updated x entry downstream
              (ap (lookup x) (kept-drain_updates e).0 ∙ found))
            pure h'

  begin-IsWired :
      ((x : NodeId) (entry : NodeEntry)
        → lookup x e.graph.entries ≡ some entry
        → entry.kind ≡ compute
        → IsPure entry)
      → IsWired begin.graph.entries begin.topology (dirty_in order e)
  begin-IsWired pure x entry m found kind =
      let found' = ap (lookup x) (sym (kept-drain_updates e).0) ∙ found in
      (
        pure x entry found' kind,
        Downstream-listed begin-IsSound updated x entry
            ((dirty_set_iff order ordered begin.topology updated x).0 m) found,
      )

  -- The two versions of the cycle on a sound engine.
  sound_parallel :
      ((x : NodeId) (entry : NodeEntry)
        → lookup x e.graph.entries ≡ some entry
        → entry.kind ≡ compute
        → IsPure entry)
      → ((x : NodeId) → contains (dirty_in order e) x ≡ true → is_sync e x ≡ true)
      → ((x : NodeId) → contains (dirty_in order e) x ≡ true → strategy_of e x ≡ propagate_stale)
      → (x : NodeId) → value_in (run_cycle_parallel order e) x ≡ value_in (run_cycle order e) x
  unfolding run_cycle_impl is_sync strategy_of
  sound_parallel pure sync stale x =
      let same = begins order e sound in
      ap (λ f. value_in f x) same.1 ∙ by_updated updated ∙ ap (λ f. value_in f x) (sym same.0)
    where
      cycled : Bool → List NodeId → Engine
      cycled parallel ids = elim ids [ [] ↦ begin | _ ∷ _ ↦ propagate order parallel begin updated ]

      sync' : (y : NodeId) → contains (dirty_in order e) y ≡ true → is_sync begin y ≡ true
      sync' y m = rw ((kept-drain_updates e).0, is_sync) (sync y m)

      stale' :
          (y : NodeId)
          → contains (dirty_in order e) y ≡ true
          → strategy_of begin y ≡ propagate_stale
      stale' y m = rw ((kept-drain_updates e).1, strategy_of) (stale y m)

      by_updated :
          (ids : List NodeId) → value_in (cycled true ids) x ≡ value_in (cycled false ids) x
      by_updated [] = refl
      by_updated (id ∷ ids) =
          value_in-propagate_parallel order ordered begin begin-IsSound.mirror updated
            (begin-IsWired pure) begin-IsSound.rank (ranked begin-IsSound) sync' stale' x

module _ (order : List NodeId → List NodeId) (ordered : IsOrder order) (e : Engine)
    (grown : Grown order e) where
  -- After a sequential cycle of an engine that was made without removals, a registered pure compute node
  -- downstream of a node with a new value has the value of its function on the values that its
  -- dependencies have at the end, under every error strategy, if there is such a value.
  pub run_cycle_consistent :
      (x : NodeId) (entry : NodeEntry) (v : AnyBox)
      → Downstream (drain_updates e).engine.topology (drain_updates e).updated x
      → lookup x e.graph.entries ≡ some entry
      → entry.kind ≡ compute
      → IsPure entry
      → attempt (run_cycle order e) entry ≡ some v
      → value_in (run_cycle order e) x ≡ some v
  run_cycle_consistent = sound_consistent order ordered e (Grown-IsSound grown)

  -- A parallel cycle of an engine that was made without removals leaves every node with the value that
  -- a sequential cycle leaves it with, if its compute nodes are pure, and no node downstream of a new
  -- value is asynchronous or has another strategy than `PropagateStale`.
  pub value_in-run_cycle_parallel :
      ((x : NodeId) (entry : NodeEntry)
        → lookup x e.graph.entries ≡ some entry
        → entry.kind ≡ compute
        → IsPure entry)
      → ((x : NodeId) → contains (dirty_in order e) x ≡ true → is_sync e x ≡ true)
      → ((x : NodeId) → contains (dirty_in order e) x ≡ true → strategy_of e x ≡ propagate_stale)
      → (x : NodeId) → value_in (run_cycle_parallel order e) x ≡ value_in (run_cycle order e) x
  value_in-run_cycle_parallel = sound_parallel order ordered e (Grown-IsSound grown)
