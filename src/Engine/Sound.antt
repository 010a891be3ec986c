-- ===== src/Engine/Sound.antt =====
-- The state of an engine from which no subgraph was removed: registry, active nodes and topology fit
-- together. The operations that keep it are in the child modules.
pub mod Registering
pub mod Activating
pub mod Cycling
pub mod Histories
pub mod Cycles
use reactive_graph_experimen.Base.{
  ℕ, ◌<◌, ◌≡◌, ◌≢◌, refl, sym, ap, subst, ◌∙◌, inl, inr, true, false, Option, none, some, List, [],
  lookup, contains, count, Bool-cases, arith,
}
use reactive_graph_experimen.NodeRef.{NodeId, id_eq}
use reactive_graph_experimen.Topology.{Topology, list_at}
use reactive_graph_experimen.Topology.Mirror.{IsMirror, list_at_of_none}
use reactive_graph_experimen.Engine.{Engine, new, declared, declared_in}

-- `ordered`: a registered node reads registered nodes of lower rank alone. `tracked`: the topology has
-- the declared dependencies of the active nodes. `untracked`: it has no others.
pub record IsSound (e : Engine) : Type 0 where
  pub rank : NodeId → ℕ
  pub limit : ℕ
  pub below : (x : NodeId) → declared e x ≢ none → rank x < limit
  pub ordered :
      (x d : NodeId) (deps : List NodeId)
      → declared e x ≡ some deps
      → contains deps d ≡ true
      → (declared e d ≢ none) × (rank d < rank x)
  pub mirror : IsMirror e.topology
  pub tracked :
      (x : NodeId) → contains e.active x ≡ true → declared e x ≡ some (list_at x e.topology.deps)
  pub untracked : (x : NodeId) → contains e.active x ≡ false → lookup x e.topology.deps ≡ none
  pub settled : e.pending_removals ≡ []

-- What `IsSound` looks at is the same in two engines.
pub record Alike (e e' : Engine) : Type 0 where
  pub same : (x : NodeId) → declared e' x ≡ declared e x
  pub topology : e'.topology ≡ e.topology
  pub active : e'.active ≡ e.active
  pub pending : e'.pending_removals ≡ e.pending_removals

pub Alike-refl : (e : Engine) → Alike e e
Alike-refl e = record { same = λ x. refl; topology = refl; active = refl; pending = refl }

pub Alike-trans : {a b c : Engine} → Alike a b → Alike b c → Alike a c
Alike-trans g h = record {
  same = λ x. h.same x ∙ g.same x;
  topology = h.topology ∙ g.topology;
  active = h.active ∙ g.active;
  pending = h.pending ∙ g.pending;
}

pub Alike-IsSound : {e e' : Engine} → Alike e e' → IsSound e → IsSound e'
Alike-IsSound {e} {e'} alike sound = record {
  rank = sound.rank;
  limit = sound.limit;
  below = λ x h. sound.below x (λ k. h (alike.same x ∙ k));
  ordered = λ x d deps h m.
      let found = sound.ordered x d deps (sym (alike.same x) ∙ h) m in
      (λ k. found.0 (sym (alike.same d) ∙ k), found.1);
  mirror = subst IsMirror (sym alike.topology) sound.mirror;
  tracked = λ x m.
      alike.same x
      ∙ sound.tracked x (ap (λ active. contains active x) (sym alike.active) ∙ m)
      ∙ ap (λ (t : Topology). some (list_at x t.deps)) (sym alike.topology);
  untracked = λ x m.
      ap (λ (t : Topology). lookup x t.deps) alike.topology
      ∙ sound.untracked x (ap (λ active. contains active x) (sym alike.active) ∙ m);
  settled = alike.pending ∙ sound.settled;
}

-- An engine in which other parts than registry, topology and active nodes have changed.
pub kept-IsSound :
    {e e' : Engine}
    → e'.graph.entries ≡ e.graph.entries
    → e'.topology ≡ e.topology
    → e'.active ≡ e.active
    → e'.pending_removals ≡ e.pending_removals
    → IsSound e
    → IsSound e'
kept-IsSound entries topology active pending = Alike-IsSound (record {
  same = λ x. ap (λ m. declared_in m x) entries;
  topology = topology;
  active = active;
  pending = pending;
})

-- The topology of a sound engine is acyclic.
pub ranked :
    {e : Engine} (sound : IsSound e) (a b : NodeId)
    → contains (list_at b e.topology.deps) a ≡ true
    → sound.rank a < sound.rank b
unfolding contains
ranked {e} sound a b m = elim (Bool-cases (contains e.active b)) [
  | inl is_active ↦ (sound.ordered b a (list_at b e.topology.deps) (sound.tracked b is_active) m).1
  | inr inactive ↦
      let gone = list_at_of_none b e.topology.deps (sound.untracked b inactive) in
      absurd (ground (arith, ap (λ ids. contains ids a) gone, m))
]

pub new-IsSound : IsSound new
unfolding declared_in lookup list_at contains count
new-IsSound = record {
  rank = λ x. 0;
  limit = 0;
  below = λ x h. absurd (h refl);
  ordered = λ x d deps h m. ground (arith, h);
  mirror = λ a b. refl;
  tracked = λ x m. ground (arith, m);
  untracked = λ x m. refl;
  settled = refl;
}
