-- ===== src/Engine/Sound/Registering.antt =====
-- Registration, of nodes whose dependencies are registered before them.
use reactive_graph_experimen.Base.{
  Bool, ◌&&◌, suc, ◌+◌, ◌≡◌, ◌≢◌, refl, sym, ap, subst, ◌∙◌, Map, inl, inr, true, false,
  if◌then◌else◌, none, some, List, [], ◌∷◌, foldl, lookup, insert, lookup-insert, contains, arith,
  ◌==◌, eq_cases, eq_refl, Option-cases,
}
use reactive_graph_experimen.NodeRef.{NodeId, id_eq}
use reactive_graph_experimen.Graph.{NodeEntry}
use reactive_graph_experimen.Subgraph.{NodeDescriptor, register}
use reactive_graph_experimen.Subgraph.Registry.{register_old, register_new}
use reactive_graph_experimen.Engine.{Engine, declared, declared_in}
use reactive_graph_experimen.Engine.Frame.{declared_in-insert}
use reactive_graph_experimen.Engine.Sound.{IsSound, Alike, Alike-IsSound}

-- The dependencies of each descriptor are registered, or are those of descriptors before it.
abbrev pub IsComplete : Engine → List NodeDescriptor → Type 0
IsComplete e [] = Unit {0}
IsComplete e (d ∷ ds) =
    ((dep : NodeId) → contains d.deps dep ≡ true → declared e dep ≢ none)
    × IsComplete (register e d) ds

declared_in-insert_any :
    (m : Map NodeId NodeEntry) (id x : NodeId) (new : NodeEntry)
    → declared_in (insert id new m) x ≡ (if id == x then some new.deps else declared_in m x)
unfolding declared_in
declared_in-insert_any m id x new = let k = lookup-insert id x new m in ground (arith, k)

module _ (e : Engine) (d : NodeDescriptor) where
  topology-register : (register e d).topology ≡ e.topology
  unfolding register
  topology-register = refl

  register_old-Alike :
      (entry : NodeEntry) → lookup d.id e.graph.entries ≡ some entry → Alike e (register e d)
  unfolding register
  register_old-Alike entry h = record {
    same = λ x.
        ap (λ m. declared_in m x) (register_old e d entry h)
        ∙ declared_in-insert e.graph.entries d.id x entry
            (record entry { ref_count = entry.ref_count + 1 }) h refl;
    topology = refl;
    active = refl;
    pending = refl;
  }

  declared-register_new :
      (x : NodeId)
      → lookup d.id e.graph.entries ≡ none
      → declared (register e d) x ≡ (if d.id == x then some d.deps else declared e x)
  declared-register_new x h =
      ap (λ m. declared_in m x) (register_new e d h)
      ∙ declared_in-insert_any e.graph.entries d.id x _

  -- A node that was registered before is another one, and declares what it declared.
  declared-old :
      lookup d.id e.graph.entries ≡ none
      → (x : NodeId) → declared e x ≢ none
      → ((d.id == x) ≡ false) × (declared (register e d) x ≡ declared e x)
  unfolding declared_in
  declared-old h x old = elim (eq_cases d.id x) [
    | inl (same, q) ↦ absurd (old (subst (λ y. declared e y ≡ none) q (rw (h, declared_in) refl)))
    | inr (other, q) ↦ (other, declared-register_new x h ∙ rw other refl)
  ]

  register_new-IsSound :
      lookup d.id e.graph.entries ≡ none
      → ((dep : NodeId) → contains d.deps dep ≡ true → declared e dep ≢ none)
      → IsSound e
      → IsSound (register e d)
  unfolding register
  register_new-IsSound h complete sound = record {
    rank = λ x. if d.id == x then sound.limit else sound.rank x;
    limit = suc sound.limit;
    below = λ x k. elim (eq_cases d.id x) [
      | inl (same, q) ↦ rw same (omega arith)
      | inr (other, q) ↦
          let lower = sound.below x (λ n. k (declared-register_new x h ∙ rw other n)) in
          rw other (omega (arith, lower))
    ];
    ordered = λ x dep deps k m. elim (eq_cases d.id x) [
      | inl (same, q) ↦
          let listed : some deps ≡ some d.deps = sym k ∙ declared-register_new x h ∙ rw same refl in
          let known = complete dep (ap (λ ids. contains ids dep) (cc (listed)) ∙ m) in
          let old = declared-old h dep known in
          let lower = sound.below dep known in (λ n. known (sym old.1 ∙ n), rw (same, old.0) lower)
      | inr (other, q) ↦
          let found =
            sound.ordered x dep deps (sym (declared-register_new x h ∙ rw other refl) ∙ k) m in
          let old = declared-old h dep found.0 in
          (λ n. found.0 (sym old.1 ∙ n), rw (other, old.0) found.1)
    ];
    mirror = sound.mirror;
    tracked = λ x m.
        let before = sound.tracked x m in (declared-old h x (λ n. cc (before, n))).1 ∙ before;
    untracked = sound.untracked;
    settled = sound.settled;
  }

  pub register-IsSound :
      ((dep : NodeId) → contains d.deps dep ≡ true → declared e dep ≢ none)
      → IsSound e
      → IsSound (register e d)
  register-IsSound complete sound = elim (Option-cases (lookup d.id e.graph.entries)) [
    | inl h ↦ register_new-IsSound h complete sound
    | inr (entry, h) ↦ Alike-IsSound (register_old-Alike entry h) sound
  ]

pub register_all-IsSound :
    (ds : List NodeDescriptor) (e : Engine)
    → IsComplete e ds
    → IsSound e
    → IsSound (foldl register e ds)
register_all-IsSound [] e complete sound = sound
register_all-IsSound (d ∷ ds) e complete sound =
    register_all-IsSound ds (register e d) complete.1 (register-IsSound e d complete.0 sound)

module _ (e : Engine) (d : NodeDescriptor) where
  -- Registration forgets no node.
  keeps_declared : (x : NodeId) → declared e x ≢ none → declared (register e d) x ≢ none
  keeps_declared x old = elim (Option-cases (lookup d.id e.graph.entries)) [
    | inl h ↦ (λ gone. old (sym (declared-old e d h x old).1 ∙ gone))
    | inr (entry, h) ↦ (λ gone. old (sym ((register_old-Alike e d entry h).same x) ∙ gone))
  ]

  declared-register : declared (register e d) d.id ≢ none
  unfolding declared_in
  declared-register = elim (Option-cases (lookup d.id e.graph.entries)) [
    | inl h ↦ (λ gone.
        let found : declared (register e d) d.id ≡ some d.deps =
          rw (declared-register_new e d d.id h, eq_refl d.id) refl in
        cc (found, gone))
    | inr (entry, h) ↦ (λ gone.
        let found : declared e d.id ≡ some entry.deps = rw (h, declared_in) refl in
        cc (sym ((register_old-Alike e d entry h).same d.id) ∙ gone, found))
  ]

unfoldable pub all_in : List NodeId → List NodeId → Bool
all_in known [] = true
all_in known (x ∷ xs) = contains known x && all_in known xs

pub contains-all_in :
    (known xs : List NodeId) (x : NodeId)
    → all_in known xs ≡ true
    → contains xs x ≡ true
    → contains known x ≡ true
unfolding all_in contains
contains-all_in known [] x h m = ground (arith, m)
contains-all_in known (y ∷ xs) x h m =
    let both : (contains known y ≡ true) × (all_in known xs ≡ true) = ground (arith, h) in
    elim (eq_cases y x) [
      | inl (same, q) ↦ subst (λ z. contains known z ≡ true) q both.0
      | inr (other, q) ↦ contains-all_in known xs x both.1 (ground (arith, m, other))
    ]

-- After a registration, the new node and those known before are registered.
known_after :
    (e : Engine) (d : NodeDescriptor) (known : List NodeId)
    → ((x : NodeId) → contains known x ≡ true → declared e x ≢ none)
    → (x : NodeId) → contains (d.id ∷ known) x ≡ true
    → declared (register e d) x ≢ none
unfolding contains
known_after e d known old x m = elim (eq_cases d.id x) [
  | inl (same, q) ↦ subst (λ z. declared (register e d) z ≢ none) q (declared-register e d)
  | inr (other, q) ↦ keeps_declared e d x (old x (ground (arith, m, other)))
]

-- Each dependency of a descriptor is one of the known nodes, or that of a descriptor before it.
unfoldable pub is_contained : List NodeId → List NodeDescriptor → Bool
is_contained known [] = true
is_contained known (d ∷ ds) = all_in known d.deps && is_contained (d.id ∷ known) ds

-- What is contained can be registered in every engine.
pub is_contained-IsComplete :
    (ds : List NodeDescriptor) (known : List NodeId) (e : Engine)
    → ((x : NodeId) → contains known x ≡ true → declared e x ≢ none)
    → is_contained known ds ≡ true
    → IsComplete e ds
unfolding is_contained
is_contained-IsComplete [] known e old h = tt
is_contained-IsComplete (d ∷ ds) known e old h =
    let both : (all_in known d.deps ≡ true) × (is_contained (d.id ∷ known) ds ≡ true) =
      ground (arith, h) in
    (
      λ dep m. old dep (contains-all_in known d.deps dep both.0 m),
      is_contained-IsComplete ds (d.id ∷ known) (register e d) (known_after e d known old) both.1,
    )
