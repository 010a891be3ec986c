-- ===== src/Engine/Reach.antt =====
-- `activate_sink` makes active exactly the nodes that the sink needs.
use reactive_graph_experimen.Base.{
  ℕ, zero, suc, ◌≤◌, ◌≡◌, ◌≢◌, ◌⊎◌, ◌↔◌, refl, sym, ◌∙◌, inl, inr, true, ◌==◌, none, some, List, [],
  ◌∷◌, foldl, Map, length, keys, arith, contains, lookup, Bool-cases, eq_refl, eq_cases, ⊎_elim,
}
use reactive_graph_experimen.NodeRef.{NodeId, id_eq}
use reactive_graph_experimen.Graph.{NodeEntry}
use reactive_graph_experimen.Topology.Dirty.{unseen}
use reactive_graph_experimen.Engine.{
  Engine, declared, declared_in, mark_active, activate_node, activate_sink, drain_pending_removals,
  enough,
}
use reactive_graph_experimen.Engine.Frame.{
  Grows, Grows-trans, activate_node-Grows, mark_active-Grows, active-start_node,
  activate_node_cases, declared_in-of_lookup, active-mark_active,
}
use reactive_graph_experimen.Engine.Activation.{IsClosed, Activates, activate_node-Activates}

-- The registered nodes that `id` reads from, directly or not, and `id` itself.
pub data Needs (e : Engine) (id : NodeId) : NodeId → Type 0 where
  self : declared e id ≢ none → Needs e id id
  via :
      (x : NodeId) {d : NodeId} (deps : List NodeId)
      → Needs e id x
      → declared e x ≡ some deps
      → contains deps d ≡ true
      → declared e d ≢ none
      → Needs e id d

-- Below a dependency of `id` there are only nodes that `id` needs; the registry may have grown.
Needs-below :
    (a b : Engine) (id d : NodeId) (deps : List NodeId) {x : NodeId}
    → Grows a b
    → declared a id ≡ some deps
    → contains deps d ≡ true
    → Needs b d x
    → Needs a id x
Needs-below a b id d deps g h m (self r) = via id deps (self (λ k. cc)) h m (λ k. r (g.same d ∙ k))
Needs-below a b id d deps g h m (via x ds n h' m' r) =
    via x ds (Needs-below a b id d deps g h m n) (sym (g.same x) ∙ h') m' (λ k. r (g.same _ ∙ k))

abbrev IsSound : Engine → Engine → NodeId → Type 0
IsSound e e' id =
    (x : NodeId) → contains e'.active x ≡ true → (contains e.active x ≡ true) ⊎ Needs e id x

foldl-IsSound :
    (fuel : ℕ)
    → ((e : Engine) (id : NodeId) → IsSound e (activate_node fuel e id) id)
    → (a : Engine) (id : NodeId) (deps : List NodeId) → declared a id ≡ some deps
    → (ids : List NodeId) → ((d : NodeId) → contains ids d ≡ true → contains deps d ≡ true)
    → (b : Engine) → Grows a b
    → (x : NodeId) → contains (foldl (activate_node fuel) b ids).active x ≡ true
    → (contains b.active x ≡ true) ⊎ Needs a id x
unfolding contains
foldl-IsSound fuel one a id deps h [] sub b g x m = inl m
foldl-IsSound fuel one a id deps h (d ∷ ds) sub b g x m =
    elim (foldl-IsSound fuel one a id deps h ds (λ y m'. sub y (ground arith))
      (activate_node fuel b d) (Grows-trans g (activate_node-Grows fuel b d)) x m) [
        | inl now ↦ elim (one b d x now) [
          | inl old ↦ inl old
          | inr n ↦ inr (Needs-below a b id d deps g h (sub d (ground (arith, eq_refl d))) n)
        ]
        | inr n ↦ inr n
      ]

activate_node-IsSound :
    (fuel : ℕ) (e : Engine) (id : NodeId) → IsSound e (activate_node fuel e id) id
unfolding activate_node
activate_node-IsSound zero e id = λ x m. inl m
activate_node-IsSound (suc fuel) e id =
    activate_node_cases (λ e'. IsSound e e' id) fuel e id (λ _ x m. inl m) (λ _ x m. inl m)
      (λ entry new h x m.
        let declares = declared_in-of_lookup e.graph.entries id entry h in
        let marked = mark_active-Grows e id entry.deps in
        elim (foldl-IsSound fuel (activate_node-IsSound fuel) e id entry.deps declares entry.deps
          (λ d k. k) (mark_active e id entry.deps) marked x
          (rw (active-start_node _ id entry.kind) at m)) [
            | inl now ↦ elim (eq_cases id x) [
              | inl (same, q) ↦ inr (rw (← q) (self (λ k. cc)))
              | inr (other, q) ↦ inl (ground (arith, active-mark_active e id entry.deps x))
            ]
            | inr n ↦ inr n
          ])

contains-keys :
    (m : Map NodeId NodeEntry) (x : NodeId) → declared_in m x ≢ none → contains (keys m) x ≡ true
unfolding declared_in lookup contains keys
contains-keys [] x h = absurd (h refl)
contains-keys ((k, entry) ∷ m) x h = elim (Bool-cases (k == x)) [
  | inl same ↦ rw same refl
  | inr other ↦ rw other (contains-keys m x (λ k'. h (rw (other, declared_in) k')))
]

unseen-keys-le :
    (active : List NodeId) (m : Map NodeId NodeEntry) → unseen active (keys m) ≤ length m
unfolding keys
unseen-keys-le active [] = omega arith
unseen-keys-le active ((k, entry) ∷ m) = ground (arith, unseen-keys-le active m)

module _ (e : Engine) (id : NodeId) (closed : IsClosed [] e) where
  enough-Activates : Activates (keys e.graph.entries) [] e (activate_node (enough e) e id) id
  unfolding enough
  enough-Activates =
      activate_node-Activates (keys e.graph.entries) (enough e) [] e id
        (contains-keys e.graph.entries) closed
        (omega (arith, unseen-keys-le e.active e.graph.entries))

  Needs-active :
      {x : NodeId} → Needs e id x → contains (activate_node (enough e) e id).active x ≡ true
  unfolding contains
  Needs-active (self r) = enough-Activates.target r
  Needs-active (via x {d} deps n h m r) =
      let g = activate_node-Grows (enough e) e id in
      enough-Activates.closed x d deps (Needs-active n) refl (g.same x ∙ h) m
        (λ k. r (sym (g.same d) ∙ k))

-- From a state in which the active nodes have their dependencies active, `activate_sink` first
-- carries out the pending removals; then a node is active exactly if it was active, or the sink
-- needs it. The dependencies of active nodes are active again.
pub activate_sink_iff :
    (e : Engine) (sink_id : NodeId)
    → IsClosed [] (drain_pending_removals e)
    → IsClosed [] (activate_sink e sink_id)
      × ((x : NodeId)
          → (contains (activate_sink e sink_id).active x ≡ true) ↔ (
              (contains (drain_pending_removals e).active x ≡ true)
              ⊎ Needs (drain_pending_removals e) sink_id x))
unfolding activate_sink
activate_sink_iff e sink_id closed =
    let d = drain_pending_removals e in
    (
      (enough-Activates d sink_id closed).closed,
      λ x. (
        activate_node-IsSound (enough d) d sink_id x,
        ⊎_elim ((activate_node-Grows (enough d) d sink_id).keeps x) (Needs-active d sink_id closed),
      ),
    )
