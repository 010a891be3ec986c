-- ===== src/Engine/Activation.antt =====
-- `activate_node` and `activate_sink`: which nodes are active afterwards.
use reactive_graph_experimen.Base.{
  ℕ, zero, suc, ◌≤◌, ◌<◌, ◌≡◌, ◌≢◌, sym, ◌∙◌, ap, inl, inr, true, false, none, some, List, [], ◌∷◌,
  foldl, contains_iff, arith, contains, set_insert, lookup, eq_refl, eq_cases,
}
use reactive_graph_experimen.NodeRef.{NodeId, id_eq}
use reactive_graph_experimen.Graph.{NodeEntry}
use reactive_graph_experimen.Topology.Dirty.{unseen, unseen-snoc, unseen-le, contains_of_unseen}
use reactive_graph_experimen.Engine.{Engine, declared, start_node, mark_active, activate_node}
use reactive_graph_experimen.Engine.Frame.{
  Grows, foldl-Grows, activate_node-Grows, mark_active-Grows, active-start_node,
  declared-start_node, activate_node_cases, declared_in-of_lookup, active-mark_active,
}

-- Each registered dependency of an active node is active, for the nodes outside `pending`.
abbrev pub IsClosed : List NodeId → Engine → Type 0
IsClosed pending e =
    (x d : NodeId) (deps : List NodeId)
    → contains e.active x ≡ true
    → contains pending x ≡ false
    → declared e x ≡ some deps
    → contains deps d ≡ true
    → declared e d ≢ none
    → contains e.active d ≡ true

module _ (universe : List NodeId) where
  abbrev pub IsKnown : Engine → Type 0
  IsKnown e = (x : NodeId) → declared e x ≢ none → contains universe x ≡ true

  IsKnown-Grows : {a b : Engine} → Grows a b → IsKnown a → IsKnown b
  IsKnown-Grows g known x h = known x (λ h'. h (g.same x ∙ h'))

  pub record Activates (pending : List NodeId) (e e' : Engine) (id : NodeId) : Type 0 where
    pub closed : IsClosed pending e'
    pub target : declared e id ≢ none → contains e'.active id ≡ true

  ActivatesAll : List NodeId → Engine → Engine → List NodeId → Type 0
  ActivatesAll pending e e' ids =
      IsClosed pending e'
      × ((d : NodeId) → contains ids d ≡ true → declared e d ≢ none → contains e'.active d ≡ true)

  ActivatesAll-cons :
      (pending ids : List NodeId) (e a b : Engine) (id : NodeId)
      → Grows e a
      → Grows a b
      → Activates pending e a id
      → ActivatesAll pending a b ids
      → ActivatesAll pending e b (id ∷ ids)
  unfolding ActivatesAll contains
  ActivatesAll-cons pending ids e a b id grows later now rest = (
    rest.0,
    λ d m h. elim (eq_cases id d) [
      | inl (same, q) ↦ later.keeps d (rw q at (now.target (λ h'. h (rw q at h'))))
      | inr (other, q) ↦ rest.1 d (ground arith) (λ h'. h (sym (grows.same d) ∙ h'))
    ],
  )

  foldl-activate :
      (fuel : ℕ) (pending : List NodeId)
      → ((e : Engine) (id : NodeId)
          → IsKnown e
          → IsClosed pending e
          → unseen e.active universe ≤ fuel
          → Activates pending e (activate_node fuel e id) id)
      → (ids : List NodeId) (e : Engine) → IsKnown e
      → IsClosed pending e
      → unseen e.active universe ≤ fuel
      → ActivatesAll pending e (foldl (activate_node fuel) e ids) ids
  unfolding ActivatesAll contains
  foldl-activate fuel pending one [] e known closed le = (closed, λ d m h. cc)
  foldl-activate fuel pending one (id ∷ ids) e known closed le =
      let now = one e id known closed le in
      let grows = activate_node-Grows fuel e id in
      let rest =
        foldl-activate fuel pending one ids (activate_node fuel e id) (IsKnown-Grows grows known)
          now.closed
          (omega (
            arith,
            le,
            unseen-le e.active (activate_node fuel e id).active universe grows.keeps,
          )) in
      ActivatesAll-cons pending ids e (activate_node fuel e id) _ id grows
        (foldl-Grows (activate_node fuel) (activate_node-Grows fuel) ids (activate_node fuel e id))
        now rest

  module _ (e : Engine) (id : NodeId) (deps : List NodeId) where
    mark_active-IsClosed :
        (pending : List NodeId)
        → IsClosed pending e
        → IsClosed (id ∷ pending) (mark_active e id deps)
    unfolding contains
    mark_active-IsClosed pending closed x d ds m out h dep known =
        let g = mark_active-Grows e id deps in
        ground (
          arith,
          active-mark_active e id deps x,
          active-mark_active e id deps d,
          closed x d ds (ground (arith, active-mark_active e id deps x)) (ground arith)
              (sym (g.same x) ∙ h) dep (λ h'. known (g.same d ∙ h')),
        )

    unseen-mark_active :
        contains e.active id ≡ false
        → contains universe id ≡ true
        → unseen (mark_active e id deps).active universe < unseen e.active universe
    unfolding mark_active set_insert
    unseen-mark_active new known =
        rw new
          (omega (arith, unseen-snoc e.active id universe new, (contains_iff universe id).0 known))

  -- With all dependencies of `id` active and the others closed, starting `id` ends its turn.
  start_node-Activates :
      (pending : List NodeId) (e b : Engine) (id : NodeId) (entry : NodeEntry)
      → lookup id e.graph.entries ≡ some entry
      → Grows (mark_active e id entry.deps) b
      → ActivatesAll (id ∷ pending) (mark_active e id entry.deps) b entry.deps
      → Activates pending e (start_node b id entry.kind) id
  unfolding ActivatesAll contains
  start_node-Activates pending e b id entry h grows all = record {
    closed = λ x d deps m out h' dep known.
        let m' = rw (active-start_node b id entry.kind) at m in
        let hx = sym (declared-start_node b id entry.kind x) ∙ h' in
        let known' =
          λ (k : declared b d ≡ none). known (declared-start_node b id entry.kind d ∙ k) in
        rw (active-start_node b id entry.kind) (elim (eq_cases id x) [
          | inl (same, q) ↦
              all.1 d
                (cc (
                  dep,
                  declared_in-of_lookup e.graph.entries id entry h,
                  marked.same id,
                  grows.same id,
                  ap (declared b) q,
                  hx,
                ))
                (λ k. known' (grows.same d ∙ k))
          | inr (other, q) ↦ all.0 x d deps m' (ground arith) hx dep known'
        ]);
    target = λ k.
        rw (active-start_node b id entry.kind)
          (grows.keeps id (ground (arith, active-mark_active e id entry.deps id, eq_refl id)));
  }
    where
      marked : Grows e (mark_active e id entry.deps)
      marked = mark_active-Grows e id entry.deps

  pub activate_node-Activates :
      (fuel : ℕ) (pending : List NodeId) (e : Engine) (id : NodeId)
      → IsKnown e
      → IsClosed pending e
      → unseen e.active universe ≤ fuel
      → Activates pending e (activate_node fuel e id) id
  unfolding activate_node
  activate_node-Activates zero pending e id known closed le = record {
    closed = closed;
    target = λ h. contains_of_unseen e.active universe id (omega arith) (known id h);
  }
  activate_node-Activates (suc fuel) pending e id known closed le =
      activate_node_cases (λ e'. Activates pending e e' id) fuel e id
        (λ m. record { closed = closed; target = λ _. m })
        (λ m. record { closed = closed; target = λ h. absurd (h m) })
        (λ entry new h.
          let marked = mark_active-Grows e id entry.deps in
          let is_known = known id (λ k. cc (declared_in-of_lookup e.graph.entries id entry h)) in
          start_node-Activates pending e _ id entry h
            (foldl-Grows (activate_node fuel) (activate_node-Grows fuel) entry.deps
              (mark_active e id entry.deps))
            (foldl-activate fuel (id ∷ pending)
              (λ a x. activate_node-Activates fuel (id ∷ pending) a x) entry.deps
              (mark_active e id entry.deps) (IsKnown-Grows marked known)
              (mark_active-IsClosed e id entry.deps pending closed)
              (omega (arith, le, unseen-mark_active e id entry.deps new is_known))))
