-- ===== src/Engine/Frame.antt =====
-- The steps of `activate_node`, and what they leave alone.
use reactive_graph_experimen.Base.{
  ℕ, zero, suc, ◌≡◌, refl, ◌∙◌, inl, inr, true, false, ◌||◌, ◌==◌, none, some, List, [], ◌∷◌, foldl,
  Map, arith, contains, contains-set_insert, lookup, insert, lookup-insert, Bool-cases,
  Option-cases, eq_refl, eq_cases,
}
use reactive_graph_experimen.NodeRef.{NodeId, id_eq}
use reactive_graph_experimen.Graph.{NodeKind, source, compute, sink, async_compute, NodeEntry}
use reactive_graph_experimen.Engine.{
  Engine, declared, declared_in, start_source, store_result, start_compute, start_node, mark_active,
  activate_node,
}

-- One engine state is reached from another by activating nodes: the registry declares the same
-- dependencies, and no node was made inactive.
pub record Grows (e e' : Engine) : Type 0 where
  pub same : (x : NodeId) → declared e' x ≡ declared e x
  pub keeps : (x : NodeId) → contains e.active x ≡ true → contains e'.active x ≡ true

pub Grows-refl : (e : Engine) → Grows e e
Grows-refl e = record { same = λ x. refl; keeps = λ x m. m }

pub Grows-trans : {a b c : Engine} → Grows a b → Grows b c → Grows a c
Grows-trans g h = record { same = λ x. h.same x ∙ g.same x; keeps = λ x m. h.keeps x (g.keeps x m) }

pub declared_in-insert :
    (m : Map NodeId NodeEntry) (id x : NodeId) (old new : NodeEntry)
    → lookup id m ≡ some old
    → new.deps ≡ old.deps
    → declared_in (insert id new m) x ≡ declared_in m x
unfolding declared_in
declared_in-insert m id x old new h k = elim (eq_cases id x) [
  | inl (same, q) ↦ rw (← q) (ground (arith, eq_refl id, lookup-insert id id new m))
  | inr (other, q) ↦ ground (arith, lookup-insert id x new m)
]

module _ (e : Engine) (id : NodeId) where
  declared-start_source :
      (entry : NodeEntry) (x : NodeId)
      → lookup id e.graph.entries ≡ some entry
      → declared (start_source e id entry) x ≡ declared e x
  unfolding start_source
  declared-start_source entry x h = declared_in-insert e.graph.entries id x entry _ h refl

  declared-start_compute :
      (entry : NodeEntry) (x : NodeId) → declared (start_compute e id entry) x ≡ declared e x
  unfolding start_compute store_result
  declared-start_compute entry x = ground arith

  active-start_compute : (entry : NodeEntry) → (start_compute e id entry).active ≡ e.active
  unfolding start_compute store_result
  active-start_compute entry = ground arith

  topology-start_compute : (entry : NodeEntry) → (start_compute e id entry).topology ≡ e.topology
  unfolding start_compute store_result
  topology-start_compute entry = ground arith

  -- A predicate that a source's start and a compute node's start keep is kept by `start_node`.
  pub start_node_cases {ℓ} :
      (P : Engine → Type ℓ) (kind : NodeKind)
      → P e
      → ((entry : NodeEntry) → lookup id e.graph.entries ≡ some entry → P (start_source e id entry))
      → ((entry : NodeEntry) → P (start_compute e id entry))
      → P (start_node e id kind)
  unfolding start_node
  start_node_cases P kind keep src cmp = elim (Option-cases (lookup id e.graph.entries)) [
    | inl h ↦ rw (h, start_node) keep
    | inr (entry, h) ↦ rw (h, start_node) (by_kind entry h kind)
  ]
    where
      by_kind :
          (entry : NodeEntry)
          → lookup id e.graph.entries ≡ some entry
          → (k : NodeKind)
          → P (elim k [
            | source ↦ start_source e id entry
            | compute ↦ start_compute e id entry
            | _ ↦ e
          ])
      by_kind entry h source = src entry h
      by_kind entry h compute = cmp entry
      by_kind entry h sink = keep
      by_kind entry h async_compute = keep

  pub active-start_node : (kind : NodeKind) → (start_node e id kind).active ≡ e.active
  unfolding start_source
  active-start_node kind =
      start_node_cases (λ e'. e'.active ≡ e.active) kind refl (λ entry h. refl) active-start_compute

  pub topology-start_node : (kind : NodeKind) → (start_node e id kind).topology ≡ e.topology
  unfolding start_source
  topology-start_node kind =
      start_node_cases (λ e'. e'.topology ≡ e.topology) kind refl (λ entry h. refl)
        topology-start_compute

  pub declared-start_node :
      (kind : NodeKind) (x : NodeId) → declared (start_node e id kind) x ≡ declared e x
  declared-start_node kind x =
      start_node_cases (λ e'. declared e' x ≡ declared e x) kind refl
        (λ entry. declared-start_source entry x) (λ entry. declared-start_compute entry x)

  pub start_node-Grows : (kind : NodeKind) → Grows e (start_node e id kind)
  start_node-Grows kind = record {
    same = declared-start_node kind;
    keeps = λ x m. rw (active-start_node kind) m;
  }

  pub mark_active-Grows : (deps : List NodeId) → Grows e (mark_active e id deps)
  unfolding mark_active
  mark_active-Grows deps = record {
    same = λ x. refl;
    keeps = λ x m. ground (arith, contains-set_insert e.active id x);
  }

pub declared_in-of_lookup :
    (m : Map NodeId NodeEntry) (id : NodeId) (entry : NodeEntry)
    → lookup id m ≡ some entry
    → declared_in m id ≡ some entry.deps
unfolding declared_in
declared_in-of_lookup m id entry h = rw (h, declared_in) refl

pub active-mark_active :
    (e : Engine) (id : NodeId) (deps : List NodeId) (x : NodeId)
    → contains (mark_active e id deps).active x ≡ (contains e.active x || (id == x))
unfolding mark_active
active-mark_active e id deps x = contains-set_insert e.active id x

-- The cases of one call of `activate_node`.
pub activate_node_cases {ℓ} :
    (P : Engine → Type ℓ) (fuel : ℕ) (e : Engine) (id : NodeId)
    → (contains e.active id ≡ true → P e)
    → (declared e id ≡ none → P e)
    → ((entry : NodeEntry)
        → contains e.active id ≡ false
        → lookup id e.graph.entries ≡ some entry
        → P (
            start_node
              (foldl (activate_node fuel) (mark_active e id entry.deps) entry.deps)
              id
              entry.kind))
    → P (activate_node (suc fuel) e id)
unfolding activate_node declared_in
activate_node_cases P fuel e id old absent fresh = elim (Bool-cases (contains e.active id)) [
  | inl m ↦ rw (m, activate_node) (old m)
  | inr m ↦ elim (Option-cases (lookup id e.graph.entries)) [
    | inl h ↦ rw (m, h, activate_node) (absent (rw (h, declared_in) refl))
    | inr (entry, h) ↦ rw (m, h, activate_node) (fresh entry m h)
  ]
]

pub foldl-Grows :
    (f : Engine → NodeId → Engine)
    → ((e : Engine) (id : NodeId) → Grows e (f e id))
    → (ids : List NodeId) (e : Engine) → Grows e (foldl f e ids)
foldl-Grows f grows [] e = Grows-refl e
foldl-Grows f grows (id ∷ ids) e = Grows-trans (grows e id) (foldl-Grows f grows ids (f e id))

pub activate_node-Grows : (fuel : ℕ) (e : Engine) (id : NodeId) → Grows e (activate_node fuel e id)
unfolding activate_node
activate_node-Grows zero e id = Grows-refl e
activate_node-Grows (suc fuel) e id =
    activate_node_cases (Grows e) fuel e id (λ m. Grows-refl e) (λ m. Grows-refl e)
      (λ entry m h. Grows-trans (mark_active-Grows e id entry.deps) (
        Grows-trans
          (foldl-Grows (activate_node fuel) (activate_node-Grows fuel) entry.deps
            (mark_active e id entry.deps))
          (start_node-Grows _ id entry.kind)))
