-- ===== src/Engine/Removal.antt =====
-- `deactivate_node`: the cascade ends, and what it does to reference counts.
use reactive_graph_experimen.Base.{
  ℕ, zero, suc, ◌-◌, ◌≤◌, ◌<◌, ◌≡◌, refl, inl, inr, true, false, none, some, List, [], ◌∷◌, foldl,
  arith, lookup, insert, remove, lookup-insert, lookup-remove, Option-cases, Bool-cases, nat_beq,
  length, Map,
}
use reactive_graph_experimen.NodeRef.{NodeId, id_eq, id_beq_iff}
use reactive_graph_experimen.Graph.{NodeKind, NodeEntry}
use reactive_graph_experimen.Engine.{
  Engine, drop_node, set_ref_count, deactivate_node, deactivate, enough,
}

-- The cases of one call of `deactivate_node`.
pub deactivate_node_cases {ℓ} :
    (P : Engine → Type ℓ) (fuel : ℕ) (e : Engine) (id : NodeId)
    → (lookup id e.graph.entries ≡ none → P e)
    → ((entry : NodeEntry)
        → lookup id e.graph.entries ≡ some entry
        → nat_beq (entry.ref_count - 1) 0 ≡ false
        → P (set_ref_count e id entry (entry.ref_count - 1)))
    → ((entry : NodeEntry)
        → lookup id e.graph.entries ≡ some entry
        → nat_beq (entry.ref_count - 1) 0 ≡ true
        → P (foldl (deactivate_node fuel) (drop_node e id entry.kind) entry.deps))
    → P (deactivate_node (suc fuel) e id)
unfolding deactivate_node
deactivate_node_cases P fuel e id absent counted dropped =
    elim (Option-cases (lookup id e.graph.entries)) [
      | inl h ↦ rw (h, deactivate_node) (absent h)
      | inr (entry, h) ↦ elim (Bool-cases (nat_beq (entry.ref_count - 1) 0)) [
        | inl z ↦ rw (h, z, deactivate_node) (dropped entry h z)
        | inr z ↦ rw (h, z, deactivate_node) (counted entry h z)
      ]
    ]

pub entries-drop_node :
    (e : Engine) (id : NodeId) (kind : NodeKind)
    → (drop_node e id kind).graph.entries ≡ remove id e.graph.entries
unfolding drop_node
entries-drop_node e id kind = refl

pub entries-set_ref_count :
    (e : Engine) (id : NodeId) (entry : NodeEntry) (count : ℕ)
    → (set_ref_count e id entry count).graph.entries
      ≡ insert id (record entry { ref_count = count }) e.graph.entries
unfolding set_ref_count
entries-set_ref_count e id entry count = refl

-- An absent node stays absent.
abbrev pub StaysAbsent : Engine → Engine → Type 0
StaysAbsent e e' = (x : NodeId) → lookup x e.graph.entries ≡ none → lookup x e'.graph.entries ≡ none

pub foldl-StaysAbsent :
    (f : Engine → NodeId → Engine)
    → ((e : Engine) (id : NodeId) → StaysAbsent e (f e id))
    → (ids : List NodeId) (e : Engine) → StaysAbsent e (foldl f e ids)
foldl-StaysAbsent f stays [] e x h = h
foldl-StaysAbsent f stays (id ∷ ids) e x h =
    foldl-StaysAbsent f stays ids (f e id) x (stays e id x h)

pub deactivate_node-StaysAbsent :
    (fuel : ℕ) (e : Engine) (id : NodeId) → StaysAbsent e (deactivate_node fuel e id)
unfolding deactivate_node
deactivate_node-StaysAbsent zero e id = λ x h. h
deactivate_node-StaysAbsent (suc fuel) e id =
    deactivate_node_cases (StaysAbsent e) fuel e id (λ _ x h. h)
      (λ entry found _ x h. rw (entries-set_ref_count e id entry (entry.ref_count - 1)) (
        ground (
          arith,
          lookup-insert id x (record entry { ref_count = entry.ref_count - 1 }) e.graph.entries,
          id_beq_iff id x,
        )))
      (λ entry found _ x h.
        foldl-StaysAbsent (deactivate_node fuel) (deactivate_node-StaysAbsent fuel) entry.deps
          (drop_node e id entry.kind) x
          (rw (entries-drop_node e id entry.kind)
            (ground (arith, lookup-remove id x e.graph.entries))))

pub length-pos_of_lookup :
    (m : Map NodeId NodeEntry) (x : NodeId) {entry : NodeEntry}
    → lookup x m ≡ some entry
    → 0 < length m
unfolding lookup
length-pos_of_lookup [] x h = cc
length-pos_of_lookup (p ∷ m) x h = omega arith

-- `deactivate` with its fuel: a count above one goes down by one, and nothing else changes; a last
-- count makes the node go, and then its dependencies are deactivated.
module _ (e : Engine) (id : NodeId) (entry : NodeEntry)
    (found : lookup id e.graph.entries ≡ some entry) where
  pub deactivate_counted :
      1 < entry.ref_count → deactivate e id ≡ set_ref_count e id entry (entry.ref_count - 1)
  unfolding deactivate deactivate_node enough
  deactivate_counted h =
      let z : nat_beq (entry.ref_count - 1) 0 ≡ false = ground arith in
      rw (found, z, deactivate, deactivate_node, enough) refl

  pub deactivate_last :
      entry.ref_count ≤ 1
      → deactivate e id
        ≡ foldl (deactivate_node (length e.graph.entries)) (drop_node e id entry.kind) entry.deps
  unfolding deactivate deactivate_node enough
  deactivate_last h =
      let z : nat_beq (entry.ref_count - 1) 0 ≡ true = ground arith in
      rw (found, z, deactivate, deactivate_node, enough) refl

  pub deactivate_node_counted :
      (fuel : ℕ)
      → 1 < entry.ref_count
      → deactivate_node (suc fuel) e id ≡ set_ref_count e id entry (entry.ref_count - 1)
  unfolding deactivate_node
  deactivate_node_counted fuel h =
      let z : nat_beq (entry.ref_count - 1) 0 ≡ false = ground arith in
      rw (found, z, deactivate_node) refl
