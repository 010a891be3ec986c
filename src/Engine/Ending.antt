-- ===== src/Engine/Ending.antt =====
-- `deactivate_node` of src/engine.rs has no bound on its depth; the model's fuel does not show.
use reactive_graph_experimen.Base.{
  ℕ, zero, suc, ◌-◌, ◌≤◌, ◌<◌, ◌≡◌, refl, ap, ◌∙◌, inl, inr, some, List, [], ◌∷◌, foldl, length,
  Map, lookup, insert, remove, arith, ◌==◌, nat_beq, Bool-cases, Option-cases,
}
use reactive_graph_experimen.NodeRef.{NodeId, id_eq}
use reactive_graph_experimen.Graph.{NodeEntry}
use reactive_graph_experimen.Engine.{Engine, drop_node, deactivate_node, deactivate, enough}
use reactive_graph_experimen.Engine.Removal.{
  deactivate_node_cases, entries-drop_node, entries-set_ref_count,
}

module _ {V : Type 0} where
  length-remove-le : (k : NodeId) (m : Map NodeId V) → length (remove k m) ≤ length m
  unfolding remove
  length-remove-le k [] = omega arith
  length-remove-le k ((j, w) ∷ m) = let l = length-remove-le k m in ground (arith, l)

  length-remove :
      (k : NodeId) (m : Map NodeId V) (v : V) → lookup k m ≡ some v → length (remove k m) < length m
  unfolding remove lookup
  length-remove k [] v h = absurd (ground (arith, h))
  length-remove k ((j, w) ∷ m) v h =
      let l = length-remove-le k m in
      elim (Bool-cases (j == k)) [
        | inl same ↦ ground (arith, l, same)
        | inr other ↦
            let k' = length-remove k m v (ground (arith, h, other)) in ground (arith, k', other)
      ]

  length-insert :
      (k : NodeId) (v old : V) (m : Map NodeId V)
      → lookup k m ≡ some old
      → length (insert k v m) ≡ length m
  unfolding insert lookup
  length-insert k v old [] h = absurd (ground (arith, h))
  length-insert k v old ((j, w) ∷ m) h = elim (Bool-cases (j == k)) [
    | inl same ↦ ground (arith, same)
    | inr other ↦
        let l = length-insert k v old m (ground (arith, h, other)) in ground (arith, l, other)
  ]

abbrev size : Engine → ℕ
size e = length e.graph.entries

size-drop_node :
    (e : Engine) (id : NodeId) (entry : NodeEntry)
    → lookup id e.graph.entries ≡ some entry
    → size (drop_node e id entry.kind) < size e
size-drop_node e id entry h =
    let same = ap length (entries-drop_node e id entry.kind) in
    let less = length-remove id e.graph.entries entry h in omega (arith, same, less)

size-foldl :
    (f : Engine → NodeId → Engine)
    → ((e : Engine) (id : NodeId) → size (f e id) ≤ size e)
    → (ids : List NodeId) (e : Engine) → size (foldl f e ids) ≤ size e
size-foldl f shrinks [] e = omega arith
size-foldl f shrinks (id ∷ ids) e =
    let now = shrinks e id in
    let later = size-foldl f shrinks ids (f e id) in omega (arith, now, later)

size-deactivate_node :
    (fuel : ℕ) (e : Engine) (id : NodeId) → size (deactivate_node fuel e id) ≤ size e
unfolding deactivate_node
size-deactivate_node zero e id = omega arith
size-deactivate_node (suc fuel) e id =
    deactivate_node_cases (λ e'. size e' ≤ size e) fuel e id (λ _. omega arith)
      (λ entry h _.
        let same = ap length (entries-set_ref_count e id entry (entry.ref_count - 1)) in
        let kept =
          length-insert id (record entry { ref_count = entry.ref_count - 1 }) entry e.graph.entries
            h in
        omega (arith, same, kept))
      (λ entry h _.
        let less = size-drop_node e id entry h in
        let rest =
          size-foldl (deactivate_node fuel) (size-deactivate_node fuel) entry.deps
            (drop_node e id entry.kind) in
        omega (arith, less, rest))

foldl-same :
    (f g : Engine → NodeId → Engine) (bound : ℕ)
    → ((e : Engine) (id : NodeId) → size (f e id) ≤ size e)
    → ((e : Engine) (id : NodeId) → size e ≤ bound → f e id ≡ g e id)
    → (ids : List NodeId) (e : Engine) → size e ≤ bound
    → foldl f e ids ≡ foldl g e ids
foldl-same f g bound shrinks same [] e small = refl
foldl-same f g bound shrinks same (id ∷ ids) e small =
    let now = shrinks e id in
    foldl-same f g bound shrinks same ids (f e id) (omega (arith, now, small))
    ∙ ap (λ e'. foldl g e' ids) (same e id small)

same_on_fuel :
    (fuel more : ℕ) (e : Engine) (id : NodeId)
    → size e < fuel
    → size e < more
    → deactivate_node fuel e id ≡ deactivate_node more e id
unfolding deactivate_node
same_on_fuel zero more e id less less' = absurd (omega (arith, less))
same_on_fuel (suc fuel) zero e id less less' = absurd (omega (arith, less'))
same_on_fuel (suc fuel) (suc more) e id less less' =
    elim (Option-cases (lookup id e.graph.entries)) [
      | inl h ↦ rw (h, deactivate_node) refl
      | inr (entry, h) ↦ elim (Bool-cases (nat_beq (entry.ref_count - 1) 0)) [
        | inl z ↦
            let smaller = size-drop_node e id entry h in
            rw (h, z, deactivate_node)
              (foldl-same (deactivate_node fuel) (deactivate_node more)
                (size (drop_node e id entry.kind)) (size-deactivate_node fuel)
                (λ e' x small.
                  same_on_fuel fuel more e' x (omega (arith, smaller, small, less))
                    (omega (arith, smaller, small, less')))
                entry.deps (drop_node e id entry.kind) (omega arith))
        | inr z ↦ rw (h, z, deactivate_node) refl
      ]
    ]

-- The cascade of `deactivate_node` ends: on more fuel than `deactivate` gives it, it does the same.
pub deactivate-ends :
    (e : Engine) (id : NodeId) (fuel : ℕ)
    → enough e ≤ fuel
    → deactivate_node fuel e id ≡ deactivate e id
unfolding deactivate enough
deactivate-ends e id fuel less =
    same_on_fuel fuel (enough e) e id (omega (arith, less)) (omega arith)
