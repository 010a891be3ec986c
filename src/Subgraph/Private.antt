-- ===== src/Subgraph/Private.antt =====
-- An engine that holds the nodes of a subgraph which shares none of them with the rest of the engine.
pub mod Registered
pub mod Added
pub mod Removed
use reactive_graph_experimen.Base.{
  ◌≡◌, refl, sym, eq_refl, ap, ◌∙◌, true, false, inl, inr, some, none, List, [], ◌∷◌, foldl, Map,
  lookup, insert, lookup-insert, contains, arith, ◌==◌, eq_cases, subst,
}
use reactive_graph_experimen.NodeRef.{NodeId, id_eq}
use reactive_graph_experimen.ValueStore.{AnyBox}
use reactive_graph_experimen.Graph.{NodeEntry}
use reactive_graph_experimen.Engine.{Engine}

-- The values of the nodes.
abbrev pub values : Engine → Map NodeId AnyBox
values e = e.graph.value_store.values

-- The engine is `base` but for the nodes `own`. Those are registered once, and depend on each other
-- alone; one that is not registered has no value and is not active. No removal is pending.
pub record IsHeld (own : List NodeId) (base e : Engine) : Type 0 where
  pub outside :
      (x : NodeId)
      → contains own x ≡ false
      → (lookup x e.graph.entries ≡ lookup x base.graph.entries)
        × (lookup x (values e) ≡ lookup x (values base))
        × (contains e.active x ≡ contains base.active x)
  pub inside :
      (x : NodeId) (entry : NodeEntry)
      → contains own x ≡ true
      → lookup x e.graph.entries ≡ some entry
      → (entry.ref_count ≡ 1)
        × ((d : NodeId) → contains entry.deps d ≡ true → contains own d ≡ true)
  pub absent :
      (x : NodeId)
      → contains own x ≡ true
      → lookup x e.graph.entries ≡ none
      → (lookup x (values e) ≡ none) × (contains e.active x ≡ false)
  pub settled : e.pending_removals ≡ []

module _ {own : List NodeId} {base : Engine} where
  -- Other parts of the engine make no difference.
  pub kept-IsHeld :
      {e e' : Engine}
      → e'.graph.entries ≡ e.graph.entries
      → values e' ≡ values e
      → e'.active ≡ e.active
      → e'.pending_removals ≡ e.pending_removals
      → IsHeld own base e
      → IsHeld own base e'
  kept-IsHeld entries stored active pending held = record {
    outside = λ x m.
        let before = held.outside x m in
        (
          ap (lookup x) entries ∙ before.0,
          ap (lookup x) stored ∙ before.1,
          ap (λ ids. contains ids x) active ∙ before.2,
        );
    inside = λ x entry m h. held.inside x entry m (sym (ap (lookup x) entries) ∙ h);
    absent = λ x m h.
        let before = held.absent x m (sym (ap (lookup x) entries) ∙ h) in
        (ap (lookup x) stored ∙ before.0, ap (λ ids. contains ids x) active ∙ before.1);
    settled = pending ∙ held.settled;
  }

  -- A pass over nodes of the subgraph.
  pub foldl-IsHeld :
      (f : Engine → NodeId → Engine)
      → ((e : Engine) (id : NodeId)
          → contains own id ≡ true
          → IsHeld own base e
          → IsHeld own base (f e id))
      → (ids : List NodeId) → ((d : NodeId) → contains ids d ≡ true → contains own d ≡ true)
      → (e : Engine) → IsHeld own base e
      → IsHeld own base (foldl f e ids)
  unfolding contains
  foldl-IsHeld f keeps [] within e held = held
  foldl-IsHeld f keeps (id ∷ ids) within e held =
      foldl-IsHeld f keeps ids (λ d m. within d (ground (arith, m))) (f e id)
        (keeps e id (within id (ground (arith, eq_refl id))) held)
