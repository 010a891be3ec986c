-- ===== src/Builder/Wired.antt =====
-- Nodes that the closure-based builders make: what is registered, and what the node then computes.
use reactive_graph_experimen.Base.{
  ℕ, ◌≡◌, refl, Option, none, some, List, [], ◌∷◌, ◌++◌, foldl, append_assoc, append-nil, lookup,
  lookup-insert, arith, eq_refl,
}
use reactive_graph_experimen.NodeRef.{NodeId, NodeRef, id_eq}
use reactive_graph_experimen.ValueStore.{ValueStore}
use reactive_graph_experimen.Graph.{NodeEntry, NodeKind, NodeImpl, Graph, register_node}
use reactive_graph_experimen.Builder.{Platform, make_ref}
use reactive_graph_experimen.Builder.Compute
use reactive_graph_experimen.Builder.Compute.{
  ComputeBuilder, closure_compute_node, extract_and_call,
}
use reactive_graph_experimen.Builder.Arguments.{
  typed_values, boxed_result, ids, outputs, extract-typed_values,
}

pub extract_and_call-typed_values :
    (out : ℕ) (f : List ℕ → ℕ) (store : ValueStore) (refs : List NodeRef)
    → extract_and_call (outputs refs) out f (ids refs) store
      ≡ boxed_result out f (typed_values store refs)
unfolding extract_and_call boxed_result
extract_and_call-typed_values out f store refs =
    rw (extract-typed_values store refs, extract_and_call) (by_cases (typed_values store refs))
  where
    by_cases :
        (args : Option (List ℕ))
        → elim args [ none ↦ none | some vs ↦ some (record { type_id = out; contents = f vs }) ]
          ≡ boxed_result out f args
    by_cases none = refl
    by_cases (some vs) = refl

-- A new entry is what the arguments of `register_node` say.
pub lookup-register_node :
    (g : Graph) (id : NodeId) (kind : NodeKind) (deps : List NodeId) (node_impl : NodeImpl)
    → lookup id g.entries ≡ none
    → lookup id (register_node g id kind deps node_impl).0.entries
      ≡ some (record { id = id; kind = kind; deps = deps; ref_count = 1; node_impl = node_impl })
unfolding register_node
lookup-register_node g id kind deps node_impl absent = ground (
  arith,
  absent,
  eq_refl id,
  lookup-insert id id
      (record { id = id; kind = kind; deps = deps; ref_count = 1; node_impl = node_impl })
      g.entries,
)

module _ {Key : Type 0} where
  -- `.dep(r1).dep(r2)..`
  abbrev pub wire : ComputeBuilder Key → List NodeRef → ComputeBuilder Key
  wire b refs = foldl Compute.dep b refs

  abbrev pub key_id : Platform Key → Key → ℕ → NodeId
  key_id p key out = (make_ref p.hash p.closure_compute key out).id

  wire_lem :
      (b : ComputeBuilder Key) (refs : List NodeRef)
      → wire b refs ≡ record b { dep_ids = b.dep_ids ++ ids refs; deps = b.deps ++ outputs refs }
  unfolding Compute.dep
  wire_lem b [] = rw (append-nil b.dep_ids, append-nil b.deps) refl
  wire_lem b (r ∷ refs) =
      rw
        (
          wire_lem (Compute.dep b r) refs,
          append_assoc b.dep_ids (r.id ∷ []) (ids refs),
          append_assoc b.deps (r.output ∷ []) (outputs refs),
        )
        refl

  -- A compute node that is built with a closure `f` and dependencies `refs`, under a key that is not
  -- registered, is registered with these dependencies in this order, and on every store its
  -- `compute` is `f` on the values of the dependencies, read with the types of the references, boxed
  -- with the type of the output; it is nothing if one of these values is missing.
  pub lookup-build :
      (p : Platform Key) (key : Key) (out : ℕ) (refs : List NodeRef) (f : ℕ → List ℕ → ℕ)
      (g : Graph)
      → lookup (key_id p key out) g.entries ≡ none
      → (entry : NodeEntry) × (lookup
            (key_id p key out)
            (Compute.build p (Compute.compute (wire (Compute.new key out) refs) f) g).0.entries
          ≡ some entry)
        × (entry.kind ≡ NodeKind.compute)
        × (entry.deps ≡ ids refs)
        × ((calls : ℕ) (store : ValueStore)
            → entry.node_impl.compute calls entry.deps store
              ≡ boxed_result out (f calls) (typed_values store refs))
  unfolding Compute.build Compute.compute Compute.new Compute.into_parts closure_compute_node
  lookup-build p key out refs f g absent = (
    record {
      id = key_id p key out;
      kind = NodeKind.compute;
      deps = ids refs;
      ref_count = 1;
      node_impl = closure_compute_node (outputs refs) out f;
    },
    rw (wire_lem (Compute.new key out) refs) (
        lookup-register_node g (key_id p key out) NodeKind.compute (ids refs)
          (closure_compute_node (outputs refs) out f) absent),
    refl,
    refl,
    λ calls store. extract_and_call-typed_values out (f calls) store refs,
  )
