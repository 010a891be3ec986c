-- ===== src/Subgraph/Fresh.antt =====
-- Registration with a `SubgraphBuilder` of nodes that are all different.
use reactive_graph_experimen.Base.{
  ◌≡◌, refl, sym, ap, ◌∙◌, false, List, [], ◌∷◌, foldl, ◌++◌, map, append-nil, append_assoc,
  contains, set_insert, contains-set_insert, arith, ◌==◌,
}
use reactive_graph_experimen.NodeRef.{NodeId, id_eq}
use reactive_graph_experimen.Subgraph.{NodeDescriptor, SubgraphBuilder, register_node}

-- Registration of nodes that are all different.
abbrev pub IsFresh : List NodeId → List NodeDescriptor → Type 0
IsFresh known [] = Unit {0}
IsFresh known (d ∷ ds) = (contains known d.id ≡ false) × IsFresh (set_insert known d.id) ds

node_ids-register_node :
    (sb : SubgraphBuilder) (d : NodeDescriptor)
    → (register_node sb d).0.node_ids ≡ sb.node_ids ++ d.id ∷ []
unfolding register_node
node_ids-register_node sb d = ground arith

descriptors-register_node :
    (sb : SubgraphBuilder) (d : NodeDescriptor)
    → contains sb.registered d.id ≡ false
    → (register_node sb d).0 ≡ record {
      descriptors = sb.descriptors ++ d ∷ [];
      node_ids = sb.node_ids ++ d.id ∷ [];
      registered = set_insert sb.registered d.id;
    }
unfolding register_node
descriptors-register_node sb d fresh = rw (fresh, register_node) refl

pub node_ids-registered :
    (ds : List NodeDescriptor) (sb : SubgraphBuilder)
    → (foldl (λ b d. (register_node b d).0) sb ds).node_ids ≡ sb.node_ids ++ map (λ d. d.id) ds
node_ids-registered [] sb = sym (append-nil sb.node_ids)
node_ids-registered (d ∷ ds) sb =
    node_ids-registered ds (register_node sb d).0
    ∙ ap (λ ids. ids ++ map (λ d'. d'.id) ds) (node_ids-register_node sb d)
    ∙ append_assoc sb.node_ids (d.id ∷ []) (map (λ d'. d'.id) ds)

pub descriptors-registered :
    (ds : List NodeDescriptor) (sb : SubgraphBuilder)
    → IsFresh sb.registered ds
    → (foldl (λ b d. (register_node b d).0) sb ds).descriptors ≡ sb.descriptors ++ ds
descriptors-registered [] sb fresh = sym (append-nil sb.descriptors)
descriptors-registered (d ∷ ds) sb fresh =
    ap (λ b. (foldl (λ b d. (register_node b d).0) b ds).descriptors)
      (descriptors-register_node sb d fresh.0)
    ∙ descriptors-registered ds
        (record {
          descriptors = sb.descriptors ++ d ∷ [];
          node_ids = sb.node_ids ++ d.id ∷ [];
          registered = set_insert sb.registered d.id;
        })
        fresh.1
    ∙ append_assoc sb.descriptors (d ∷ []) ds

pub fresh_in :
    (known : List NodeId) (y x : NodeId)
    → contains known x ≡ false
    → (y == x) ≡ false
    → contains (set_insert known y) x ≡ false
fresh_in known y x absent differ = contains-set_insert known y x ∙ rw (absent, differ) refl
