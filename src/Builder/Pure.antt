-- ===== src/Builder/Pure.antt =====
-- Nodes that the builders make read nothing but their dependencies.
use reactive_graph_experimen.Base.{ℕ, ◌≡◌, refl, true, List, [], ◌∷◌, arith, contains, eq_refl}
use reactive_graph_experimen.NodeRef.{NodeId, id_eq}
use reactive_graph_experimen.ValueStore.{ValueStore, get_by_id}
use reactive_graph_experimen.Graph.{NodeEntry}
use reactive_graph_experimen.Builder.{extract, read_argument}
use reactive_graph_experimen.Builder.Compute.{extract_and_call, closure_compute_node}
use reactive_graph_experimen.Engine.Cycle.Consistent.{IsPure}

read_argument_cong :
    (store store' : ValueStore) (d : NodeId) (type : ℕ)
    → get_by_id store d ≡ get_by_id store' d
    → read_argument store d type ≡ read_argument store' d type
unfolding read_argument
read_argument_cong store store' d type same = rw (same, read_argument) refl

extract_cong :
    (types : List ℕ) (deps : List NodeId) (store store' : ValueStore)
    → ((d : NodeId) → contains deps d ≡ true → get_by_id store d ≡ get_by_id store' d)
    → extract types deps store ≡ extract types deps store'
unfolding extract contains
extract_cong [] deps store store' same = refl
extract_cong (type ∷ types) [] store store' same = refl
extract_cong (type ∷ types) (d ∷ deps) store store' same =
    rw
      (
        read_argument_cong store store' d type (same d (let r = eq_refl d in ground (arith, r))),
        extract_cong types deps store store' (λ y m. same y (ground (arith, m))),
      )
      refl

-- A node that was built from a closure without a state of its own is pure.
pub closure_compute_node-IsPure :
    (entry : NodeEntry) (types : List ℕ) (out : ℕ) (f : List ℕ → ℕ)
    → entry.node_impl ≡ closure_compute_node types out (λ calls. f)
    → IsPure entry
unfolding closure_compute_node extract_and_call
closure_compute_node-IsPure entry types out f made calls calls' store store' same =
    rw (made, extract_cong types entry.deps store store' same, extract_and_call) refl
