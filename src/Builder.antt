-- ===== src/Builder.antt =====
-- What the builders of src/builder share: the identity of a node from its key, and the read of typed
-- arguments out of the value store that their macros write out for each arity.
pub mod Source
pub mod Compute
pub mod Sink
pub mod AsyncCompute
pub mod Trait
pub mod Sub
pub mod Start
pub mod Arguments
pub mod Wired
pub mod Pure
use reactive_graph_experimen.Base.{ℕ, Bool, Option, none, some, List, [], ◌∷◌}
use reactive_graph_experimen.NodeRef.{NodeId, NodeRef, from_key}
use reactive_graph_experimen.ValueStore.{AnyBox, ValueStore, get_by_id, downcast_ref}
use reactive_graph_experimen.Graph.{NodeKind, NodeImpl, Activation, default_policy}

-- What compiler and standard library give: the hasher of keys, and the `TypeId`s of the markers that
-- scope the keys of closure-based nodes.
pub record Platform (Key : Type 0) : Type 0 where
  pub hash : Key → ℕ
  pub closure_source : ℕ
  pub closure_compute : ℕ
  pub closure_sink : ℕ
  pub closure_async_compute : ℕ

-- The `NodeId` and the `NodeRef` that each `build` makes.
unfoldable pub make_ref : {Key : Type 0} → (Key → ℕ) → ℕ → Key → ℕ → NodeRef
unfolding from_key
make_ref hash scope key output = record { id = from_key hash scope key; output = output }

-- `store.get_by_id(&deps[i])?.downcast_ref::<T>()?`
unfoldable pub read_argument : ValueStore → NodeId → ℕ → Option ℕ
unfolding get_by_id downcast_ref
read_argument store id type = elim (get_by_id store id) [
  | none ↦ none
  | some v ↦ downcast_ref type v
]

-- `let first = ..?; let rest = ..?;`
unfoldable pub cons_value : Option ℕ → Option (List ℕ) → Option (List ℕ)
cons_value none rest = none
cons_value (some v) none = none
cons_value (some v) (some vs) = some (v ∷ vs)

-- The reads of all arguments, in order. `types` are the types of the arguments; the index `deps[i]`
-- is in range because each `dep` adds one type and one dependency, and the case out of range
-- stands for the panic.
unfoldable pub extract : List ℕ → List NodeId → ValueStore → Option (List ℕ)
unfolding read_argument cons_value
extract [] deps store = some []
extract (type ∷ types) [] store = none
extract (type ∷ types) (d ∷ deps) store =
    cons_value (read_argument store d type) (extract types deps store)

-- The methods that a node of every kind but its own leaves empty.
abbrev pub blank : NodeKind → NodeImpl
blank kind = record {
  activation = Activation.inert;
  compute = λ _ _ _. none;
  emit = λ _ _. none;
  kind = kind;
  compute_async = λ _ _ _. none;
  async_policy = default_policy;
  concurrency_group_id = none;
}
