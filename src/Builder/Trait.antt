-- ===== src/Builder/Trait.antt =====
-- src/node.rs: the traits of nodes, as records with what they say of a type that implements them.
-- `scope` is the `TypeId` of that type. The builders are in child modules.
pub mod Source
pub mod Compute
pub mod Sink
pub mod AsyncCompute
pub mod Wired
use reactive_graph_experimen.Base.{
  ℕ, List, Option, none, some, [], ◌∷◌, if◌then◌else◌, nat_beq, ltb, length, ◌&&◌,
}
use reactive_graph_experimen.NodeRef.{NodeRef}

-- `Node`
pub record Node (Key : Type 0) : Type 0 where
  pub scope : ℕ
  pub output : ℕ
  pub key : Key

-- `Source`: the guard that `activate` returns, and the values that it sends before it returns.
pub record SourceNode (Key : Type 0) : Type 0 where
  pub node : Node Key
  pub guard : ℕ
  pub values : List ℕ

-- `Compute`, and `AsyncCompute`, whose result is what the future resolves to. `compute` gets the
-- number of the calls made before, then the inputs.
pub record ComputeNode (Key : Type 0) : Type 0 where
  pub node : Node Key
  pub inputs : List ℕ
  pub compute : ℕ → List ℕ → ℕ

-- `Sink`. It has no output; `node.output` is the `TypeId` of `()`.
pub record SinkNode (Key : Type 0) : Type 0 where
  pub node : Node Key
  pub inputs : List ℕ

-- The macros write `dep` for at most so many types that remain: in the builders of a graph, and in those of
-- a subgraph. An `InputTuple` has up to twelve.
abbrev pub graph_arity : ℕ
graph_arity = 8

abbrev pub subgraph_arity : ℕ
subgraph_arity = 4

-- `Remaining` after `.dep(node)`, for the types that remain before. The call does not type-check, and the
-- result is `none`, where there is no `dep` for so many types, or the output of the node is not the first
-- of them.
unfoldable pub peel : ℕ → List ℕ → NodeRef → Option (List ℕ)
peel arity [] node = none
peel arity (type ∷ remaining) node =
    if ltb (length remaining) arity && nat_beq node.output type then some remaining else none

-- `build` is there only where `Remaining` is `()`, for the inputs of a node, which are one at least.
unfoldable pub when_wired {ℓ} : {A : Type ℓ} → List ℕ → List ℕ → A → Option A
when_wired [] remaining a = none
when_wired (input ∷ inputs) [] a = some a
when_wired (input ∷ inputs) (type ∷ remaining) a = none
