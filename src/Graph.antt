-- ===== src/Graph.antt =====
-- src/graph.rs: node kinds, policies, the type-erased node and the registry of nodes. What a
-- closure of the user does is data of the model: which guard an activation callback returns and
-- what it sends, which value a compute closure gives on which call.
use reactive_graph_experimen.Base.{
  ℕ, ◌+◌, Bool, true, false, Option, none, some, List, [], map, Map, lookup, insert,
}
use reactive_graph_experimen.NodeRef.{NodeId, id_eq}
use reactive_graph_experimen.ValueStore.{AnyBox, ValueStore}
use reactive_graph_experimen.ValueStore

pub data NodeKind : Type 0 where
  source compute sink async_compute : NodeKind

-- `PartialEq` of `NodeKind`
unfoldable pub same_kind : NodeKind → NodeKind → Bool
same_kind source source = true
same_kind compute compute = true
same_kind sink sink = true
same_kind async_compute async_compute = true
same_kind _ _ = false

pub data AsyncPolicy : Type 0 where
  latest_wins queue : AsyncPolicy
  debounce : (duration : ℕ) → AsyncPolicy

-- `AsyncPolicy::default`
abbrev pub default_policy : AsyncPolicy
default_policy = latest_wins

-- A boxed future is the value that it resolves to, if it is let run.
pub record Future : Type 0 where
  pub output : AnyBox

-- What a user's activation callback does: the guard that it returns, and the values that it sends
-- through its `Sender` before it returns.
pub record Callback : Type 0 where
  pub guard : ℕ
  pub sent : List AnyBox

-- The part of a node that `activate` reads: nothing, a closure that is taken by its first call
-- (`None` where no closure was set, or it was taken), or a source that can be activated again.
pub data Activation : Type 0 where
  inert : Activation
  once : Option Callback → Activation
  reusable : Callback → Activation

pub record Activated : Type 0 where
  pub guard : Option ℕ
  pub sent : List (NodeId × AnyBox)
  pub left : Activation

-- `AnyNodeImpl`. The number given to `compute` and `compute_async` counts the calls that the
-- engine made before, since a closure may hold state of its own. `emit` gives the arguments with
-- which the user's closure is called, if it is called.
pub record NodeImpl : Type 0 where
  pub activation : Activation
  pub compute : ℕ → List NodeId → ValueStore → Option AnyBox
  pub emit : List NodeId → ValueStore → Option (List ℕ)
  pub kind : NodeKind
  pub compute_async : ℕ → List NodeId → ValueStore → Option Future
  pub async_policy : AsyncPolicy
  pub concurrency_group_id : Option ℕ

-- `f(sender)`: what the callback sends is labelled with the source.
unfoldable pub call_back : NodeId → Callback → Activation → Activated
call_back id c left = record { guard = some c.guard; sent = map (λ v. (id, v)) c.sent; left = left }

-- `AnyNodeImpl::activate`
unfoldable pub activate : NodeId → Activation → Activated
unfolding call_back
activate id inert = record { guard = none; sent = []; left = inert }
activate id (once none) = record { guard = none; sent = []; left = once none }
activate id (once (some c)) = call_back id c (once none)
activate id (reusable c) = call_back id c (reusable c)

pub record NodeEntry : Type 0 where
  pub id : NodeId
  pub kind : NodeKind
  pub deps : List NodeId
  pub ref_count : ℕ
  pub node_impl : NodeImpl

-- `source_rx` is the queue of the channel between `source_tx` and `source_rx`.
pub record Graph : Type 0 where
  pub entries : Map NodeId NodeEntry
  pub value_store : ValueStore
  pub source_rx : List (NodeId × AnyBox)

-- `Graph::new`
abbrev pub new : Graph
new = record { entries = []; value_store = ValueStore.new; source_rx = [] }

unfoldable pub register_node : Graph → NodeId → NodeKind → List NodeId → NodeImpl → Graph × Bool
register_node g id kind deps node_impl = elim (lookup id g.entries) [
  | some entry ↦ (
    record g { entries = insert id (record entry { ref_count = entry.ref_count + 1 }) g.entries },
    false,
  )
  | none ↦ (
    record g {
      entries =
          insert id
            (record { id = id; kind = kind; deps = deps; ref_count = 1; node_impl = node_impl })
            g.entries;
    },
    true,
  )
]

unfoldable pub get_entry : Graph → NodeId → Option NodeEntry
get_entry g id = lookup id g.entries
