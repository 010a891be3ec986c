-- ===== src/ValueStore.antt =====
-- src/value_store.rs. A `Box<dyn Any>` is the `TypeId` of what it holds, and a number that stands
-- for the contents; `downcast_ref` compares the `TypeId`.
pub mod Typed
use reactive_graph_experimen.Base.{
  ℕ, Bool, if◌then◌else◌, Option, none, some, [], Map, lookup, insert, contains_key, nat_beq,
}
use reactive_graph_experimen.Base.{remove as map_remove}
use reactive_graph_experimen.NodeRef.{NodeId, NodeRef, id_eq}

pub record AnyBox : Type 0 where
  pub type_id : ℕ
  pub contents : ℕ

-- `v.downcast_ref::<T>()`
unfoldable pub downcast_ref : ℕ → AnyBox → Option ℕ
downcast_ref type v = if nat_beq v.type_id type then some v.contents else none

pub record ValueStore : Type 0 where
  pub values : Map NodeId AnyBox

-- `ValueStore::new`
abbrev pub new : ValueStore
new = record { values = [] }

unfoldable pub set_by_id : ValueStore → NodeId → AnyBox → ValueStore
set_by_id store id value = record { values = insert id value store.values }

unfoldable pub set : ValueStore → NodeRef → ℕ → ValueStore
set store node_ref value = record {
  values = insert node_ref.id (record { type_id = node_ref.output; contents = value }) store.values;
}

unfoldable pub get_by_id : ValueStore → NodeId → Option AnyBox
get_by_id store id = lookup id store.values

unfoldable pub get : ValueStore → NodeRef → Option ℕ
unfolding downcast_ref
get store node_ref = elim (lookup node_ref.id store.values) [
  | none ↦ none
  | some v ↦ downcast_ref node_ref.output v
]

unfoldable pub remove : ValueStore → NodeId → ValueStore
remove store id = record { values = map_remove id store.values }

unfoldable pub contains : ValueStore → NodeId → Bool
contains store id = contains_key id store.values
