-- ===== src/NodeRef.antt =====
-- src/node_ref.rs. `NodeId` is compared and hashed by `type_id` and `key_hash` alone; the third
-- field, `key_debug`, is only printed and is left out. A hasher and the rank of a `TypeId` come
-- from the standard library: the hasher is an argument, a `TypeId` is a number.
use reactive_graph_experimen.Base.{ℕ, Bool, ◌&&◌, ◌≡◌, ◌↔◌, true, arith, Eq, nat_beq}

pub record NodeId : Type 0 where
  pub type_id : ℕ
  pub key_hash : ℕ

-- `PartialEq::eq`
unfoldable pub id_beq : NodeId → NodeId → Bool
id_beq a b = nat_beq a.type_id b.type_id && nat_beq a.key_hash b.key_hash

pub id_beq_iff : (a b : NodeId) → (id_beq a b ≡ true) ↔ (a ≡ b)
unfolding id_beq
id_beq_iff a b = ground arith

instance abbrev pub id_eq : Eq NodeId
id_eq = record { beq = id_beq; beq_iff = id_beq_iff }

-- `NodeId::from_key::<K, Scope>(key)`, for the hasher `hash` and the `TypeId` of `Scope`.
unfoldable pub from_key {ℓ} : {Key : Type ℓ} → (Key → ℕ) → ℕ → Key → NodeId
from_key hash scope key = record { type_id = scope; key_hash = hash key }

-- `NodeRef<T>`: the phantom type `T` is kept as its `TypeId`.
pub record NodeRef : Type 0 where
  pub id : NodeId
  pub output : ℕ
