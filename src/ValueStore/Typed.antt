-- ===== src/ValueStore/Typed.antt =====
-- Typed access to the value store.
use reactive_graph_experimen.Base.{
  ℕ, if◌then◌else◌, ◌≡◌, none, some, nat_beq, lookup-insert, lookup-remove, arith, ◌==◌,
}
use reactive_graph_experimen.NodeRef.{NodeId, NodeRef, id_eq}
use reactive_graph_experimen.ValueStore.{ValueStore, AnyBox, set, set_by_id, get, get_by_id, remove}

-- A typed read after a typed write: the value if node and type agree, nothing if the node agrees
-- and the type does not, and what was there before for any other node.
pub get-set :
    (store : ValueStore) (r q : NodeRef) (value : ℕ)
    → get (set store r value) q ≡ (
        if r.id == q.id
        then (if nat_beq r.output q.output then some value else none)
        else get store q)
unfolding get set
get-set store r q value =
    ground (
      arith,
      lookup-insert r.id q.id (record { type_id = r.output; contents = value }) store.values,
    )

pub get_by_id-set_by_id :
    (store : ValueStore) (id j : NodeId) (value : AnyBox)
    → get_by_id (set_by_id store id value) j ≡ (if id == j then some value else get_by_id store j)
unfolding get_by_id set_by_id
get_by_id-set_by_id store id j value = lookup-insert id j value store.values

pub get_by_id-remove :
    (store : ValueStore) (id j : NodeId)
    → get_by_id (remove store id) j ≡ (if id == j then none else get_by_id store j)
unfolding get_by_id remove
get_by_id-remove store id j = lookup-remove id j store.values

-- A removed node has no value of any type, and the other nodes keep theirs.
pub get-remove :
    (store : ValueStore) (id : NodeId) (q : NodeRef)
    → get (remove store id) q ≡ (if id == q.id then none else get store q)
unfolding get remove
get-remove store id q = ground (arith, lookup-remove id q.id store.values)
