-- ===== src/Topology/Mirror.antt =====
-- The two maps of a topology mirror one another: which operations keep that, and when.
use reactive_graph_experimen.Base.{
  ◌+◌, ◌≡◌, refl, inl, inr, if◌then◌else◌, none, List, [], ◌∷◌, ◌++◌, foldl, arith, contains, count,
  set_remove, count-snoc, count-set_remove, ◌&&◌, ◌==◌, lookup, insert, remove, lookup-insert,
  lookup-remove, Map, contains_iff, Option-cases,
}
use reactive_graph_experimen.NodeRef.{NodeId, id_eq, id_beq_iff}
use reactive_graph_experimen.Topology.{
  Topology, list_at, push_dependent, or_default, add_node, forget, remove_node,
}

-- `b` is listed among the dependents of `a` as often as `a` is among the dependencies of `b`.
abbrev pub IsMirror : Topology → Type 0
IsMirror t = (a b : NodeId) → count b (list_at a t.dependents) ≡ count a (list_at b t.deps)

pub list_at_of_none :
    (id : NodeId) (m : Map NodeId (List NodeId)) → lookup id m ≡ none → list_at id m ≡ []
unfolding list_at
list_at_of_none id m e = rw (e, list_at)

pub list_at-insert :
    (k j : NodeId) (v : List NodeId) (m : Map NodeId (List NodeId))
    → list_at j (insert k v m) ≡ (if k == j then v else list_at j m)
unfolding list_at
list_at-insert k j v m = ground (arith, lookup-insert k j v m)

list_at-remove :
    (k j : NodeId) (m : Map NodeId (List NodeId))
    → list_at j (remove k m) ≡ (if k == j then [] else list_at j m)
unfolding list_at
list_at-remove k j m = ground (arith, lookup-remove k j m)

list_at-or_default :
    (k j : NodeId) (m : Map NodeId (List NodeId)) → list_at j (or_default k m) ≡ list_at j m
unfolding list_at or_default
list_at-or_default k j m = ground (arith, lookup-insert k j [] m, id_beq_iff k j)

count-push_dependent :
    (id a b : NodeId) (m : Map NodeId (List NodeId)) (dep : NodeId)
    → count b (list_at a (push_dependent id m dep))
      ≡ count b (list_at a m) + (if dep == a then (if id == b then 1 else 0) else 0)
unfolding push_dependent
count-push_dependent id a b m dep = ground (
  arith,
  list_at-insert dep a (list_at dep m ++ id ∷ []) m,
  count-snoc b (list_at dep m) id,
  id_beq_iff dep a,
)

count-push_dependents :
    (id a b : NodeId) (deps : List NodeId) (m : Map NodeId (List NodeId))
    → count b (list_at a (foldl (push_dependent id) m deps))
      ≡ count b (list_at a m) + (if id == b then count a deps else 0)
unfolding count
count-push_dependents id a b [] m = ground arith
count-push_dependents id a b (dep ∷ deps) m = ground (
  arith,
  count-push_dependents id a b deps (push_dependent id m dep),
  count-push_dependent id a b m dep,
)

-- `add_node` of a node that is not there yet, whatever nodes it depends on.
pub add_node-IsMirror :
    (t : Topology) (id : NodeId) (deps : List NodeId)
    → lookup id t.deps ≡ none
    → IsMirror t
    → IsMirror (add_node t id deps)
unfolding add_node count
add_node-IsMirror t id deps fresh mirror a b = ground (
  arith,
  mirror a b,
  list_at-or_default id a (foldl (push_dependent id) t.dependents deps),
  count-push_dependents id a b deps t.dependents,
  list_at-insert id b deps t.deps,
  list_at_of_none id t.deps fresh,
  id_beq_iff id b,
)

list_at-forget :
    (id a : NodeId) (m : Map NodeId (List NodeId)) (dep : NodeId)
    → list_at a (forget id m dep) ≡ (if dep == a then set_remove (list_at a m) id else list_at a m)
unfolding forget list_at set_remove
list_at-forget id a m dep = elim (Option-cases (lookup dep m)) [
  | inl e ↦ ground (arith, id_beq_iff dep a)
  | inr (ids, e) ↦ ground (arith, id_beq_iff dep a, lookup-insert dep a (set_remove ids id) m)
]

count-forget_all :
    (id a b : NodeId) (deps : List NodeId) (m : Map NodeId (List NodeId))
    → count b (list_at a (foldl (forget id) m deps))
      ≡ (if contains deps a && (id == b) then 0 else count b (list_at a m))
unfolding contains
count-forget_all id a b [] m = refl
count-forget_all id a b (dep ∷ deps) m = ground (
  arith,
  count-forget_all id a b deps (forget id m dep),
  list_at-forget id a m dep,
  count-set_remove (list_at a m) id b,
)

-- `remove_node` of a node that nothing depends on.
pub remove_node-IsMirror :
    (t : Topology) (id : NodeId)
    → list_at id t.dependents ≡ []
    → IsMirror t
    → IsMirror (remove_node t id)
unfolding remove_node count
remove_node-IsMirror t id unused mirror a b = ground (
  arith,
  mirror a b,
  mirror id b,
  list_at-remove id a (foldl (forget id) t.dependents (list_at id t.deps)),
  count-forget_all id a b (list_at id t.deps) t.dependents,
  list_at-remove id b t.deps,
  contains_iff (list_at id t.deps) a,
  id_beq_iff id b,
  id_beq_iff id a,
)
