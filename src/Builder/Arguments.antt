-- ===== src/Builder/Arguments.antt =====
-- The typed arguments of a node that a builder made. `typed_values` is what they are meant to be: the
-- value of each `NodeRef` that was passed to `dep`, read with the type of the `NodeRef`.
use reactive_graph_experimen.Base.{ℕ, ◌≡◌, refl, Option, none, some, List, [], ◌∷◌, map}
use reactive_graph_experimen.NodeRef.{NodeId, NodeRef, id_eq}
use reactive_graph_experimen.ValueStore.{AnyBox, ValueStore, get, get_by_id}
use reactive_graph_experimen.Builder.{extract, read_argument, cons_value}

-- All values, or nothing if one is missing or of another type.
unfoldable pub typed_values : ValueStore → List NodeRef → Option (List ℕ)
typed_values store [] = some []
typed_values store (r ∷ refs) = cons_value (get store r) (typed_values store refs)

-- The result of a call: a boxed value of type `out`, if there are arguments.
unfoldable pub boxed_result : ℕ → (List ℕ → ℕ) → Option (List ℕ) → Option AnyBox
boxed_result out f none = none
boxed_result out f (some args) = some (record { type_id = out; contents = f args })

abbrev pub ids : List NodeRef → List NodeId
ids refs = map (λ r. r.id) refs

abbrev pub outputs : List NodeRef → List ℕ
outputs refs = map (λ r. r.output) refs

read_argument-get :
    (store : ValueStore) (r : NodeRef) → read_argument store r.id r.output ≡ get store r
unfolding read_argument get get_by_id
read_argument-get store r = refl

pub extract-typed_values :
    (store : ValueStore) (refs : List NodeRef)
    → extract (outputs refs) (ids refs) store ≡ typed_values store refs
unfolding extract typed_values
extract-typed_values store [] = refl
extract-typed_values store (r ∷ refs) =
    rw (read_argument-get store r, extract-typed_values store refs) refl
