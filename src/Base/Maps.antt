-- ===== src/Base/Maps.antt =====
-- `HashMap` as an association list. Where the source iterates over a map or a set, the order of
-- the list is an order that nothing in the development relies on.
use Prim.Native.Nat.{◌+◌}
use mathlib.Core.Path.{◌≡◌, refl}
use mathlib.Core.Bool.{Bool, true, false, not, ◌&&◌}
use mathlib.Core.Option.{Option, none, some}
use mathlib.Core.List.{List, [], ◌∷◌, map}
use native.Mathlib.Omega.{arith}
use reactive_graph_experimen.Base.Lists.{count}
use reactive_graph_experimen.Base.Tests.{if◌then◌else◌, Eq, ◌==◌}

abbrev pub Map {ℓ} : Type 0 → Type ℓ → Type ℓ
Map K V = List (K × V)

module _ {ℓ} {K : Type 0} {V : Type ℓ} ⦃e : Eq K⦄ where
  -- `HashMap::insert`: an entry of the key is overwritten.
  unfoldable pub insert : K → V → Map K V → Map K V
  insert key value [] = (key, value) ∷ []
  insert key value (entry ∷ table) =
      if entry.0 == key then (key, value) ∷ table else entry ∷ insert key value table

  -- `HashMap::get`
  unfoldable pub lookup : K → Map K V → Option V
  lookup key [] = none
  lookup key (entry ∷ table) = if entry.0 == key then some entry.1 else lookup key table

  -- `HashMap::remove`
  unfoldable pub remove : K → Map K V → Map K V
  remove k [] = []
  remove k ((j, w) ∷ m) = let rest = remove k m in if j == k then rest else (j, w) ∷ rest

  -- `HashMap::contains_key`
  unfoldable pub contains_key : K → Map K V → Bool
  unfolding lookup
  contains_key k m = elim (lookup k m) [ none ↦ false | some v ↦ true ]

  unfoldable pub keys : Map K V → List K
  keys m = map (λ p. p.0) m

  pub lookup-remove :
      (k j : K) (m : Map K V) → lookup j (remove k m) ≡ (if k == j then none else lookup j m)
  unfolding lookup remove
  lookup-remove k j [] = ground arith
  lookup-remove k j (entry ∷ table) =
      ground
        (arith, lookup-remove k j table, e.beq_iff entry.0 k, e.beq_iff entry.0 j, e.beq_iff k j)

  pub lookup-insert :
      (key other : K) (value : V) (table : Map K V)
      → lookup other (insert key value table)
        ≡ (if key == other then some value else lookup other table)
  unfolding insert lookup
  lookup-insert key other value [] = refl
  lookup-insert key other value (entry ∷ table) = ground (
    arith,
    lookup-insert key other value table,
    e.beq_iff entry.0 key,
    e.beq_iff entry.0 other,
    e.beq_iff key other,
  )

  -- Each key stands once in the list of keys of a map, and only if it has a value.
  abbrev pub IsKeyed : Map K V → Type 0
  IsKeyed m = (k : K) → count k (keys m) ≡ (if contains_key k m then 1 else 0)

  count-keys-insert :
      (k j : K) (v : V) (m : Map K V)
      → count k (keys (insert j v m))
        ≡ (if (j == k) && not (contains_key j m) then 1 else 0) + count k (keys m)
  unfolding contains_key insert count keys
  count-keys-insert k j v [] = ground arith
  count-keys-insert k j v ((i, w) ∷ m) =
      ground (arith, count-keys-insert k j v m, e.beq_iff i j, e.beq_iff j k, e.beq_iff i k)

  pub insert-IsKeyed : (j : K) (v : V) (m : Map K V) → IsKeyed m → IsKeyed (insert j v m)
  unfolding contains_key
  insert-IsKeyed j v m h k =
      ground (arith, count-keys-insert k j v m, lookup-insert j k v m, h k, e.beq_iff j k)
