-- ===== src/Base/Lists.antt =====
-- Lists that stand for `Vec` and `VecDeque`, and lists that stand for `HashSet`.
use Prim.Native.Nat.{ℕ, suc, ◌+◌, ◌<◌}
use mathlib.Core.Path.{◌≡◌, refl, ap}
use mathlib.Core.Logic.{◌⊎◌, ◌↔◌, inl, inr}
use mathlib.Core.Bool.{Bool, true, false, not, ◌&&◌, ◌||◌}
use mathlib.Core.List.{List, [], ◌∷◌, ◌++◌}
use native.Mathlib.Omega.{arith}
use reactive_graph_experimen.Base.Tests.{if◌then◌else◌, Eq, ◌==◌, eq_cases, eq_refl}

module _ {ℓ} {A : Type ℓ} where
  abbrev pub length : List A → ℕ
  length [] = 0
  length (x ∷ xs) = suc (length xs)

  -- `iter().filter(p)`, kept in order.
  abbrev pub retain : (A → Bool) → List A → List A
  retain p [] = []
  retain p (x ∷ xs) = let rest = retain p xs in if p x then x ∷ rest else rest

  pub List-cases : (xs : List A) → (xs ≡ []) ⊎ ((x : A) × (rest : List A) × (xs ≡ x ∷ rest))
  List-cases [] = inl refl
  List-cases (x ∷ xs) = inr (x, xs, refl)

  pub length-append : (xs ys : List A) → length (xs ++ ys) ≡ length xs + length ys
  length-append [] ys = omega arith
  length-append (x ∷ xs) ys = omega (arith, length-append xs ys)

module _ {A : Type 0} ⦃e : Eq A⦄ where
  unfoldable pub contains : List A → A → Bool
  contains [] a = false
  contains (x ∷ xs) a = (x == a) || contains xs a

  unfoldable pub count : A → List A → ℕ
  count a [] = 0
  count a (x ∷ xs) = (if x == a then 1 else 0) + count a xs

  -- `HashSet::insert`, and `Vec::push` behind a test for presence.
  unfoldable pub set_insert : List A → A → List A
  set_insert xs a = if contains xs a then xs else xs ++ a ∷ []

  -- `HashSet::remove`, and `Vec::retain(|d| d != a)`.
  unfoldable pub set_remove : List A → A → List A
  set_remove xs a = retain (λ x. not (x == a)) xs

  pub contains-append :
      (xs ys : List A) (a : A) → contains (xs ++ ys) a ≡ (contains xs a || contains ys a)
  unfolding contains
  contains-append [] ys a = refl
  contains-append (x ∷ xs) ys a = ground (arith, contains-append xs ys a)

  pub count-append : (a : A) (xs ys : List A) → count a (xs ++ ys) ≡ count a xs + count a ys
  unfolding count
  count-append a [] ys = omega arith
  count-append a (x ∷ xs) ys = omega (arith, count-append a xs ys)

  -- Membership is a positive count.
  pub contains_iff : (xs : List A) (a : A) → (contains xs a ≡ true) ↔ (0 < count a xs)
  unfolding contains count
  contains_iff [] a = ground arith
  contains_iff (x ∷ xs) a = ground (arith, contains_iff xs a)

  -- A member stands somewhere in the list.
  pub split-of_contains :
      (xs : List A) (a : A)
      → contains xs a ≡ true
      → (before : List A) × (after : List A) × (xs ≡ before ++ a ∷ after)
  unfolding contains
  split-of_contains [] a m = absurd (ground (arith, m))
  split-of_contains (x ∷ xs) a m = elim (eq_cases x a) [
    | inl (t, q) ↦ ([], xs, ap (λ y. y ∷ xs) q)
    | inr (t, q) ↦
        let (before, after, e') = split-of_contains xs a (ground (arith, m, t)) in
        (x ∷ before, after, ap (λ ys. x ∷ ys) e')
  ]

  pub contains-snoc :
      (xs : List A) (b a : A) → contains (xs ++ b ∷ []) a ≡ (contains xs a || (b == a))
  unfolding contains
  contains-snoc xs b a = ground (arith, contains-append xs (b ∷ []) a)

  pub count-snoc :
      (a : A) (xs : List A) (b : A)
      → count a (xs ++ b ∷ []) ≡ count a xs + (if b == a then 1 else 0)
  unfolding count
  count-snoc a xs b = omega (arith, count-append a xs (b ∷ []))

  pub contains-retain :
      (p : A → Bool) (xs : List A) (a : A) → contains (retain p xs) a ≡ (contains xs a && p a)
  unfolding contains
  contains-retain p [] a = refl
  contains-retain p (x ∷ xs) a = elim (eq_cases x a) [
    | inl (t, q) ↦ rw q (ground (arith, contains-retain p xs a, eq_refl a))
    | inr (t, q) ↦ ground (arith, contains-retain p xs a)
  ]

  pub count-retain :
      (p : A → Bool) (xs : List A) (a : A) → count a (retain p xs) ≡ (if p a then count a xs else 0)
  unfolding count
  count-retain p [] a = ground arith
  count-retain p (x ∷ xs) a = elim (eq_cases x a) [
    | inl (t, q) ↦ rw q (ground (arith, count-retain p xs a, eq_refl a))
    | inr (t, q) ↦ ground (arith, count-retain p xs a)
  ]

  pub contains-set_insert :
      (xs : List A) (b a : A) → contains (set_insert xs b) a ≡ (contains xs a || (b == a))
  unfolding set_insert
  contains-set_insert xs b a = elim (eq_cases b a) [
    | inl (t, q) ↦ rw q (ground (arith, contains-snoc xs a a, eq_refl a))
    | inr (t, q) ↦ ground (arith, contains-snoc xs b a)
  ]

  pub count-set_remove :
      (xs : List A) (b a : A) → count a (set_remove xs b) ≡ (if b == a then 0 else count a xs)
  unfolding set_remove
  count-set_remove xs b a = elim (eq_cases b a) [
    | inl (t, q) ↦ rw q (ground (arith, count-retain (λ x. not (x == a)) xs a, eq_refl a))
    | inr (t, q) ↦ ground (arith, count-retain (λ x. not (x == b)) xs a, e.beq_iff a b)
  ]

  pub contains-set_remove :
      (xs : List A) (b a : A) → contains (set_remove xs b) a ≡ (contains xs a && not (b == a))
  contains-set_remove xs b a =
      ground (arith, contains_iff (set_remove xs b) a, contains_iff xs a, count-set_remove xs b a)

  -- An order in which the standard library iterates over a set: every member, as often.
  abbrev pub IsOrder : (List A → List A) → Type 0
  IsOrder order = (xs : List A) (a : A) → count a (order xs) ≡ count a xs
