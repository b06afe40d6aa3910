-- ===== src/Prelude/Lists.antt =====
-- Lists measured by native numbers, Python's `sorted`, and predicates on all elements.
use Prim.Native.Nat.{ℕ, suc, ◌+◌}
use mathlib.Core.Path.{◌≡◌, refl}
use mathlib.Core.Bool.{Bool, true, false, ◌||◌}
use mathlib.Core.List.{List, [], ◌∷◌, ◌++◌}
use native.Mathlib.Omega.{arith}
use cell_oee_demo.Prelude.Tests.{if◌then◌else◌}

module _ {ℓ} {A : Type ℓ} where
  abbrev pub length : List A → ℕ
  length [] = 0
  length (x ∷ xs) = suc (length xs)

  pub length-append : (xs ys : List A) → length (xs ++ ys) ≡ length xs + length ys
  length-append [] ys = omega arith
  length-append (x ∷ xs) ys = omega (arith, length-append xs ys)

  -- `[x for x in xs if keep(x)]`
  abbrev pub filter : (A → Bool) → List A → List A
  filter keep [] = []
  filter keep (x ∷ xs) = if keep x then x ∷ filter keep xs else filter keep xs

  -- `any(test(x) for x in xs)`
  abbrev pub any : (A → Bool) → List A → Bool
  any test [] = false
  any test (x ∷ xs) = test x || any test xs

  -- A value goes before its equals: folding from the right, the sort is stable.
  unfoldable pub insert_by : (A → A → Bool) → A → List A → List A
  insert_by le x [] = x ∷ []
  insert_by le x (y ∷ ys) = if le x y then x ∷ y ∷ ys else y ∷ insert_by le x ys

  -- Python's `sorted`, which is stable.
  unfoldable pub sort_by : (A → A → Bool) → List A → List A
  unfolding insert_by
  sort_by le [] = []
  sort_by le (x ∷ xs) = insert_by le x (sort_by le xs)

  -- `sum(f(x) for x in xs)`
  abbrev pub sum_of : (A → ℕ) → List A → ℕ
  sum_of f [] = 0
  sum_of f (x ∷ xs) = f x + sum_of f xs

  abbrev pub All {κ} : (A → Type κ) → List A → Type κ
  All P [] = Unit
  All P (x ∷ xs) = P x × All P xs

module _ {ℓ} {A : Type ℓ} where
  pub sum_of-append : (f : A → ℕ) (xs ys : List A) → sum_of f (xs ++ ys) ≡ sum_of f xs + sum_of f ys
  sum_of-append f [] ys = omega arith
  sum_of-append f (x ∷ xs) ys = omega (arith, sum_of-append f xs ys)

-- Each element may stand before the next one.
module _ {ℓ} {A : Type ℓ} where
  abbrev pub LeHead : (A → A → Bool) → A → List A → Type 0
  LeHead le x [] = Unit
  LeHead le x (y ∷ ys) = le x y ≡ true

  abbrev pub IsAscending : (A → A → Bool) → List A → Type 0
  IsAscending le [] = Unit
  IsAscending le (x ∷ xs) = LeHead le x xs × IsAscending le xs

  insert_by-LeHead :
      (le : A → A → Bool) (x : A) (l : List A) → LeHead le x l → insert_by le x l ≡ x ∷ l
  unfolding insert_by
  insert_by-LeHead le x [] h = refl
  insert_by-LeHead le x (y ∷ l) h = rw h

  -- An ascending list is not changed by `sorted`.
  pub sort_by-IsAscending : (le : A → A → Bool) (l : List A) → IsAscending le l → sort_by le l ≡ l
  unfolding sort_by
  sort_by-IsAscending le [] h = refl
  sort_by-IsAscending le (x ∷ l) h = rw (sort_by-IsAscending le l h.1) (insert_by-LeHead le x l h.0)
