-- ===== src/Base/SetLemmas.antt =====
-- Membership in the lists that stand for Python's sets of strings.
use py_bike_router.Base.Tests.{Bool-cases}
use py_bike_router.Base.Lists.{filter}
use py_bike_router.Base.Sets.{contains, unique, unique_after}
use py_bike_router.Base.Sorting.{sorted, insert_sorted}
use Prim.Native.String.{String}
use mathlib.Core.Path.{◌≡◌, refl, sym, ◌∙◌}
use mathlib.Core.Bool.{Bool, not, ◌&&◌, ◌||◌}
use mathlib.Core.Logic.{inl, inr}
use mathlib.Core.List.{List, [], ◌∷◌, ◌++◌}
use native.Mathlib.Omega.{arith}
use text.Mathlib.Text.{◌==◌ as str_eq}
use text.Mathlib.TextEquality.{eq_iff}

pub contains-append :
    (k : String) (xs ys : List String) → contains k (xs ++ ys) ≡ (contains k xs || contains k ys)
contains-append k [] ys = refl
contains-append k (x ∷ xs) ys = ground (arith, contains-append k xs ys)

pub contains-filter :
    (p : String → Bool) (k : String) (xs : List String)
    → contains k (filter p xs) ≡ (contains k xs && p k)
contains-filter p k [] = refl
contains-filter p k (x ∷ xs) = elim (Bool-cases (str_eq x k)) [
  | inl e ↦ let same = (eq_iff x k).0 e in rw (sym same) (ground (arith, contains-filter p x xs))
  | inr e ↦ ground (arith, contains-filter p k xs)
]

contains-insert_sorted :
    (le : String → String → Bool) (k x : String) (xs : List String)
    → contains k (insert_sorted le x xs) ≡ (str_eq x k || contains k xs)
contains-insert_sorted le k x [] = refl
contains-insert_sorted le k x (y ∷ ys) = ground (arith, contains-insert_sorted le k x ys)

pub contains-sorted :
    (le : String → String → Bool) (k : String) (xs : List String)
    → contains k (sorted le xs) ≡ contains k xs
contains-sorted le k [] = refl
contains-sorted le k (x ∷ xs) =
    contains-insert_sorted le k x (sorted le xs) ∙ ground (arith, contains-sorted le k xs)

contains-unique_after :
    (k : String) (seen xs : List String)
    → contains k (unique_after seen xs) ≡ (contains k xs && not (contains k seen))
contains-unique_after k seen [] = refl
contains-unique_after k seen (x ∷ xs) = elim (Bool-cases (str_eq x k)) [
  | inl e ↦
      let same = (eq_iff x k).0 e in
      rw (sym same) (
        ground (
          arith,
          contains-unique_after x seen xs,
          contains-unique_after x (x ∷ seen) xs,
          eq_iff x x,
        ))
  | inr e ↦ ground (arith, contains-unique_after k seen xs, contains-unique_after k (x ∷ seen) xs)
]

pub contains-unique : (k : String) (xs : List String) → contains k (unique xs) ≡ contains k xs
unfolding unique
contains-unique k xs = contains-unique_after k [] xs ∙ ground arith
