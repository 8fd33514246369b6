-- ===== src/Base/Sorting.antt =====
-- Python's `sorted`: stable, by a Boolean order. An insertion sort has the same result.
use mathlib.Core.Path.{◌≡◌}
use mathlib.Core.Bool.{Bool, true}
use mathlib.Core.List.{List, [], ◌∷◌, Perm}
use mathlib.Core.List.Perm
use mathlib.Core.Logic.{◌⊎◌, inl, inr}
use py_bike_router.Base.Tests.{if◌then◌else◌, Bool-cases}
use py_bike_router.Base.Lists.{All}

module _ {ℓ} {A : Type ℓ} (le : A → A → Bool) where
  abbrev pub insert_sorted : A → List A → List A
  insert_sorted x [] = x ∷ []
  insert_sorted x (y ∷ ys) = if le x y then x ∷ y ∷ ys else y ∷ insert_sorted x ys

  abbrev pub sorted : List A → List A
  sorted [] = []
  sorted (x ∷ xs) = insert_sorted x (sorted xs)

  abbrev pub IsSorted : List A → Type 0
  IsSorted [] = Unit
  IsSorted (x ∷ xs) = All (λ y. le x y ≡ true) xs × IsSorted xs

  pub insert_sorted-perm : (x : A) (xs : List A) → Perm (insert_sorted x xs) (x ∷ xs)
  insert_sorted-perm x [] = Perm.refl (x ∷ [])
  insert_sorted-perm x (y ∷ ys) = elim (Bool-cases (le x y)) [
    | inl e ↦ rw e (Perm.refl (x ∷ y ∷ ys))
    | inr e ↦ rw e (Perm.trans (Perm.cons y (insert_sorted-perm x ys)) (Perm.swap x y ys))
  ]

  pub sorted-perm : (xs : List A) → Perm (sorted xs) xs
  sorted-perm [] = Perm.refl []
  sorted-perm (x ∷ xs) =
      Perm.trans (insert_sorted-perm x (sorted xs)) (Perm.cons x (sorted-perm xs))

  pub insert_sorted-All {κ} :
      (P : A → Type κ) (x : A) (xs : List A) → P x → All P xs → All P (insert_sorted x xs)
  insert_sorted-All P x [] here every = (here, tt)
  insert_sorted-All P x (y ∷ ys) here every = elim (Bool-cases (le x y)) [
    | inl e ↦ rw e (here, every)
    | inr e ↦ rw e (every.0, insert_sorted-All P x ys here every.1)
  ]

  below_each :
      ((a b c : A) → le a b ≡ true → le b c ≡ true → le a c ≡ true)
      → (x y : A) (ys : List A) → le x y ≡ true
      → All (λ z. le y z ≡ true) ys
      → All (λ z. le x z ≡ true) ys
  below_each transitive x y [] first every = tt
  below_each transitive x y (z ∷ zs) first every =
      (transitive x y z first every.0, below_each transitive x y zs first every.1)

  -- By an order that is total and transitive, the result is sorted.
  insert_sorted-IsSorted :
      ((a b : A) → (le a b ≡ true) ⊎ (le b a ≡ true))
      → ((a b c : A) → le a b ≡ true → le b c ≡ true → le a c ≡ true)
      → (x : A) (xs : List A) → IsSorted xs
      → IsSorted (insert_sorted x xs)
  insert_sorted-IsSorted total transitive x [] before = (tt, tt)
  insert_sorted-IsSorted total transitive x (y ∷ ys) before = elim (Bool-cases (le x y)) [
    | inl e ↦ rw e ((e, below_each transitive x y ys e before.0), before)
    | inr e ↦
        let above : le y x ≡ true = elim (total x y) [ inl other ↦ cc | inr other ↦ other ] in
        rw e (
          insert_sorted-All (λ z. le y z ≡ true) x ys above before.0,
          insert_sorted-IsSorted total transitive x ys before.1,
        )
  ]

  pub sorted-IsSorted :
      ((a b : A) → (le a b ≡ true) ⊎ (le b a ≡ true))
      → ((a b c : A) → le a b ≡ true → le b c ≡ true → le a c ≡ true)
      → (xs : List A) → IsSorted (sorted xs)
  sorted-IsSorted total transitive [] = tt
  sorted-IsSorted total transitive (x ∷ xs) =
      insert_sorted-IsSorted total transitive x (sorted xs) (sorted-IsSorted total transitive xs)
