-- ===== src/Base/Every.antt =====
-- Properties of every element, under the list operations.
use Prim.Native.Nat.{ℕ, zero, suc}
use mathlib.Core.Path.{◌≡◌, refl, ap, ◌∙◌}
use mathlib.Core.Bool.{Bool, true}
use mathlib.Core.Logic.{inl, inr}
use mathlib.Core.List.{List, [], ◌∷◌, Mem, mem-cons_self, mem-cons_of_mem}
use native.Mathlib.Omega.{arith}
use py_bike_router.Base.Tests.{Bool-cases}
use py_bike_router.Base.Lists.{length, All, filter, take}
use py_bike_router.Base.Sorting.{sorted, insert_sorted, insert_sorted-All}

pub All-take {ℓ κ} :
    {A : Type ℓ} (P : A → Type κ) (n : ℕ) (xs : List A) → All P xs → All P (take n xs)
All-take P zero xs every = tt
All-take P (suc n) [] every = tt
All-take P (suc n) (x ∷ xs) every = (every.0, All-take P n xs every.1)

pub All-filter {ℓ κ} :
    {A : Type ℓ} (P Q : A → Type κ) (keep : A → Bool)
    → ((x : A) → keep x ≡ true → P x → Q x)
    → (xs : List A) → All P xs
    → All Q (filter keep xs)
All-filter P Q keep implied [] every = tt
All-filter P Q keep implied (x ∷ xs) every = elim (Bool-cases (keep x)) [
  | inl e ↦ rw e (implied x e every.0, All-filter P Q keep implied xs every.1)
  | inr e ↦ rw e (All-filter P Q keep implied xs every.1)
]

pub All-sorted {ℓ κ} :
    {A : Type ℓ} (P : A → Type κ) (le : A → A → Bool) (xs : List A)
    → All P xs
    → All P (sorted le xs)
All-sorted P le [] every = tt
All-sorted P le (x ∷ xs) every =
    insert_sorted-All le P x (sorted le xs) every.0 (All-sorted P le xs every.1)

pub All-Mem {ℓ κ} :
    {A : Type ℓ} (P : A → Type κ) (xs : List A) → ((x : A) → Mem x xs → P x) → All P xs
All-Mem P [] each = tt
All-Mem P (x ∷ xs) each =
    (each x mem-cons_self, All-Mem P xs (λ y member. each y (mem-cons_of_mem x member)))

-- What holds of every element that is kept, or of every one in another order.
pub filter-All {ℓ κ} :
    {A : Type ℓ} (P : A → Type κ) (keep : A → Bool) (xs : List A)
    → All P (filter keep xs)
    → All (λ x. keep x ≡ true → P x) xs
filter-All P keep [] every = tt
filter-All P keep (x ∷ xs) every = elim (Bool-cases (keep x)) [
  | inl e ↦
      let both : All P (x ∷ filter keep xs) = rw e at every in
      ((λ _. both.0), filter-All P keep xs both.1)
  | inr e ↦
      let rest : All P (filter keep xs) = rw e at every in
      ((λ kept. absurd (ground (arith, e, kept))), filter-All P keep xs rest)
]

insert_sorted-each {ℓ κ} :
    {A : Type ℓ} (P : A → Type κ) (le : A → A → Bool) (x : A) (xs : List A)
    → All P (insert_sorted le x xs)
    → P x × All P xs
insert_sorted-each P le x [] every = every
insert_sorted-each P le x (y ∷ ys) every = elim (Bool-cases (le x y)) [
  | inl e ↦ rw e at every
  | inr e ↦
      let both : All P (y ∷ insert_sorted le x ys) = rw e at every in
      let rest = insert_sorted-each P le x ys both.1 in (rest.0, (both.0, rest.1))
]

pub sorted-each {ℓ κ} :
    {A : Type ℓ} (P : A → Type κ) (le : A → A → Bool) (xs : List A)
    → All P (sorted le xs)
    → All P xs
sorted-each P le [] every = tt
sorted-each P le (x ∷ xs) every =
    let both = insert_sorted-each P le x (sorted le xs) every in
    (both.0, sorted-each P le xs both.1)

length-insert_sorted {ℓ} :
    {A : Type ℓ} (le : A → A → Bool) (x : A) (xs : List A)
    → length (insert_sorted le x xs) ≡ suc (length xs)
length-insert_sorted le x [] = refl
length-insert_sorted le x (y ∷ ys) = elim (Bool-cases (le x y)) [
  | inl e ↦ rw e refl
  | inr e ↦ rw e (ap suc (length-insert_sorted le x ys))
]

pub length-sorted {ℓ} :
    {A : Type ℓ} (le : A → A → Bool) (xs : List A) → length (sorted le xs) ≡ length xs
length-sorted le [] = refl
length-sorted le (x ∷ xs) = length-insert_sorted le x (sorted le xs) ∙ ap suc (length-sorted le xs)
