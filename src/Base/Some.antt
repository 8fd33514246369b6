-- ===== src/Base/Some.antt =====
-- Lists in which some element has a property, and lists whose elements are related in pairs.
use mathlib.Core.Path.{◌≡◌, refl}
use mathlib.Core.Bool.{Bool, true, false}
use mathlib.Core.List.{List, [], ◌∷◌, ◌++◌}
use mathlib.Core.Logic.{◌⊎◌, inl, inr}
use native.Mathlib.Omega.{arith}
use py_bike_router.Base.Tests.{Bool-cases}
use py_bike_router.Base.Lists.{filter, All, All-map, All-append, any}
use py_bike_router.Base.Every.{All-sorted}
use py_bike_router.Base.Sorting.{sorted, insert_sorted, insert_sorted-All}

module _ {ℓ} {A : Type ℓ} where
  abbrev pub Any : (A → Type 0) → List A → Type 0
  Any P [] = ⊥
  Any P (x ∷ xs) = P x ⊎ Any P xs

  pub Any-append : (P : A → Type 0) (xs ys : List A) → Any P xs → Any P (xs ++ ys)
  Any-append P [] ys found = absurd found
  Any-append P (x ∷ xs) ys (inl here) = inl here
  Any-append P (x ∷ xs) ys (inr there) = inr (Any-append P xs ys there)

  pub Any-last : (P : A → Type 0) (xs : List A) (x : A) → P x → Any P (xs ++ x ∷ [])
  Any-last P [] x here = inl here
  Any-last P (y ∷ xs) x here = inr (Any-last P xs x here)

  -- An element of a list where every element has P, found by Q, has both.
  pub Any-both :
      (P : A → Type 0) (Q : A → Type 0) (R : A → Type 0)
      → ((x : A) → P x → Q x → R x)
      → (xs : List A) → All P xs
      → Any Q xs
      → Any R xs
  Any-both P Q R both [] every found = absurd found
  Any-both P Q R both (x ∷ xs) every (inl here) = inl (both x every.0 here)
  Any-both P Q R both (x ∷ xs) every (inr there) = inr (Any-both P Q R both xs every.1 there)

  pub Any-any : (p : A → Bool) (xs : List A) → any p xs ≡ true → Any (λ x. p x ≡ true) xs
  Any-any p [] found = absurd (ground (arith, found))
  Any-any p (x ∷ xs) found = elim (Bool-cases (p x)) [
    | inl e ↦ inl e
    | inr e ↦ inr (Any-any p xs (ground (arith, e, found)))
  ]

  pub All-any : (p : A → Bool) (xs : List A) → any p xs ≡ false → All (λ x. p x ≡ false) xs
  All-any p [] none_found = tt
  All-any p (x ∷ xs) none_found =
      (ground (arith, none_found), All-any p xs (ground (arith, none_found)))

  pub Any-insert_sorted :
      (P : A → Type 0) (le : A → A → Bool) (x : A) (xs : List A)
      → Any P (x ∷ xs)
      → Any P (insert_sorted le x xs)
  Any-insert_sorted P le x [] found = found
  Any-insert_sorted P le x (y ∷ ys) found = elim (Bool-cases (le x y)) [
    | inl e ↦ rw e found
    | inr e ↦ rw e (elim found [
      | inl here ↦ inr (Any-insert_sorted P le x ys (inl here))
      | inr there ↦ elim there [
        | inl here ↦ inl here
        | inr rest ↦ inr (Any-insert_sorted P le x ys (inr rest))
      ]
    ])
  ]

  pub Any-sorted :
      (P : A → Type 0) (le : A → A → Bool) (xs : List A) → Any P xs → Any P (sorted le xs)
  Any-sorted P le [] found = found
  Any-sorted P le (x ∷ xs) (inl here) = Any-insert_sorted P le x (sorted le xs) (inl here)
  Any-sorted P le (x ∷ xs) (inr there) =
      Any-insert_sorted P le x (sorted le xs) (inr (Any-sorted P le xs there))

  insert_sorted-Any :
      (P : A → Type 0) (le : A → A → Bool) (x : A) (xs : List A)
      → Any P (insert_sorted le x xs)
      → Any P (x ∷ xs)
  insert_sorted-Any P le x [] found = found
  insert_sorted-Any P le x (y ∷ ys) found = elim (Bool-cases (le x y)) [
    | inl e ↦ rw e at found
    | inr e ↦
        let moved : Any P (y ∷ insert_sorted le x ys) = rw e at found in
        elim moved [
          | inl here ↦ inr (inl here)
          | inr there ↦ elim (insert_sorted-Any P le x ys there) [
            | inl here ↦ inl here
            | inr rest ↦ inr (inr rest)
          ]
        ]
  ]

  pub sorted-Any :
      (P : A → Type 0) (le : A → A → Bool) (xs : List A) → Any P (sorted le xs) → Any P xs
  sorted-Any P le [] found = found
  sorted-Any P le (x ∷ xs) found = elim (insert_sorted-Any P le x (sorted le xs) found) [
    | inl here ↦ inl here
    | inr there ↦ inr (sorted-Any P le xs there)
  ]

  pub filter-Any :
      (P : A → Type 0) (keep : A → Bool) (xs : List A) → Any P (filter keep xs) → Any P xs
  filter-Any P keep [] found = found
  filter-Any P keep (x ∷ xs) found = elim (Bool-cases (keep x)) [
    | inl e ↦
        let kept : Any P (x ∷ filter keep xs) = rw e at found in
        elim kept [ inl here ↦ inl here | inr there ↦ inr (filter-Any P keep xs there) ]
    | inr e ↦ let rest : Any P (filter keep xs) = rw e at found in inr (filter-Any P keep xs rest)
  ]

  pub Any-map : (P Q : A → Type 0) (xs : List A) → ((x : A) → P x → Q x) → Any P xs → Any Q xs
  Any-map P Q [] implied found = found
  Any-map P Q (x ∷ xs) implied (inl here) = inl (implied x here)
  Any-map P Q (x ∷ xs) implied (inr there) = inr (Any-map P Q xs implied there)

  pub none_of : (P : A → Type 0) (xs : List A) → All (λ x. ¬ P x) xs → ¬ Any P xs
  none_of P [] each found = found
  none_of P (x ∷ xs) each (inl here) = each.0 here
  none_of P (x ∷ xs) each (inr there) = none_of P xs each.1 there

  -- Each element is related to those after it.
  abbrev pub Pairwise : (A → A → Type 0) → List A → Type 0
  Pairwise R [] = Unit {0}
  Pairwise R (x ∷ xs) = All (R x) xs × Pairwise R xs

  pub Pairwise-last :
      (R : A → A → Type 0) (xs : List A) (x : A)
      → Pairwise R xs
      → All (λ y. R y x) xs
      → Pairwise R (xs ++ x ∷ [])
  Pairwise-last R [] x related new = (tt, tt)
  Pairwise-last R (y ∷ xs) x related new =
      (All-append (R y) xs (x ∷ []) related.0 (new.0, tt), Pairwise-last R xs x related.1 new.1)

  module _ (R : A → A → Type 0) (le : A → A → Bool) where
    -- A symmetric relation does not mind the order.
    insert_sorted-Pairwise :
        ((a b : A) → R a b → R b a)
        → (x : A) (xs : List A) → All (R x) xs
        → Pairwise R xs
        → Pairwise R (insert_sorted le x xs)
    insert_sorted-Pairwise symmetric x [] new related = (tt, tt)
    insert_sorted-Pairwise symmetric x (y ∷ ys) new related = elim (Bool-cases (le x y)) [
      | inl e ↦ rw e (new, related)
      | inr e ↦ rw e (
        insert_sorted-All le (R y) x ys (symmetric x y new.0) related.0,
        insert_sorted-Pairwise symmetric x ys new.1 related.1,
      )
    ]

    pub sorted-Pairwise :
        ((a b : A) → R a b → R b a) → (xs : List A) → Pairwise R xs → Pairwise R (sorted le xs)
    sorted-Pairwise symmetric [] related = tt
    sorted-Pairwise symmetric (x ∷ xs) related =
        insert_sorted-Pairwise symmetric x (sorted le xs) (All-sorted (R x) le xs related.0)
          (sorted-Pairwise symmetric xs related.1)

    module _ (yes : (a b : A) → le a b ≡ true → R a b) (no : (a b : A) → le a b ≡ false → R b a)
        (transitive : (a b c : A) → R a b → R b c → R a c) where
      insert_sorted-InOrder :
          (x : A) (xs : List A) → Pairwise R xs → Pairwise R (insert_sorted le x xs)
      insert_sorted-InOrder x [] related = (tt, tt)
      insert_sorted-InOrder x (y ∷ ys) related = elim (Bool-cases (le x y)) [
        | inl e ↦
            let first = yes x y e in
            rw e (
              (first, All-map (R y) (R x) ys (λ z after. transitive x y z first after) related.0),
              related,
            )
        | inr e ↦ rw e (
          insert_sorted-All le (R y) x ys (no x y e) related.0,
          insert_sorted-InOrder x ys related.1,
        )
      ]

      -- What the test decides holds of the sorted list.
      pub sorted-InOrder : (xs : List A) → Pairwise R (sorted le xs)
      sorted-InOrder [] = tt
      sorted-InOrder (x ∷ xs) = insert_sorted-InOrder x (sorted le xs) (sorted-InOrder xs)

-- Every element of a list is one of its elements.
pub All-self : {A : Type 0} (xs : List A) → All (λ x. Any (λ y. y ≡ x) xs) xs
All-self [] = tt
All-self (x ∷ xs) = (
  inl refl,
  All-map (λ z. Any (λ y. y ≡ z) xs) (λ z. Any (λ y. y ≡ z) (x ∷ xs)) xs (λ z found. inr found)
      (All-self xs),
)
