-- ===== src/Base/Counting.antt =====
-- How many elements of a list pass a test.
use mathlib.Core.Logic.Or
use mathlib.Core.List.{Mem, mem-cons, not-mem-nil, List, [], ◌∷◌}
use native.Mathlib.Bridge.{le_prop}
use native.Mathlib.Omega.{arith}
use Prim.Native.Nat.{ℕ, ◌+◌, ◌≤◌, ◌<◌}
use mathlib.Core.Path.{◌≡◌, ap}
use mathlib.Core.Bool.{Bool, true, false}
use py_bike_router.Base.Tests.{if◌then◌else◌}
use py_bike_router.Base.Lists.{filter, length}

unfoldable pub count {ℓ} : {A : Type ℓ} → (A → Bool) → List A → ℕ
count p [] = 0
count p (x ∷ xs) = (if p x then 1 else 0) + count p xs

pub count_mono {ℓ} :
    {A : Type ℓ} (p q : A → Bool)
    → ((x : A) → q x ≡ true → p x ≡ true)
    → (xs : List A) → count q xs ≤ count p xs
unfolding count
count_mono p q implied [] = omega arith
count_mono p q implied (x ∷ xs) = ground (arith, count_mono p q implied xs, implied x)

pub count-less {ℓ} :
    {A : Type ℓ} (p q : A → Bool)
    → ((x : A) → q x ≡ true → p x ≡ true)
    → (a : A) → p a ≡ true
    → q a ≡ false
    → (xs : List A) → Mem a xs
    → count q xs < count p xs
unfolding count
count-less p q implied a held lost [] member = absurd (not-mem-nil member)
count-less p q implied a held lost (x ∷ xs) member =
    Or.elim le_prop (mem-cons.0 member)
      (λ same.
        let p_same = ap p same in
        let q_same = ap q same in ground (arith, count_mono p q implied xs, p_same, q_same))
      (λ later. ground (arith, count-less p q implied a held lost xs later, implied x))

pub count-filter {ℓ} :
    {A : Type ℓ} (p keep : A → Bool) (xs : List A) → count p (filter keep xs) ≤ count p xs
unfolding count
count-filter p keep [] = omega arith
count-filter p keep (x ∷ xs) = ground (arith, count-filter p keep xs)

pub count-length {ℓ} : {A : Type ℓ} (p : A → Bool) (xs : List A) → count p xs ≤ length xs
unfolding count
count-length p [] = omega arith
count-length p (x ∷ xs) = ground (arith, count-length p xs)
