-- ===== src/Base/TextOrder.antt =====
-- Python's `<` on strings, by code points.
use Prim.Native.Nat.{ℕ, Ordering, compare as compare_ℕ}
use Prim.Native.Char.{code}
use Prim.Native.String.{String, compare, then}
use Prim.Native.String.compare
use mathlib.Core.Path.{◌≡◌, sym, ap, ◌∙◌}
use mathlib.Core.Bool.{Bool, true, false}
use native.Mathlib.Omega.{arith}
use text.Mathlib.TextPositions.{compare_refl}

abbrev is_lt : Ordering → Bool
is_lt Ordering.lt = true
is_lt Ordering.eq = false
is_lt Ordering.gt = false

unfoldable pub text_ltb : String → String → Bool
text_ltb s t = is_lt (compare s t)

pub text_ltb_irreflexive : (s : String) → text_ltb s s ≡ false
unfolding text_ltb
text_ltb_irreflexive s = ap is_lt (compare_refl s)

compare_ℕ_trans :
    (k m n : ℕ) (s t u : Ordering)
    → (is_lt s ≡ true → is_lt t ≡ true → is_lt u ≡ true)
    → is_lt (then (compare_ℕ k m) s) ≡ true
    → is_lt (then (compare_ℕ m n) t) ≡ true
    → is_lt (then (compare_ℕ k n) u) ≡ true
compare_ℕ_trans k m n s t u rest first second = ground (arith, rest)

nothing_below_empty : (s : String) → is_lt (compare s String.[]) ≡ false
nothing_below_empty String.[] = ap is_lt compare.nil-nil
nothing_below_empty (String.◌∷◌ c s) = ap is_lt (compare.cons-nil c s)

pub text_ltb_trans :
    (s t u : String) → text_ltb s t ≡ true → text_ltb t u ≡ true → text_ltb s u ≡ true
unfolding text_ltb
text_ltb_trans s String.[] u first second = let never = nothing_below_empty s in cc
text_ltb_trans s (String.◌∷◌ d t) String.[] first second =
    let never = nothing_below_empty (String.◌∷◌ d t) in cc
text_ltb_trans String.[] (String.◌∷◌ d t) (String.◌∷◌ e u) first second =
    ap is_lt (compare.nil-cons e u)
text_ltb_trans (String.◌∷◌ c s) (String.◌∷◌ d t) (String.◌∷◌ e u) first second =
    ap is_lt (compare.cons-cons c e s u)
    ∙ compare_ℕ_trans (code c) (code d) (code e) (compare s t) (compare t u) (compare s u)
        (text_ltb_trans s t u) (sym (ap is_lt (compare.cons-cons c d s t)) ∙ first)
        (sym (ap is_lt (compare.cons-cons d e t u)) ∙ second)
