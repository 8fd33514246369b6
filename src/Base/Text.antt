-- ===== src/Base/Text.antt =====
-- Python's strings: the tests that the code makes on their characters.
use Prim.Native.Nat.{ℕ}
use Prim.Native.Char.{code}
use Prim.Native.String.{String}
use mathlib.Core.Bool.{Bool, ◌&&◌, ◌||◌}
use mathlib.Core.List.{List, [], ◌∷◌}
use py_bike_router.Base.Tests.{leb, ◌==◌, if◌then◌else◌}
use py_bike_router.Base.Lists.{all, any}
pub use Prim.Native.String.{◌++◌ as concat}

abbrev pub codes : String → List ℕ
codes String.[] = []
codes (String.◌∷◌ c s) = code c ∷ codes s

-- [c for c in s], as strings of one character
abbrev pub characters : String → List String
characters String.[] = []
characters (String.◌∷◌ c s) = String.◌∷◌ c String.[] ∷ characters s

-- str.isspace of one character
abbrev pub is_space : ℕ → Bool
is_space c =
    (leb 9 c && leb c 13)
    || (leb 28 c && leb c 32)
    || c == 133
    || c == 160
    || c == 5760
    || (leb 8192 c && leb c 8202)
    || c == 8232
    || c == 8233
    || c == 8239
    || c == 8287
    || c == 12288

-- not s.strip()
unfoldable pub is_blank : String → Bool
is_blank s = all is_space (codes s)

abbrev before_exponent : List ℕ → List ℕ
before_exponent [] = []
before_exponent (c ∷ cs) =
    let rest = before_exponent cs in if c == b'e' || c == b'E' then [] else c ∷ rest

-- The literal of a float that is not zero has a digit other than 0 before its exponent.
unfoldable pub is_nonzero : String → Bool
is_nonzero s = any (λ c. leb b'1' c && leb c b'9') (before_exponent (codes s))
