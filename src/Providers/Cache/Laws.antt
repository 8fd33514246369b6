-- ===== src/Providers/Cache/Laws.antt =====
-- providers/base.py: what a cache returns after a value was stored.
use Prim.Native.Char.{Char, code}
use text.Mathlib.TextLemmas.{cons-append, nil-append}
use py_bike_router.Base.{
  ℕ, ◌+◌, ◌≡◌, ◌≢◌, refl, sym, ◌∙◌, ap, inl, inr, Bool-cases, String, Option, none, some, Bool,
  false, not, all, ltb, ◌==◌, str_eq, eq_iff, arith, lookup, insert, lookup-insert, if◌then◌else◌,
}
use py_bike_router.Base.Text.{codes, concat}
use py_bike_router.Providers.Cache.{Store, get, set, found, prefixed, get_in, set_in}

module _ {V : Type 0} where
  found-value :
      (key : String) (now : ℕ) (s s' : Store V) (e : Option (ℕ × V))
      → (found key now s e).1 ≡ (found key now s' e).1
  found-value key now s s' none = refl
  found-value key now s s' (some (t, v)) = ground arith

  -- After a value was stored under a key, the cache returns it for this key until its time has passed
  -- and nothing after that, and for every other key what it would return without.
  pub get-set :
      (key other : String) (value : V) (ttl now later : ℕ) (s : Store V)
      → (get other later (set key value ttl now s)).1 ≡ (
          if str_eq key other
          then if ltb (now + ttl) later then none else some value
          else (get other later s).1)
  unfolding get set
  get-set key other value ttl now later s =
      let stored = lookup-insert key other (now + ttl, value) s in
      let after = insert key (now + ttl, value) s in
      elim (Bool-cases (str_eq key other)) [
        | inl e ↦
            let hit : lookup other after ≡ some (now + ttl, value) = stored ∙ rw e refl in
            ap (λ o. (found other later after o).1) hit ∙ rw e (ground arith)
        | inr e ↦
            let miss : lookup other after ≡ lookup other s = stored ∙ rw e refl in
            ap (λ o. (found other later after o).1) miss
            ∙ found-value other later after s (lookup other s)
            ∙ rw e refl
      ]

abbrev first_code : String → ℕ
first_code String.[] = 0
first_code (String.◌∷◌ c s) = code c

abbrev pub has_colon : String → Bool
has_colon a = not (all (λ c. not (c == b':')) (codes a))

prefixed-cons :
    (c : Char) (a k : String) → prefixed (String.◌∷◌ c a) k ≡ String.◌∷◌ c (prefixed a k)
prefixed-cons c a k = ap (λ s. concat s k) (cons-append c a ":") ∙ cons-append c (concat a ":") k

first_code-prefixed : (k : String) → first_code (prefixed String.[] k) ≡ 58
first_code-prefixed k =
    ap first_code (ap (λ s. concat s k) (nil-append ":") ∙ cons-append ":" String.[] k)

-- The prefix up to the first colon tells the namespace.
separate :
    (a b k j : String)
    → has_colon a ≡ false
    → has_colon b ≡ false
    → prefixed a k ≡ prefixed b j
    → a ≡ b
separate String.[] String.[] k j p q h = refl
separate String.[] (String.◌∷◌ c b) k j p q h =
    let same : 58 ≡ code c =
      sym (first_code-prefixed k) ∙ ap first_code (h ∙ prefixed-cons c b j) in
    ground (arith, same)
separate (String.◌∷◌ c a) String.[] k j p q h =
    let same : code c ≡ 58 =
      ap first_code (sym (prefixed-cons c a k) ∙ h) ∙ first_code-prefixed j in
    ground (arith, same)
separate (String.◌∷◌ c a) (String.◌∷◌ d b) k j p q h =
    let same : String.◌∷◌ c (prefixed a k) ≡ String.◌∷◌ d (prefixed b j) =
      sym (prefixed-cons c a k) ∙ h ∙ prefixed-cons d b j in
    let first : c ≡ d = cc in
    let rest : a ≡ b = separate a b k j (ground arith) (ground arith) cc in rw (first, rest) refl

module _ {V : Type 0} where
  -- What is stored in one namespace does not change what any other returns, where no namespace's name
  -- has a colon.
  pub get_in-set_in :
      (a b key other : String) (value : V) (ttl now later : ℕ) (s : Store V)
      → has_colon a ≡ false
      → has_colon b ≡ false
      → a ≢ b
      → (get_in b other later (set_in a key value ttl now s)).1 ≡ (get_in b other later s).1
  unfolding get_in set_in
  get_in-set_in a b key other value ttl now later s p q differ =
      elim (Bool-cases (str_eq (prefixed a key) (prefixed b other))) [
        | inl e ↦ absurd (differ (separate a b key other p q ((eq_iff _ _).0 e)))
        | inr e ↦ get-set (prefixed a key) (prefixed b other) value ttl now later s ∙ rw e refl
      ]
