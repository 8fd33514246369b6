-- ===== src/Poi/Stops/Chosen.antt =====
-- poi/stops.py: the loop keeps what holds of the sights chosen so far.
use py_bike_router.Base.{
  ℕ, List, [], ◌∷◌, ◌++◌, true, false, any, ◌==◌, ==_iff, length, length-append, Bool-cases, inl,
  inr, ◌⊎◌, refl, subst, ◌≡◌, sym, ap, ◌∙◌, ◌≤◌, ◌<◌, arith, All, All-append, All-map, All-of, ltb,
}
use py_bike_router.Base.Some.{All-any, Pairwise, Pairwise-last}
use py_bike_router.Poi.Stops.{Poi, is_near, walk}

module _ {P : Type 0} (distance : P → P → ℕ) (min_spacing : ℕ) (count : ℕ) (avoid : List P) where
  -- The four ways in which the loop goes on after a sight.
  abbrev pub Visited : Poi P → List (Poi P) → List (Poi P) → Type 0
  Visited p ps chosen =
      let near_avoid = any (λ other. is_near distance min_spacing p.position other) avoid in
      let near_stop = any (λ c. is_near distance min_spacing p.position c.position) chosen in
      let added = chosen ++ p ∷ [] in
      let stops = walk distance min_spacing count avoid (p ∷ ps) chosen in
      ((near_avoid ≡ true) × (stops ≡ walk distance min_spacing count avoid ps chosen))
      ⊎ (((near_stop ≡ true) × (stops ≡ walk distance min_spacing count avoid ps chosen))
          ⊎ (((near_avoid ≡ false) × (near_stop ≡ false))
              × (((length added ≡ count) × (stops ≡ added))
                  ⊎ (¬ (length added ≡ count)
                      × (stops ≡ walk distance min_spacing count avoid ps added)))))

  pub walk-Visited : (p : Poi P) (ps chosen : List (Poi P)) → Visited p ps chosen
  unfolding walk
  walk-Visited p ps chosen =
      let test = ==_iff (length (chosen ++ p ∷ [])) count in
      elim (Bool-cases (any (λ other. is_near distance min_spacing p.position other) avoid)) [
        | inl a ↦ inl (a, rw a refl)
        | inr a ↦
            elim (Bool-cases
              (any (λ c. is_near distance min_spacing p.position c.position) chosen)) [
                | inl b ↦ inr (inl (b, rw a (rw b refl)))
                | inr b ↦ elim (Bool-cases (length (chosen ++ p ∷ []) == count)) [
                  | inl c ↦ inr (inr ((a, b), inl (test.0 c, rw a (rw b (rw c refl)))))
                  | inr c ↦ inr (
                      inr (
                        (a, b),
                        inr ((λ full. ground (arith, c, test, full)), rw a (rw b (rw c refl))),
                      ))
                ]
              ]
      ]

  -- What a sight adds when it is apart from the others, the whole loop keeps.
  pub walk-Keeps :
      (I : List (Poi P) → Type 0) (Q : Poi P → Type 0)
      → ((chosen : List (Poi P)) (p : Poi P)
          → I chosen
          → Q p
          → any (λ other. is_near distance min_spacing p.position other) avoid ≡ false
          → any (λ c. is_near distance min_spacing p.position c.position) chosen ≡ false
          → I (chosen ++ p ∷ []))
      → (ps chosen : List (Poi P)) → All Q ps
      → I chosen
      → I (walk distance min_spacing count avoid ps chosen)
  unfolding walk
  walk-Keeps I Q grow [] chosen each kept = kept
  walk-Keeps I Q grow (p ∷ ps) chosen each kept =
      let next = walk-Keeps I Q grow ps in
      elim (walk-Visited p ps chosen) [
        | inl (a, same) ↦ subst I (sym same) (next chosen each.1 kept)
        | inr rest ↦ elim rest [
          | inl (b, same) ↦ subst I (sym same) (next chosen each.1 kept)
          | inr (free, last) ↦
              let grown = grow chosen p kept each.0 free.0 free.1 in
              elim last [
                | inl (full, same) ↦ subst I (sym same) grown
                | inr (more, same) ↦ subst I (sym same) (next (chosen ++ p ∷ []) each.1 grown)
              ]
        ]
      ]

  -- Two stops that are no detour of each other.
  abbrev pub IsApart : Poi P → Poi P → Type 0
  IsApart a b = is_near distance min_spacing a.position b.position ≡ false

  abbrev pub IsClear : Poi P → Type 0
  IsClear p = any (λ other. is_near distance min_spacing p.position other) avoid ≡ false

  pub IsApart-symmetric :
      ((a b : P) → distance a b ≡ distance b a) → (a b : Poi P) → IsApart a b → IsApart b a
  IsApart-symmetric symmetric a b apart =
      ap (λ d. ltb d min_spacing) (symmetric b.position a.position) ∙ apart

  pub walk-Spaced :
      ((a b : P) → distance a b ≡ distance b a)
      → (ps : List (Poi P))
      → Pairwise IsApart (walk distance min_spacing count avoid ps [])
        × All IsClear (walk distance min_spacing count avoid ps [])
  walk-Spaced symmetric ps =
      walk-Keeps (λ chosen. Pairwise IsApart chosen × All IsClear chosen) (λ p. Unit {0})
        (λ chosen p kept _ clear apart. (
          Pairwise-last IsApart chosen p kept.0 (
              All-map (λ c. IsApart p c) (λ c. IsApart c p) chosen
                (λ c. IsApart-symmetric symmetric p c)
                (All-any (λ c. is_near distance min_spacing p.position c.position) chosen apart)),
          All-append IsClear chosen (p ∷ []) kept.1 (clear, tt),
        ))
        ps [] (All-of (λ p. Unit {0}) ps (λ p. tt)) (tt, tt)

  pub walk-All :
      (Q : Poi P → Type 0) (ps : List (Poi P))
      → All Q ps
      → All Q (walk distance min_spacing count avoid ps [])
  walk-All Q ps each =
      walk-Keeps (All Q) Q (λ chosen p kept here _ _. All-append Q chosen (p ∷ []) kept (here, tt))
        ps [] each tt

  pub length-walk :
      (ps chosen : List (Poi P))
      → length chosen < count
      → length (walk distance min_spacing count avoid ps chosen) ≤ count
  unfolding walk
  length-walk [] chosen room = omega (arith, room)
  length-walk (p ∷ ps) chosen room =
      let grown = length-append chosen (p ∷ []) in
      elim (walk-Visited p ps chosen) [
        | inl (a, same) ↦ omega (arith, length-walk ps chosen room, ap length same)
        | inr rest ↦ elim rest [
          | inl (b, same) ↦ omega (arith, length-walk ps chosen room, ap length same)
          | inr (free, last) ↦ elim last [
            | inl (full, same) ↦ omega (arith, full, ap length same)
            | inr (more, same) ↦
                let below : length (chosen ++ p ∷ []) < count = ground (arith, grown, room, more) in
                omega (arith, length-walk ps (chosen ++ p ∷ []) below, ap length same)
          ]
        ]
      ]
