-- ===== src/Poi/Stops/Greedy.antt =====
-- poi/stops.py: what the choice promises of every sight, chosen or not.
use py_bike_router.Base.{
  ℕ, List, [], ◌∷◌, ◌++◌, Bool, true, false, any, filter, ◌==◌, ==_iff, leb→le, length, inl, inr,
  ◌⊎◌, ◌≡◌, refl, sym, ◌∙◌, subst, ◌≤◌, arith, All, All-append, All-map, All-of, ltb, ◌||◌,
}
use py_bike_router.Base.Sorting.{sorted}
use py_bike_router.Base.Every.{All-sorted, All-filter, filter-All, sorted-each, length-sorted}
use py_bike_router.Base.Some.{
  Any, Any-append, Any-last, Any-both, Any-any, Any-sorted, All-self, Pairwise, sorted-Pairwise,
  sorted-InOrder,
}
use py_bike_router.Poi.Stops.{
  Poi, or_zero, is_candidate, before, visited_before, is_near, walk, select_stops,
}
use py_bike_router.Poi.Stops.Chosen.{
  IsApart, IsApart-symmetric, IsClear, walk-Visited, walk-Keeps, walk-Spaced, walk-All, length-walk,
}

module _ {P : Type 0} where
  -- More famous, or as famous and at most as far from the line.
  abbrev pub Better : Poi P → Poi P → Type 0
  Better a b =
      (or_zero b.fame ≤ or_zero a.fame)
      × (or_zero a.fame ≡ or_zero b.fame
          → or_zero a.distance_from_route ≤ or_zero b.distance_from_route)

  Better-trans : (a b c : Poi P) → Better a b → Better b c → Better a c
  Better-trans a b c first second = ground (arith, first, second)

  before-Better : (a b : Poi P) → before a b ≡ true → Better a b
  before-Better a b first = ground (arith, first)

  not_before-Better : (a b : Poi P) → before a b ≡ false → Better b a
  not_before-Better a b other = ground (arith, other)

  -- In the order along the line.
  abbrev pub IsOnTheWay : Poi P → Poi P → Type 0
  IsOnTheWay a b = or_zero a.along_route ≤ or_zero b.along_route

module _ {P : Type 0} (distance : P → P → ℕ) (min_spacing : ℕ) (count : ℕ) (avoid : List P) where
  -- What becomes of a sight: it is a stop, or it is too close to a place to avoid or to a stop that is
  -- better, or there are as many stops as asked for, and they are better.
  abbrev pub Outcome : List (Poi P) → Poi P → Type 0
  Outcome stops p =
      Any (λ c. c ≡ p) stops
      ⊎ ((any (λ other. is_near distance min_spacing p.position other) avoid ≡ true)
          ⊎ (Any (λ c. (is_near distance min_spacing p.position c.position ≡ true) × Better c p)
                stops
              ⊎ ((length stops ≡ count) × All (λ c. Better c p) stops)))

  walk-Any :
      (Q : Poi P → Type 0) (ps chosen : List (Poi P))
      → Any Q chosen
      → Any Q (walk distance min_spacing count avoid ps chosen)
  walk-Any Q ps chosen found =
      walk-Keeps distance min_spacing count avoid (Any Q) (λ p. Unit {0})
        (λ some_ p kept _ _ _. Any-append Q some_ (p ∷ []) kept) ps chosen
        (All-of (λ p. Unit {0}) ps (λ p. tt)) found

  -- Stops that are better than all that follow.
  abbrev AllBetter : List (Poi P) → List (Poi P) → Type 0
  AllBetter ps chosen = All (λ p. All (λ c. Better c p) chosen) ps

  AllBetter-last :
      (p : Poi P) (ps chosen : List (Poi P))
      → All (Better p) ps
      → AllBetter ps chosen
      → AllBetter ps (chosen ++ p ∷ [])
  AllBetter-last p [] chosen after better = tt
  AllBetter-last p (q ∷ ps) chosen after better = (
    All-append (λ c. Better c q) chosen (p ∷ []) better.0 (after.0, tt),
    AllBetter-last p ps chosen after.1 better.1,
  )

  full-Outcome :
      (stops ps : List (Poi P)) → length stops ≡ count → AllBetter ps stops → All (Outcome stops) ps
  full-Outcome stops ps full better =
      All-map (λ p. All (λ c. Better c p) stops) (Outcome stops) ps
        (λ p every. inr (inr (inr (full, every)))) better

  close-Outcome :
      (p : Poi P) (ps chosen : List (Poi P))
      → All (λ c. Better c p) chosen
      → any (λ c. is_near distance min_spacing p.position c.position) chosen ≡ true
      → Outcome (walk distance min_spacing count avoid ps chosen) p
  close-Outcome p ps chosen better near = inr (
      inr (
        inl (
          walk-Any (λ c. (is_near distance min_spacing p.position c.position ≡ true) × Better c p)
            ps chosen
            (Any-both (λ c. Better c p)
              (λ c. is_near distance min_spacing p.position c.position ≡ true)
              (λ c. (is_near distance min_spacing p.position c.position ≡ true) × Better c p)
              (λ c good close. (close, good)) chosen better
              (Any-any (λ c. is_near distance min_spacing p.position c.position) chosen near)))))

  walk-Outcome :
      (ps chosen : List (Poi P))
      → Pairwise Better ps
      → AllBetter ps chosen
      → All (Outcome (walk distance min_spacing count avoid ps chosen)) ps
  unfolding walk
  walk-Outcome [] chosen order better = tt
  walk-Outcome (p ∷ ps) chosen order better =
      let added = AllBetter-last p ps chosen order.0 better.1 in
      let last = Any-last (λ c. c ≡ p) chosen p refl in
      let Goal : List (Poi P) → Type 0 = λ stops. All (Outcome stops) (p ∷ ps) in
      elim (walk-Visited distance min_spacing count avoid p ps chosen) [
        | inl (a, same) ↦
            subst Goal (sym same) (inr (inl a), walk-Outcome ps chosen order.1 better.1)
        | inr rest ↦ elim rest [
          | inl (b, same) ↦
              subst Goal (sym same)
                (close-Outcome p ps chosen better.0 b, walk-Outcome ps chosen order.1 better.1)
          | inr (free, end) ↦ elim end [
            | inl (full, same) ↦
                subst Goal (sym same) (inl last, full-Outcome (chosen ++ p ∷ []) ps full added)
            | inr (more, same) ↦ subst Goal (sym same) (
              inl (walk-Any (λ x. x ≡ p) ps (chosen ++ p ∷ []) last),
              walk-Outcome ps (chosen ++ p ∷ []) order.1 added,
            )
          ]
        ]
      ]

  sorted-Outcome :
      (stops : List (Poi P)) (p : Poi P) → Outcome stops p → Outcome (sorted visited_before stops) p
  sorted-Outcome stops p (inl chosen) = inl (Any-sorted (λ c. c ≡ p) visited_before stops chosen)
  sorted-Outcome stops p (inr (inl near)) = inr (inl near)
  sorted-Outcome stops p (inr (inr (inl close))) = inr (
      inr (
        inl (
          Any-sorted (λ c. (is_near distance min_spacing p.position c.position ≡ true) × Better c p)
            visited_before stops close)))
  sorted-Outcome stops p (inr (inr (inr (full, better)))) = inr (
      inr (
        inr (
          length-sorted visited_before stops ∙ full,
          All-sorted (λ c. Better c p) visited_before stops better,
        )))

  -- The stops of a choice among `pois`.
  pub record IsSelection (is_sight : Poi P → Bool) (pois stops : List (Poi P)) : Type 0 where
    pub few : length stops ≤ count
    pub on_the_way : Pairwise IsOnTheWay stops
    pub apart : Pairwise (IsApart distance min_spacing count avoid) stops
    pub clear : All (IsClear distance min_spacing count avoid) stops
    pub sights : All (λ c. (is_sight c ≡ true) × Any (λ p. p ≡ c) pois) stops
    pub greedy : All (λ p. is_sight p ≡ true → Outcome stops p) pois

  on_the_way : (ps : List (Poi P)) → Pairwise IsOnTheWay (sorted visited_before ps)
  on_the_way ps =
      sorted-InOrder IsOnTheWay visited_before
        (λ a b. leb→le (or_zero a.along_route) (or_zero b.along_route))
        (λ a b other. ground (arith, other)) (λ a b c first second. omega (arith, first, second)) ps

  module _ (symmetric : (a b : P) → distance a b ≡ distance b a) (room : 1 ≤ count)
      (is_sight : Poi P → Bool) (pois : List (Poi P)) where
    walk-IsSelection : IsSelection is_sight pois (
        sorted visited_before
          (walk distance min_spacing count avoid (sorted before (filter is_sight pois)) []))
    walk-IsSelection =
        let ranked = sorted before (filter is_sight pois) in
        let chosen = walk distance min_spacing count avoid ranked [] in
        let spaced = walk-Spaced distance min_spacing count avoid symmetric ranked in
        let order =
          sorted-InOrder Better before before-Better not_before-Better Better-trans
            (filter is_sight pois) in
        let outcomes =
          walk-Outcome ranked [] order (All-of (λ p. All (λ c. Better c p) []) ranked (λ p. tt)) in
        record {
          few = omega (
            arith,
            length-sorted visited_before chosen,
            length-walk distance min_spacing count avoid ranked [] (omega (arith, room)),
          );
          on_the_way = on_the_way chosen;
          apart =
              sorted-Pairwise (IsApart distance min_spacing count avoid) visited_before
                (IsApart-symmetric distance min_spacing count avoid symmetric) chosen spaced.0;
          clear =
              All-sorted (IsClear distance min_spacing count avoid) visited_before chosen spaced.1;
          sights =
              let Sight : Poi P → Type 0 = λ c. (is_sight c ≡ true) × Any (λ p. p ≡ c) pois in
              All-sorted Sight visited_before chosen (
                walk-All distance min_spacing count avoid Sight ranked (
                  All-sorted Sight before (filter is_sight pois) (
                    All-filter (λ c. Any (λ p. p ≡ c) pois) Sight is_sight
                      (λ c kept self. (kept, self)) pois (All-self pois))));
          greedy = filter-All (Outcome (sorted visited_before chosen)) is_sight pois (
              sorted-each (Outcome (sorted visited_before chosen)) before (filter is_sight pois) (
                All-map (Outcome chosen) (Outcome (sorted visited_before chosen)) ranked
                  (sorted-Outcome chosen) outcomes));
        }

-- For a line with a length and a count of at least 1, the stops are at most that many sights that qualify, in
-- the order along the line, no two too close to each other and none too close to a place to avoid. Every
-- other sight that qualifies is too close to such a place or to a stop that is better, or the stops are as
-- many as asked for and all better. Better is more famous, or as famous and no farther from the line.
pub select_stops-IsSelection :
    {P : Type 0} (distance : P → P → ℕ) (min_spacing count line_length min_fame : ℕ)
    (avoid : List P) (pois : List (Poi P))
    → ((a b : P) → distance a b ≡ distance b a)
    → 1 ≤ count
    → 1 ≤ line_length
    → IsSelection distance min_spacing count avoid
        (is_candidate line_length min_fame)
        pois
        (select_stops distance min_spacing count line_length min_fame avoid pois)
unfolding select_stops
select_stops-IsSelection distance min_spacing count line_length min_fame avoid pois symmetric room
      long =
    let guard : (ltb count 1 || line_length == 0) ≡ false =
      ground (arith, room, long, ==_iff line_length 0) in
    rw guard (
      walk-IsSelection distance min_spacing count avoid symmetric room
        (is_candidate line_length min_fame) pois)
