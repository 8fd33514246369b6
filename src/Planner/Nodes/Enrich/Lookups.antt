-- ===== src/Planner/Nodes/Enrich/Lookups.antt =====
-- nodes/enrich.py: the enricher is asked once for each distinct geometry.
use py_bike_router.Base.{
  ◌≡◌, refl, ◌⊎◌, inl, inr, Result-cases, String, Option, none, some, List, [], ◌∷◌, ◌++◌, Bool,
  true, false, not, ◌&&◌, ◌||◌, arith, str_eq, eq_iff, contains, lookup, lookup-insert, Result, ok,
  err,
}
use py_bike_router.Base.Json.{Json}
use py_bike_router.Errors.{ErrorEntry}
use py_bike_router.Planner.State.{Candidate}
use py_bike_router.Planner.Services.{LookupFailure, SurfaceEnricher}
use py_bike_router.Planner.Nodes.Enrich.{
  Progress, finish, looked_up, with_key, failure_entry, enrich_one, enrich_all, no_progress,
}

abbrev pub is_distinct : List String → Bool
is_distinct [] = true
is_distinct (x ∷ xs) = not (contains x xs) && is_distinct xs

contains-snoc :
    (j k : String) (xs : List String) → contains j (xs ++ k ∷ []) ≡ (contains j xs || str_eq k j)
contains-snoc j k [] = ground arith
contains-snoc j k (x ∷ xs) = ground (arith, contains-snoc j k xs)

is_distinct-snoc :
    (k : String) (xs : List String)
    → is_distinct xs ≡ true
    → contains k xs ≡ false
    → is_distinct (xs ++ k ∷ []) ≡ true
is_distinct-snoc k [] h n = refl
is_distinct-snoc k (x ∷ xs) h n =
    ground (arith, contains-snoc x k xs, eq_iff k x, eq_iff x k, is_distinct-snoc k xs)

abbrev is_some {ℓ} : {A : Type ℓ} → Option A → Bool
is_some none = false
is_some (some a) = true

-- The geometry has a summary or a failure already.
abbrev is_known : String → Progress → Bool
is_known k p = is_some (lookup k p.summaries) || is_some (lookup k p.failures)

-- Every lookup was of another geometry, and its result is kept.
record Remembers (p : Progress) : Type 0 where
  distinct : is_distinct p.lookups ≡ true
  kept : (k : String) → (contains k p.lookups ≡ false) ⊎ (is_known k p ≡ true)

module _ (same : Json → Json → Bool) (enricher : SurfaceEnricher) where
  looked_up-Remembers :
      (c : Candidate) (key : String) (r : Result LookupFailure Json) (p : Progress)
      → lookup key p.summaries ≡ none
      → lookup key p.failures ≡ none
      → Remembers p
      → Remembers (looked_up same enricher c key r p)
  looked_up-Remembers c key (ok summary) p s f m =
      let new : contains key p.lookups ≡ false = elim (m.kept key) [
        | inl e ↦ e
        | inr e ↦ ground (arith, e, s, f)
      ] in
      record {
        distinct = is_distinct-snoc key p.lookups m.distinct new;
        kept = λ k. elim (m.kept k) [
          | inl e ↦
              ground
                (arith, e, contains-snoc k key p.lookups, lookup-insert key k summary p.summaries)
          | inr e ↦
              ground
                (arith, e, contains-snoc k key p.lookups, lookup-insert key k summary p.summaries)
        ];
      }
  looked_up-Remembers c key (err x) p s f m =
      let new : contains key p.lookups ≡ false = elim (m.kept key) [
        | inl e ↦ e
        | inr e ↦ ground (arith, e, s, f)
      ] in
      record {
        distinct = is_distinct-snoc key p.lookups m.distinct new;
        kept = λ k. elim (m.kept k) [
          | inl e ↦ ground (
            arith,
            e,
            contains-snoc k key p.lookups,
            lookup-insert key k (failure_entry same enricher x) p.failures,
          )
          | inr e ↦ ground (
            arith,
            e,
            contains-snoc k key p.lookups,
            lookup-insert key k (failure_entry same enricher x) p.failures,
          )
        ];
      }

  finish-Remembers :
      (c : Candidate) (s : Option Json) (f : Option ErrorEntry) (p : Progress)
      → Remembers p
      → Remembers (finish same enricher c s f p)
  finish-Remembers c s f p m = record { distinct = m.distinct; kept = m.kept }

  with_key-Remembers :
      (c : Candidate) (key : String) (s : Option Json) (f : Option ErrorEntry) (p : Progress)
      → lookup key p.summaries ≡ s
      → lookup key p.failures ≡ f
      → Remembers p
      → Remembers (with_key same enricher c key s f p)
  with_key-Remembers c key (some s) f p es ef m = finish-Remembers c (some s) none p m
  with_key-Remembers c key none (some f) p es ef m = finish-Remembers c none (some f) p m
  with_key-Remembers c key none none p es ef m =
      looked_up-Remembers c key (enricher.surface_profile c) p es ef m

  enrich_one-Remembers :
      (c : Candidate) (p : Progress) → Remembers p → Remembers (enrich_one same enricher c p)
  unfolding enrich_one
  enrich_one-Remembers c p m = elim (Result-cases (enricher.geometry_key c)) [
    | inr (e, eq) ↦ rw (eq, enrich_one) (finish-Remembers c none (some e) p m)
    | inl (key, eq) ↦
        rw (eq, enrich_one)
          (with_key-Remembers c key (lookup key p.summaries) (lookup key p.failures) p refl refl m)
  ]

  enrich_all-Remembers :
      (cs : List Candidate) (p : Progress) → Remembers p → Remembers (enrich_all same enricher cs p)
  unfolding enrich_all
  enrich_all-Remembers [] p m = m
  enrich_all-Remembers (c ∷ cs) p m =
      enrich_all-Remembers cs (enrich_one same enricher c p) (enrich_one-Remembers c p m)

  -- The geometries that a pass over the candidates asks the enricher for are all different, so that
  -- candidates with the same geometry share one lookup, whether it succeeds or fails.
  pub enrich_all-distinct :
      (cs : List Candidate) → is_distinct (enrich_all same enricher cs no_progress).lookups ≡ true
  enrich_all-distinct cs =
      (enrich_all-Remembers cs no_progress
        (record { distinct = refl; kept = λ k. inl refl })).distinct
