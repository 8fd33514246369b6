-- ===== src/Planner/Nodes/Enrich.antt =====
-- nodes/enrich.py: one surface lookup for each distinct geometry, best effort.
pub mod Lookups
mod Tests
use py_bike_router.Base.{
  String, Option, none, some, List, [], ◌∷◌, ◌++◌, Bool, false, ◌&&◌, ◌||◌, str_eq, lookup, insert,
  is_empty, if◌then◌else◌, Result, ok, err,
}
use py_bike_router.Base.Json.{Json}
use py_bike_router.Errors.{ErrorEntry, to_dict}
use py_bike_router.Planner.State.{Candidate, State, Change, Update}
use py_bike_router.Planner.Services.{Raised, LookupFailure, SurfaceEnricher, Services}
use py_bike_router.Planner.Nodes.Route.{unexpected_error}

-- The variables of the loop. `lookups` records the geometries that the enricher was asked for.
pub record Progress : Type 0 where
  pub summaries : List (String × Json)
  pub failures : List (String × ErrorEntry)
  pub new_errors : List ErrorEntry
  pub updated : List Candidate
  pub lookups : List String

abbrev same_error : (Json → Json → Bool) → ErrorEntry → ErrorEntry → Bool
same_error same a b =
    str_eq a.code b.code
    && str_eq a.provider b.provider
    && str_eq a.message b.message
    && same a.detail b.detail

abbrev is_listed : (Json → Json → Bool) → ErrorEntry → List ErrorEntry → Bool
is_listed same e [] = false
is_listed same e (x ∷ xs) = same_error same x e || is_listed same e xs

-- if failure is not None and failure not in new_errors: new_errors.append(failure)
abbrev add_error : (Json → Json → Bool) → Option ErrorEntry → List ErrorEntry → List ErrorEntry
add_error same none es = es
add_error same (some e) es = if is_listed same e es then es else es ++ e ∷ []

module _ (same : Json → Json → Bool) where
  -- What a candidate gets: its summary or its failure.
  abbrev finish :
      SurfaceEnricher → Candidate → Option Json → Option ErrorEntry → Progress → Progress
  finish enricher c summary failure p = record p {
    new_errors = add_error same failure p.new_errors;
    updated = p.updated ++ enricher.apply_summary c summary ∷ [];
  }

  abbrev failure_entry : SurfaceEnricher → LookupFailure → ErrorEntry
  failure_entry enricher (LookupFailure.provider_failed e) = to_dict e
  failure_entry enricher (LookupFailure.unexpected t m) =
      to_dict (unexpected_error enricher.name t m)

  abbrev looked_up :
      SurfaceEnricher → Candidate → String → Result LookupFailure Json → Progress → Progress
  looked_up enricher c key (ok summary) p =
      finish enricher c (some summary) none
        (record p { summaries = insert key summary p.summaries; lookups = p.lookups ++ key ∷ [] })
  looked_up enricher c key (err e) p =
      finish enricher c none (some (failure_entry enricher e)) (record p {
        failures = insert key (failure_entry enricher e) p.failures;
        lookups = p.lookups ++ key ∷ [];
      })

  abbrev with_key :
      SurfaceEnricher → Candidate → String → Option Json → Option ErrorEntry → Progress → Progress
  with_key enricher c key (some summary) _ p = finish enricher c (some summary) none p
  with_key enricher c key none (some failure) p = finish enricher c none (some failure) p
  with_key enricher c key none none p = looked_up enricher c key (enricher.surface_profile c) p

  -- One pass of the loop over the candidates.
  unfoldable pub enrich_one : SurfaceEnricher → Candidate → Progress → Progress
  unfolding to_dict
  enrich_one enricher c p = elim (enricher.geometry_key c) [
    | err e ↦ finish enricher c none (some e) p
    | ok key ↦ with_key enricher c key (lookup key p.summaries) (lookup key p.failures) p
  ]

  unfoldable pub enrich_all : SurfaceEnricher → List Candidate → Progress → Progress
  enrich_all enricher [] p = p
  enrich_all enricher (c ∷ cs) p = enrich_all enricher cs (enrich_one enricher c p)

abbrev pub no_progress : Progress
no_progress = record { summaries = []; failures = []; new_errors = []; updated = []; lookups = [] }

abbrev pub enriched : List ErrorEntry → Progress → Update
enriched old p =
    if is_empty p.new_errors
    then Change.candidates p.updated ∷ []
    else Change.candidates p.updated ∷ Change.errors (old ++ p.new_errors) ∷ []

abbrev pub enrich_with : Services → State → Option SurfaceEnricher → Result Raised Update
enrich_with sv s none = ok []
enrich_with sv s (some enricher) =
    if is_empty s.candidates
    then ok []
    else ok (enriched s.errors (enrich_all sv.same_detail enricher s.candidates no_progress))

unfoldable pub enrich_candidates : Services → State → Result Raised Update
enrich_candidates sv s = enrich_with sv s sv.enricher
