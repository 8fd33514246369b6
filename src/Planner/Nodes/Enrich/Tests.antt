-- ===== src/Planner/Nodes/Enrich/Tests.antt =====
-- The theorem on lookups at three candidates, two of them with the same geometry.
use py_bike_router.Base.{String, ◌≡◌, none, [], ◌∷◌, true, Result, ok}
use py_bike_router.Base.Json.{Json}
use py_bike_router.Errors.{ErrorEntry}
use py_bike_router.Planner.State.{Candidate}
use py_bike_router.Planner.Services.{SurfaceEnricher}
use py_bike_router.Planner.Nodes.Enrich.{enrich_all, no_progress}
use py_bike_router.Planner.Nodes.Enrich.Lookups.{is_distinct, enrich_all-distinct}

abbrev ride : (geometry : String) → Candidate
ride geometry = record {
  provider = "brouter";
  profile = geometry;
  distance = 1_000_000;
  alternative_of = none;
  score = none;
  warning_penalty = none;
  rank = none;
  duplicate_of = none;
  duplicates = [];
  rest = Json.null;
}

abbrev key_of : Candidate → Result ErrorEntry String
key_of c = ok c.profile

abbrev overpass : SurfaceEnricher
overpass = record {
  name = "overpass";
  geometry_key = key_of;
  surface_profile = λ c. ok Json.null;
  apply_summary = λ c s. c;
}

enrich_all-distinct_example :
    is_distinct
      (enrich_all (λ a b. true) overpass (ride "a" ∷ ride "b" ∷ ride "a" ∷ []) no_progress).lookups
    ≡ true
enrich_all-distinct_example =
    enrich_all-distinct (λ a b. true) overpass (ride "a" ∷ ride "b" ∷ ride "a" ∷ [])
