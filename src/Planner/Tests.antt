-- ===== src/Planner/Tests.antt =====
-- A small set of services, and the planner's theorems at concrete requests.
use py_bike_router.Base.{
  ℕ, ◌+◌, ◌≤◌, length, map, String, ◌≡◌, refl, Option, none, some, List, [], ◌∷◌, true, false,
  Result, ok, err,
}
use mathlib.Core.List.{Perm}
use py_bike_router.Base.Int.{ℤ}
use py_bike_router.Base.Json.{Json, Fields, field, end}
use py_bike_router.Errors.{ProviderError, ErrorEntry, Kind, to_dict}
use py_bike_router.Planner.State.{
  GeocodeCandidate, Candidate, State, Change, Update, start, query, coordinate, merge, status_of,
}
use py_bike_router.Planner.State.PlanStatus.{in_progress}
use py_bike_router.Planner.Constraints.{RouteConstraints, LoopDirection}
use py_bike_router.Planner.Services.{
  Coordinate, RoutingRequest, RoutingProvider, RouteFailure, LoopPlan, Services,
}
use py_bike_router.Planner.Nodes.Validate.{model_validate, validate_request}
use py_bike_router.Planner.Nodes.Validate.Accepted.{IsPlannable, validate_request-IsPlannable}
use py_bike_router.Planner.Nodes.Geocode.{Thresholds, geocode_locations}
use py_bike_router.Planner.Nodes.Geocode.Settled.{
  Settles, ArrivesAt, meant, geocode_locations-settled,
}
use py_bike_router.Planner.Nodes.Route.{Outcome, collect, conclude_route}
use py_bike_router.Planner.Nodes.Route.Outcomes.{status_for, answers, routes_of, collect-status}
use py_bike_router.Planner.Nodes.Loops.{next_chord_target, sized_loop}
use py_bike_router.Planner.Nodes.Loops.Sizing.{
  Routed, IsScaled, next_chord_target-IsScaled, sized_loop-Routed,
}
use py_bike_router.Planner.Ranking.{rank_candidates}
use py_bike_router.Planner.Ranking.Laws.{unranked, rank_candidates-perm}
use py_bike_router.Planner.Ranking.Distinct.{DistinctFrom, rank_candidates-distinct}
use py_bike_router.Planner.Graph.{Config, invoke}
use py_bike_router.Planner.Graph.Exits.{EndsWell}
use py_bike_router.Planner.Graph.Paths.{invoke-EndsWell}

abbrev home : Coordinate
home = record { lon = ℤ.pos 105_200_000; lat = ℤ.pos 522_600_000 }

abbrev plain : RouteConstraints
plain = record {
  bike_type = "trekking";
  target_distance = none;
  max_distance = none;
  prefer_surfaces = [];
  avoid_surfaces = [];
  return_to_origin = false;
  loop_direction = LoopDirection.clockwise;
  rest = Json.null;
}

abbrev ride : String → String → ℕ → Candidate
ride provider geometry distance = record {
  provider = provider;
  profile = "trekking";
  distance = distance;
  alternative_of = none;
  score = none;
  warning_penalty = none;
  rank = none;
  duplicate_of = none;
  duplicates = [];
  rest = Json.text geometry;
}

abbrev found_place : GeocodeCandidate
found_place = record {
  label = "Kasernenstraße 23, Braunschweig";
  position = Json.text "10.52,52.26";
  confidence = 900_000;
  source = "photon";
}

abbrev circle : Coordinate → ℕ → LoopDirection → ℕ → LoopPlan
circle origin target direction bearing = record {
  vias = origin ∷ [];
  radius = target;
  direction = direction;
  bearing = bearing;
  routed = none;
  attempts = 0;
}

abbrev same_score : List Candidate → List (ℤ × Option ℤ)
same_score [] = []
same_score (c ∷ cs) = (ℤ.pos 500_000, none) ∷ same_score cs

-- Two geometries are 10 m apart whatever they are.
abbrev ten_metres : Json → Json → Option ℕ
ten_metres a b = some 10_000_000

abbrev sample : Services
sample = record {
  read_constraints = λ v. ok plain;
  read_coordinate = λ v. some home;
  dump_coordinate = λ c. Json.null;
  read_optimize = λ v. true;
  writing = record { distance = λ _. ""; sorted_names = λ _. "" };
  resolve_surfaces = λ xs. xs;
  llm_parser = none;
  geocode = λ q limit. ok (found_place ∷ []);
  polygon = circle;
  loop_state = λ plan. Json.null;
  poi_vias = λ r spec. [];
  stops = none;
  enricher = none;
  score_together = λ cs c. same_score cs;
  frechet_distance = ten_metres;
  optimizer = λ s. ok (s.candidates, Json.null);
  weather = none;
  pros_cons = λ cs c. cs;
  same = λ a b. true;
  same_detail = λ a b. true;
  explain = λ c a b. "A ride.";
  new_route_id = "r1";
  store_put = λ name c. ok tt;
}

abbrev engine : String → Result RouteFailure Candidate → RoutingProvider
engine name answer = record {
  name = name;
  route = λ call request. answer;
  alternatives = none;
  optimization_candidates = none;
  alternatives_deadline = λ _. none;
  optimization_deadline = λ _. none;
}

abbrev no_path : ProviderError
no_path = record {
  kind = Kind.no_route;
  message = "no path";
  provider = "valhalla";
  detail = Json.null;
}

abbrev brouter : RoutingProvider
brouter = engine "brouter" (ok (ride "brouter" "a" 5_000_000_000))

abbrev valhalla : RoutingProvider
valhalla = engine "valhalla" (err (RouteFailure.provider_failed no_path))

abbrev detail_of : ProviderError → ErrorEntry
unfolding to_dict
detail_of e = to_dict e

abbrev thresholds : Thresholds
thresholds = record { ambiguity_margin = 150_000; min_confidence = 500_000 }

abbrev config : Config
config = record {
  services = sample;
  engines = record {
    configured = brouter ∷ valhalla ∷ [];
    optional = [];
    coverage_detail = λ r e. record {
      code = "routing_area_not_covered";
      provider = e.provider;
      message = e.message;
      detail = e.detail;
    };
  };
  thresholds = thresholds;
  dedup_threshold = 25_000_000;
}

abbrev request : Fields
request = field "origin" (Json.text "home") (field "destination" (Json.text "work") end)

invoke-EndsWell_example : EndsWell (invoke config (start request))
invoke-EndsWell_example = invoke-EndsWell config request

abbrev asked : State
asked = record (start request) {
  origin_input = some (query "home");
  destination_input = some (query "work");
  via_inputs = coordinate (Json.text "10.6,52.3") ∷ [];
}

abbrev settled_places : Update
settled_places =
    Change.status in_progress
    ∷ Change.resolved_origin (some (Json.text "10.52,52.26"))
    ∷ Change.resolved_destination (some (Json.text "10.52,52.26"))
    ∷ Change.resolved_via (Json.text "10.6,52.3" ∷ [])
    ∷ []

geocode_locations-asked : geocode_locations sample thresholds asked ≡ ok settled_places
unfolding geocode_locations
geocode_locations-asked = refl

geocode_locations-settled_example :
    Settles sample thresholds (some (query "home")) (merge asked settled_places).resolved_origin
    × ArrivesAt sample thresholds false
        (some (query "work"))
        (merge asked settled_places).resolved_origin
        (merge asked settled_places).resolved_destination
    × (map (meant sample thresholds) asked.via_inputs
        ≡ map some (merge asked settled_places).resolved_via)
geocode_locations-settled_example =
    geocode_locations-settled sample thresholds asked settled_places geocode_locations-asked refl

abbrev trip : RoutingRequest
trip = record { origin = home; destination = home; via = []; constraints = plain }

abbrev one_route : Outcome
unfolding to_dict
one_route = record {
  candidates = ride "brouter" "a" 5_000_000_000 ∷ [];
  errors = to_dict no_path ∷ [];
  no_route_only = true;
}

collect-one_route : collect detail_of trip (brouter ∷ valhalla ∷ []) ≡ ok one_route
unfolding collect to_dict
collect-one_route = refl

collect-status_example :
    (status_of (conclude_route none [] one_route)
      ≡ some (status_for (answers trip (brouter ∷ valhalla ∷ []))))
    × (one_route.candidates ≡ routes_of (answers trip (brouter ∷ valhalla ∷ [])))
    × (length one_route.candidates + length one_route.errors ≡ 2)
collect-status_example =
    collect-status detail_of trip (brouter ∷ valhalla ∷ []) one_route none [] collect-one_route

abbrev rides : List Candidate
rides =
    ride "brouter" "a" 5_000_000_000
    ∷ ride "valhalla" "b" 4_000_000_000
    ∷ ride "ors" "c" 6_000_000_000
    ∷ []

rank_candidates-perm_example :
    Perm (map unranked (rank_candidates ten_metres 25_000_000 none rides)) (map unranked rides)
rank_candidates-perm_example = rank_candidates-perm ten_metres 25_000_000 rides

rank_candidates-distinct_example :
    DistinctFrom ten_metres 25_000_000 1 (rank_candidates ten_metres 25_000_000 (some 2) rides)
    × (length (rank_candidates ten_metres 25_000_000 (some 2) rides) ≤ 2)
rank_candidates-distinct_example = rank_candidates-distinct ten_metres 25_000_000 2 rides

next_chord_target-IsScaled_example :
    (◌≡◌ {A = ℕ} 500 0 → next_chord_target 100 500 100 ≡ none)
    × (1 ≤ 500 → (n : ℕ) × (next_chord_target 100 500 100 ≡ some n) × IsScaled 100 500 100 n)
next_chord_target-IsScaled_example = next_chord_target-IsScaled 100 500 100

-- The engine's route is 5 km, as long as the loop that is asked for.
abbrev sized_plan : LoopPlan
sized_plan = record (circle home 5_000_000_000 LoopDirection.clockwise 0) {
  routed = some 5_000_000_000;
  attempts = 1;
}

sized_loop-home : sized_loop sample brouter home home plain 5_000_000_000 ≡ ok (some sized_plan)
unfolding sized_loop
sized_loop-home = refl

sized_loop-Routed_example : Routed sample brouter home home plain 5_000_000_000 3 sized_plan
sized_loop-Routed_example =
    sized_loop-Routed sample brouter home home plain 5_000_000_000 sized_plan sized_loop-home

validate_request-asked : validate_request sample asked ≡ ok (Change.status in_progress ∷ [])
unfolding validate_request
validate_request-asked = refl

validate_request-IsPlannable_example :
    (c : RouteConstraints) × (model_validate sample asked.constraints ≡ ok c) × IsPlannable asked c
validate_request-IsPlannable_example =
    validate_request-IsPlannable sample asked (Change.status in_progress ∷ [])
      validate_request-asked refl
