-- ===== src/Planner/Services.antt =====
-- What the graph's nodes call: pydantic, the providers, and the parts of the program that only compute
-- a value for a node. Each is an operation with no assumption about its result.
use py_bike_router.Base.{ℕ, String, Option, List, Bool, Result}
use py_bike_router.Base.Int.{ℤ}
use py_bike_router.Base.Json.{Json}
use py_bike_router.Errors.{ProviderError, ErrorEntry}
use py_bike_router.Planner.State.{GeocodeCandidate, Candidate, State}
use py_bike_router.Planner.Constraints.{RouteConstraints, LoopDirection, Issue, Writing}

-- Exceptions that no node catches; the run ends with them.
pub data Raised : Type 0 where
  validation_error type_error key_error value_error assertion_error : Raised
  other : String → Raised

-- LLMParseError, or any other exception.
pub data ParserFailure : Type 0 where
  parse_error : (code message : String) → ParserFailure
  failed : String → ParserFailure

-- GeocodingNotFoundError, ProviderError, or an exception that the node does not catch.
pub data GeocodeFailure : Type 0 where
  not_found : GeocodeFailure
  provider_failed : ProviderError → GeocodeFailure
  uncaught : String → GeocodeFailure

-- What `provider.route` raises: a `ProviderError`, another `Exception` (its type's name and its text),
-- or a `BaseException` such as a cancellation.
pub data RouteFailure : Type 0 where
  provider_failed : ProviderError → RouteFailure
  unexpected : (type_name message : String) → RouteFailure
  cancelled : String → RouteFailure

-- What a surface lookup raises: a `ProviderError` or another `Exception`.
pub data LookupFailure : Type 0 where
  provider_failed : ProviderError → LookupFailure
  unexpected : (type_name message : String) → LookupFailure

-- Coordinate, in units of 1e-7 degrees.
pub record Coordinate : Type 0 where
  pub lon : ℤ
  pub lat : ℤ

pub record RoutingRequest : Type 0 where
  pub origin : Coordinate
  pub destination : Coordinate
  pub via : List Coordinate
  pub constraints : RouteConstraints

-- A routing engine. `call` numbers the requests of one run: 0 is the main request, 1, 2, … are those
-- that size a loop, so that an engine may answer the same request differently.
-- The two optional methods fail with any `Exception`, their deadline's among them.
pub record RoutingProvider : Type 0 where
  pub name : String
  pub route : (call : ℕ) → RoutingRequest → Result RouteFailure Candidate
  pub alternatives : Option (RoutingRequest → Result String (List Candidate))
  pub optimization_candidates :
      Option (RoutingRequest → Json → List Json → Result String (List Candidate))
  -- What `alternatives_deadline_s` and `optimization_deadline_s` raise: none where they return or are missing.
  pub alternatives_deadline : RoutingRequest → Option Raised
  pub optimization_deadline : RoutingRequest → Option Raised

-- loops.py `LoopPlan`. Lengths are counted in millionths of a metre, bearings in degrees.
pub record LoopPlan : Type 0 where
  pub vias : List Coordinate
  pub radius : ℕ
  pub direction : LoopDirection
  pub bearing : ℕ
  pub routed : Option ℕ
  pub attempts : ℕ

-- The outcome of nodes/poi_stops.py: new via points and a loop plan where stops were found.
pub record StopsFound : Type 0 where
  pub resolved_via : Option (List Json)
  pub loop_plan : Option Json
  pub poi_stops : List Json
  pub status : String

-- enrichment/base.py. `geometry_key` is nodes/enrich.py `_geometry_key`, and `apply_summary` is its
-- `_apply_summary`; a summary is its JSON form.
pub record SurfaceEnricher : Type 0 where
  pub name : String
  pub geometry_key : Candidate → Result ErrorEntry String
  pub surface_profile : Candidate → Result LookupFailure Json
  pub apply_summary : Candidate → Option Json → Candidate

-- weather/service.py behind nodes/weather.py: whether the departure lies in the forecast's range,
-- whether there is a point to look up, and the forecast's effect on each candidate (`none` where the
-- forecast does not reach it).
pub record Weather : Type 0 where
  pub in_range : Json → Bool
  pub has_points : List Candidate → Bool
  pub forecast : State → Result String (Candidate → Option Candidate)

pub record Services : Type 0 where
  -- pydantic: the fields of `RouteConstraints`, of `Coordinate` and of `OptimizeSpec`
  pub read_constraints : Json → Result (List Issue) RouteConstraints
  pub read_coordinate : Json → Option Coordinate
  pub dump_coordinate : Coordinate → Json
  pub read_optimize : Json → Bool
  -- How a message writes distances and sets
  pub writing : Writing
  -- config.py `resolve_surface_tokens`
  pub resolve_surfaces : List String → List String
  pub llm_parser : Option (Json → Option Json → Result ParserFailure Json)
  pub geocode : String → (limit : ℕ) → Result GeocodeFailure (List GeocodeCandidate)
  -- loops.py: the circuit's waypoints, and the plan as JSON
  pub polygon : Coordinate → ℕ → LoopDirection → ℕ → LoopPlan
  pub loop_state : LoopPlan → Json
  -- nodes/route.py `_poi_vias`
  pub poi_vias : RoutingRequest → Json → List Json
  -- the search of nodes/poi_stops.py (its lines 53 to 107), with the service that it is given
  pub stops : Option (State → Result Raised StopsFound)
  pub enricher : Option SurfaceEnricher
  pub score_together : List Candidate → RouteConstraints → List (ℤ × Option ℤ)
  -- scoring/alternatives.py `frechet_distance_m`, of the geometries that two candidates' `rest` holds, in
  -- millionths of a metre
  pub frechet_distance : Json → Json → Option ℕ
  -- the `try` block of nodes/optimize.py and the report that is made of its outcome
  pub optimizer : State → Result String (List Candidate × Json)
  pub weather : Option Weather
  pub pros_cons : List Candidate → RouteConstraints → List Candidate
  -- Python's equality of two dictionaries
  pub same : Candidate → Candidate → Bool
  pub same_detail : Json → Json → Bool
  pub explain : Candidate → Json → Option Json → String
  pub new_route_id : String
  pub store_put : String → Candidate → Result String (Unit {0})
