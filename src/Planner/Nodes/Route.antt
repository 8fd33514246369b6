-- ===== src/Planner/Nodes/Route.antt =====
-- nodes/route.py: every engine is asked for the same trip, and failures become structured errors.
pub mod Outcomes
use py_bike_router.Base.{
  leb, length, ℕ, String, Option, none, some, List, [], ◌∷◌, ◌++◌, Bool, true, false, not, ◌&&◌,
  str_eq, find_last, unique, is_empty, if◌then◌else◌, Result, ok, err, ◌>>=◌,
}
use py_bike_router.Base.Json.{Json, object, end, array, items}
use py_bike_router.Base.Text.{concat, characters}
use py_bike_router.Errors.{ErrorEntry, ProviderError, Kind, to_dict}
use py_bike_router.Planner.State.{PlanStatus, Candidate, State, Change, Update}
use py_bike_router.Planner.Constraints.{RouteConstraints, LoopDirection}
use py_bike_router.Planner.Services.{
  Raised, Coordinate, RoutingRequest, RoutingProvider, RouteFailure, LoopPlan, Services,
}
use py_bike_router.Planner.Nodes.Parse.{truthy}
use py_bike_router.Planner.Nodes.Validate.{model_validate}
use py_bike_router.Planner.Nodes.Loops.{synthesize_loop_vias, sized_loop}

-- The names in `routing_engines`: a list of strings, the characters of one, or nothing.
abbrev pub names_in : List Json → List String
names_in [] = []
names_in (Json.text s ∷ vs) = s ∷ names_in vs
names_in (v ∷ vs) = names_in vs

abbrev pub requested : Json → List String
requested (array vs) = names_in (items vs)
requested (Json.text s) = characters s
requested _ = []

abbrev pub find_engine : String → List RoutingProvider → Option RoutingProvider
find_engine name ps = find_last (λ p. str_eq p.name name) ps

abbrev pub by_name :
    (configured optional : List RoutingProvider) → List String → List RoutingProvider
by_name configured optional [] = []
by_name configured optional (n ∷ ns) =
    let rest = by_name configured optional ns in
    elim (find_engine n (optional ++ configured)) [ none ↦ rest | some p ↦ p ∷ rest ]

abbrev pub or_else : List RoutingProvider → List RoutingProvider → List RoutingProvider
or_else [] configured = configured
or_else (p ∷ ps) configured = p ∷ ps

-- The engines that the request names, or the configured ones when it names none that exist.
unfoldable pub engines_for :
    List String → (configured optional : List RoutingProvider) → List RoutingProvider
unfolding unique
engines_for names configured optional =
    or_else (by_name configured optional (unique names)) configured

-- What one engine's answer adds: a candidate or an error, and whether it means "no path".
pub record Outcome : Type 0 where
  pub candidates : List Candidate
  pub errors : List ErrorEntry
  pub no_route_only : Bool

abbrev pub unexpected_error : String → String → String → ProviderError
unexpected_error provider type_name message = record {
  kind = Kind.provider_error;
  message = concat "unexpected " (concat type_name (concat ": " message));
  provider = provider;
  detail = object end;
}

abbrev pub failure : ErrorEntry → Bool → Outcome → Outcome
failure e keeps o = record o { errors = e ∷ o.errors; no_route_only = keeps && o.no_route_only }

module _ (coverage_detail : ProviderError → ErrorEntry) where
  abbrev pub failure_for : ProviderError → Kind → Outcome → Outcome
  failure_for e Kind.coverage = failure (coverage_detail e) false
  failure_for e Kind.no_route = failure (to_dict e) true
  failure_for e _ = failure (to_dict e) false

  -- One pass of the loop over the results: what it puts before that of the later ones.
  unfoldable pub collect_one :
      RoutingProvider → Result RouteFailure Candidate → Result Raised (Outcome → Outcome)
  unfolding to_dict
  collect_one p (ok c) = ok (λ o. record o { candidates = c ∷ o.candidates })
  collect_one p (err (RouteFailure.cancelled m)) = err (Raised.other m)
  collect_one p (err (RouteFailure.unexpected t m)) =
      ok (failure (to_dict (unexpected_error p.name t m)) false)
  collect_one p (err (RouteFailure.provider_failed e)) = ok (failure_for e e.kind)

  unfoldable pub collect : RoutingRequest → List RoutingProvider → Result Raised Outcome
  unfolding collect_one
  collect request [] = ok (record { candidates = []; errors = []; no_route_only = true })
  collect request (p ∷ ps) = do
    add ← collect_one p (p.route 0 request)
    rest ← collect request ps
    ok (add rest)

abbrev extras_or_none : Result String (List Candidate) → List Candidate
extras_or_none (ok cs) = cs
extras_or_none (err e) = []

-- The engine's own deadline is asked for outside the try.
abbrev within_deadline : Option Raised → List Candidate → Result Raised (List Candidate)
within_deadline none extras = ok extras
within_deadline (some e) extras = err e

-- `_bounded_alternatives` and `_optimization_candidates`: best effort, a failure of the engine gives no extras.
abbrev alternatives_of : RoutingProvider → RoutingRequest → Result Raised (List Candidate)
alternatives_of p request = elim p.alternatives [
  | none ↦ ok []
  | some ask ↦ within_deadline (p.alternatives_deadline request) (extras_or_none (ask request))
]

unfoldable pub extra_routes :
    Services → RoutingRequest → Option Json → RoutingProvider → Result Raised (List Candidate)
extra_routes sv request none p = alternatives_of p request
extra_routes sv request (some spec) p = elim p.optimization_candidates [
  | none ↦ alternatives_of p request
  | some ask ↦
      within_deadline (p.optimization_deadline request)
        (extras_or_none (ask request spec (sv.poi_vias request spec)))
]

abbrev pub all_extras :
    Services → RoutingRequest → Option Json → List RoutingProvider → Result Raised (List Candidate)
unfolding extra_routes
all_extras sv request spec [] = ok []
all_extras sv request spec (p ∷ ps) = do
  extras ← extra_routes sv request spec p
  rest ← all_extras sv request spec ps
  ok (extras ++ rest)

-- The update from what the engines answered.
unfoldable pub conclude_route : Option Json → List Candidate → Outcome → Update
conclude_route loop_plan extras o =
    if is_empty o.candidates
    then if o.no_route_only
      then Change.status PlanStatus.no_route ∷ Change.errors o.errors ∷ []
      else Change.status PlanStatus.provider_failure ∷ Change.errors o.errors ∷ []
    else Change.status PlanStatus.in_progress
      ∷ Change.candidates (o.candidates ++ extras)
      ∷ Change.errors o.errors
      ∷ Change.loop_plan loop_plan
      ∷ []

abbrev pub read_all : Services → List Json → Result Raised (List Coordinate)
read_all sv [] = ok []
read_all sv (v ∷ vs) = elim (sv.read_coordinate v) [
  | none ↦ err Raised.validation_error
  | some c ↦ (do cs ← read_all sv vs; ok (c ∷ cs))
]

-- Coordinate.model_validate of a value that may be missing
abbrev pub read_one : Services → Option Json → Result Raised Coordinate
read_one sv none = err Raised.validation_error
read_one sv (some v) = elim (sv.read_coordinate v) [
  | none ↦ err Raised.validation_error
  | some c ↦ ok c
]

-- The via points and the loop plan that the request is made with.
abbrev pub Shape : Type 0
Shape = List Coordinate × Option Json

abbrev pub from_plan : Services → LoopPlan → Shape
from_plan sv plan = (plan.vias, some (sv.loop_state plan))

abbrev pub or_plain :
    Services → Coordinate → ℕ → LoopDirection → Option LoopPlan → Result Raised Shape
or_plain sv origin goal direction (some plan) = ok (from_plan sv plan)
or_plain sv origin goal direction none = elim (synthesize_loop_vias sv origin goal direction 0) [
  | none ↦ err Raised.value_error
  | some plan ↦ ok (from_plan sv plan)
]

abbrev pub sized :
    Services
    → Coordinate
    → ℕ
    → LoopDirection
    → Result Raised (Option LoopPlan)
    → Result Raised Shape
sized sv origin goal direction (err e) = err e
sized sv origin goal direction (ok plan) = or_plain sv origin goal direction plan

abbrev pub loop_shape :
    Services
    → List RoutingProvider
    → Coordinate
    → Coordinate
    → RouteConstraints
    → Option ℕ
    → Result Raised Shape
loop_shape sv (p ∷ ps) origin destination c (some goal) =
    sized sv origin goal c.loop_direction (sized_loop sv p origin destination c goal)
loop_shape sv _ origin destination c _ = err Raised.assertion_error

-- A loop whose shape the caller did not draw is synthesized and sized.
unfoldable pub shape :
    Services
    → List RoutingProvider
    → Coordinate
    → Coordinate
    → RouteConstraints
    → List Coordinate
    → Option Json
    → Result Raised Shape
unfolding sized_loop synthesize_loop_vias
shape sv engines origin destination c via plan =
    if c.return_to_origin && is_empty via
    then loop_shape sv engines origin destination c c.target_distance
    else ok (via, plan)

abbrev pub read_spec : Services → Json → Result Raised (Option Json)
read_spec sv raw =
    if not (truthy raw)
    then ok none
    else if sv.read_optimize raw
    then ok (some raw)
    else err Raised.validation_error

unfoldable pub constraints_or_raise : Services → Json → Result Raised RouteConstraints
unfolding model_validate
constraints_or_raise sv raw = elim (model_validate sv raw) [
  | ok c ↦ ok c
  | err issues ↦ err Raised.validation_error
]

abbrev pub max_via_points : ℕ
max_via_points = 10

-- RoutingRequest(…): pydantic refuses more via points than `max_via_points`.
unfoldable pub new_request :
    Coordinate → Coordinate → List Coordinate → RouteConstraints → Result Raised RoutingRequest
new_request origin destination via c =
    if leb (length via) max_via_points
    then ok (record { origin = origin; destination = destination; via = via; constraints = c })
    else err Raised.validation_error

pub record Engines : Type 0 where
  pub configured : List RoutingProvider
  pub optional : List RoutingProvider
  -- `_coverage_error`: the error with the map tiles that the trip touches
  pub coverage_detail : RoutingRequest → ProviderError → ErrorEntry

unfoldable pub route_with_provider : Services → Engines → State → Result Raised Update
unfolding engines_for shape constraints_or_raise new_request collect conclude_route
route_with_provider sv en s = do
  let engines = engines_for (requested s.routing_engines) en.configured en.optional
  c ← constraints_or_raise sv s.constraints
  origin ← read_one sv s.resolved_origin
  via ← read_all sv s.resolved_via
  destination ← read_one sv s.resolved_destination
  drawn ← shape sv engines origin destination c via s.loop_plan
  spec ← read_spec sv s.optimize
  request ← new_request origin destination drawn.0 c
  outcome ← collect (en.coverage_detail request) request engines
  extras ← all_extras sv request spec engines
  ok (conclude_route drawn.1 extras outcome)
