-- ===== src/Planner/State.antt =====
-- state.py: the state of the planning graph, and the partial updates that the nodes return.
use py_bike_router.Base.{ℕ, String, Option, none, some, List, [], ◌∷◌, ◌++◌}
use py_bike_router.Base.Int.{ℤ}
use py_bike_router.Base.Json.{Json, Fields, end}
use py_bike_router.Errors.{ErrorEntry}

pub data PlanStatus : Type 0 where
  in_progress invalid awaiting_clarification provider_failure no_route ready : PlanStatus

-- {"coordinate": …} or {"query": …}
pub data PlaceInput : Type 0 where
  coordinate : Json → PlaceInput
  query : String → PlaceInput

-- GeocodeCandidate. Confidences are counted in millionths.
pub record GeocodeCandidate : Type 0 where
  pub label : String
  pub position : Json
  pub confidence : ℕ
  pub source : String

pub record Clarification : Type 0 where
  pub field : String
  pub candidates : List GeocodeCandidate
  pub hint : Option String

-- RouteCandidate: the fields that the graph reads, and `rest` for those that it only passes on.
-- Distances are counted in millionths of a metre, scores in millionths.
pub record Candidate : Type 0 where
  pub provider : String
  pub profile : String
  pub distance : ℕ
  pub alternative_of : Option String
  pub score : Option ℤ
  pub warning_penalty : Option ℤ
  pub rank : Option ℕ
  pub duplicate_of : Option String
  pub duplicates : List String
  pub rest : Json

-- The names of the graph's nodes.
pub data Node : Type 0 where
  parse_request validate_request geocode_locations select_poi_stops : Node
  route_with_provider enrich_candidates score_candidates optimize_candidates : Node
  weather_candidates annotate_alternatives explain_and_export : Node

-- A step of tracing.py. Its time is not modelled.
pub record Step : Type 0 where
  pub node : Node
  pub status : Option PlanStatus

pub record State : Type 0 where
  pub raw_input : Fields
  pub origin_input : Option PlaceInput
  pub destination_input : Option PlaceInput
  pub via_inputs : List PlaceInput
  pub constraints : Json
  pub max_alternatives : Json
  pub departure_time : Json
  pub poi_stops_request : Json
  pub routing_engines : Json
  pub optimize : Json
  pub interpretation : Option Json
  pub resolved_origin : Option Json
  pub resolved_destination : Option Json
  pub resolved_via : List Json
  pub loop_plan : Option Json
  pub poi_stops : Option (List Json)
  pub poi_stops_status : Option String
  pub weather_status : Option String
  pub optimization : Option Json
  pub candidates : List Candidate
  pub selected_candidate : Option Candidate
  pub status : Option PlanStatus
  pub errors : List ErrorEntry
  pub clarification : List Clarification
  pub explanation : Option String
  pub route_id : Option String
  pub artifacts : List String
  pub trace : List Step

-- A run starts from a state that holds the raw input alone.
abbrev pub start : Fields → State
start raw = record {
  raw_input = raw;
  origin_input = none;
  destination_input = none;
  via_inputs = [];
  constraints = Json.object end;
  max_alternatives = Json.null;
  departure_time = Json.null;
  poi_stops_request = Json.null;
  routing_engines = Json.null;
  optimize = Json.null;
  interpretation = none;
  resolved_origin = none;
  resolved_destination = none;
  resolved_via = [];
  loop_plan = none;
  poi_stops = none;
  poi_stops_status = none;
  weather_status = none;
  optimization = none;
  candidates = [];
  selected_candidate = none;
  status = none;
  errors = [];
  clarification = [];
  explanation = none;
  route_id = none;
  artifacts = [];
  trace = [];
}

-- The keys that a node's update may hold, each with its new value.
pub data Change : Type 0 where
  status : PlanStatus → Change
  errors : List ErrorEntry → Change
  clarification : List Clarification → Change
  origin_input destination_input : Option PlaceInput → Change
  via_inputs : List PlaceInput → Change
  constraints max_alternatives departure_time poi_stops_request : Json → Change
  routing_engines optimize interpretation : Json → Change
  resolved_origin resolved_destination loop_plan : Option Json → Change
  resolved_via : List Json → Change
  poi_stops : List Json → Change
  poi_stops_status weather_status : String → Change
  optimization : Json → Change
  candidates : List Candidate → Change
  selected_candidate : Candidate → Change
  explanation route_id : String → Change
  artifacts : List String → Change

abbrev pub Update : Type 0
Update = List Change

abbrev pub write : State → Change → State
write s (Change.status x) = record s { status = some x }
write s (Change.errors x) = record s { errors = x }
write s (Change.clarification x) = record s { clarification = x }
write s (Change.origin_input x) = record s { origin_input = x }
write s (Change.destination_input x) = record s { destination_input = x }
write s (Change.via_inputs x) = record s { via_inputs = x }
write s (Change.constraints x) = record s { constraints = x }
write s (Change.max_alternatives x) = record s { max_alternatives = x }
write s (Change.departure_time x) = record s { departure_time = x }
write s (Change.poi_stops_request x) = record s { poi_stops_request = x }
write s (Change.routing_engines x) = record s { routing_engines = x }
write s (Change.optimize x) = record s { optimize = x }
write s (Change.interpretation x) = record s { interpretation = some x }
write s (Change.resolved_origin x) = record s { resolved_origin = x }
write s (Change.resolved_destination x) = record s { resolved_destination = x }
write s (Change.loop_plan x) = record s { loop_plan = x }
write s (Change.resolved_via x) = record s { resolved_via = x }
write s (Change.poi_stops x) = record s { poi_stops = some x }
write s (Change.poi_stops_status x) = record s { poi_stops_status = some x }
write s (Change.weather_status x) = record s { weather_status = some x }
write s (Change.optimization x) = record s { optimization = some x }
write s (Change.candidates x) = record s { candidates = x }
write s (Change.selected_candidate x) = record s { selected_candidate = some x }
write s (Change.explanation x) = record s { explanation = some x }
write s (Change.route_id x) = record s { route_id = some x }
write s (Change.artifacts x) = record s { artifacts = x }

-- A node's update is merged key by key.
abbrev pub merge : State → Update → State
merge s [] = s
merge s (c ∷ cs) = merge (write s c) cs

-- update.get("status")
abbrev pub status_of : Update → Option PlanStatus
status_of [] = none
status_of (Change.status x ∷ cs) = some x
status_of (c ∷ cs) = status_of cs

-- tracing.py `traced`: the step of the node is appended to the state's trace.
abbrev pub traced : Node → Update → State → State
traced n u s = record (merge s u) {
  trace = (merge s u).trace ++ record { node = n; status = status_of u } ∷ [];
}
