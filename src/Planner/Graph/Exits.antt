-- ===== src/Planner/Graph/Exits.antt =====
-- graph.py: the order of the nodes, and how a run may end.
use py_bike_router.Base.{ℕ, take, ◌≡◌, Option, none, some, List, [], ◌∷◌, ◌++◌, Bool, true, false}
use py_bike_router.Planner.State.{PlanStatus, Node, Step, State}
use py_bike_router.Planner.State.PlanStatus.{
  in_progress, invalid, awaiting_clarification, provider_failure, no_route, ready,
}
use py_bike_router.Planner.State.Node.{
  parse_request, validate_request, geocode_locations, select_poi_stops, route_with_provider,
  enrich_candidates, score_candidates, optimize_candidates, weather_candidates,
  annotate_alternatives, explain_and_export,
}
use py_bike_router.Planner.Graph.{Position, at, finished, failed}

abbrev pub step : Node → Option PlanStatus → Step
step n st = record { node = n; status = st }

-- How many nodes stand before a node in the order of the edges.
abbrev pub place : Node → ℕ
place parse_request = 0
place validate_request = 1
place geocode_locations = 2
place select_poi_stops = 3
place route_with_provider = 4
place enrich_candidates = 5
place score_candidates = 6
place optimize_candidates = 7
place weather_candidates = 8
place annotate_alternatives = 9
place explain_and_export = 10

-- The steps of the nodes that a run passes. Those that report a status left the plan in progress.
abbrev pub passes : List Step
passes =
    step parse_request (some in_progress)
    ∷ step validate_request (some in_progress)
    ∷ step geocode_locations (some in_progress)
    ∷ step select_poi_stops none
    ∷ step route_with_provider (some in_progress)
    ∷ step enrich_candidates none
    ∷ step score_candidates (some in_progress)
    ∷ step optimize_candidates none
    ∷ step weather_candidates none
    ∷ step annotate_alternatives none
    ∷ []

-- The trace with which a node is reached.
abbrev pub history : Node → List Step
history n = take (place n) passes

-- The statuses with which a run may end at a node.
abbrev pub exits : Node → PlanStatus → Bool
exits parse_request invalid = true
exits validate_request invalid = true
exits validate_request awaiting_clarification = true
exits geocode_locations awaiting_clarification = true
exits geocode_locations provider_failure = true
exits route_with_provider no_route = true
exits route_with_provider provider_failure = true
exits score_candidates no_route = true
exits explain_and_export ready = true
exits _ _ = false

-- A finished run: it ended at one node with a status of that node, and the trace has every node
-- before it.
pub record Ends (s : State) : Type 0 where
  pub last : Node
  pub outcome : PlanStatus
  pub allowed : exits last outcome ≡ true
  pub status : s.status ≡ some outcome
  pub trace : s.trace ≡ history last ++ step last (some outcome) ∷ []

abbrev pub EndsWell : Position → Type 0
EndsWell (at n s) = ⊥
EndsWell (finished s) = Ends s
EndsWell (failed e) = Unit
