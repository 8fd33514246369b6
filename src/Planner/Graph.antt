-- ===== src/Planner/Graph.antt =====
-- graph.py: the nodes, the edges between them, and a run from START to END.
-- LangGraph runs one node at a time, merges its update into the state, and follows the edge.
pub mod Statuses
pub mod Reports
pub mod Exits
pub mod Paths
use py_bike_router.Base.{
  ℕ, zero, suc, Option, none, some, Bool, true, false, if◌then◌else◌, Result, ok, err,
}
use py_bike_router.Planner.State.{PlanStatus, Node, State, Update, traced}
use py_bike_router.Planner.State.PlanStatus.{
  invalid, awaiting_clarification, provider_failure, no_route,
}
use py_bike_router.Planner.State.Node.{
  parse_request, validate_request, geocode_locations, select_poi_stops, route_with_provider,
  enrich_candidates, score_candidates, optimize_candidates, weather_candidates,
  annotate_alternatives, explain_and_export,
}
use py_bike_router.Planner.Services.{Raised, Services}
use py_bike_router.Planner.Nodes.Parse
use py_bike_router.Planner.Nodes.Validate
use py_bike_router.Planner.Nodes.Geocode
use py_bike_router.Planner.Nodes.Geocode.{Thresholds}
use py_bike_router.Planner.Nodes.Route
use py_bike_router.Planner.Nodes.Route.{Engines}
use py_bike_router.Planner.Nodes.Enrich
use py_bike_router.Planner.Nodes.Score
use py_bike_router.Planner.Nodes.Informative

-- The arguments of `build_graph`.
pub record Config : Type 0 where
  pub services : Services
  pub engines : Engines
  pub thresholds : Thresholds
  pub dedup_threshold : ℕ

abbrev pub terminal_after_parse : PlanStatus → Bool
terminal_after_parse invalid = true
terminal_after_parse _ = false

abbrev pub terminal_after_validate : PlanStatus → Bool
terminal_after_validate invalid = true
terminal_after_validate awaiting_clarification = true
terminal_after_validate _ = false

abbrev pub terminal_after_geocode : PlanStatus → Bool
terminal_after_geocode awaiting_clarification = true
terminal_after_geocode provider_failure = true
terminal_after_geocode _ = false

abbrev pub terminal_after_route : PlanStatus → Bool
terminal_after_route no_route = true
terminal_after_route provider_failure = true
terminal_after_route _ = false

abbrev pub terminal_after_score : PlanStatus → Bool
terminal_after_score no_route = true
terminal_after_score _ = false

-- END if state.get("status") in terminal else target
abbrev pub unless : (PlanStatus → Bool) → Option PlanStatus → Node → Option Node
unless terminal none target = some target
unless terminal (some st) target = if terminal st then none else some target

-- The edge that leaves a node in a given status; `none` is END.
unfoldable pub next_node : Node → Option PlanStatus → Option Node
next_node parse_request st = unless terminal_after_parse st validate_request
next_node validate_request st = unless terminal_after_validate st geocode_locations
next_node geocode_locations st = unless terminal_after_geocode st select_poi_stops
next_node select_poi_stops st = some route_with_provider
next_node route_with_provider st = unless terminal_after_route st enrich_candidates
next_node enrich_candidates st = some score_candidates
next_node score_candidates st = unless terminal_after_score st optimize_candidates
next_node optimize_candidates st = some weather_candidates
next_node weather_candidates st = some annotate_alternatives
next_node annotate_alternatives st = some explain_and_export
next_node explain_and_export st = none

-- The function that `add_node` registers for each name.
unfoldable pub node_function : Config → Node → State → Result Raised Update
node_function g parse_request s = Parse.parse_request g.services s
node_function g validate_request s = Validate.validate_request g.services s
node_function g geocode_locations s = Geocode.geocode_locations g.services g.thresholds s
node_function g select_poi_stops s = Informative.select_poi_stops g.services s
node_function g route_with_provider s = Route.route_with_provider g.services g.engines s
node_function g enrich_candidates s = Enrich.enrich_candidates g.services s
node_function g score_candidates s = Score.score_candidates g.services g.dedup_threshold s
node_function g optimize_candidates s = Informative.optimize_candidates g.services s
node_function g weather_candidates s = Informative.weather_candidates g.services s
node_function g annotate_alternatives s = Informative.annotate_alternatives g.services s
node_function g explain_and_export s = Informative.explain_and_export g.services s

-- How a run stands: at a node, at END, or ended by an exception.
pub data Position : Type 0 where
  at : Node → State → Position
  finished : State → Position
  failed : Raised → Position

abbrev pub enter : Option Node → State → Position
enter none s = finished s
enter (some n) s = at n s

-- The traced node's update is merged, and the edge is followed.
abbrev pub leave : Node → State → Result Raised Update → Position
leave n s (err e) = failed e
leave n s (ok u) = enter (next_node n (traced n u s).status) (traced n u s)

-- One step of the graph.
unfoldable pub advance : Config → Position → Position
unfolding next_node node_function
advance g (at n s) = leave n s (node_function g n s)
advance g (finished s) = finished s
advance g (failed e) = failed e

unfoldable pub run : ℕ → Config → Position → Position
run zero g p = p
run (suc k) g p = run k g (advance g p)

-- The graph has eleven nodes and no cycle.
abbrev pub node_count : ℕ
node_count = 11

unfoldable pub invoke : Config → State → Position
unfolding run advance
invoke g s = run node_count g (at parse_request s)
