-- ===== src/Planner/Graph/Reports.antt =====
-- What each node of nodes/*.py reports, whatever the services answer. This file has the statuses of all
-- nodes and the nodes that read a request.
pub mod Candidates
use py_bike_router.Base.{
  not, ◌||◌, ltb, is_empty, get_elem?, ℕ, ◌≡◌, refl, ap, ◌≢◌, Option, none, some, List, [], ◌∷◌,
  ◌++◌, Bool, true, false, arith, Result, ok, err, ◌>>=◌, length, String,
}
use py_bike_router.Base.Json.{Json, Fields}
use py_bike_router.Errors.{ErrorEntry}
use py_bike_router.Planner.State.{
  PlanStatus, State, Change, Update, Candidate, Clarification, merge, status_of,
}
use py_bike_router.Planner.State.PlanStatus.{
  in_progress, invalid, awaiting_clarification, provider_failure, no_route, ready,
}
use py_bike_router.Planner.Constraints.{RouteConstraints, Issue}
use py_bike_router.Planner.Services.{
  Raised, ParserFailure, StopsFound, Weather, SurfaceEnricher, Services,
}
use py_bike_router.Planner.Nodes.Parse
use py_bike_router.Planner.Nodes.Validate
use py_bike_router.Planner.Nodes.Geocode
use py_bike_router.Planner.Nodes.Geocode.{Thresholds, Resolved}
use py_bike_router.Planner.Nodes.Route
use py_bike_router.Planner.Nodes.Route.{Engines, Outcome}
use py_bike_router.Planner.Nodes.Enrich
use py_bike_router.Planner.Nodes.Enrich.{Progress}
use py_bike_router.Planner.Nodes.Score
use py_bike_router.Planner.Nodes.Informative
use py_bike_router.Planner.Graph.Statuses.{
  Yields, Yields-bind, Yields-if, Yields-if_ok, reporting, quietly, Reports, is_quiet,
}

abbrev pub after_parse : Option PlanStatus → Bool
after_parse (some invalid) = true
after_parse (some in_progress) = true
after_parse _ = false

abbrev pub after_validate : Option PlanStatus → Bool
after_validate (some invalid) = true
after_validate (some awaiting_clarification) = true
after_validate (some in_progress) = true
after_validate _ = false

abbrev pub after_geocode : Option PlanStatus → Bool
after_geocode (some awaiting_clarification) = true
after_geocode (some provider_failure) = true
after_geocode (some in_progress) = true
after_geocode _ = false

abbrev pub after_route : Option PlanStatus → Bool
after_route (some no_route) = true
after_route (some provider_failure) = true
after_route (some in_progress) = true
after_route _ = false

abbrev pub after_score : Option PlanStatus → Bool
after_score (some no_route) = true
after_score (some in_progress) = true
after_score _ = false

abbrev pub is_ready : Option PlanStatus → Bool
is_ready (some ready) = true
is_ready _ = false

-- A plan that is scored has a selected candidate.
abbrev pub Selects : State → Result Raised Update → Type 0
Selects s (err e) = Unit
Selects s (ok u) = status_of u ≡ some in_progress → (merge s u).selected_candidate ≢ none

module _ (sv : Services) where
  structured-Yields :
      (original raw : Fields) (u : Update)
      → Reports u none
      → Yields after_parse (Parse.structured original raw u)
  unfolding Parse.structured
  structured-Yields original raw u q =
      Yields-bind after_parse (Parse.iterate (Parse.get_or_empty "via" raw)) _
        λ vias. (some in_progress, refl, record { reported = refl; after = λ o. q.after _ })

  accept-Yields :
      (original : Fields) (r : Result String Fields) → Yields after_parse (Parse.accept original r)
  unfolding Parse.invalid
  accept-Yields original (err problem) = reporting invalid refl refl (λ o. refl)
  accept-Yields original (ok raw) =
      Yields-bind after_parse (Parse.interpretation raw) _ λ understood.
        structured-Yields original raw _ (record { reported = refl; after = λ o. refl })

  parsed-Yields :
      (original : Fields) (r : Result ParserFailure Json)
      → Yields after_parse (Parse.parsed original r)
  unfolding Parse.parsed
  parsed-Yields original (err (ParserFailure.parse_error code message)) =
      reporting invalid refl refl (λ o. refl)
  parsed-Yields original (err (ParserFailure.failed e)) = reporting invalid refl refl (λ o. refl)
  parsed-Yields original (ok output) = accept-Yields original (Parse.llm_output_problem output)

  from_text-Yields :
      (parser : Option (Json → Option Json → Result ParserFailure Json)) (original : Fields)
      (words : Json)
      → Yields after_parse (Parse.from_text parser original words)
  unfolding Parse.invalid
  from_text-Yields none original words = reporting invalid refl refl (λ o. refl)
  from_text-Yields (some parser) original words = parsed-Yields original _

  parse_raw-Yields :
      (original : Fields) (words origin : Option Json)
      → Yields after_parse (Parse.parse_raw sv original words origin)
  parse_raw-Yields original (some words) none = from_text-Yields sv.llm_parser original words
  parse_raw-Yields original _ _ =
      structured-Yields original original [] (record { reported = refl; after = λ o. refl })

  pub parse_request-Yields : (s : State) → Yields after_parse (Parse.parse_request sv s)
  unfolding Parse.parse_request
  parse_request-Yields s = parse_raw-Yields s.raw_input _ _

  report-Yields : (names : List String) → Yields after_validate (ok (Validate.report names))
  report-Yields [] = reporting in_progress refl refl (λ o. refl)
  report-Yields (n ∷ ns) = reporting awaiting_clarification refl refl (λ o. refl)

  validated-Yields :
      (s : State) (r : Result (List Issue) RouteConstraints)
      → Yields after_validate (ok (Validate.validated s r))
  validated-Yields s (err issues) = reporting invalid refl refl (λ o. refl)
  validated-Yields s (ok c) = report-Yields (Validate.missing c.return_to_origin s)

  pub validate_request-Yields :
      (s : State)
      → s.status ≡ some in_progress
      → Yields after_validate (Validate.validate_request sv s)
  unfolding Validate.validate_request
  validate_request-Yields s h =
      Yields-if after_validate (Validate.is_invalid s.status) _ _
        (λ b. cc (ap Validate.is_invalid h))
        (λ _. validated-Yields s (Validate.model_validate sv s.constraints))

  conclude-Yields :
      (constraints : Json) (origin dest : Resolved) (vias : List Resolved) (cs : List Clarification)
      (es : List ErrorEntry)
      → Yields after_geocode (ok (Geocode.conclude constraints origin dest vias cs es))
  conclude-Yields constraints origin dest vias (c ∷ cs) es =
      reporting awaiting_clarification refl refl (λ o. refl)
  conclude-Yields constraints origin dest vias [] (e ∷ es) =
      reporting provider_failure refl refl (λ o. refl)
  conclude-Yields constraints origin dest vias [] [] = reporting in_progress refl refl (λ o. refl)

  pub geocode_locations-Yields :
      (th : Thresholds) (s : State) → Yields after_geocode (Geocode.geocode_locations sv th s)
  unfolding Geocode.geocode_locations
  geocode_locations-Yields th s =
      Yields-bind after_geocode (Geocode.resolve sv th s.origin_input) _ λ origin.
        Yields-bind after_geocode (Geocode.resolve sv th s.destination_input) _ λ dest.
          Yields-bind after_geocode (Geocode.resolve_all sv th s.via_inputs) _
            λ vias. conclude-Yields s.constraints origin dest vias _ _

  stops_update-Yields : (f : StopsFound) → Yields is_quiet (ok (Informative.stops_update f))
  stops_update-Yields f = quietly (ground arith) (λ o. ground arith)

  find_stops-Yields :
      (s : State) (find : Option (State → Result Raised StopsFound))
      → Yields is_quiet (Informative.find_stops s find)
  find_stops-Yields s none = quietly refl (λ o. refl)
  find_stops-Yields s (some find) = Yields-bind is_quiet (find s) _ stops_update-Yields

  pub select_poi_stops-Yields : (s : State) → Yields is_quiet (Informative.select_poi_stops sv s)
  unfolding Informative.select_poi_stops
  select_poi_stops-Yields s =
      Yields-if is_quiet (not (Parse.truthy s.poi_stops_request)) _ _
        (λ _. quietly refl (λ o. refl)) (λ _. find_stops-Yields s sv.stops)
