-- ===== src/Planner/Nodes/Informative.antt =====
-- nodes/poi_stops.py, nodes/optimize.py, nodes/weather.py, nodes/compare.py and nodes/export.py.
-- The first four are best effort; what they compute from the candidates is an operation of `Services`.
use py_bike_router.Base.{
  ltb, length, ℕ, suc, String, Option, none, some, List, [], ◌∷◌, ◌++◌, Bool, true, false, not,
  ◌||◌, is_empty, length, ltb, get_elem?, if◌then◌else◌, Result, ok, err, ◌>>=◌,
}
use py_bike_router.Base.Json.{Json, object, array, field, end, nil, get_or_null}
use py_bike_router.Base.Text.{concat}
use py_bike_router.Errors.{entry}
use py_bike_router.Planner.State.{PlanStatus, Candidate, State, Change, Update}
use py_bike_router.Planner.Services.{Raised, StopsFound, Weather, Services}
use py_bike_router.Planner.Nodes.Parse.{truthy}
use py_bike_router.Planner.Nodes.Route.{constraints_or_raise}

abbrev pub via_changes : Option (List Json) → Update
via_changes none = []
via_changes (some vias) = Change.resolved_via vias ∷ []

abbrev pub plan_changes : Option Json → Update
plan_changes none = []
plan_changes (some plan) = Change.loop_plan (some plan) ∷ []

abbrev pub stops_update : StopsFound → Update
stops_update f =
    Change.poi_stops f.poi_stops
    ∷ Change.poi_stops_status f.status
    ∷ (via_changes f.resolved_via ++ plan_changes f.loop_plan)

abbrev pub find_stops : State → Option (State → Result Raised StopsFound) → Result Raised Update
find_stops s none = ok (Change.poi_stops [] ∷ Change.poi_stops_status "unavailable" ∷ [])
find_stops s (some search_stops) = do found ← search_stops s; ok (stops_update found)

unfoldable pub select_poi_stops : Services → State → Result Raised Update
select_poi_stops sv s = if not (truthy s.poi_stops_request) then ok [] else find_stops s sv.stops

abbrev pub not_optimized : Json
not_optimized = object (
    field "summary" (Json.text "The optimisation could not be done; this is the usual ranking.")
      (field "table" (array nil) end))

-- A report over no candidate is an IndexError.
abbrev pub optimized : Result String (List Candidate × Json) → Result Raised Update
optimized (ok (best ∷ others, report)) = ok (
    Change.candidates (best ∷ others)
    ∷ Change.selected_candidate best
    ∷ Change.optimization report
    ∷ [])
optimized (ok ([], report)) = err (Raised.other "IndexError")
optimized (err e) = ok (Change.optimization not_optimized ∷ [])

unfoldable pub optimize_candidates : Services → State → Result Raised Update
optimize_candidates sv s =
    if not (truthy s.optimize) || is_empty s.candidates then ok [] else optimized (sv.optimizer s)

-- next((i for i, c in enumerate(raw) if c == selected), 0)
abbrev pub index_from : (Candidate → Bool) → ℕ → List Candidate → ℕ
index_from p i [] = 0
index_from p i (c ∷ cs) = let rest = index_from p (suc i) cs in if p c then i else rest

-- update["selected_candidate"] = updated[index], where a candidate is selected
abbrev pub reselect :
    (Candidate → Candidate → Bool)
    → List Candidate
    → List Candidate
    → Option Candidate
    → Result Raised Update
reselect same raw updated none = ok []
reselect same raw updated (some selected) =
    elim (get_elem? updated (index_from (λ c. same c selected) 0 raw)) [
      | none ↦ err (Raised.other "IndexError")
      | some c ↦ ok (Change.selected_candidate c ∷ [])
    ]

abbrev pub forecast_for : (Candidate → Option Candidate) → List Candidate → List Candidate
forecast_for f [] = []
forecast_for f (c ∷ cs) = elim (f c) [ none ↦ c | some d ↦ d ] ∷ forecast_for f cs

abbrev pub any_covered : (Candidate → Option Candidate) → List Candidate → Bool
any_covered f [] = false
any_covered f (c ∷ cs) = elim (f c) [ none ↦ any_covered f cs | some d ↦ true ]

abbrev pub forecast_update :
    Services → State → Result String (Candidate → Option Candidate) → Result Raised Update
forecast_update sv s (err e) = ok (Change.weather_status "unavailable" ∷ [])
forecast_update sv s (ok f) = do
  selection ← reselect sv.same s.candidates (forecast_for f s.candidates) s.selected_candidate
  ok (
      Change.candidates (forecast_for f s.candidates)
      ∷ Change.weather_status (if any_covered f s.candidates then "ok" else "not_covered")
      ∷ selection)

abbrev pub look_up_weather : Services → State → Option Weather → Result Raised Update
look_up_weather sv s none = ok []
look_up_weather sv s (some weather) =
    if is_empty s.candidates
    then ok []
    else if not (weather.in_range s.departure_time)
    then ok (Change.weather_status "not_covered" ∷ [])
    else if not (weather.has_points s.candidates)
    then ok (Change.weather_status "skipped" ∷ [])
    else forecast_update sv s (weather.forecast s)

unfoldable pub weather_candidates : Services → State → Result Raised Update
weather_candidates sv s = look_up_weather sv s sv.weather

abbrev pub annotate : Services → State → Result Raised Update
annotate sv s = do
  constraints ← constraints_or_raise sv s.constraints
  let annotated = sv.pros_cons s.candidates constraints
  selection ← reselect sv.same s.candidates annotated s.selected_candidate
  ok (Change.candidates annotated ∷ selection)

unfoldable pub annotate_alternatives : Services → State → Result Raised Update
unfolding constraints_or_raise
annotate_alternatives sv s = if ltb (length s.candidates) 2 then ok [] else annotate sv s

-- f"{optimization['summary']} {explanation}", where there is a summary
abbrev pub with_summary : Option Json → String → String
with_summary (some (object fs)) explanation = elim (get_or_null "summary" fs) [
  | Json.text summary ↦
      if truthy (Json.text summary) then concat summary (concat " " explanation) else explanation
  | _ ↦ explanation
]
with_summary _ explanation = explanation

abbrev pub stored :
    (id explanation : String)
    → Result String (Unit {0})
    → Result String (Unit {0})
    → Result Raised Update
stored id explanation (ok _) (ok _) = ok (
    Change.status PlanStatus.ready
    ∷ Change.route_id id
    ∷ Change.explanation explanation
    ∷ Change.artifacts (concat id ".geojson" ∷ concat id ".gpx" ∷ [])
    ∷ [])
stored id explanation (err e) _ = err (Raised.other e)
stored id explanation (ok _) (err e) = err (Raised.other e)

abbrev pub export : Services → State → Option Candidate → Result Raised Update
export sv s none = ok (
    Change.status PlanStatus.no_route
    ∷ Change.errors (entry "no_candidates" "no candidate selected" ∷ [])
    ∷ [])
export sv s (some c) =
    stored sv.new_route_id (with_summary s.optimization (sv.explain c s.constraints s.loop_plan))
      (sv.store_put (concat sv.new_route_id ".geojson") c)
      (sv.store_put (concat sv.new_route_id ".gpx") c)

unfoldable pub explain_and_export : Services → State → Result Raised Update
explain_and_export sv s = export sv s s.selected_candidate
