-- ===== src/Planner/Graph/Reports/Candidates.antt =====
-- What the nodes from route_with_provider on report: they make, rank and export the candidates.
use py_bike_router.Base.{
  not, ◌||◌, ltb, is_empty, get_elem?, ℕ, refl, ◌≢◌, Option, none, some, List, [], ◌∷◌, ◌++◌,
  Result, ok, err, ◌>>=◌, length, String,
}
use py_bike_router.Base.Json.{Json}
use py_bike_router.Errors.{ErrorEntry}
use py_bike_router.Planner.State.{State, Change, Update, Candidate}
use py_bike_router.Planner.State.PlanStatus.{in_progress, provider_failure, no_route, ready}
use py_bike_router.Planner.Services.{Raised, Weather, SurfaceEnricher, Services}
use py_bike_router.Planner.Nodes.Parse
use py_bike_router.Planner.Nodes.Route
use py_bike_router.Planner.Nodes.Route.{Engines, Outcome}
use py_bike_router.Planner.Nodes.Enrich
use py_bike_router.Planner.Nodes.Enrich.{Progress}
use py_bike_router.Planner.Nodes.Score
use py_bike_router.Planner.Nodes.Informative
use py_bike_router.Planner.Graph.Statuses.{
  Yields, Yields-bind, Yields-if, Yields-if_ok, reporting, quietly, is_quiet,
}
use py_bike_router.Planner.Graph.Reports.{after_route, after_score, is_ready, Selects}

module _ (sv : Services) where
  conclude_route-Yields :
      (plan : Option Json) (extras : List Candidate) (o : Outcome)
      → Yields after_route (ok (Route.conclude_route plan extras o))
  unfolding Route.conclude_route
  conclude_route-Yields plan extras o =
      Yields-if_ok after_route (is_empty o.candidates) _ _
        (Yields-if_ok after_route o.no_route_only _ _ (reporting no_route refl refl (λ o. refl))
          (reporting provider_failure refl refl (λ o. refl)))
        (reporting in_progress refl refl (λ o. refl))

  pub route_with_provider-Yields :
      (en : Engines) (s : State) → Yields after_route (Route.route_with_provider sv en s)
  unfolding Route.route_with_provider
  route_with_provider-Yields en s =
      Yields-bind after_route (Route.constraints_or_raise sv s.constraints) _ λ c.
        Yields-bind after_route (Route.read_one sv s.resolved_origin) _ λ origin.
          Yields-bind after_route (Route.read_all sv s.resolved_via) _ λ via.
            Yields-bind after_route (Route.read_one sv s.resolved_destination) _ λ destination.
              Yields-bind after_route (Route.shape sv _ origin destination c via s.loop_plan) _
                λ drawn. Yields-bind after_route (Route.read_spec sv s.optimize) _ λ spec.
                  Yields-bind after_route (Route.new_request origin destination drawn.0 c) _
                    λ request.
                      Yields-bind after_route
                        (Route.collect (en.coverage_detail request) request (
                          Route.engines_for (Route.requested s.routing_engines) en.configured
                            en.optional))
                        _
                        λ outcome.
                          Yields-bind after_route (Route.all_extras sv request spec _) _
                            λ extras. conclude_route-Yields drawn.1 extras outcome

  enriched-Yields :
      (old : List ErrorEntry) (p : Progress) → Yields is_quiet (ok (Enrich.enriched old p))
  enriched-Yields old p =
      Yields-if_ok is_quiet (is_empty p.new_errors) _ _ (quietly refl (λ o. refl))
        (quietly refl (λ o. refl))

  enrich_with-Yields :
      (s : State) (e : Option SurfaceEnricher) → Yields is_quiet (Enrich.enrich_with sv s e)
  enrich_with-Yields s none = quietly refl (λ o. refl)
  enrich_with-Yields s (some e) =
      Yields-if is_quiet (is_empty s.candidates) _ _ (λ _. quietly refl (λ o. refl))
        (λ _.
          enriched-Yields s.errors
            (Enrich.enrich_all sv.same_detail e s.candidates Enrich.no_progress))

  pub enrich_candidates-Yields : (s : State) → Yields is_quiet (Enrich.enrich_candidates sv s)
  unfolding Enrich.enrich_candidates
  enrich_candidates-Yields s = enrich_with-Yields s sv.enricher

  select_first-Yields : (cs : List Candidate) → Yields after_score (Score.select_first cs)
  select_first-Yields [] = tt
  select_first-Yields (c ∷ cs) = reporting in_progress refl refl (λ o. refl)

  scored-Yields :
      (threshold : ℕ) (s : State) (cs : List Candidate)
      → Yields after_score (Score.scored sv threshold s cs)
  scored-Yields threshold s [] = reporting no_route refl refl (λ o. refl)
  scored-Yields threshold s (c ∷ cs) =
      Yields-bind after_score (Route.constraints_or_raise sv s.constraints) _ λ constraints.
        Yields-bind after_score (Score.with_scores (c ∷ cs) _) _ λ with_score. select_first-Yields _

  pub score_candidates-Yields :
      (threshold : ℕ) (s : State) → Yields after_score (Score.score_candidates sv threshold s)
  unfolding Score.score_candidates
  score_candidates-Yields threshold s = scored-Yields threshold s s.candidates

  Selects-bind :
      {A : Type 0} (s : State) (r : Result Raised A) (f : A → Result Raised Update)
      → ((a : A) → Selects s (f a))
      → Selects s (r >>= f)
  Selects-bind s (ok a) f h = h a
  Selects-bind s (err e) f h = tt

  select_first-Selects : (s : State) (cs : List Candidate) → Selects s (Score.select_first cs)
  select_first-Selects s [] = tt
  select_first-Selects s (c ∷ cs) = λ e n. cc

  scored-Selects :
      (threshold : ℕ) (s : State) (cs : List Candidate) → Selects s (Score.scored sv threshold s cs)
  scored-Selects threshold s [] = λ e. cc
  scored-Selects threshold s (c ∷ cs) =
      Selects-bind s (Route.constraints_or_raise sv s.constraints) _ λ constraints.
        Selects-bind s (Score.with_scores (c ∷ cs) _) _ λ with_score. select_first-Selects s _

  pub score_candidates-Selects :
      (threshold : ℕ) (s : State) → Selects s (Score.score_candidates sv threshold s)
  unfolding Score.score_candidates
  score_candidates-Selects threshold s = scored-Selects threshold s s.candidates

  optimized-Yields :
      (r : Result String (List Candidate × Json)) → Yields is_quiet (Informative.optimized r)
  optimized-Yields (ok ([], report)) = tt
  optimized-Yields (ok (c ∷ cs, report)) = quietly refl (λ o. refl)
  optimized-Yields (err e) = quietly refl (λ o. refl)

  pub optimize_candidates-Yields :
      (s : State) → Yields is_quiet (Informative.optimize_candidates sv s)
  unfolding Informative.optimize_candidates
  optimize_candidates-Yields s =
      Yields-if is_quiet (not (Parse.truthy s.optimize) || is_empty s.candidates) _ _
        (λ _. quietly refl (λ o. refl)) (λ _. optimized-Yields (sv.optimizer s))

  -- The update of a node that selects a candidate again ends with `reselect`.
  reselect-Yields :
      (raw updated : List Candidate) (selected : Option Candidate) (u : Update)
      → ((v : Candidate) → Yields is_quiet (ok (u ++ Change.selected_candidate v ∷ [])))
      → Yields is_quiet (ok (u ++ []))
      → Yields is_quiet (Informative.reselect sv.same raw updated selected >>= λ v. ok (u ++ v))
  reselect-Yields raw updated none u h h' = h'
  reselect-Yields raw updated (some c) u h h' = found (get_elem? updated _)
    where
      found :
          (o : Option Candidate)
          → Yields is_quiet (
              (elim o [
                | none ↦ err (Raised.other "IndexError")
                | some c ↦ ok (Change.selected_candidate c ∷ [])
              ])
              >>= λ v. ok (u ++ v))
      found none = tt
      found (some c) = h c

  forecast_update-Yields :
      (s : State) (r : Result String (Candidate → Option Candidate))
      → Yields is_quiet (Informative.forecast_update sv s r)
  forecast_update-Yields s (err e) = quietly refl (λ o. refl)
  forecast_update-Yields s (ok f) =
      reselect-Yields s.candidates _ s.selected_candidate (_ ∷ _ ∷ [])
        (λ v. quietly refl (λ o. refl)) (quietly refl (λ o. refl))

  look_up_weather-Yields :
      (s : State) (w : Option Weather) → Yields is_quiet (Informative.look_up_weather sv s w)
  look_up_weather-Yields s none = quietly refl (λ o. refl)
  look_up_weather-Yields s (some w) =
      Yields-if is_quiet (is_empty s.candidates) _ _ (λ _. quietly refl (λ o. refl))
        λ _.
          Yields-if is_quiet (not (w.in_range s.departure_time)) _ _ (λ _. quietly refl (λ o. refl))
            λ _.
              Yields-if is_quiet (not (w.has_points s.candidates)) _ _
                (λ _. quietly refl (λ o. refl)) λ _. forecast_update-Yields s (w.forecast s)

  pub weather_candidates-Yields :
      (s : State) → Yields is_quiet (Informative.weather_candidates sv s)
  unfolding Informative.weather_candidates
  weather_candidates-Yields s = look_up_weather-Yields s sv.weather

  annotate-Yields : (s : State) → Yields is_quiet (Informative.annotate sv s)
  annotate-Yields s =
      Yields-bind is_quiet (Route.constraints_or_raise sv s.constraints) _ λ constraints.
        reselect-Yields s.candidates _ s.selected_candidate (_ ∷ []) (λ v. quietly refl (λ o. refl))
          (quietly refl (λ o. refl))

  pub annotate_alternatives-Yields :
      (s : State) → Yields is_quiet (Informative.annotate_alternatives sv s)
  unfolding Informative.annotate_alternatives
  annotate_alternatives-Yields s =
      Yields-if is_quiet (ltb (length s.candidates) 2) _ _ (λ _. quietly refl (λ o. refl))
        (λ _. annotate-Yields s)

  stored-Yields :
      (id explanation : String) (r r' : Result String (Unit {0}))
      → Yields is_ready (Informative.stored id explanation r r')
  stored-Yields id explanation (ok _) (ok _) = reporting ready refl refl (λ o. refl)
  stored-Yields id explanation (err e) _ = tt
  stored-Yields id explanation (ok _) (err e) = tt

  -- The node is reached with a selected candidate.
  pub explain_and_export-Yields :
      (s : State)
      → s.selected_candidate ≢ none
      → Yields is_ready (Informative.explain_and_export sv s)
  unfolding Informative.explain_and_export
  explain_and_export-Yields s h = export-Yields s.selected_candidate h
    where
      export-Yields :
          (c : Option Candidate) → c ≢ none → Yields is_ready (Informative.export sv s c)
      export-Yields none h = absurd (h refl)
      export-Yields (some c) h = stored-Yields _ _ _ _
