-- ===== src/Planner/Graph/Paths.antt =====
-- The paths through graph.py: every run of the graph ends, and how.
use mathlib.Core.Path.{ap₂}
use native.Mathlib.Decide.{dec_le}
use py_bike_router.Base.{
  ℕ, zero, suc, ◌-◌, ◌≡◌, refl, sym, ap, subst, ◌∙◌, ◌≢◌, ◌≤◌, Option, none, some, [], ◌∷◌, ◌++◌,
  Bool, true, arith, Result, ok, err, ◌⊎◌, inl, inr,
}
use py_bike_router.Base.Json.{Fields}
use py_bike_router.Planner.State.{PlanStatus, Node, State, Update, merge, traced, start}
use py_bike_router.Planner.State.PlanStatus.{
  in_progress, invalid, awaiting_clarification, provider_failure, no_route, ready,
}
use py_bike_router.Planner.State.Node.{
  parse_request, validate_request, geocode_locations, select_poi_stops, route_with_provider,
  enrich_candidates, score_candidates, optimize_candidates, weather_candidates,
  annotate_alternatives, explain_and_export,
}
use py_bike_router.Planner.Services.{Raised}
use py_bike_router.Planner.Graph.{
  Config, Position, at, finished, failed, next_node, node_function, enter, leave, advance, run,
  node_count, invoke,
}
use py_bike_router.Planner.Graph.Statuses.{
  Yields, Reports, is_quiet, or_before, status-merge, trace-merge, selected-merge,
}
use py_bike_router.Planner.Graph.Reports.{
  after_parse, after_validate, after_geocode, after_route, after_score, is_ready, Selects,
  parse_request-Yields, validate_request-Yields, geocode_locations-Yields, select_poi_stops-Yields,
}
use py_bike_router.Planner.Graph.Reports.Candidates.{
  route_with_provider-Yields, enrich_candidates-Yields, score_candidates-Yields,
  score_candidates-Selects, optimize_candidates-Yields, weather_candidates-Yields,
  annotate_alternatives-Yields, explain_and_export-Yields,
}
use py_bike_router.Planner.Graph.Exits.{step, place, history, exits, Ends, EndsWell}

abbrev remaining : Node → ℕ
remaining n = node_count - place n

abbrev reports : Node → Option PlanStatus → Bool
reports parse_request = after_parse
reports validate_request = after_validate
reports geocode_locations = after_geocode
reports route_with_provider = after_route
reports score_candidates = after_score
reports explain_and_export = is_ready
reports _ = is_quiet

abbrev StatusAt : Node → Option PlanStatus → Type 0
StatusAt parse_request o = Unit
StatusAt _ o = o ≡ some in_progress

record At (n : Node) (s : State) : Type 0 where
  reached : s.trace ≡ history n
  status : StatusAt n s.status
  selected : 7 ≤ place n → s.selected_candidate ≢ none

-- A position from which `k` steps are enough.
abbrev Within : ℕ → Position → Type 0
Within k (at n s) = At n s × (remaining n ≤ k)
Within k (finished s) = Ends s
Within k (failed e) = Unit

-- Where the edge from a node leads, after a report that the node can make.
abbrev Leads : Node → Option PlanStatus → Type 0
Leads n st =
    ((x : PlanStatus) × (next_node n (some x) ≡ none) × (st ≡ some x) × (exits n x ≡ true))
    ⊎ ((n' : Node) × (next_node n (some in_progress) ≡ some n')
        × (or_before st (some in_progress) ≡ some in_progress)
        × (history n' ≡ history n ++ step n st ∷ [])
        × (remaining n ≡ suc (remaining n'))
        × (place n' ≡ suc (place n)))

leads : (n : Node) (st : Option PlanStatus) → reports n st ≡ true → Leads n st
unfolding next_node
leads parse_request (some in_progress) h = inr (validate_request, refl, refl, refl, refl, refl)
leads parse_request (some invalid) h = inl (invalid, refl, refl, refl)
leads validate_request (some in_progress) h = inr (geocode_locations, refl, refl, refl, refl, refl)
leads validate_request (some invalid) h = inl (invalid, refl, refl, refl)
leads validate_request (some awaiting_clarification) h =
    inl (awaiting_clarification, refl, refl, refl)
leads geocode_locations (some in_progress) h = inr (select_poi_stops, refl, refl, refl, refl, refl)
leads geocode_locations (some awaiting_clarification) h =
    inl (awaiting_clarification, refl, refl, refl)
leads geocode_locations (some provider_failure) h = inl (provider_failure, refl, refl, refl)
leads select_poi_stops none h = inr (route_with_provider, refl, refl, refl, refl, refl)
leads route_with_provider (some in_progress) h =
    inr (enrich_candidates, refl, refl, refl, refl, refl)
leads route_with_provider (some no_route) h = inl (no_route, refl, refl, refl)
leads route_with_provider (some provider_failure) h = inl (provider_failure, refl, refl, refl)
leads enrich_candidates none h = inr (score_candidates, refl, refl, refl, refl, refl)
leads score_candidates (some in_progress) h =
    inr (optimize_candidates, refl, refl, refl, refl, refl)
leads score_candidates (some no_route) h = inl (no_route, refl, refl, refl)
leads optimize_candidates none h = inr (weather_candidates, refl, refl, refl, refl, refl)
leads weather_candidates none h = inr (annotate_alternatives, refl, refl, refl, refl, refl)
leads annotate_alternatives none h = inr (explain_and_export, refl, refl, refl, refl, refl)
leads explain_and_export (some ready) h = inl (ready, refl, refl, refl)
leads n st h = cc

settled :
    (n : Node) (st o : Option PlanStatus)
    → StatusAt n o
    → reports n st ≡ true
    → or_before st o ≡ or_before st (some in_progress)
settled n (some x) o a h = refl
settled parse_request none o a h = cc
settled _ none o a h = a

status_of_at : (n : Node) (o : Option PlanStatus) → o ≡ some in_progress → StatusAt n o
status_of_at parse_request o h = tt
status_of_at _ o h = h

reported_at_score :
    (n : Node) (st : Option PlanStatus)
    → reports n st ≡ true
    → or_before st (some in_progress) ≡ some in_progress
    → (st ≡ some in_progress) ⊎ (place n ≢ 6)
reported_at_score n (some x) h e = inl e
reported_at_score score_candidates none h e = cc
reported_at_score parse_request none h e = cc
reported_at_score validate_request none h e = cc
reported_at_score geocode_locations none h e = cc
reported_at_score route_with_provider none h e = cc
reported_at_score explain_and_export none h e = cc
reported_at_score _ none h e = inr (omega arith)

module _ (n : Node) (s : State) (u : Update) (st : Option PlanStatus) (a : At n s)
    (rep : Reports u st) (sure : reports n st ≡ true)
    (selects : place n ≡ 6 → st ≡ some in_progress → (merge s u).selected_candidate ≢ none) where
  after_status : (merge s u).status ≡ or_before st (some in_progress)
  after_status = status-merge u s ∙ rep.after s.status ∙ settled n st s.status a.status sure

  after_trace : (traced n u s).trace ≡ history n ++ step n st ∷ []
  after_trace = ap₂ (λ tr o. tr ++ step n o ∷ []) (trace-merge u s ∙ a.reached) rep.reported

  stays_selected :
      7 ≤ suc (place n)
      → (st ≡ some in_progress) ⊎ (place n ≢ 6)
      → (merge s u).selected_candidate ≢ none
  stays_selected far (inl e) = elim (dec_le 7 (place n)) [
    | yes h ↦ selected-merge u s (a.selected h)
    | no h ↦ selects (omega arith) e
  ]
  stays_selected far (inr h) = selected-merge u s (a.selected (omega arith))

  -- The state that a node leaves fits where its edge leads.
  passes_on : Within (remaining n - 1) (leave n s (ok u))
  passes_on = elim (leads n st sure) [
    | inl (x, to_end, is_x, allowed) ↦
        let now : (merge s u).status ≡ some x =
          after_status ∙ ap (λ o. or_before o (some in_progress)) is_x in
        subst (λ o. Within (remaining n - 1) (enter o (traced n u s)))
          (sym (ap (next_node n) now ∙ to_end))
          (record {
            last = n;
            outcome = x;
            allowed = allowed;
            status = now;
            trace = after_trace ∙ ap (λ o. history n ++ step n o ∷ []) is_x;
          })
    | inr (n', to_next, keeps, longer, fewer, behind) ↦
        subst (λ o. Within (remaining n - 1) (enter o (traced n u s)))
          (sym (ap (next_node n) (after_status ∙ keeps) ∙ to_next))
          (
            record {
              reached = after_trace ∙ sym longer;
              status = status_of_at n' (merge s u).status (after_status ∙ keeps);
              selected = λ far. stays_selected (omega arith) (reported_at_score n st sure keeps);
            },
            omega arith,
          )
  ]

module _ (n : Node) (s : State) (a : At n s) where
  -- The same for what the node returns.
  node_passes_on :
      (r : Result Raised Update)
      → Yields (reports n) r
      → (place n ≡ 6 → Selects s r)
      → Within (remaining n - 1) (leave n s r)
  node_passes_on (err e) y sel = tt
  node_passes_on (ok u) (st, sure, rep) sel =
      passes_on n s u st a rep sure (λ here now. sel here (rep.reported ∙ now))

remaining_pos : (n : Node) → 1 ≤ remaining n
remaining_pos parse_request = omega arith
remaining_pos _ = omega arith

Within-mono : (k k' : ℕ) (p : Position) → k ≤ k' → Within k p → Within k' p
Within-mono k k' (at n s) le (a, fits) = (a, omega arith)
Within-mono k k' (finished s) le e = e
Within-mono k k' (failed e) le h = tt

module _ (g : Config) where
  node-Yields : (n : Node) (s : State) → At n s → Yields (reports n) (node_function g n s)
  unfolding node_function
  node-Yields parse_request s a = parse_request-Yields g.services s
  node-Yields validate_request s a = validate_request-Yields g.services s a.status
  node-Yields geocode_locations s a = geocode_locations-Yields g.services g.thresholds s
  node-Yields select_poi_stops s a = select_poi_stops-Yields g.services s
  node-Yields route_with_provider s a = route_with_provider-Yields g.services g.engines s
  node-Yields enrich_candidates s a = enrich_candidates-Yields g.services s
  node-Yields score_candidates s a = score_candidates-Yields g.services g.dedup_threshold s
  node-Yields optimize_candidates s a = optimize_candidates-Yields g.services s
  node-Yields weather_candidates s a = weather_candidates-Yields g.services s
  node-Yields annotate_alternatives s a = annotate_alternatives-Yields g.services s
  node-Yields explain_and_export s a =
      explain_and_export-Yields g.services s (a.selected (omega arith))

  node-Selects : (n : Node) (s : State) → place n ≡ 6 → Selects s (node_function g n s)
  unfolding node_function
  node-Selects score_candidates s h = score_candidates-Selects g.services g.dedup_threshold s
  node-Selects parse_request s h = absurd (omega arith)
  node-Selects n s h = absurd (omega arith)

  advance-Within : (k : ℕ) (p : Position) → Within (suc k) p → Within k (advance g p)
  unfolding advance
  advance-Within k (at n s) (a, fits) =
      Within-mono (remaining n - 1) k (leave n s (node_function g n s)) (omega arith)
        (node_passes_on n s a (node_function g n s) (node-Yields n s a) (node-Selects n s))
  advance-Within k (finished s) e = e
  advance-Within k (failed e) h = tt

  run-EndsWell : (k : ℕ) (p : Position) → Within k p → EndsWell (run k g p)
  unfolding run
  run-EndsWell zero (at n s) (a, fits) = omega (arith, remaining_pos n)
  run-EndsWell zero (finished s) e = e
  run-EndsWell zero (failed e) h = tt
  run-EndsWell (suc k) p h = run-EndsWell k (advance g p) (advance-Within k p h)

-- A run of the graph on any request, with any services, engines and thresholds, either ends with an
-- exception or reaches END: within eleven steps it is at no node any more. It then has the status of an
-- exit: `invalid`, `awaiting_clarification`, `provider_failure`, `no_route` or `ready`, and never
-- `in_progress`. It ended at a node that has this exit, and its trace holds the steps of all nodes
-- before that one, in the order of the edges and each passed with the plan in progress, and then the
-- step of that node with the final status.
pub invoke-EndsWell : (g : Config) (raw : Fields) → EndsWell (invoke g (start raw))
unfolding invoke
invoke-EndsWell g raw =
    run-EndsWell g node_count (at parse_request (start raw))
      (record { reached = refl; status = tt; selected = λ h. omega arith }, omega arith)
