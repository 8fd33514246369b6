-- ===== src/Planner/Nodes/Validate/Accepted.antt =====
-- nodes/validate.py: what is known of a request that passes the validation.
use py_bike_router.Base.{
  ◌≡◌, ◌≢◌, refl, sym, ◌∙◌, ap, ◌⊎◌, inl, inr, Bool-cases, >>=-eq-ok, ok-injective, String, Option,
  none, some, List, [], ◌∷◌, ◌++◌, Bool, true, false, Result, ok, err,
}
use py_bike_router.Planner.State.{PlaceInput, State, Update, status_of}
use py_bike_router.Planner.State.PlanStatus.{in_progress}
use py_bike_router.Planner.Constraints.{RouteConstraints, Issue, check_distance_consistency-sized}
use py_bike_router.Planner.Services.{Services}
use py_bike_router.Planner.Nodes.Validate.{
  model_validate, missing_if, missing, report, validated, is_invalid, validate_request,
}

-- A trip has a destination, and a loop has a length.
abbrev pub IsPlannable : State → RouteConstraints → Type 0
IsPlannable s c =
    (s.origin_input ≢ none)
    × (((c.return_to_origin ≡ false) × (s.destination_input ≢ none))
        ⊎ ((c.return_to_origin ≡ true) × (c.target_distance ≢ none)))

module _ (sv : Services) where
  given : (p : Option PlaceInput) (name : String) → missing_if p name ≡ [] → p ≢ none
  given none name h = λ n. cc
  given (some p) name h = λ n. cc

  first_given :
      (p : Option PlaceInput) (name : String) (rest : List String)
      → missing_if p name ++ rest ≡ []
      → (p ≢ none) × (rest ≡ [])
  first_given none name rest h = cc
  first_given (some p) name rest h = (λ n. cc, h)

  report-in_progress :
      (names : List String) → status_of (report names) ≡ some in_progress → names ≡ []
  report-in_progress [] h = refl
  report-in_progress (n ∷ ns) h = cc

  missing-IsPlannable :
      (s : State) (c : RouteConstraints) (loop : Bool)
      → c.return_to_origin ≡ loop
      → (c.return_to_origin ≡ true → c.target_distance ≢ none)
      → missing loop s ≡ []
      → IsPlannable s c
  unfolding missing
  missing-IsPlannable s c true e sized h = (given s.origin_input "origin" h, inr (e, sized e))
  missing-IsPlannable s c false e sized h =
      let (origin, rest) = first_given s.origin_input "origin" _ h in
      (origin, inl (e, given s.destination_input "destination" rest))

  model_validate-sized :
      (s : State) (c : RouteConstraints)
      → model_validate sv s.constraints ≡ ok c
      → c.return_to_origin ≡ true
      → c.target_distance ≢ none
  unfolding model_validate
  model_validate-sized s c h loop =
      let (d, read, checked) = >>=-eq-ok (sv.read_constraints s.constraints) _ h in
      check_distance_consistency-sized sv.writing sv.resolve_surfaces d checked loop

  validated-ok :
      (s : State) (r : Result (List Issue) RouteConstraints)
      → status_of (validated s r) ≡ some in_progress
      → (c : RouteConstraints) × (r ≡ ok c) × (missing c.return_to_origin s ≡ [])
  validated-ok s (err issues) h = cc
  validated-ok s (ok c) h = (c, refl, report-in_progress (missing c.return_to_origin s) h)

  -- A request that the node lets pass has valid constraints and an origin. A trip has a destination,
  -- and a loop has the length that it is to have.
  pub validate_request-IsPlannable :
      (s : State) (u : Update)
      → validate_request sv s ≡ ok u
      → status_of u ≡ some in_progress
      → (c : RouteConstraints) × (model_validate sv s.constraints ≡ ok c) × IsPlannable s c
  unfolding validate_request
  validate_request-IsPlannable s u h now = elim (Bool-cases (is_invalid s.status)) [
    | inl e ↦
        let same : [] ≡ u = ok-injective [] u (sym (rw e refl) ∙ h) in
        let wrong : none ≡ some in_progress = ap status_of same ∙ now in cc
    | inr e ↦
        let same : validated s (model_validate sv s.constraints) ≡ u =
          ok-injective _ u (sym (rw e refl) ∙ h) in
        let (c, valid, complete) =
          validated-ok s (model_validate sv s.constraints) (ap status_of same ∙ now) in
        (
          c,
          valid,
          missing-IsPlannable s c c.return_to_origin refl (model_validate-sized s c valid) complete,
        )
  ]
