-- ===== src/Planner/Nodes/Validate.antt =====
-- nodes/validate.py: the constraints are read again, and missing places become a clarification.
pub mod Accepted
use py_bike_router.Base.{
  String, Option, none, some, List, [], ◌∷◌, ◌++◌, Bool, true, false, map, if◌then◌else◌, Result,
  ok, err, ◌>>=◌,
}
use py_bike_router.Base.Json.{Json}
use py_bike_router.Base.Text.{concat}
use py_bike_router.Errors.{ErrorEntry, entry}
use py_bike_router.Planner.State.{PlanStatus, PlaceInput, Clarification, State, Change, Update}
use py_bike_router.Planner.Constraints.{RouteConstraints, Issue, check_distance_consistency}
use py_bike_router.Planner.Services.{Raised, Services}

-- RouteConstraints.model_validate: pydantic's reading of the fields, then the model's own check.
unfoldable pub model_validate : Services → Json → Result (List Issue) RouteConstraints
unfolding check_distance_consistency
model_validate sv raw = do
  c ← sv.read_constraints raw
  check_distance_consistency sv.writing sv.resolve_surfaces c

abbrev pub issue_entry : Issue → ErrorEntry
issue_entry i = entry "invalid_constraints" i.msg

-- The names of the places that are needed and were not given.
abbrev pub missing_if : Option PlaceInput → String → List String
missing_if none name = name ∷ []
missing_if (some p) name = []

unfoldable pub missing : (is_loop : Bool) → State → List String
missing true s = missing_if s.origin_input "origin"
missing false s = missing_if s.origin_input "origin" ++ missing_if s.destination_input "destination"

abbrev pub no_candidates : String → Clarification
no_candidates name = record { field = name; candidates = []; hint = none }

abbrev pub missing_place : String → ErrorEntry
missing_place name = entry "missing_place" (concat name " was not provided")

abbrev pub report : List String → Update
report [] = Change.status PlanStatus.in_progress ∷ []
report (name ∷ names) =
    Change.status PlanStatus.awaiting_clarification
    ∷ Change.clarification (map no_candidates (name ∷ names))
    ∷ Change.errors (map missing_place (name ∷ names))
    ∷ []

abbrev pub validated : State → Result (List Issue) RouteConstraints → Update
validated s (err issues) =
    Change.status PlanStatus.invalid ∷ Change.errors (map issue_entry issues) ∷ []
validated s (ok c) = report (missing c.return_to_origin s)

abbrev pub is_invalid : Option PlanStatus → Bool
is_invalid (some PlanStatus.invalid) = true
is_invalid _ = false

unfoldable pub validate_request : Services → State → Result Raised Update
unfolding model_validate missing
validate_request sv s =
    if is_invalid s.status then ok [] else ok (validated s (model_validate sv s.constraints))
