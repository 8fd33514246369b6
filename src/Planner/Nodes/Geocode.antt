-- ===== src/Planner/Nodes/Geocode.antt =====
-- nodes/geocode.py: places to coordinates. An ambiguous or empty result becomes a clarification.
pub mod Settled
use py_bike_router.Base.{
  ℕ, ◌+◌, String, Option, none, some, List, [], ◌∷◌, Bool, true, false, ◌||◌, ltb, if◌then◌else◌,
  Result, ok, err, ◌>>=◌,
}
use py_bike_router.Base.Json.{Json, object, get_or_null}
use py_bike_router.Base.Text.{concat}
use py_bike_router.Errors.{ErrorEntry, to_dict, entry}
use py_bike_router.Planner.State.{
  PlanStatus, PlaceInput, GeocodeCandidate, Clarification, State, Change, Update, coordinate, query,
}
use py_bike_router.Planner.Services.{Raised, GeocodeFailure, Services}
use py_bike_router.Planner.Nodes.Parse.{truthy}

abbrev pub candidate_limit : ℕ
candidate_limit = 5

-- The node's parameters, in millionths like the confidences.
pub record Thresholds : Type 0 where
  pub ambiguity_margin : ℕ
  pub min_confidence : ℕ

abbrev pub no_match_hint : String
no_match_hint =
    "no matches found; try a full street name with house number and postcode (e.g. 'Kasernenstraße 23, 38106 Braunschweig'), or pass a coordinate directly"

-- The three results of `_resolve`.
pub record Resolved : Type 0 where
  pub position : Option Json
  pub clarify : Option Clarification
  pub error : Option ErrorEntry

abbrev pub unmatched : String → Resolved
unmatched q = record {
  position = none;
  clarify = some (record { field = q; candidates = []; hint = some no_match_hint });
  error = some (entry "geocoding_not_found" (concat "no results for '" (concat q "'")));
}

-- candidates[0].confidence - candidates[1].confidence < margin; with one candidate the gap is 1.0.
abbrev pub small_gap : ℕ → GeocodeCandidate → List GeocodeCandidate → Bool
small_gap margin first [] = ltb 1_000_000 margin
small_gap margin first (second ∷ _) = ltb first.confidence (margin + second.confidence)

unfoldable pub is_ambiguous : Thresholds → GeocodeCandidate → List GeocodeCandidate → Bool
is_ambiguous th first others =
    ltb first.confidence th.min_confidence || small_gap th.ambiguity_margin first others

abbrev pub choose : Thresholds → String → List GeocodeCandidate → Resolved
choose th q [] = unmatched q
choose th q (first ∷ others) =
    if is_ambiguous th first others
    then record {
      position = none;
      clarify = some (record { field = q; candidates = first ∷ others; hint = none });
      error = none;
    }
    else record { position = some first.position; clarify = none; error = none }

abbrev pub answered :
    Thresholds → String → Result GeocodeFailure (List GeocodeCandidate) → Result Raised Resolved
answered th q (ok found) = ok (choose th q found)
answered th q (err GeocodeFailure.not_found) = ok (unmatched q)
answered th q (err (GeocodeFailure.provider_failed e)) =
    ok (record { position = none; clarify = none; error = some (to_dict e) })
answered th q (err (GeocodeFailure.uncaught e)) = err (Raised.other e)

unfoldable pub resolve : Services → Thresholds → Option PlaceInput → Result Raised Resolved
unfolding is_ambiguous to_dict
resolve sv th none = ok (record { position = none; clarify = none; error = none })
resolve sv th (some (coordinate c)) =
    ok (record { position = some c; clarify = none; error = none })
resolve sv th (some (query q)) = answered th q (sv.geocode q candidate_limit)

-- The loop over the via inputs.
unfoldable pub resolve_all : Services → Thresholds → List PlaceInput → Result Raised (List Resolved)
unfolding resolve
resolve_all sv th [] = ok []
resolve_all sv th (p ∷ ps) = do r ← resolve sv th (some p); rs ← resolve_all sv th ps; ok (r ∷ rs)

-- [x for x in xs if x is not None]
abbrev pub present {ℓ κ} : {A : Type ℓ} {B : Type κ} → (A → Option B) → List A → List B
present f [] = []
present f (x ∷ xs) = let rest = present f xs in elim (f x) [ none ↦ rest | some b ↦ b ∷ rest ]

-- state.get("constraints", {}).get("return_to_origin")
abbrev pub wants_loop : Json → Bool
wants_loop (object fs) = truthy (get_or_null "return_to_origin" fs)
wants_loop _ = false

abbrev pub or_origin : Bool → Option Json → Option Json → Option Json
or_origin true none origin = origin
or_origin _ dest origin = dest

abbrev pub conclude :
    Json → Resolved → Resolved → List Resolved → List Clarification → List ErrorEntry → Update
conclude constraints origin dest vias (c ∷ cs) errors =
    Change.status PlanStatus.awaiting_clarification
    ∷ Change.clarification (c ∷ cs)
    ∷ Change.errors errors
    ∷ []
conclude constraints origin dest vias [] (e ∷ es) =
    Change.status PlanStatus.provider_failure ∷ Change.errors (e ∷ es) ∷ []
conclude constraints origin dest vias [] [] =
    Change.status PlanStatus.in_progress
    ∷ Change.resolved_origin origin.position
    ∷ Change.resolved_destination (or_origin (wants_loop constraints) dest.position origin.position)
    ∷ Change.resolved_via (present (λ r. r.position) vias)
    ∷ []

unfoldable pub geocode_locations : Services → Thresholds → State → Result Raised Update
unfolding resolve resolve_all
geocode_locations sv th s = do
  origin ← resolve sv th s.origin_input
  dest ← resolve sv th s.destination_input
  vias ← resolve_all sv th s.via_inputs
  let all_places = origin ∷ dest ∷ vias
  ok (
      conclude s.constraints origin dest vias (present (λ r. r.clarify) all_places)
        (present (λ r. r.error) all_places))
