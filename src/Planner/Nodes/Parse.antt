-- ===== src/Planner/Nodes/Parse.antt =====
-- nodes/parse.py: structured input, or free text through an injected parser.
use py_bike_router.Base.{
  String, Option, none, some, List, [], ◌∷◌, Bool, true, false, not, ◌&&◌, map, all, ◌==◌,
  if◌then◌else◌, Result, ok, err, ◌>>=◌,
}
use py_bike_router.Base.Int.{ℤ}
use py_bike_router.Base.Json.{
  Json, Items, Fields, null, boolean, integer, float, array, object, nil, cons, end, field, get,
  get_or_null, items,
}
use py_bike_router.Base.Text.{characters, is_blank, is_nonzero}
use py_bike_router.Errors.{entry}
use py_bike_router.Planner.State.{PlanStatus, PlaceInput, State, Change, Update, coordinate, query}
use py_bike_router.Planner.Services.{Raised, ParserFailure, Services}

abbrev is_some {ℓ} : {A : Type ℓ} → Option A → Bool
is_some none = false
is_some (some a) = true

abbrev is_empty_text : String → Bool
is_empty_text String.[] = true
is_empty_text (String.◌∷◌ c s) = false

-- bool(value)
abbrev pub truthy : Json → Bool
truthy null = false
truthy (boolean b) = b
truthy (integer (ℤ.pos n)) = not (n == 0)
truthy (integer (ℤ.negsuc n)) = true
truthy (float l) = is_nonzero l
truthy (Json.text s) = not (is_empty_text s)
truthy (array nil) = false
truthy (array (cons v vs)) = true
truthy (object end) = false
truthy (object (field k v fs)) = true

abbrev keys : Fields → List Json
keys end = []
keys (field k v fs) = Json.text k ∷ keys fs

-- for v in value
abbrev pub iterate : Json → Result Raised (List Json)
iterate (array vs) = ok (items vs)
iterate (object fs) = ok (keys fs)
iterate (Json.text s) = ok (map Json.text (characters s))
iterate _ = err Raised.type_error

-- raw.get("via", [])
abbrev pub get_or_empty : String → Fields → Json
get_or_empty k fs = elim (get k fs) [ none ↦ array nil | some v ↦ v ]

unfoldable pub place_input : Json → Option PlaceInput
place_input (object fs) =
    if is_some (get "lon" fs) && is_some (get "lat" fs) then some (coordinate (object fs)) else none
place_input (Json.text s) = some (query s)
place_input _ = none

-- [v for v in via_inputs if v is not None]
abbrev pub place_inputs : List Json → List PlaceInput
place_inputs [] = []
place_inputs (v ∷ vs) =
    let rest = place_inputs vs in elim (place_input v) [ none ↦ rest | some p ↦ p ∷ rest ]

unfoldable pub invalid : String → String → Update
invalid code message =
    Change.status PlanStatus.invalid ∷ Change.errors (entry code message ∷ []) ∷ []

abbrev is_name : Json → Bool
is_name (Json.text s) = not (is_blank s)
is_name _ = false

abbrev is_name_or_null : Json → Bool
is_name_or_null (Json.text s) = true
is_name_or_null null = true
is_name_or_null _ = false

abbrev are_names : Json → Bool
are_names (array vs) = all is_name (items vs)
are_names _ = false

abbrev is_object : Json → Bool
is_object (object fs) = true
is_object _ = false

abbrev pub get_or_object : String → Fields → Json
get_or_object k fs = elim (get k fs) [ none ↦ object end | some v ↦ v ]

-- Why a parser's output is refused; the fields of an output that is accepted.
unfoldable pub llm_output_problem : Json → Result String Fields
llm_output_problem (object fs) =
    if not (is_name (get_or_null "origin" fs))
    then err "origin must be a place name"
    else if not (is_name_or_null (get_or_null "destination" fs))
    then err "destination must be a place name or null"
    else if not (are_names (get_or_empty "via" fs))
    then err "via must be a list of place names"
    else if not (is_object (get_or_object "constraints" fs))
    then err "constraints must be an object"
    else ok fs
llm_output_problem _ = err "the parser must return an object"

abbrev list_of : List Json → Items
list_of [] = nil
list_of (v ∷ vs) = cons v (list_of vs)

unfoldable pub interpretation : Fields → Result Raised Json
interpretation raw = do
  notes ← iterate (get_or_empty "notes" raw)
  ok (
      object (
        field "request"
          (object (
            field "origin" (get_or_null "origin" raw) (
              field "destination" (get_or_null "destination" raw) (
                field "via" (get_or_null "via" raw)
                  (field "constraints" (get_or_null "constraints" raw) end)))))
          (field "departure_time" (get_or_null "departure_time" raw) (
            field "notes" (array (list_of notes))
              (field "parser" (get_or_null "provenance" raw) end)))))

-- The update from the request `raw`, with the caps of the request that was sent.
unfoldable pub structured : (original raw : Fields) → Update → Result Raised Update
unfolding place_input
structured original raw extra = do
  vias ← iterate (get_or_empty "via" raw)
  ok (
      Change.origin_input (place_input (get_or_null "origin" raw))
      ∷ Change.destination_input (place_input (get_or_null "destination" raw))
      ∷ Change.via_inputs (place_inputs vias)
      ∷ Change.constraints (get_or_object "constraints" raw)
      ∷ Change.max_alternatives (get_or_null "max_alternatives" original)
      ∷ Change.poi_stops_request (get_or_null "poi_stops" original)
      ∷ Change.routing_engines (get_or_null "routing_engines" original)
      ∷ Change.optimize (get_or_null "optimize" original)
      ∷ Change.departure_time (get_or_null "departure_time" raw)
      ∷ Change.status PlanStatus.in_progress
      ∷ extra)

-- llm_parser(text, timezone=timezone) if timezone else llm_parser(text)
abbrev pub timezone_of : Fields → Option Json
timezone_of fs = let zone = get_or_null "timezone" fs in if truthy zone then some zone else none

abbrev pub accept : (original : Fields) → Result String Fields → Result Raised Update
accept original (err problem) = ok (invalid "llm_parser_invalid_output" problem)
accept original (ok raw) = do
  understood ← interpretation raw
  structured original raw (Change.interpretation understood ∷ [])

unfoldable pub parsed : (original : Fields) → Result ParserFailure Json → Result Raised Update
unfolding invalid llm_output_problem interpretation structured
parsed original (err (ParserFailure.parse_error code message)) = ok (invalid code message)
parsed original (err (ParserFailure.failed e)) =
    ok (invalid "llm_parser_error" "the free-text parser failed")
parsed original (ok output) = accept original (llm_output_problem output)

abbrev pub from_text :
    Option (Json → Option Json → Result ParserFailure Json) → Fields → Json → Result Raised Update
from_text none original words = ok (
    invalid "nl_parsing_unavailable" "free-text requests require an LLM parser, none is configured")
from_text (some parser) original words = parsed original (parser words (timezone_of original))

abbrev pub parse_raw : Services → Fields → Option Json → Option Json → Result Raised Update
parse_raw sv original (some words) none = from_text sv.llm_parser original words
parse_raw sv original _ _ = structured original original []

unfoldable pub parse_request : Services → State → Result Raised Update
parse_request sv s = parse_raw sv s.raw_input (get "text" s.raw_input) (get "origin" s.raw_input)
