-- ===== src/Chat/Requests.antt =====
-- chat/graph.py, chat/rules.py: a route request of the chat, and the request that one line makes.
-- Distances are counted in metres. What `parse_one_line` reads in a text is a parameter of the
-- other modules.
use py_bike_router.Base.{
  ℕ, String, Option, none, some, List, [], Bool, true, false, not, ◌&&◌, ◌||◌, is_empty, ◌==◌, map,
  str_eq, if◌then◌else◌,
}
use py_bike_router.Base.Int.{ℤ}
use py_bike_router.Base.Json.{Json}

-- A place as typed, or a position.
pub data Place : Type 0 where
  named : String → Place
  position : (lon lat : ℤ) → Place

-- `return_to_origin` is true or missing. The other keys are kept as they are.
pub record Constraints : Type 0 where
  pub bike_type : Option String
  pub return_to_origin : Bool
  pub target_distance : Option ℕ
  pub others : List (String × Json)

pub record Request : Type 0 where
  pub origin : Option Place
  pub destination : Option Place
  pub via : List Place
  pub constraints : Constraints
  pub poi_stops : Option ℕ
  pub departure_time : Option String
  pub routing_engines : List String
  pub optimize : Option Json

abbrev pub no_constraints : Constraints
no_constraints = record {
  bike_type = none;
  return_to_origin = false;
  target_distance = none;
  others = [];
}

-- The empty dictionary.
abbrev pub empty_request : Request
empty_request = record {
  origin = none;
  destination = none;
  via = [];
  constraints = no_constraints;
  poi_stops = none;
  departure_time = none;
  routing_engines = [];
  optimize = none;
}

abbrev pub is_some {ℓ} : {A : Type ℓ} → Option A → Bool
is_some none = false
is_some (some a) = true

-- bool(constraints), bool(request): an empty dictionary is false.
abbrev has_constraints : Constraints → Bool
has_constraints c =
    is_some c.bike_type
    || c.return_to_origin
    || is_some c.target_distance
    || not (is_empty c.others)

abbrev pub is_given : Request → Bool
is_given r =
    is_some r.origin
    || is_some r.destination
    || not (is_empty r.via)
    || has_constraints r.constraints
    || is_some r.poi_stops
    || is_some r.departure_time
    || not (is_empty r.routing_engines)
    || is_some r.optimize

-- What `or` and `if` make of a stored request: an empty one counts as none.
abbrev pub given : Option Request → Option Request
given none = none
given (some request) = if is_given request then some request else none

-- What a one-line request said; an empty text or list stands for a missing one.
pub record OneLine : Type 0 where
  pub origin : String
  pub destination : String
  pub via : List String
  pub loop : Bool
  pub distance : Option ℕ
  pub bike_type : Option String
  pub sight_stops : Option ℕ
  pub constraints : List (String × Json)
  pub departure : Option String
  pub engines : List String
  pub explicit_separator : Bool
  pub optimize : Option Json

-- bool(number)
abbrev pub is_positive : Option ℕ → Bool
is_positive none = false
is_positive (some n) = not (n == 0)

-- bool(text)
abbrev pub is_said : String → Bool
is_said text = not (str_eq text "")

-- OneLine.complete
unfoldable pub is_complete : OneLine → Bool
is_complete line =
    is_said line.origin && (if line.loop then is_some line.distance else is_said line.destination)

module _ (place_value : String → Place) where
  unfoldable pub request_from_line : OneLine → Request
  request_from_line line = record {
    origin = some (place_value line.origin);
    destination = if line.loop then none else some (place_value line.destination);
    via = map place_value line.via;
    constraints = record {
      bike_type = line.bike_type;
      return_to_origin = line.loop;
      target_distance = if line.loop then line.distance else none;
      others = line.constraints;
    };
    poi_stops = if is_positive line.sight_stops then line.sight_stops else none;
    departure_time = line.departure;
    routing_engines = line.engines;
    optimize = line.optimize;
  }
