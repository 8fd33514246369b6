-- ===== src/Chat/Guided.antt =====
-- chat/graph.py: the step-by-step dialogue. A draft collects the answers; each question is about the
-- first slot that is still missing. The regular expressions and the readings of chat/rules.py are
-- parameters. The texts of the replies and the suggestions are not modelled, except for the problem
-- that an unusable answer has.
pub mod Dialogue
use py_bike_router.Base.{
  ℕ, ◌+◌, String, Option, none, some, List, [], ◌∷◌, Bool, true, false, not, ◌&&◌, ◌||◌, leb,
  str_eq, is_empty, if◌then◌else◌, Result, ok, err, ◌>>=◌,
}
use py_bike_router.Base.Json.{Json}
use py_bike_router.Chat.Requests.{
  Place, Constraints, Request, OneLine, is_some, is_said, is_positive, request_from_line,
  empty_request,
}

pub data Slot : Type 0 where
  origin mode destination distance bike : Slot

-- `carry` is the part of a one-line request that the dialogue does not ask for.
pub record Draft : Type 0 where
  pub origin : Option Place
  pub loop : Option Bool
  pub destination : Option Place
  pub distance : Option ℕ
  pub bike_type : Option String
  pub carry : Option Request

abbrev pub no_draft : Draft
no_draft = record {
  origin = none;
  loop = none;
  destination = none;
  distance = none;
  bike_type = none;
  carry = none;
}

-- What the dialogue reads in a text.
pub record Reading : Type 0 where
  pub place_value : String → Place
  pub parse_one_line : String → OneLine
  -- _clean_slot, and str.strip
  pub clean_slot : String → String
  pub strip : String → String
  pub says_loop : String → Bool
  pub says_destination : String → Bool
  pub says_skip : String → Bool
  -- The first number, in metres where it counts kilometres.
  pub number_in : String → Option ℕ
  pub bike_in : String → Option String
  pub is_greeting : String → Bool
  pub is_starter : String → Bool
  pub has_question_mark : String → Bool
  pub is_short : String → Bool
  pub is_followup : String → Bool

abbrev bike_slot : Option String → Option Slot
bike_slot none = some Slot.bike
bike_slot (some chosen) = none

-- _next_slot
unfoldable pub next_slot : Draft → Option Slot
next_slot d = elim d.origin [
  | none ↦ some Slot.origin
  | some start ↦ elim d.loop [
    | none ↦ some Slot.mode
    | some true ↦ elim d.distance [ none ↦ some Slot.distance | some km ↦ bike_slot d.bike_type ]
    | some false ↦ elim d.destination [
      | none ↦ some Slot.destination
      | some goal ↦ bike_slot d.bike_type
    ]
  ]
]

abbrev in_range : ℕ → Bool
in_range metres = leb 1_000 metres && leb metres 1_000_000

abbrev fill_distance : Draft → Option ℕ → Result String Draft
fill_distance d none = err "Please give a distance between 1 and 1000 km."
fill_distance d (some metres) =
    if in_range metres
    then ok (record d { distance = some metres })
    else err "Please give a distance between 1 and 1000 km."

module _ (reading : Reading) where
  abbrev fill_bike : Draft → String → Option String → Result String Draft
  fill_bike d text (some chosen) = ok (record d { bike_type = some chosen })
  fill_bike d text none =
      if reading.says_skip text
      then ok (record d { bike_type = some "skip" })
      else err "I know road, gravel, touring, mountain, city, e-bike, commuter and recumbent."

  abbrev fill_said : Draft → Slot → String → Result String Draft
  fill_said d Slot.origin text = ok (record d { origin = some (reading.place_value text) })
  fill_said d Slot.mode text =
      if reading.says_loop text
      then ok (record d { loop = some true })
      else if reading.says_destination text
      then ok (record d { loop = some false })
      else err "Please choose: a loop, or to a destination."
  fill_said d Slot.destination text =
      ok (record d { destination = some (reading.place_value text) })
  fill_said d Slot.distance text = fill_distance d (reading.number_in text)
  fill_said d Slot.bike text = fill_bike d text (reading.bike_in text)

  -- _fill_slot: the draft with the answer, or the problem that the answer has.
  unfoldable pub fill_slot : Draft → Slot → String → Result String Draft
  fill_slot d slot text =
      let t = reading.strip text in
      if is_said t then fill_said d slot t else err "I did not get that."

  -- The line says more than words.
  abbrev pub is_structured : OneLine → Bool
  is_structured line =
      line.loop
      || is_some line.distance
      || line.explicit_separator
      || not (is_empty line.via)
      || is_some line.bike_type
      || is_some line.departure
      || is_positive line.sight_stops
      || not (is_empty line.constraints)
      || not (is_empty line.engines)

  abbrev seed_places : OneLine → Draft → Draft
  seed_places line d =
      if line.loop
      then record d {
        loop = some true;
        distance = if is_some line.distance then line.distance else d.distance;
      }
      else if is_said line.destination
      then record d { loop = some false; destination = some (reading.place_value line.destination) }
      else d

  -- carry.pop("origin", None), carry.pop("destination", None)
  abbrev carried : OneLine → Request
  carried line = record (request_from_line reading.place_value line) {
    origin = none;
    destination = none;
  }

  -- draft.update(_seed_draft(line)) of a structured line
  unfoldable pub seed_draft : OneLine → Draft → Draft
  unfolding request_from_line
  seed_draft line d =
      let placed = seed_places line (record d {
        origin = if is_said line.origin then some (reading.place_value line.origin) else d.origin;
      }) in
      record placed {
        bike_type = if is_some line.bike_type then line.bike_type else placed.bike_type;
        carry = some (carried line);
      }

  -- Short bare words that may be the start place.
  abbrev is_start : OneLine → String → String → Bool
  is_start line raw text =
      is_said line.origin
      && not (reading.is_greeting text)
      && reading.is_short text
      && not (reading.is_followup raw)

  -- The draft after a message that answers no question.
  abbrev pub seeded : OneLine → String → Draft → Draft
  seeded line raw d =
      if is_structured line
      then seed_draft line d
      else if is_start line raw (reading.clean_slot raw)
      then record d { origin = some (reading.place_value line.origin) }
      else d

-- draft[key]: the answers that a request needs, or a KeyError.
abbrev required {ℓ} : {A : Type ℓ} → String → Option A → Result String A
required key none = err key
required key (some a) = ok a

abbrev real_bike : Option String → Option String → Option String
real_bike none carried_bike = carried_bike
real_bike (some chosen) carried_bike = if str_eq chosen "skip" then carried_bike else some chosen

abbrev carry_of : Option Request → Request
carry_of none = empty_request
carry_of (some request) = request

abbrev base_request : Draft → Place → Request
base_request d start =
    let carry = carry_of d.carry in
    record carry {
      origin = some start;
      constraints = record carry.constraints {
        return_to_origin = false;
        target_distance = none;
        bike_type = real_bike d.bike_type carry.constraints.bike_type;
      };
    }

abbrev with_goal : Draft → Request → Option Bool → Result String Request
with_goal d request (some true) = required "distance_km" d.distance >>= λ metres.
    ok (record request {
      constraints = record request.constraints {
        return_to_origin = true;
        target_distance = some metres;
      };
    })
with_goal d request loop =
    required "destination" d.destination >>= λ goal. ok (record request { destination = some goal })

-- _request_from_draft
unfoldable pub request_from_draft : Draft → Result String Request
request_from_draft d =
    required "origin" d.origin >>= λ start. with_goal d (base_request d start) d.loop

-- What the node `guided` answers: a question, with the problem of the last answer and whether the
-- message told nothing; or the request to plan.
pub data Guided : Type 0 where
  ask : Draft → Slot → Option String → (unread : Bool) → Guided
  plan : Request → Guided

abbrev is_no_draft : Draft → Bool
is_no_draft d =
    not (is_some d.origin)
    && not (is_some d.loop)
    && not (is_some d.destination)
    && not (is_some d.distance)
    && not (is_some d.bike_type)
    && not (is_some d.carry)

module _ (reading : Reading) where
  -- The node's end: ask for the next slot, or hand over the request.
  abbrev pub proceed : Option Slot → String → Draft → Option Slot → Result String Guided
  proceed asking raw d none = request_from_draft d >>= λ request. ok (plan request)
  proceed asking raw d (some slot) = ok (
      ask d slot none (
        not (is_some asking)
        && is_no_draft d
        && not (reading.is_greeting (reading.clean_slot raw))
        && not (reading.is_starter raw)))

  abbrev pub go_on : Option Slot → String → Draft → Result String Guided
  go_on asking raw d = proceed asking raw d (next_slot d)

  abbrev pub answered : Draft → Slot → String → Result String Draft → Result String Guided
  answered d slot raw (err problem) = ok (ask d slot (some problem) false)
  answered d slot raw (ok filled) = go_on (some slot) raw filled

  -- The node `guided`; `err key` is a KeyError.
  unfoldable pub guided : String → Option Slot → Draft → Result String Guided
  unfolding fill_slot seed_draft next_slot request_from_draft
  guided raw none d = go_on none raw (
      if reading.has_question_mark raw
      then d
      else seeded reading (reading.parse_one_line raw) raw d)
  guided raw (some slot) d = answered d slot raw (fill_slot reading d slot (reading.clean_slot raw))
