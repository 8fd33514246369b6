-- ===== src/Chat/Tests.antt =====
-- A small reading of messages, and turns of a conversation.
use py_bike_router.Base.{
  String, none, some, List, [], ◌∷◌, true, false, str_eq, if◌then◌else◌, ok, err, ok-injective,
  subst, ◌≡◌, refl, arith,
}
use py_bike_router.Base.Json.{null}
use py_bike_router.Chat.Requests.{named, Request, OneLine}
use py_bike_router.Chat.Guided.{
  Slot, Draft, no_draft, Reading, next_slot, fill_slot, request_from_draft,
}
use py_bike_router.Chat.Guided
use py_bike_router.Chat.Guided.Dialogue.{converse, IsPlanned, converse-IsPlanned}
use py_bike_router.Chat.State.{Intent, Plan, Rules, Texts, ChatServices, unavailable, new_chat}
use py_bike_router.Chat.Graph.{turn}
use py_bike_router.Chat.Graph.Turns.{WalkInStep, with_form, turn-InStep}
use py_bike_router.Chat.Graph.Ends.{turn-IsOver}
use py_bike_router.Chat.Graph.Quiet.{IsOver, NoChoice}

abbrev words : OneLine
words = record {
  origin = "";
  destination = "";
  via = [];
  loop = false;
  distance = none;
  bike_type = none;
  sight_stops = none;
  constraints = [];
  departure = none;
  engines = [];
  explicit_separator = false;
  optimize = none;
}

abbrev line_of : String → OneLine
line_of text =
    if str_eq text "from Goslar to Celle"
    then record words { origin = "Goslar"; destination = "Celle"; explicit_separator = true }
    else words

abbrev reading : Reading
reading = record {
  place_value = named;
  parse_one_line = line_of;
  clean_slot = λ text. text;
  strip = λ text. text;
  says_loop = λ text. str_eq text "a loop";
  says_destination = λ text. str_eq text "to a destination";
  says_skip = λ text. str_eq text "skip";
  number_in = λ text. if str_eq text "40 km" then some 40_000 else none;
  bike_in = λ text. if str_eq text "gravel" then some "gravel" else none;
  is_greeting = λ text. str_eq text "hello";
  is_starter = λ text. str_eq text "plan a route";
  has_question_mark = λ text. str_eq text "what?";
  is_short = λ text. true;
  is_followup = λ text. false;
}

abbrev answers : List String
answers = "Goslar" ∷ "well" ∷ "a loop" ∷ "40 km" ∷ "gravel" ∷ []

-- One of the five answers is refused.
converse-refused : (converse reading answers Slot.origin no_draft).1 ≡ 1
unfolding converse Guided.guided fill_slot next_slot request_from_draft
converse-refused = refl

asks_origin : next_slot no_draft ≡ some Slot.origin
unfolding next_slot
asks_origin = refl

converse-IsPlanned_example : IsPlanned (converse reading answers Slot.origin no_draft).0
converse-IsPlanned_example =
    converse-IsPlanned reading answers Slot.origin no_draft asks_origin
      (omega (arith, converse-refused))

abbrev route : Plan
route = record {
  status = "ready";
  candidates = [];
  clarification = [];
  errors = [];
  request = none;
  departure_time = none;
  notes = [];
  line_points = 2;
  artifacts = [];
  body = null;
}

abbrev rules : Rules
rules = record {
  reading = reading;
  strip = λ text. text;
  lower = λ text. text;
  classify = λ text has_plan. if str_eq text "new route" then some Intent.reset else none;
  detect = λ text. none;
  pick_candidate = λ text options. none;
  starts_with_digit = λ text. false;
  is_engine_request = λ text. false;
  is_retry = λ text. false;
  asks_for_one = λ text. false;
  is_busy = λ text. false;
  refine = λ text request last. record { unknown = true; is_empty = true; request = request };
  number_said = λ text. none;
  ordinals_said = λ text. [];
  label_has = λ text label. false;
  label_starts = λ text label. false;
  is_near = λ first other. false;
}

abbrev texts : Texts
texts = record {
  help_text = "help";
  reading = λ request. "";
  line_reading = λ request line. "";
  optimizing = λ request. "";
  changed = λ change. "";
  not_changed = λ change. "what?";
  planned = λ request p. "here it is";
  question = λ slot problem. "where?";
  not_found = λ groups. "not found";
  candidate = λ option. "";
  alternatives = λ p. "";
  explain = λ text p. "";
  sights = λ rows. "";
  files = λ links. "";
}

abbrev services : ChatServices
services = record {
  plan = λ request. ok route;
  plan_text = λ text. err unavailable;
  sights = none;
  text_enabled = false;
  intent_model = none;
}

-- The planner finds no place of this name.
abbrev lost : ChatServices
lost = record services {
  plan = λ request. ok (record route {
    status = "awaiting_clarification";
    clarification = record { field_ = "Goslar"; candidates = [] } ∷ [];
  });
}

clear_plan : (request : Request) (p : Plan) → lost.plan request ≡ ok p → NoChoice p.clarification
clear_plan request p answer =
    subst (λ (q : Plan). NoChoice q.clarification) (ok-injective _ p answer) refl

clear_text : (text : String) (p : Plan) → lost.plan_text text ≡ ok p → NoChoice p.clarification
clear_text text p answer = cc

turn-IsOver_example : IsOver (turn lost rules texts 6 "from Goslar to Celle" [] new_chat)
turn-IsOver_example =
    turn-IsOver lost rules texts "from Goslar to Celle" [] new_chat clear_plan clear_text refl

turn-InStep_example :
    WalkInStep services rules texts
      (with_form new_chat)
      (turn services rules texts 6 "from Goslar to Celle" [] new_chat)
turn-InStep_example = turn-InStep services rules texts 6 "from Goslar to Celle" [] new_chat
