-- ===== src/Chat/State.antt =====
-- chat/models.py: what a conversation remembers, and what the graph takes from its services. The
-- suggestions are left out, and so is what a plan holds that the graph only passes on.
use py_bike_router.Base.{ℕ, String, Option, none, some, List, [], Bool, false, str_eq, Result}
use py_bike_router.Base.Int.{ℤ}
use py_bike_router.Base.Json.{Json}
use py_bike_router.Chat.Requests.{Request, OneLine}
use py_bike_router.Chat.Guided.{Slot, Draft, Reading, no_draft}

pub data Intent : Type 0 where
  plan plan_text guided refine alternatives sights explain export optimize reset help : Intent

pub record PlaceCandidate : Type 0 where
  pub label : String
  pub coordinate : ℤ × ℤ

-- An ambiguous place, as typed, and what it may be.
pub record Group : Type 0 where
  pub field_ : String
  pub candidates : List PlaceCandidate

pub record PlanFailure : Type 0 where
  pub code : String
  pub message : String

pub record RouteOption : Type 0 where
  pub rank : Option ℕ
  pub body : Json

-- A RoutePlanResponse. `request` and `departure_time` are those of its interpretation.
pub record Plan : Type 0 where
  pub status : String
  pub candidates : List RouteOption
  pub clarification : List Group
  pub errors : List PlanFailure
  pub request : Option Request
  pub departure_time : Option String
  pub notes : List String
  pub line_points : ℕ
  pub artifacts : List (String × String)
  pub body : Json

pub data Message : Type 0 where
  human : String → Message
  ai : String → Message

pub data ClarifyResult : Type 0 where
  resolved restart retry failed : ClarifyResult

pub record FormContext : Type 0 where
  pub request : Option Request
  pub plan : Option Plan

pub record ChatState : Type 0 where
  pub messages : List Message
  pub user_text : String
  pub intent : Option Intent
  pub draft : Draft
  pub asking : Option Slot
  pub last_request : Option Request
  pub last_plan : Option Plan
  pub failed_request : Option Request
  pub failed : Bool
  pub awaiting_request : Option Request
  pub form_context : Option FormContext
  pub pending_request : Option Request
  pub change_note : String
  pub clarification : List Group
  pub clarify_result : Option ClarifyResult
  pub miss : Option String
  pub reply : String
  pub plan : Option Plan
  pub focus_rank : Option ℕ

abbrev pub new_chat : ChatState
new_chat = record {
  messages = [];
  user_text = "";
  intent = none;
  draft = no_draft;
  asking = none;
  last_request = none;
  last_plan = none;
  failed_request = none;
  failed = false;
  awaiting_request = none;
  form_context = none;
  pending_request = none;
  change_note = "";
  clarification = [];
  clarify_result = none;
  miss = none;
  reply = "";
  plan = none;
  focus_rank = none;
}

-- _has_ready_plan
abbrev pub has_ready_plan : ChatState → Bool
has_ready_plan s = elim s.last_plan [ none ↦ false | some p ↦ str_eq p.status "ready" ]

-- The goals that a message names: an OptimizeSpec, and the words that are left.
pub record Goals : Type 0 where
  pub spec : Json
  pub explicit : Bool
  pub metrics : ℕ
  pub rest : String

-- What a message changes about a request.
pub record Change : Type 0 where
  pub unknown : Bool
  pub is_empty : Bool
  pub request : Request

-- What chat/rules.py and chat/goals.py read in a message, and the patterns of chat/graph.py.
pub record Rules : Type 0 where
  pub reading : Reading
  pub strip : String → String
  pub lower : String → String
  pub classify : String → Bool → Option Intent
  pub detect : String → Option Goals
  pub pick_candidate : String → List RouteOption → Option RouteOption
  pub starts_with_digit : String → Bool
  pub is_engine_request : String → Bool
  pub is_retry : String → Bool
  pub asks_for_one : String → Bool
  pub is_busy : String → Bool
  -- rules.refine with rules.apply_refinement
  pub refine : String → Request → Option Plan → Change
  pub number_said : String → Option ℕ
  pub ordinals_said : String → List ℕ
  pub label_has : String → String → Bool
  pub label_starts : String → String → Bool
  -- _same_place: the second position is within a few km of the first.
  pub is_near : ℤ × ℤ → ℤ × ℤ → Bool

-- The texts of chat/describe.py and the constants of chat/graph.py.
pub record Texts : Type 0 where
  pub help_text : String
  pub reading : Request → String
  pub line_reading : Request → OneLine → String
  pub optimizing : Request → String
  pub changed : Change → String
  pub not_changed : Change → String
  pub planned : Request → Plan → String
  pub question : Slot → Option String → String
  pub not_found : List Group → String
  pub candidate : RouteOption → String
  pub alternatives : Plan → String
  pub explain : String → Plan → String
  pub sights : List String → String
  pub files : List (String × String) → String

pub data TextFailure : Type 0 where
  unavailable : TextFailure
  plan_error : String → TextFailure

-- The services of `build_chat_graph`. `sights` is none where there are none, and its answer is an
-- error where the lookup is not available.
pub record ChatServices : Type 0 where
  pub plan : Request → Result String Plan
  pub plan_text : String → Result TextFailure Plan
  pub sights : Option (Plan → Result String (List String))
  pub text_enabled : Bool
  pub intent_model : Option (String → Bool → Bool → Option Intent)
