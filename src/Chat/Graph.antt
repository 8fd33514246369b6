-- ===== src/Chat/Graph.antt =====
-- chat/graph.py: one turn of a conversation is a walk through the graph. A walk that needs an answer
-- which is not there yet is paused at its node; a list gives the answers that come. LangGraph itself
-- is not in the repository: it is taken to run one node, merge its update and follow the edge.
-- Its own limit on the steps of a walk is the fuel.
pub mod InStep
pub mod Turns
pub mod Quiet
pub mod Ends
use py_bike_router.Base.{
  ℕ, zero, suc, String, Option, none, some, List, [], ◌∷◌, ◌++◌, Bool, true, false, not, ◌&&◌,
  is_empty, if◌then◌else◌, Result, ok, err,
}
use py_bike_router.Chat.Requests.{Request, is_some, is_said}
use py_bike_router.Chat.Guided.{no_draft, Slot, Draft}
use py_bike_router.Chat.Intents.{ingest_intent}
use py_bike_router.Chat.State.{
  Intent, Plan, human, ChatState, Rules, Texts, ChatServices, ClarifyResult, resolved, restart,
  retry, failed, FormContext,
}
use py_bike_router.Chat.Planning
use py_bike_router.Chat.Clarify.{Clarified, waits, goes_on, clarify}
use py_bike_router.Chat.Answers

pub data Node : Type 0 where
  ingest router plan_one_line plan_text guided refine optimize plan_route clarify_place : Node
  alternatives sights explain export reset help finish : Node

abbrev adopt_request : Option Request → ChatState → ChatState
adopt_request none s = s
adopt_request (some request) s = record s { last_request = some request; failed_request = none }

abbrev adopt_plan : Option Plan → ChatState → ChatState
adopt_plan none s = s
adopt_plan (some p) s = record s { last_plan = some p }

abbrev pub adopt_context : Option FormContext → ChatState → ChatState
adopt_context none s = s
adopt_context (some context) s = adopt_plan context.plan (adopt_request context.request s)

-- adopt_form: what is in the web form is what a message refers to.
unfoldable pub adopt_form : ChatState → ChatState
adopt_form s = adopt_context s.form_context s

abbrev left_dialogue : Intent → ChatState → ChatState
left_dialogue Intent.guided s = s
left_dialogue other s = record s { asking = none; draft = no_draft }

abbrev pub begun : String → Intent → ChatState → ChatState
begun text intent s = record (left_dialogue intent s) {
  form_context = none;
  messages = s.messages ++ human text ∷ [];
  intent = some intent;
  reply = "";
  failed = false;
  plan = none;
  focus_rank = none;
  pending_request = none;
  change_note = "";
  clarify_result = none;
  miss = none;
}

-- route_intent
abbrev pub node_of : Intent → Node
node_of Intent.plan = plan_one_line
node_of Intent.plan_text = plan_text
node_of Intent.guided = guided
node_of Intent.refine = refine
node_of Intent.alternatives = alternatives
node_of Intent.sights = sights
node_of Intent.explain = explain
node_of Intent.export = export
node_of Intent.optimize = optimize
node_of Intent.reset = reset
node_of Intent.help = help

unfoldable pub route_intent : Option Intent → Node
route_intent none = help
route_intent (some intent) = node_of intent

-- after_plan: the edge out of plan_text and plan_route.
unfoldable pub after_plan : ChatState → Node
after_plan s =
    if not (is_empty s.clarification) && not (is_said s.reply) then clarify_place else finish

-- after_clarify
unfoldable pub after_clarify : Option ClarifyResult → Node
after_clarify none = finish
after_clarify (some resolved) = plan_route
after_clarify (some restart) = router
after_clarify (some retry) = clarify_place
after_clarify (some failed) = finish

-- after_request_step
unfoldable pub after_request_step : Option Request → Node
after_request_step none = finish
after_request_step (some request) = plan_route

-- The edges: the node after this one, none after the last.
unfoldable pub next_node : Node → ChatState → Option Node
unfolding route_intent after_plan after_clarify after_request_step
next_node ingest s = some router
next_node router s = some (route_intent s.intent)
next_node plan_one_line s = some (after_request_step s.pending_request)
next_node guided s = some (after_request_step s.pending_request)
next_node refine s = some (after_request_step s.pending_request)
next_node optimize s = some (after_request_step s.pending_request)
next_node plan_text s = some (after_plan s)
next_node plan_route s = some (after_plan s)
next_node clarify_place s = some (after_clarify s.clarify_result)
next_node finish s = none
next_node alternatives s = some finish
next_node sights s = some finish
next_node explain s = some finish
next_node export s = some finish
next_node reset s = some finish
next_node help s = some finish

-- What a node comes to: a state with the answers that are left, a pause, or a KeyError.
pub data Stepped : Type 0 where
  done : List String → ChatState → Stepped
  pauses : Stepped
  raises : (key : String) → Stepped

pub data Walk : Type 0 where
  finished : ChatState → Walk
  paused : ChatState → Walk
  raised : (key : String) → Walk
  out_of_fuel : Walk

abbrev first_answer : List String → Option String
first_answer [] = none
first_answer (answer ∷ answers) = some answer

abbrev answers_left : Bool → List String → List String
answers_left true (answer ∷ answers) = answers
answers_left used answers = answers

abbrev clarified : List String → Clarified → Stepped
clarified answers waits = pauses
clarified answers (goes_on used s) = done (answers_left used answers) s

abbrev or_raise : List String → Result String ChatState → Stepped
or_raise answers (err key) = raises key
or_raise answers (ok s) = done answers s

module _ (services : ChatServices) (rules : Rules) (texts : Texts) where
  -- The node `ingest`.
  unfoldable pub take_in : ChatState → ChatState
  unfolding adopt_form
  take_in s =
      let text = rules.strip s.user_text in
      let seen = adopt_form s in
      begun text (ingest_intent rules text seen services.text_enabled services.intent_model) seen

  unfoldable pub run_node : Node → List String → ChatState → Stepped
  unfolding take_in
  run_node ingest answers s = done answers (take_in s)
  run_node router answers s = done answers s
  run_node plan_one_line answers s = done answers (Planning.plan_one_line rules texts s)
  run_node plan_text answers s = done answers (Planning.plan_text rules texts services s)
  run_node guided answers s = or_raise answers (Planning.guided rules texts s)
  run_node refine answers s = done answers (Planning.refine rules texts s)
  run_node optimize answers s = done answers (Planning.optimize rules texts s)
  run_node plan_route answers s = done answers (Planning.plan_route rules texts services s)
  run_node clarify_place answers s =
      clarified answers (clarify rules services texts (first_answer answers) s)
  run_node alternatives answers s = done answers (Answers.alternatives rules texts s)
  run_node sights answers s = done answers (Answers.sights rules texts services s)
  run_node explain answers s = done answers (Answers.explain rules texts s)
  run_node export answers s = done answers (Answers.export rules texts s)
  run_node reset answers s = done answers (Answers.reset rules texts s)
  run_node help answers s = done answers (Answers.help rules texts s)
  run_node finish answers s = done answers (Answers.finish s)

  abbrev pub go_to : (Node → Walk) → ChatState → Option Node → Walk
  go_to walk_on s none = finished s
  go_to walk_on s (some node) = walk_on node

  abbrev pub follow : (Node → List String → ChatState → Walk) → Node → ChatState → Stepped → Walk
  follow walk_on node s pauses = paused s
  follow walk_on node s (raises key) = raised key
  follow walk_on node s (done answers t) =
      go_to (λ next. walk_on next answers t) t (next_node node t)

  unfoldable pub walk : ℕ → Node → List String → ChatState → Walk
  unfolding run_node next_node
  walk zero node answers s = out_of_fuel
  walk (suc fuel) node answers s =
      let stepped = run_node node answers s in
      follow (λ next left t. walk fuel next left t) node s stepped

  -- A turn: the message, and the answers to the questions that it raises.
  unfoldable pub turn : ℕ → String → List String → ChatState → Walk
  unfolding walk
  turn fuel text answers s = walk fuel ingest answers (record s { user_text = text })
