-- ===== src/Chat/Graph/Turns.antt =====
-- chat/graph.py: what a whole turn does to the remembered request and the route on screen.
use py_bike_router.Base.{
  ℕ, zero, suc, String, Option, none, some, List, Bool, true, false, Result, ok, err, ◌≡◌, refl,
  ◌∙◌, arith,
}
use py_bike_router.Chat.State.{FormContext, ChatState, Rules, Texts, ChatServices, Intent}
use py_bike_router.Chat.Intents.{ingest_intent}
use py_bike_router.Chat.Planning
use py_bike_router.Chat.Answers
use py_bike_router.Chat.Clarify.{clarify, Clarified, waits, goes_on}
use py_bike_router.Chat.Guided
use py_bike_router.Chat.Guided.{Guided, ask, plan}
use py_bike_router.Chat.Graph.{
  route_intent, after_plan, after_clarify, after_request_step, Node, adopt_form, adopt_context,
  begun, take_in, run_node, next_node, Stepped, done, pauses, raises, Walk, finished, paused,
  raised, out_of_fuel, follow, go_to, walk, turn, clarified, or_raise, first_answer,
}
use py_bike_router.Chat.Graph.InStep.{
  InStep, same, forgotten, Kept, KeptBy, InStep-trans, plan_route-InStep, plan_text-InStep,
  refine-Kept, optimize-Kept, alternatives-Kept, sights-Kept, explain-Kept, export-Kept,
  clarify-Kept,
}
use py_bike_router.Chat.Graph.Quiet.{Replies, guided-Replies}

-- What the form brings, or what was there.
abbrev pub from_form {ℓ} :
    {A : Type ℓ} → (FormContext → Option A) → Option FormContext → Option A → Option A
from_form part none before = before
from_form part (some context) before = elim (part context) [ some a ↦ some a | none ↦ before ]

module _ (services : ChatServices) (rules : Rules) (texts : Texts) where
  Kept-InStep : (s t : ChatState) → Kept services rules texts s t → InStep services s t
  Kept-InStep s t kept = same kept.0 kept.1

  abbrev StepInStep : ChatState → Stepped → Type 0
  StepInStep s (done answers t) = InStep services s t
  StepInStep s pauses = Unit {0}
  StepInStep s (raises key) = ⊥

  clarified-InStep :
      (answers : List String) (s : ChatState) (c : Clarified)
      → KeptBy services rules texts s c
      → StepInStep s (clarified answers c)
  clarified-InStep answers s waits kept = tt
  clarified-InStep answers s (goes_on used t) kept = Kept-InStep s t kept

  guided-InStep :
      (answers : List String) (s : ChatState)
      → StepInStep s (or_raise answers (Planning.guided rules texts s))
  unfolding Planning.guided
  guided-InStep answers s =
      asked_lem (Guided.guided rules.reading s.user_text s.asking s.draft)
        (guided-Replies rules.reading s.user_text s.asking s.draft)
    where
      asked_lem :
          (result : Result String Guided)
          → Replies result
          → StepInStep s (or_raise answers (Planning.asked rules texts result s))
      asked_lem (err key) replies = replies
      asked_lem (ok (plan request)) replies = same refl refl
      asked_lem (ok (ask draft slot problem unread)) replies = same refl refl

  abbrev is_later : Node → Bool
  is_later Node.ingest = false
  is_later node = true

  -- Every node but `ingest`, which takes over the form.
  run_node-InStep :
      (node : Node) (answers : List String) (s : ChatState)
      → is_later node ≡ true
      → StepInStep s (run_node services rules texts node answers s)
  unfolding run_node Planning.plan_one_line Answers.reset Answers.help Answers.finish
  run_node-InStep Node.ingest answers s other = cc
  run_node-InStep Node.router answers s other = same refl refl
  run_node-InStep Node.plan_one_line answers s other = same refl refl
  run_node-InStep Node.plan_text answers s other = plan_text-InStep services rules texts s
  run_node-InStep Node.guided answers s other = guided-InStep answers s
  run_node-InStep Node.refine answers s other = Kept-InStep s _ (refine-Kept services rules texts s)
  run_node-InStep Node.optimize answers s other =
      Kept-InStep s _ (optimize-Kept services rules texts s)
  run_node-InStep Node.plan_route answers s other = plan_route-InStep services rules texts s
  run_node-InStep Node.clarify_place answers s other =
      clarified-InStep answers s (clarify rules services texts (first_answer answers) s)
        (clarify-Kept services rules texts (first_answer answers) s)
  run_node-InStep Node.alternatives answers s other =
      Kept-InStep s _ (alternatives-Kept services rules texts s)
  run_node-InStep Node.sights answers s other = Kept-InStep s _ (sights-Kept services rules texts s)
  run_node-InStep Node.explain answers s other =
      Kept-InStep s _ (explain-Kept services rules texts s)
  run_node-InStep Node.export answers s other = Kept-InStep s _ (export-Kept services rules texts s)
  run_node-InStep Node.reset answers s other = forgotten refl refl
  run_node-InStep Node.help answers s other = same refl refl
  run_node-InStep Node.finish answers s other = same refl refl

  next_node-is_later :
      (node next : Node) (s : ChatState) → next_node node s ≡ some next → is_later next ≡ true
  unfolding next_node route_intent after_plan after_clarify after_request_step
  next_node-is_later node next s edge = ground arith

  -- A walk is about the state that it comes to. It never raises; where the limit on its steps ends it,
  -- nothing is said.
  abbrev pub WalkInStep : ChatState → Walk → Type 0
  WalkInStep s (finished t) = InStep services s t
  WalkInStep s (paused t) = InStep services s t
  WalkInStep s (raised key) = ⊥
  WalkInStep s out_of_fuel = Unit {0}

  WalkInStep-trans :
      (s t : ChatState) (w : Walk) → InStep services s t → WalkInStep t w → WalkInStep s w
  WalkInStep-trans s t (finished u) first second = InStep-trans services s t u first second
  WalkInStep-trans s t (paused u) first second = InStep-trans services s t u first second
  WalkInStep-trans s t (raised key) first second = second
  WalkInStep-trans s t out_of_fuel first second = tt

  go_to-InStep :
      (node : Node) (s t : ChatState) (walk_on : Node → Walk) (edge : Option Node)
      → next_node node t ≡ edge
      → InStep services s t
      → ((next : Node) → is_later next ≡ true → WalkInStep t (walk_on next))
      → WalkInStep s (go_to services rules texts walk_on t edge)
  go_to-InStep node s t walk_on none leads first goes_on_so = first
  go_to-InStep node s t walk_on (some next) leads first goes_on_so =
      WalkInStep-trans s t (walk_on next) first
        (goes_on_so next (next_node-is_later node next t leads))

  follow-InStep :
      (walk_on : Node → List String → ChatState → Walk) (node : Node) (s : ChatState)
      (stepped : Stepped)
      → StepInStep s stepped
      → ((next : Node) (answers : List String) (t : ChatState)
          → is_later next ≡ true
          → WalkInStep t (walk_on next answers t))
      → WalkInStep s (follow services rules texts walk_on node s stepped)
  follow-InStep walk_on node s pauses first goes_on_so = same refl refl
  follow-InStep walk_on node s (raises key) first goes_on_so = first
  follow-InStep walk_on node s (done answers t) first goes_on_so =
      go_to-InStep node s t (λ next. walk_on next answers t) (next_node node t) refl first
        (λ next later. goes_on_so next answers t later)

  walk-InStep :
      (fuel : ℕ) (node : Node) (answers : List String) (s : ChatState)
      → is_later node ≡ true
      → WalkInStep s (walk services rules texts fuel node answers s)
  unfolding walk
  walk-InStep zero node answers s later = tt
  walk-InStep (suc fuel) node answers s later =
      follow-InStep (λ next left t. walk services rules texts fuel next left t) node s
        (run_node services rules texts node answers s) (run_node-InStep node answers s later)
        (λ next left t. walk-InStep fuel next left t)

begun-Kept :
    (services : ChatServices) (rules : Rules) (texts : Texts) (text : String) (intent : Intent)
    (s : ChatState)
    → Kept services rules texts s (begun text intent s)
begun-Kept services rules texts text intent s = ground arith

adopt_context-Kept :
    (services : ChatServices) (rules : Rules) (texts : Texts) (context : Option FormContext)
    (text : String) (s : ChatState)
    → Kept services rules texts
        (adopt_context context s)
        (adopt_context context (record s { user_text = text }))
adopt_context-Kept services rules texts context text s = ground arith

take_in-Kept :
    (services : ChatServices) (rules : Rules) (texts : Texts) (text : String) (s : ChatState)
    → Kept services rules texts
        (adopt_form s)
        (take_in services rules texts (record s { user_text = text }))
unfolding take_in adopt_form
take_in-Kept services rules texts text s =
    let u = record s { user_text = text } in
    let seen = adopt_context s.form_context u in
    let intent =
      ingest_intent rules (rules.strip text) seen services.text_enabled services.intent_model in
    let first = adopt_context-Kept services rules texts s.form_context text s in
    let second = begun-Kept services rules texts (rules.strip text) intent seen in
    (second.0 ∙ first.0, second.1 ∙ first.1)

-- The state before a turn, with what the form brings: its request and its route, each on its own.
abbrev pub with_form : ChatState → ChatState
with_form s = record s {
  last_request = from_form (λ context. context.request) s.form_context s.last_request;
  last_plan = from_form (λ context. context.plan) s.form_context s.last_plan;
}

adopt_context-with_form :
    (services : ChatServices) (rules : Rules) (texts : Texts) (s : ChatState)
    (context : Option FormContext)
    → s.form_context ≡ context
    → Kept services rules texts (with_form s) (adopt_context context s)
adopt_context-with_form services rules texts s context same_form = ground (arith, same_form)

-- In the state that a turn ends or pauses in, the remembered request and the route on screen are those from
-- before the turn, where a form that came with the message replaces the request, the route, or both,
-- by what it brings; or both are forgotten; or the route is a ready one that the planner answered to exactly
-- this request, or to a text that was read as this request. No turn raises a KeyError. Nothing is said of a turn
-- that the limit on its steps ends.
pub turn-InStep :
    (services : ChatServices) (rules : Rules) (texts : Texts) (fuel : ℕ) (text : String)
    (answers : List String) (s : ChatState)
    → WalkInStep services rules texts (with_form s) (turn services rules texts fuel text answers s)
unfolding turn walk adopt_form
turn-InStep services rules texts zero text answers s = tt
turn-InStep services rules texts (suc fuel) text answers s =
    let t = take_in services rules texts (record s { user_text = text }) in
    let adopted = adopt_context-with_form services rules texts s s.form_context refl in
    let taken = take_in-Kept services rules texts text s in
    WalkInStep-trans services rules texts (with_form s) t
      (walk services rules texts fuel Node.router answers t)
      (Kept-InStep services rules texts (with_form s) t (taken.0 ∙ adopted.0, taken.1 ∙ adopted.1))
      (walk-InStep services rules texts fuel Node.router answers t refl)
