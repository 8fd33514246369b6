-- ===== src/Chat/Graph/Quiet.antt =====
-- chat/graph.py: what the nodes do in a turn in which no place has several candidates to choose from.
use py_bike_router.Base.{
  ℕ, zero, suc, ◌+◌, ◌-◌, ◌≤◌, String, Option, none, some, List, [], ◌∷◌, if◌then◌else◌, length,
  drop, find, ap, length-append, Result, ok, err, ◌>>=◌, ◌≡◌, refl, ◌∙◌, arith,
}
use py_bike_router.Chat.Requests.{Request}
use py_bike_router.Chat.State.{
  Plan, ChatState, Rules, Texts, ChatServices, TextFailure, unavailable, plan_error, Intent, ai,
  FormContext, Group,
}
use py_bike_router.Chat.Clarify.{has_candidates, clarify}
use py_bike_router.Chat.Intents.{ingest_intent}
use py_bike_router.Chat.Planning
use py_bike_router.Chat.Answers
use py_bike_router.Chat.Guided
use py_bike_router.Chat.Guided.{
  Guided, ask, plan, Slot, Draft, proceed, go_on, answered, fill_slot, next_slot,
  request_from_draft, seeded, Reading,
}
use py_bike_router.Chat.Guided.Dialogue.{Completes, request_from_draft-Completes}
use py_bike_router.Chat.Graph.{
  Node, adopt_form, adopt_context, begun, take_in, next_node, route_intent, after_plan,
  after_request_step, after_clarify, clarified, first_answer, Stepped, done, pauses, raises, Walk,
  finished, walk, or_raise,
}

-- The node `guided` never raises a KeyError.
abbrev pub Replies : Result String Guided → Type 0
Replies (err key) = ⊥
Replies (ok g) = Unit {0}

planned-Replies :
    (request : Result String Request) → Completes request → Replies (request >>= λ r. ok (plan r))
planned-Replies (err key) complete = complete
planned-Replies (ok r) complete = tt

proceed-Replies :
    (reading : Reading) (asking : Option Slot) (raw : String) (d : Draft) (next : Option Slot)
    → next_slot d ≡ next
    → Replies (proceed reading asking raw d next)
proceed-Replies reading asking raw d none complete =
    planned-Replies (request_from_draft d) (request_from_draft-Completes d complete)
proceed-Replies reading asking raw d (some slot) asked = tt

answered-Replies :
    (reading : Reading) (d : Draft) (slot : Slot) (raw : String) (filled : Result String Draft)
    → Replies (answered reading d slot raw filled)
answered-Replies reading d slot raw (err problem) = tt
answered-Replies reading d slot raw (ok e) =
    proceed-Replies reading (some slot) raw e (next_slot e) refl

pub guided-Replies :
    (reading : Reading) (raw : String) (asking : Option Slot) (d : Draft)
    → Replies (Guided.guided reading raw asking d)
unfolding Guided.guided
guided-Replies reading raw none d =
    let e =
      if reading.has_question_mark raw
      then d
      else seeded reading (reading.parse_one_line raw) raw d in
    proceed-Replies reading none raw e (next_slot e) refl
guided-Replies reading raw (some slot) d =
    answered-Replies reading d slot raw (fill_slot reading d slot (reading.clean_slot raw))

-- No group has candidates: each place is clear, or was not found at all.
abbrev pub NoChoice : List Group → Type 0
NoChoice groups = find has_candidates groups ≡ none

-- How many nodes are left at most, from this one on, where there is nothing to choose.
abbrev pub height : Node → ℕ
height Node.ingest = 6
height Node.router = 5
height Node.plan_one_line = 4
height Node.guided = 4
height Node.refine = 4
height Node.optimize = 4
height Node.plan_route = 3
height Node.plan_text = 3
height Node.finish = 1
height node = 2

-- Only the planning step has a request to plan.
abbrev pub HasPending : Node → ChatState → Type 0
HasPending Node.ingest s = Unit {0}
HasPending Node.plan_route s = Unit {0}
HasPending node s = s.pending_request ≡ none

-- The end of a turn: no request waits to be planned, and at most 40 messages are kept.
abbrev pub IsOver : Walk → Type 0
IsOver (finished t) = (t.pending_request ≡ none) × (length t.messages ≤ 40)
IsOver walk = ⊥

abbrev pub EdgeQuiet : ℕ → ChatState → Option Node → Type 0
EdgeQuiet left t none = (t.pending_request ≡ none) × (length t.messages ≤ 40)
EdgeQuiet left t (some next) = NoChoice t.clarification × HasPending next t × (height next ≤ left)

abbrev pub StepQuiet : ℕ → Node → Stepped → Type 0
StepQuiet left node (done answers t) = EdgeQuiet left t (next_node node t)
StepQuiet left node pauses = ⊥
StepQuiet left node (raises key) = ⊥

length-drop {ℓ} : {A : Type ℓ} (n : ℕ) (xs : List A) → length (drop n xs) ≡ length xs - n
length-drop zero xs = omega arith
length-drop (suc n) [] = omega arith
length-drop (suc n) (x ∷ xs) = omega (arith, length-drop n xs)

pub finish-messages : (s : ChatState) → length (Answers.finish s).messages ≤ 40
unfolding Answers.finish
finish-messages s =
    let excess = length s.messages + 1 - 40 in
    omega (
      arith,
      length-append (drop excess s.messages) (ai s.reply ∷ []),
      length-drop excess s.messages,
    )

pub finish-pending : (s : ChatState) → (Answers.finish s).pending_request ≡ s.pending_request
unfolding Answers.finish
finish-pending s = refl

pub after_request-Quiet :
    (left : ℕ) (t : ChatState)
    → 3 ≤ left
    → NoChoice t.clarification
    → EdgeQuiet left t (some (after_request_step t.pending_request))
unfolding after_request_step
after_request-Quiet left t room clear = ground arith

pub after_plan-Quiet :
    (left : ℕ) (t : ChatState)
    → 2 ≤ left
    → NoChoice t.clarification
    → t.pending_request ≡ none
    → EdgeQuiet left t (some (after_plan t))
unfolding after_plan
after_plan-Quiet left t room clear settled = ground arith

begun-clear :
    (text : String) (intent : Intent) (s : ChatState)
    → (begun text intent s).clarification ≡ s.clarification
begun-clear text intent s = ground arith

adopt_context-clear :
    (context : Option FormContext) (s : ChatState)
    → (adopt_context context s).clarification ≡ s.clarification
adopt_context-clear context s = ground arith

module _ (services : ChatServices) (rules : Rules) (texts : Texts) where
  after_plan-settled :
      (request : Request) (p : Plan) (prefix : String) (s : ChatState)
      → NoChoice p.clarification
      → NoChoice s.clarification
      → NoChoice (Planning.after_plan rules texts p request prefix s).clarification
        × ((Planning.after_plan rules texts p request prefix s).pending_request ≡ none)
  unfolding Planning.after_plan
  after_plan-settled request p prefix s clear quiet = ground arith

  abbrev pub Settled : ChatState → Type 0
  Settled t = NoChoice t.clarification × (t.pending_request ≡ none)

  pub planned-Settled :
      (s : ChatState) (request : Request) (result : Result String Plan)
      → ((p : Plan) → result ≡ ok p → NoChoice p.clarification)
      → NoChoice s.clarification
      → Settled (Planning.planned rules texts request result s)
  planned-Settled s request (err message) clear quiet = (quiet, refl)
  planned-Settled s request (ok p) clear quiet =
      after_plan-settled request p s.change_note s (clear p refl) quiet

  pub text_planned-Settled :
      (s : ChatState) (result : Result TextFailure Plan)
      → ((p : Plan) → result ≡ ok p → NoChoice p.clarification)
      → Settled s
      → Settled (Planning.text_planned rules texts result s)
  text_planned-Settled s (err unavailable) clear quiet = quiet
  text_planned-Settled s (err (plan_error message)) clear quiet = quiet
  text_planned-Settled s (ok p) clear quiet =
      let request = Planning.text_request p in
      ground (arith, after_plan-settled request p "" s (clear p refl) quiet.0)

  asked-clear :
      (s t : ChatState) (result : Result String Guided)
      → Planning.asked rules texts result s ≡ ok t
      → t.clarification ≡ s.clarification
  asked-clear s t result reached = ground arith

  asked-Quiet :
      (left : ℕ) (answers : List String) (s : ChatState) (result : Result String Guided)
      → 3 ≤ left
      → Replies result
      → NoChoice s.clarification
      → StepQuiet left Node.guided (or_raise answers (Planning.asked rules texts result s))
  unfolding next_node
  asked-Quiet left answers s (err key) room replies quiet = replies
  asked-Quiet left answers s (ok g) room replies quiet =
      reached (Planning.asked rules texts (ok g) s) refl
    where
      reached :
          (o : Result String ChatState)
          → Planning.asked rules texts (ok g) s ≡ o
          → StepQuiet left Node.guided (or_raise answers o)
      reached (err key) never = ground arith
      reached (ok t) same =
          after_request-Quiet left t room
            (ap (find has_candidates) (asked-clear s t (ok g) same) ∙ quiet)

  pub guided-Quiet :
      (left : ℕ) (answers : List String) (s : ChatState)
      → 3 ≤ left
      → NoChoice s.clarification
      → StepQuiet left Node.guided (or_raise answers (Planning.guided rules texts s))
  unfolding Planning.guided
  guided-Quiet left answers s room quiet =
      asked-Quiet left answers s (Guided.guided rules.reading s.user_text s.asking s.draft) room
        (guided-Replies rules.reading s.user_text s.asking s.draft) quiet

  pub refine-clear :
      (s : ChatState) → (Planning.refine rules texts s).clarification ≡ s.clarification
  unfolding Planning.refine
  refine-clear s = ground arith

  pub optimize-clear :
      (s : ChatState) → (Planning.optimize rules texts s).clarification ≡ s.clarification
  unfolding Planning.optimize
  optimize-clear s = ground arith

  abbrev pub SameWaits : ChatState → ChatState → Type 0
  SameWaits s t = (t.clarification ≡ s.clarification) × (t.pending_request ≡ s.pending_request)

  pub alternatives-SameWaits : (s : ChatState) → SameWaits s (Answers.alternatives rules texts s)
  unfolding Answers.alternatives
  alternatives-SameWaits s = ground arith

  pub sights-SameWaits : (s : ChatState) → SameWaits s (Answers.sights rules texts services s)
  unfolding Answers.sights
  sights-SameWaits s = ground arith

  pub explain-SameWaits : (s : ChatState) → SameWaits s (Answers.explain rules texts s)
  unfolding Answers.explain
  explain-SameWaits s = ground arith

  pub export-SameWaits : (s : ChatState) → SameWaits s (Answers.export rules texts s)
  unfolding Answers.export
  export-SameWaits s = ground arith

  pub last-Quiet :
      (left : ℕ) (s t : ChatState)
      → 1 ≤ left
      → Settled s
      → SameWaits s t
      → EdgeQuiet left t (some Node.finish)
  last-Quiet left s t room quiet same = ground arith

  pub router-Quiet :
      (left : ℕ) (s : ChatState) (intent : Option Intent)
      → 4 ≤ left
      → Settled s
      → EdgeQuiet left s (some (route_intent intent))
  unfolding route_intent
  router-Quiet left s intent room quiet = ground arith

  pub take_in-clear :
      (s : ChatState)
      → NoChoice s.clarification
      → NoChoice (take_in services rules texts s).clarification
  unfolding take_in adopt_form
  take_in-clear s quiet =
      ap (find has_candidates) (
        begun-clear (rules.strip s.user_text)
          (ingest_intent rules (rules.strip s.user_text) (adopt_context s.form_context s)
            services.text_enabled services.intent_model)
          (adopt_context s.form_context s)
        ∙ adopt_context-clear s.form_context s)
      ∙ quiet

  -- Where no place has candidates, the person is told what was not found, and not asked.
  pub clarify-Quiet :
      (left : ℕ) (answers : List String) (s : ChatState)
      → 1 ≤ left
      → Settled s
      → StepQuiet left Node.clarify_place
          (clarified answers (clarify rules services texts (first_answer answers) s))
  unfolding clarify next_node after_clarify
  clarify-Quiet left answers s room quiet = rw quiet.0 (refl, quiet.1, room)
