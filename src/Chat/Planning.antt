-- ===== src/Chat/Planning.antt =====
-- chat/graph.py: the nodes that make a request, and the planning step that they share.
use py_bike_router.Base.{
  String, Option, none, some, List, [], ◌∷◌, Bool, true, not, ◌&&◌, ◌||◌, any, take, is_empty,
  str_eq, if◌then◌else◌, Result, ok, err,
}
use py_bike_router.Base.Text.{concat}
use py_bike_router.Chat.Requests.{
  given, Request, request_from_line, empty_request, is_some, is_said,
}
use py_bike_router.Chat.Guided.{Guided, ask, no_draft, Draft, Slot}
use py_bike_router.Chat.Guided
use py_bike_router.Chat.State.{
  Plan, PlanFailure, ChatState, Goals, Change, Rules, Texts, ChatServices, TextFailure, unavailable,
  plan_error,
}

-- a or b, of two that may be missing
abbrev pub or_else {ℓ} : {A : Type ℓ} → Option A → Option A → Option A
or_else none b = b
or_else (some a) b = some a

abbrev pub or_empty : Option Request → Request
or_empty none = empty_request
or_empty (some r) = r

-- sep.join(texts)
abbrev pub join : String → List String → String
join separator [] = ""
join separator (text ∷ []) = text
join separator (text ∷ next ∷ texts) =
    concat text (concat separator (join separator (next ∷ texts)))

abbrev messages_said : List PlanFailure → List String
messages_said [] = []
messages_said (e ∷ es) =
    let rest = messages_said es in if is_said e.message then e.message ∷ rest else rest

abbrev is_gap : PlanFailure → Bool
is_gap e = str_eq e.code "routing_area_not_covered"

abbrev reason : String → String
reason status =
    if str_eq status "no_route"
    then "I could not find a route between those places."
    else if str_eq status "provider_failure"
    then "The routing service failed for this request."
    else if str_eq status "invalid"
    then "That request was not valid."
    else concat "Planning ended with status " (concat status ".")

abbrev gap_text : String
gap_text =
    concat "The routing engine has no map data for part of this trip. In the web form you can "
      "download the tile or plan it with openrouteservice."

abbrev with_detail : String → String → String
with_detail text detail =
    if is_said detail then concat text (concat " (" (concat detail ")")) else text

abbrev dated : Option String → Request → Request
dated none request = request
dated (some time) request = record request { departure_time = some time }

-- The request that the free-text parser understood.
abbrev pub text_request : Plan → Request
text_request p = dated p.departure_time (or_empty p.request)

module _ (rules : Rules) (texts : Texts) where
  abbrev is_busy : Plan → Bool
  is_busy p = str_eq p.status "provider_failure" && any (λ e. rules.is_busy e.message) p.errors

  -- The reply of a plan that did not succeed, without the prefix.
  unfoldable pub failure_text : Plan → String
  failure_text p =
      let gap = any is_gap p.errors in
      with_detail
        (if is_busy p
          then "A service did not answer in time. Asking again usually works."
          else if gap
          then gap_text
          else reason p.status)
        (if gap then "" else join "; " (messages_said (take 2 p.errors)))

  -- The update `base` of _after_plan.
  abbrev settled : ChatState → ChatState
  settled s = record s {
    pending_request = none;
    awaiting_request = none;
    asking = none;
    draft = no_draft;
  }

  abbrev pub plan_ready : Plan → Request → String → ChatState → ChatState
  plan_ready p request prefix s = record (settled s) {
    last_request = some request;
    last_plan = some p;
    failed_request = none;
    plan = some p;
    clarification = [];
    reply = concat prefix (texts.planned request p);
  }

  abbrev pub plan_waits : Plan → Request → String → ChatState → ChatState
  plan_waits p request prefix s = record (settled s) {
    awaiting_request = some request;
    clarification = p.clarification;
    change_note = prefix;
  }

  abbrev pub plan_failed : Plan → Request → String → ChatState → ChatState
  unfolding failure_text
  plan_failed p request prefix s = record (settled s) {
    failed = true;
    failed_request = some request;
    reply = concat prefix (failure_text p);
  }

  -- _after_plan
  unfoldable pub after_plan : Plan → Request → String → ChatState → ChatState
  unfolding failure_text
  after_plan p request prefix s =
      if str_eq p.status "ready"
      then plan_ready p request prefix s
      else if str_eq p.status "awaiting_clarification"
      then plan_waits p request prefix s
      else plan_failed p request prefix s

  abbrev pub planned : Request → Result String Plan → ChatState → ChatState
  planned request (err message) s = record s {
    reply = concat s.change_note (concat "That did not work: " message);
    pending_request = none;
    failed = true;
  }
  planned request (ok p) s = after_plan p request s.change_note s

  -- The node `plan_route`.
  unfoldable pub plan_route : ChatServices → ChatState → ChatState
  unfolding after_plan
  plan_route services s =
      let request = or_empty s.pending_request in planned request (services.plan request) s

  -- The node `plan_one_line`.
  unfoldable pub plan_one_line : ChatState → ChatState
  unfolding request_from_line
  plan_one_line s =
      let line = rules.reading.parse_one_line s.user_text in
      let request = request_from_line rules.reading.place_value line in
      record s {
        pending_request = some request;
        change_note = texts.line_reading request line;
        asking = none;
        draft = no_draft;
      }

  -- `replied` says whether the update holds a reply.
  abbrev noted : List String → (replied : Bool) → ChatState → ChatState
  noted notes replied s =
      if is_empty notes || not replied || not (is_said s.reply) then s else record s {
        reply = concat s.reply (concat " (I noted: " (concat (join "; " (take 3 notes)) ")"));
      }

  abbrev pub text_planned : Result TextFailure Plan → ChatState → ChatState
  text_planned (err unavailable) s = record s {
    reply = concat "Free-text planning is not configured here. " texts.help_text;
    failed = true;
  }
  text_planned (err (plan_error message)) s = record s {
    reply = message;
    failed = true;
    miss = some "text_failed";
  }
  text_planned (ok p) s =
      noted p.notes (not (str_eq p.status "awaiting_clarification"))
        (after_plan p (text_request p) "" s)

  -- The node `plan_text`.
  unfoldable pub plan_text : ChatServices → ChatState → ChatState
  unfolding after_plan
  plan_text services s = text_planned (services.plan_text s.user_text) s

  abbrev pub asked : Result String Guided → ChatState → Result String ChatState
  asked (err key) s = err key
  asked (ok (Guided.plan request)) s = ok (record s {
    pending_request = some request;
    change_note = texts.reading request;
    asking = none;
    draft = no_draft;
  })
  asked (ok (ask draft slot problem unread)) s = ok (record s {
    draft = draft;
    asking = some slot;
    reply = texts.question slot problem;
    miss = if unread then some "unread" else s.miss;
  })

  -- The node `guided`; `err key` is a KeyError.
  unfoldable pub guided : ChatState → Result String ChatState
  guided s = asked (Guided.guided rules.reading s.user_text s.asking s.draft) s

  abbrev changed : Request → ChatState → Change → ChatState
  changed previous s change =
      if change.unknown || change.is_empty
      then record s { miss = some "refine_unknown"; reply = texts.not_changed change }
      else record s { pending_request = some change.request; change_note = texts.changed change }

  abbrev pub refine_from : Option Request → ChatState → ChatState
  refine_from none s = record s {
    reply = concat "There is no route to change yet. " texts.help_text;
  }
  refine_from (some previous) s =
      if rules.is_retry s.user_text && is_some (given s.failed_request)
      then record s { pending_request = some previous; change_note = "Trying again. " }
      else changed previous s (rules.refine s.user_text previous s.last_plan)

  -- The node `refine`: a request that just failed comes before that of the route on screen.
  unfoldable pub refine : ChatState → ChatState
  refine s = refine_from (or_else (given s.failed_request) (given s.last_request)) s

  -- What else the message asks for, applied to the request.
  abbrev with_rest : Goals → Request → Option Plan → Request × String
  with_rest wanted previous last =
      let change = rules.refine wanted.rest previous last in
      if is_said wanted.rest && not change.unknown && not change.is_empty
      then (change.request, texts.changed change)
      else (previous, "")

  abbrev pub optimize_from : Option Request → Option Goals → ChatState → ChatState
  optimize_from (some previous) (some wanted) s =
      let based = with_rest wanted previous none in
      let request = record (based.0) { optimize = some wanted.spec } in
      record s {
        pending_request = some request;
        change_note = concat (based.1) (texts.optimizing request);
      }
  optimize_from previous wanted s = record s {
    reply =
        concat "Plan a route first, then say what to optimise for -- for example "
          "'less traffic but as much asphalt as possible'.";
  }

  -- The node `optimize`.
  unfoldable pub optimize : ChatState → ChatState
  optimize s =
      optimize_from (or_else (given s.last_request) (given s.failed_request))
        (rules.detect s.user_text) s
