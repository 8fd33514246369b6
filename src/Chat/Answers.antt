-- ===== src/Chat/Answers.antt =====
-- chat/graph.py: the nodes that work with the route on screen, and the end of a turn.
use py_bike_router.Base.{
  ℕ, ◌+◌, ◌-◌, String, Option, none, some, List, [], ◌∷◌, ◌++◌, ◌&&◌, drop, is_empty, length, ltb,
  str_eq, if◌then◌else◌, Result, ok, err,
}
use py_bike_router.Base.Text.{concat}
use py_bike_router.Chat.Guided.{Slot, no_draft}
use py_bike_router.Chat.State.{Plan, RouteOption, ai, ChatState, Rules, Texts, ChatServices}

-- A plan that is there and ready.
abbrev ready : Option Plan → Option Plan
ready none = none
ready (some p) = if str_eq p.status "ready" then some p else none

module _ (rules : Rules) (texts : Texts) where
  abbrev offer : Plan → Option RouteOption → ChatState → ChatState
  offer p (some picked) s = record s {
    reply = texts.candidate picked;
    plan = some p;
    focus_rank = picked.rank;
  }
  offer p none s =
      if rules.asks_for_one s.user_text && ltb 1 (length p.candidates)
      then record s {
        reply = concat "I could not tell which one you mean.\n" (texts.alternatives p);
      }
      else record s { reply = texts.alternatives p; plan = some p }

  abbrev offer_ready : Option Plan → ChatState → ChatState
  offer_ready none s = record s { reply = concat "There is no route yet. " texts.help_text }
  offer_ready (some p) s = offer p (rules.pick_candidate s.user_text p.candidates) s

  -- The node `alternatives`.
  unfoldable pub alternatives : ChatState → ChatState
  alternatives s = offer_ready (ready s.last_plan) s

  abbrev found : Result String (List String) → ChatState → ChatState
  found (err error) s = record s {
    reply = "The sight lookup is not available right now. Try again in a moment.";
  }
  found (ok []) s = record s { reply = "I found no well-known sights along this route." }
  found (ok (row ∷ rows)) s = record s { reply = texts.sights (row ∷ rows) }

  abbrev not_here : ChatState → ChatState
  not_here s = record s { reply = "Sights along a route are not available here." }

  abbrev look_along :
      Option (Plan → Result String (List String)) → Option Plan → ChatState → ChatState
  look_along none last s = not_here s
  look_along (some along) none s = not_here s
  look_along (some along) (some p) s = if ltb p.line_points 2 then not_here s else found (along p) s

  -- The node `sights`.
  unfoldable pub sights : ChatServices → ChatState → ChatState
  sights services s = look_along services.sights s.last_plan s

  abbrev explained : Option Plan → ChatState → ChatState
  explained none s = record s {
    reply = concat "There is no route to talk about yet. " texts.help_text;
  }
  explained (some p) s = record s { reply = texts.explain s.user_text p }

  -- The node `explain`.
  unfoldable pub explain : ChatState → ChatState
  explain s = explained (ready s.last_plan) s

  abbrev files_of : Option Plan → List (String × String)
  files_of none = []
  files_of (some p) = p.artifacts

  -- The node `export`.
  unfoldable pub export : ChatState → ChatState
  export s =
      if is_empty (files_of s.last_plan)
      then record s { reply = "There is no route file yet. Plan a route first." }
      else record s { reply = texts.files (files_of s.last_plan) }

  -- The node `reset`.
  unfoldable pub reset : ChatState → ChatState
  reset s = record s {
    draft = no_draft;
    asking = some Slot.origin;
    last_request = none;
    last_plan = none;
    failed_request = none;
    awaiting_request = none;
    clarification = [];
    reply = concat "Okay, starting over. " (texts.question Slot.origin none);
  }

  -- The node `help`.
  unfoldable pub help : ChatState → ChatState
  help s = record s { reply = texts.help_text }

-- MAX_KEPT_MESSAGES
abbrev pub max_kept_messages : ℕ
max_kept_messages = 40

-- The node `finish`: the oldest messages beyond the limit are removed.
unfoldable pub finish : ChatState → ChatState
finish s = record s {
  messages = drop (length s.messages + 1 - max_kept_messages) s.messages ++ ai s.reply ∷ [];
}
