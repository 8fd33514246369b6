-- ===== src/Chat/Intents.antt =====
-- chat/graph.py: which way a message goes.
use py_bike_router.Base.{
  String, Option, none, some, List, [], Bool, true, false, not, ◌&&◌, ◌||◌, leb, ltb, ◌==◌, length,
  if◌then◌else◌,
}
use py_bike_router.Base.Text.{codes}
use py_bike_router.Chat.Requests.{given, OneLine, is_complete, is_some, is_said}
use py_bike_router.Chat.State.{
  Intent, plan, plan_text, guided, refine, alternatives, optimize, reset, help, ChatState,
  has_ready_plan, Goals, RouteOption, Rules,
}

-- fallback_intent
unfoldable pub fallback_intent : String → Bool → Intent
fallback_intent text text_enabled =
    if text_enabled && leb 8 (length (codes text)) then plan_text else guided

module _ (rules : Rules) where
  abbrev is_followup_part : String → Bool
  is_followup_part part = is_said part && is_some (rules.classify part true)

  -- _reads_as_followup
  unfoldable pub reads_as_followup : OneLine → Bool → Bool
  reads_as_followup line has_plan =
      has_plan
      && (is_followup_part line.origin
          || is_followup_part line.destination
          || (is_said line.destination && rules.starts_with_digit line.destination))

  abbrev shown : ChatState → List RouteOption
  shown s = elim s.last_plan [ none ↦ [] | some p ↦ p.candidates ]

  -- One goal that names a route already fetched picks it.
  abbrev names_shown : String → List RouteOption → Option Goals → Bool
  names_shown text options none = false
  names_shown text options (some wanted) =
      not wanted.explicit
      && wanted.metrics == 1
      && ltb 1 (length options)
      && is_some (rules.pick_candidate text options)

  abbrev adjusted : String → ChatState → Option Intent → Option Intent
  adjusted text s (some optimize) =
      if names_shown text (shown s) (rules.detect text) then some alternatives else some optimize
  adjusted text s followup = followup

  -- The rules after the line and the goals.
  abbrev late_intent : String → ChatState → Option Intent → Option Intent
  late_intent text s followup =
      if is_some s.asking && not (has_ready_plan s && is_some followup)
      then some guided
      else if rules.is_engine_request text && (has_ready_plan s || is_some (given s.failed_request))
      then some refine
      else if rules.is_retry text && is_some (given s.failed_request)
      then some refine
      else followup

  abbrev early_intent : String → ChatState → Option Intent → Option Intent
  early_intent text s (some reset) = some reset
  early_intent text s (some help) = some help
  early_intent text s followup =
      let line = rules.reading.parse_one_line text in
      if is_complete line && not (reads_as_followup line (has_ready_plan s))
      then some plan
      else late_intent text s (adjusted text s followup)

  -- rule_intent: `none` when the rules give up.
  unfoldable pub rule_intent : String → ChatState → Option Intent
  unfolding reads_as_followup is_complete
  rule_intent text s = early_intent text s (rules.classify text (has_ready_plan s))

  abbrev or_fallback : String → Bool → Option Intent → Intent
  or_fallback text text_enabled none = fallback_intent text text_enabled
  or_fallback text text_enabled (some intent) = intent

  -- decide_intent
  unfoldable pub decide_intent : String → ChatState → Bool → Intent
  unfolding rule_intent fallback_intent
  decide_intent text s text_enabled = or_fallback text text_enabled (rule_intent text s)

  abbrev asked_model :
      String
      → ChatState
      → Option (String → Bool → Bool → Option Intent)
      → Option Intent
      → Option Intent
  asked_model text s model (some intent) = some intent
  asked_model text s none none = none
  asked_model text s (some classify) none =
      classify text (has_ready_plan s) (is_some (given s.failed_request))

  -- The intent that `ingest` gives a message.
  unfoldable pub ingest_intent :
      String → ChatState → Bool → Option (String → Bool → Bool → Option Intent) → Intent
  unfolding rule_intent fallback_intent
  ingest_intent text s text_enabled model =
      or_fallback text text_enabled (asked_model text s model (rule_intent text s))
