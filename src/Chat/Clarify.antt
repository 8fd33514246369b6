-- ===== src/Chat/Clarify.antt =====
-- chat/graph.py: the node `clarify`, which asks which of several places was meant.
use py_bike_router.Base.{
  ℕ, ◌-◌, String, Option, none, some, List, [], ◌∷◌, ◌++◌, Bool, true, false, not, ◌&&◌, all,
  filter, find, take, map, get_elem?, is_empty, length, leb, str_eq, if◌then◌else◌,
}
use py_bike_router.Base.Int.{ℤ}
use py_bike_router.Base.Text.{codes, concat}
use py_bike_router.Chat.Requests.{given, Place, named, position, Request, is_said}
use py_bike_router.Chat.Planning.{or_else, or_empty}
use py_bike_router.Chat.Intents.{decide_intent}
use py_bike_router.Chat.State.{
  Intent, PlaceCandidate, Group, ChatState, Rules, Texts, ChatServices, resolved, restart, retry,
  failed, human,
}

abbrev pub has_candidates : Group → Bool
has_candidates g = not (is_empty g.candidates)

-- [g for g in groups if g is not group], of the first group with candidates
abbrev pub rest_of : List Group → List Group
rest_of [] = []
rest_of (g ∷ gs) = let rest = rest_of gs in if has_candidates g then gs else g ∷ rest

abbrev place_of : ℤ × ℤ → Place
place_of (lon, lat) = position lon lat

-- The walk is interrupted until the person answers.
pub data Clarified : Type 0 where
  waits : Clarified
  goes_on : (used_answer : Bool) → ChatState → Clarified

module _ (rules : Rules) where
  abbrev trimmed : String → String
  trimmed text = rules.lower (rules.strip text)

  abbrev is_typed : String → Place → Bool
  is_typed wanted (named text) = str_eq (trimmed text) wanted
  is_typed wanted place = false

  abbrev put : String → Place → Place → Place
  put wanted place value = if is_typed wanted value then place else value

  abbrev put_option : String → Place → Option Place → Option Place
  put_option wanted place none = none
  put_option wanted place (some value) = some (put wanted place value)

  -- _replace_place
  unfoldable pub replace_place : Request → String → PlaceCandidate → Request
  replace_place request field_ candidate =
      let wanted = trimmed field_ in
      let place = place_of candidate.coordinate in
      record request {
        origin = put_option wanted place request.origin;
        destination = put_option wanted place request.destination;
        via = map (put wanted place) request.via;
      }

  -- _same_place
  unfoldable pub same_place : List PlaceCandidate → Bool
  same_place [] = false
  same_place (first ∷ others) = all (λ c. rules.is_near first.coordinate c.coordinate) others

  abbrev the_one : List PlaceCandidate → Option PlaceCandidate
  the_one (c ∷ []) = some c
  the_one cs = none

  abbrev by_label : String → List PlaceCandidate → Option PlaceCandidate
  by_label t candidates =
      if leb 3 (length (codes t))
      then the_one (filter (λ c. rules.label_has t c.label) candidates)
      else none

  abbrev by_ordinal : String → List PlaceCandidate → Option ℕ → Option PlaceCandidate
  by_ordinal t candidates none = by_label t candidates
  by_ordinal t candidates (some rank) = get_elem? candidates (rank - 1)

  abbrev in_list : List PlaceCandidate → ℕ → Bool
  in_list candidates n = leb 1 n && leb n (length candidates)

  abbrev by_number : String → List PlaceCandidate → Option ℕ → Option PlaceCandidate
  by_number t candidates none =
      by_ordinal t candidates (find (λ rank. leb rank (length candidates)) (rules.ordinals_said t))
  by_number t candidates (some n) =
      if in_list candidates n
      then get_elem? candidates (n - 1)
      else by_ordinal t candidates
          (find (λ rank. leb rank (length candidates)) (rules.ordinals_said t))

  -- _choose
  unfoldable pub choose : String → List PlaceCandidate → Option PlaceCandidate
  choose text candidates = let t = trimmed text in by_number t candidates (rules.number_said t)

  -- The candidates that are offered: those whose label starts with the typed name, if there are any.
  unfoldable pub offered : Group → List PlaceCandidate
  offered g =
      let candidates = take 5 g.candidates in
      let typed = trimmed g.field_ in
      let with_name = filter (λ c. rules.label_starts typed c.label) candidates in
      if is_said typed && not (is_empty with_name) then with_name else candidates

  abbrev pub resolve : Group → PlaceCandidate → ChatState → ChatState
  resolve g c s = record s {
    pending_request = some (
        replace_place (or_empty (or_else (given s.awaiting_request) (given s.last_request)))
          g.field_ c);
    clarification = rest_of s.clarification;
    clarify_result = some resolved;
  }

  abbrev restarts : Intent → Bool
  restarts Intent.reset = true
  restarts Intent.help = true
  restarts Intent.plan = true
  restarts other = false

  abbrev pub misread : ChatServices → String → ChatState → ChatState
  misread services text s =
      let followup = decide_intent rules text (record s { asking = none }) services.text_enabled in
      if restarts followup
      then record s {
        user_text = text;
        intent = some followup;
        clarification = [];
        clarify_result = some restart;
      }
      else record s { clarify_result = some retry }

  abbrev pub answer_choice :
      ChatServices → Group → String → Option PlaceCandidate → ChatState → ChatState
  answer_choice services g text none s = misread services text s
  answer_choice services g text (some c) s = record (resolve g c s) {
    messages = s.messages ++ human text ∷ [];
  }

  -- The answer that the interrupt returns, if there is one yet.
  abbrev pub interrupted :
      ChatServices → Group → List PlaceCandidate → Option String → ChatState → Clarified
  interrupted services g candidates none s = waits
  interrupted services g candidates (some answer) s =
      let text = rules.strip answer in
      goes_on true (answer_choice services g text (choose text candidates) s)

  abbrev pub clarify_among :
      ChatServices → Group → List PlaceCandidate → Option String → ChatState → Clarified
  clarify_among services g [] answer s = waits
  clarify_among services g (c ∷ cs) answer s =
      if same_place (c ∷ cs)
      then goes_on false (resolve g c s)
      else interrupted services g (c ∷ cs) answer s

  abbrev pub clarify_group :
      ChatServices → Texts → Option Group → Option String → ChatState → Clarified
  clarify_group services texts none answer s = goes_on false (record s {
    clarification = [];
    clarify_result = some failed;
    failed = true;
    reply = concat s.change_note (texts.not_found s.clarification);
  })
  clarify_group services texts (some g) answer s = clarify_among services g (offered g) answer s

  -- The node `clarify`.
  unfoldable pub clarify : ChatServices → Texts → Option String → ChatState → Clarified
  unfolding offered choose same_place replace_place
  clarify services texts answer s =
      clarify_group services texts (find has_candidates s.clarification) answer s
