-- ===== src/Chat/Guided/Dialogue.antt =====
-- chat/graph.py: the step-by-step dialogue gets to a complete request.
use py_bike_router.Base.{
  ℕ, suc, ◌+◌, ◌≤◌, ◌<◌, String, Option, none, some, List, [], ◌∷◌, Bool, true, false, ◌⊎◌, Result,
  ok, err, ◌>>=◌, ◌≡◌, ap, ◌∙◌, refl, sym, arith, length,
}
use py_bike_router.Chat.Requests.{Request, is_some}
use py_bike_router.Chat.Guided.{
  Slot, Draft, Reading, next_slot, fill_slot, request_from_draft, Guided, ask, plan, guided, go_on,
  proceed, answered,
}

abbrev missing {ℓ} : {A : Type ℓ} → Option A → ℕ
missing none = 1
missing (some a) = 0

abbrev goal_left : Draft → Option Bool → ℕ
goal_left d none = 2
goal_left d (some true) = missing d.distance
goal_left d (some false) = missing d.destination

-- How many questions the dialogue asks at most before the draft is complete.
abbrev pub questions_left : Draft → ℕ
questions_left d = missing d.origin + goal_left d d.loop + missing d.bike_type

questions_left-bound : (d : Draft) → questions_left d ≤ 4
questions_left-bound d = ground arith

-- The request has a start, and a destination or, for a loop, a length.
abbrev pub IsComplete : Request → Type 0
IsComplete r =
    (is_some r.origin ≡ true)
    × (((r.constraints.return_to_origin ≡ true) × (is_some r.constraints.target_distance ≡ true))
        ⊎ ((r.constraints.return_to_origin ≡ false) × (is_some r.destination ≡ true)))

-- An accepted answer to the open question leaves fewer of them.
fill_slot-questions_left :
    (reading : Reading) (d : Draft) (slot : Slot) (text : String) {filled : Draft}
    → next_slot d ≡ some slot
    → fill_slot reading d slot text ≡ ok filled
    → questions_left filled < questions_left d
unfolding fill_slot next_slot
fill_slot-questions_left reading d slot text asked accepted = ground arith

abbrev pub Completes : Result String Request → Type 0
Completes (err key) = ⊥
Completes (ok r) = IsComplete r

pub request_from_draft-Completes :
    (d : Draft) → next_slot d ≡ none → Completes (request_from_draft d)
unfolding next_slot request_from_draft
request_from_draft-Completes d complete = ground arith

-- What the node makes of an answer: the same question again, with a problem; a later question; or a
-- complete request.
abbrev Progress : Draft → Slot → Result String Guided → Type 0
Progress d slot (err key) = ⊥
Progress d slot (ok (plan r)) = IsComplete r
Progress d slot (ok (ask e next (some problem) unread)) = (e ≡ d) × (next ≡ slot)
Progress d slot (ok (ask e next none unread)) =
    (next_slot e ≡ some next) × (questions_left e < questions_left d)

go_on-planned :
    (d : Draft) (slot : Slot) (request : Result String Request)
    → Completes request
    → Progress d slot (request >>= λ r. ok (plan r))
go_on-planned d slot (err key) complete = complete
go_on-planned d slot (ok r) complete = complete

go_on-Progress :
    (reading : Reading) (d : Draft) (slot : Slot) (raw : String) (filled : Draft)
    → questions_left filled < questions_left d
    → Progress d slot (go_on reading (some slot) raw filled)
go_on-Progress reading d slot raw filled fewer = after (next_slot filled) refl
  where
    after :
        (next : Option Slot)
        → next ≡ next_slot filled
        → Progress d slot (proceed reading (some slot) raw filled next)
    after none same =
        go_on-planned d slot (request_from_draft filled)
          (request_from_draft-Completes filled (sym same))
    after (some later) same = (sym same, fewer)

guided-Progress :
    (reading : Reading) (raw : String) (slot : Slot) (d : Draft)
    → next_slot d ≡ some slot
    → Progress d slot (guided reading raw (some slot) d)
unfolding guided
guided-Progress reading raw slot d asked =
    after (fill_slot reading d slot (reading.clean_slot raw)) refl
  where
    after :
        (filled : Result String Draft)
        → filled ≡ fill_slot reading d slot (reading.clean_slot raw)
        → Progress d slot (answered reading d slot raw filled)
    after (err problem) same = (refl, refl)
    after (ok filled) same =
        go_on-Progress reading d slot raw filled
          (fill_slot-questions_left reading d slot (reading.clean_slot raw) asked (sym same))

-- A conversation: the question that is open after the answers, or the request that they made.
pub data Conversation : Type 0 where
  talking : Slot → Draft → Conversation
  planned : Request → Conversation
  broken : (key : String) → Conversation

abbrev one_if_refused : Option String → ℕ
one_if_refused none = 0
one_if_refused (some problem) = 1

abbrev pub resume : (Slot → Draft → Conversation × ℕ) → Result String Guided → Conversation × ℕ
resume next (err key) = (broken key, 0)
resume next (ok (plan r)) = (planned r, 0)
resume next (ok (ask d slot problem unread)) =
    let rest = next slot d in (rest.0, one_if_refused problem + rest.1)

-- The dialogue over a list of answers, and how many of them were refused.
unfoldable pub converse : Reading → List String → Slot → Draft → Conversation × ℕ
unfolding guided
converse reading [] slot d = (talking slot d, 0)
converse reading (answer ∷ answers) slot d =
    resume (converse reading answers) (guided reading answer (some slot) d)

abbrev pub IsPlanned : Conversation → Type 0
IsPlanned (talking slot d) = ⊥
IsPlanned (planned r) = IsComplete r
IsPlanned (broken key) = ⊥

next_slot-questions_left :
    (d : Draft) (slot : Slot) → next_slot d ≡ some slot → 0 < questions_left d
unfolding next_slot
next_slot-questions_left d slot asked = ground arith

converse-left :
    (reading : Reading) (answers : List String) (slot : Slot) (d : Draft)
    → next_slot d ≡ some slot
    → questions_left d + (converse reading answers slot d).1 ≤ length answers
    → IsPlanned (converse reading answers slot d).0
unfolding converse
converse-left reading [] slot d asked enough =
    absurd (omega (arith, next_slot-questions_left d slot asked))
converse-left reading (answer ∷ answers) slot d asked enough =
    after (λ later e. converse-left reading answers later e) (guided reading answer (some slot) d)
      (guided-Progress reading answer slot d asked) enough
  where
    after :
        ((later : Slot) (e : Draft)
          → next_slot e ≡ some later
          → questions_left e + (converse reading answers later e).1 ≤ length answers
          → IsPlanned (converse reading answers later e).0)
        → (result : Result String Guided) → Progress d slot result
        → questions_left d + (resume (converse reading answers) result).1 ≤ suc (length answers)
        → IsPlanned (resume (converse reading answers) result).0
    after goes_on (err key) progress room = progress
    after goes_on (ok (plan r)) progress room = progress
    after goes_on (ok (ask e later none unread)) progress room =
        goes_on later e progress.0 (omega (arith, progress.1))
    after goes_on (ok (ask e later (some problem) unread)) progress room =
        goes_on later e (ap next_slot progress.0 ∙ asked ∙ ap some (sym progress.1))
          (omega (arith, ap questions_left progress.0))

-- A person who answers the questions one by one has a complete request after at most four accepted
-- answers: whatever the draft, the answers and the open question, if there are at least four more
-- answers than the dialogue refuses, it ends with a request that has a start, and a destination or
-- the length of a loop, and it never reads an answer that is missing.
pub converse-IsPlanned :
    (reading : Reading) (answers : List String) (slot : Slot) (d : Draft)
    → next_slot d ≡ some slot
    → 4 + (converse reading answers slot d).1 ≤ length answers
    → IsPlanned (converse reading answers slot d).0
converse-IsPlanned reading answers slot d asked enough =
    converse-left reading answers slot d asked (omega (arith, questions_left-bound d))
