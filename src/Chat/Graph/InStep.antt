-- ===== src/Chat/Graph/InStep.antt =====
-- chat/graph.py: the remembered request and the route on screen change together.
use py_bike_router.Base.{
  find, String, Option, none, some, List, [], ◌∷◌, true, Bool-cases, inl, inr, ◌⊎◌, str_eq, Result,
  ok, err, ◌≡◌, refl, ◌∙◌, arith,
}
use py_bike_router.Chat.Requests.{Request}
use py_bike_router.Chat.State.{
  Group, PlaceCandidate, Plan, ChatState, Rules, Texts, ChatServices, TextFailure, unavailable,
  plan_error,
}
use py_bike_router.Chat.Planning
use py_bike_router.Chat.Answers
use py_bike_router.Chat.Clarify.{
  clarify, Clarified, waits, goes_on, misread, interrupted, answer_choice, choose, same_place,
  clarify_among, clarify_group, has_candidates, offered,
}
use py_bike_router.Chat.Guided.{Guided}

-- How the remembered request and the route on screen come about: they are those of before; they are
-- forgotten together; or the planner answered this request, or the text, with this route.
pub data InStep (services : ChatServices) (s t : ChatState) : Type 0 where
  same : t.last_request ≡ s.last_request → t.last_plan ≡ s.last_plan → InStep services s t
  forgotten : t.last_request ≡ none → t.last_plan ≡ none → InStep services s t
  planned :
      (request : Request) (p : Plan)
      → services.plan request ≡ ok p
      → str_eq p.status "ready" ≡ true
      → t.last_request ≡ some request
      → t.last_plan ≡ some p
      → InStep services s t
  planned_text :
      (text : String) (p : Plan)
      → services.plan_text text ≡ ok p
      → str_eq p.status "ready" ≡ true
      → t.last_request ≡ some (Planning.text_request p)
      → t.last_plan ≡ some p
      → InStep services s t

pub InStep-trans :
    (services : ChatServices) (s t u : ChatState)
    → InStep services s t
    → InStep services t u
    → InStep services s u
InStep-trans services s t u first (same e f) = elim first [
  | same g h ↦ same (e ∙ g) (f ∙ h)
  | forgotten g h ↦ forgotten (e ∙ g) (f ∙ h)
  | planned request p answer ready g h ↦ planned request p answer ready (e ∙ g) (f ∙ h)
  | planned_text text p answer ready g h ↦ planned_text text p answer ready (e ∙ g) (f ∙ h)
]
InStep-trans services s t u first (forgotten e f) = forgotten e f
InStep-trans services s t u first (planned request p answer ready e f) =
    planned request p answer ready e f
InStep-trans services s t u first (planned_text text p answer ready e f) =
    planned_text text p answer ready e f

module _ (services : ChatServices) (rules : Rules) (texts : Texts) where
  -- A plan that was made for the request: the route on screen, or nothing changes.
  abbrev Shows : Request → Plan → ChatState → ChatState → Type 0
  Shows request p s t =
      ((str_eq p.status "ready" ≡ true) × (t.last_request ≡ some request) × (t.last_plan ≡ some p))
      ⊎ ((t.last_request ≡ s.last_request) × (t.last_plan ≡ s.last_plan))

  after_plan-Shows :
      (request : Request) (p : Plan) (prefix : String) (s : ChatState)
      → Shows request p s (Planning.after_plan rules texts p request prefix s)
  unfolding Planning.after_plan
  after_plan-Shows request p prefix s = ground arith

  planned-InStep :
      (s : ChatState) (request : Request) (result : Result String Plan)
      → services.plan request ≡ result
      → InStep services s (Planning.planned rules texts request result s)
  planned-InStep s request (err message) answer = same refl refl
  planned-InStep s request (ok p) answer = elim (after_plan-Shows request p s.change_note s) [
    | inl shown ↦ planned request p answer shown.0 shown.1 shown.2
    | inr kept ↦ same kept.0 kept.1
  ]

  pub plan_route-InStep :
      (s : ChatState) → InStep services s (Planning.plan_route rules texts services s)
  unfolding Planning.plan_route
  plan_route-InStep s =
      let request = Planning.or_empty s.pending_request in
      planned-InStep s request (services.plan request) refl

  text_planned-Shows :
      (s : ChatState) (p : Plan)
      → Shows (Planning.text_request p) p s (Planning.text_planned rules texts (ok p) s)
  text_planned-Shows s p = ground (arith, after_plan-Shows (Planning.text_request p) p "" s)

  text_planned-InStep :
      (s : ChatState) (text : String) (result : Result TextFailure Plan)
      → services.plan_text text ≡ result
      → InStep services s (Planning.text_planned rules texts result s)
  text_planned-InStep s text (err unavailable) answer = same refl refl
  text_planned-InStep s text (err (plan_error message)) answer = same refl refl
  text_planned-InStep s text (ok p) answer = elim (text_planned-Shows s p) [
    | inl shown ↦ planned_text text p answer shown.0 shown.1 shown.2
    | inr kept ↦ same kept.0 kept.1
  ]

  pub plan_text-InStep :
      (s : ChatState) → InStep services s (Planning.plan_text rules texts services s)
  unfolding Planning.plan_text
  plan_text-InStep s = text_planned-InStep s s.user_text (services.plan_text s.user_text) refl

  abbrev pub Kept : ChatState → ChatState → Type 0
  Kept s t = (t.last_request ≡ s.last_request) × (t.last_plan ≡ s.last_plan)

  asked-Kept :
      (s t : ChatState) (result : Result String Guided)
      → Planning.asked rules texts result s ≡ ok t
      → Kept s t
  asked-Kept s t result reached = ground arith

  pub refine-Kept : (s : ChatState) → Kept s (Planning.refine rules texts s)
  unfolding Planning.refine
  refine-Kept s = ground arith

  pub optimize-Kept : (s : ChatState) → Kept s (Planning.optimize rules texts s)
  unfolding Planning.optimize
  optimize-Kept s = ground arith

  pub alternatives-Kept : (s : ChatState) → Kept s (Answers.alternatives rules texts s)
  unfolding Answers.alternatives
  alternatives-Kept s = ground arith

  pub sights-Kept : (s : ChatState) → Kept s (Answers.sights rules texts services s)
  unfolding Answers.sights
  sights-Kept s = ground arith

  pub explain-Kept : (s : ChatState) → Kept s (Answers.explain rules texts s)
  unfolding Answers.explain
  explain-Kept s = ground arith

  pub export-Kept : (s : ChatState) → Kept s (Answers.export rules texts s)
  unfolding Answers.export
  export-Kept s = ground arith

  abbrev pub KeptBy : ChatState → Clarified → Type 0
  KeptBy s waits = Unit {0}
  KeptBy s (goes_on used t) = Kept s t

  misread-Kept : (text : String) (s : ChatState) → Kept s (misread rules services text s)
  misread-Kept text s = ground arith

  interrupted-Kept :
      (g : Group) (candidates : List PlaceCandidate) (answer : Option String) (s : ChatState)
      → KeptBy s (interrupted rules services g candidates answer s)
  interrupted-Kept g candidates none s = tt
  interrupted-Kept g candidates (some answer) s =
      chosen (choose rules (rules.strip answer) candidates)
    where
      chosen :
          (choice : Option PlaceCandidate)
          → Kept s (answer_choice rules services g (rules.strip answer) choice s)
      chosen none = misread-Kept (rules.strip answer) s
      chosen (some c) = (refl, refl)

  clarify_among-Kept :
      (g : Group) (candidates : List PlaceCandidate) (answer : Option String) (s : ChatState)
      → KeptBy s (clarify_among rules services g candidates answer s)
  clarify_among-Kept g [] answer s = tt
  clarify_among-Kept g (c ∷ cs) answer s = elim (Bool-cases (same_place rules (c ∷ cs))) [
    | inl near ↦ rw near (refl, refl)
    | inr far ↦ rw far (interrupted-Kept g (c ∷ cs) answer s)
  ]

  pub clarify-Kept :
      (answer : Option String) (s : ChatState) → KeptBy s (clarify rules services texts answer s)
  unfolding clarify
  clarify-Kept answer s = grouped (find has_candidates s.clarification)
    where
      grouped : (o : Option Group) → KeptBy s (clarify_group rules services texts o answer s)
      grouped none = (refl, refl)
      grouped (some g) = clarify_among-Kept g (offered rules g) answer s
