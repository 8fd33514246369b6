-- ===== src/Chat/Graph/Ends.antt =====
-- chat/graph.py: a turn in which there is nothing to choose comes to its end.
use py_bike_router.Base.{
  ℕ, zero, suc, ◌≤◌, String, Option, none, some, List, find, ap, ok, ◌≡◌, refl, ◌∙◌, arith,
}
use py_bike_router.Chat.Requests.{Request}
use py_bike_router.Chat.State.{Plan, ChatState, Rules, Texts, ChatServices}
use py_bike_router.Chat.Clarify.{has_candidates}
use py_bike_router.Chat.Planning
use py_bike_router.Chat.Answers
use py_bike_router.Chat.Graph.{
  Node, run_node, next_node, Stepped, done, pauses, raises, Walk, follow, go_to, walk, turn,
}
use py_bike_router.Chat.Graph.Quiet.{
  NoChoice, clarify-Quiet, height, HasPending, IsOver, EdgeQuiet, StepQuiet, Settled,
  finish-messages, finish-pending, after_request-Quiet, after_plan-Quiet, planned-Settled,
  text_planned-Settled, guided-Quiet, refine-clear, optimize-clear, alternatives-SameWaits,
  sights-SameWaits, explain-SameWaits, export-SameWaits, last-Quiet, router-Quiet, take_in-clear,
}

-- The services never answer with candidates to choose from; they may answer that a place was not found.
abbrev IsUnambiguous : ChatServices → Type 0
IsUnambiguous services =
    ((request : Request) (p : Plan) → services.plan request ≡ ok p → NoChoice p.clarification)
    × ((text : String) (p : Plan) → services.plan_text text ≡ ok p → NoChoice p.clarification)

module _ (services : ChatServices) (rules : Rules) (texts : Texts)
    (clear : IsUnambiguous services) where
  plan_route-Settled :
      (s : ChatState)
      → NoChoice s.clarification
      → Settled services rules texts (Planning.plan_route rules texts services s)
  unfolding Planning.plan_route
  plan_route-Settled s quiet =
      let request = Planning.or_empty s.pending_request in
      planned-Settled services rules texts s request (services.plan request) (clear.0 request) quiet

  plan_text-Settled :
      (s : ChatState)
      → Settled services rules texts s
      → Settled services rules texts (Planning.plan_text rules texts services s)
  unfolding Planning.plan_text
  plan_text-Settled s quiet =
      text_planned-Settled services rules texts s (services.plan_text s.user_text)
        (clear.1 s.user_text) quiet

  run_node-Quiet :
      (left : ℕ) (node : Node) (answers : List String) (s : ChatState)
      → height node ≤ suc left
      → NoChoice s.clarification
      → HasPending node s
      → StepQuiet left node (run_node services rules texts node answers s)
  unfolding run_node next_node Planning.plan_one_line Answers.reset Answers.help
  run_node-Quiet left Node.ingest answers s high quiet settled =
      (take_in-clear services rules texts s quiet, refl, omega (arith, high))
  run_node-Quiet left Node.router answers s high quiet settled =
      router-Quiet services rules texts left s s.intent (omega (arith, high)) (quiet, settled)
  run_node-Quiet left Node.plan_one_line answers s high quiet settled =
      after_request-Quiet left (Planning.plan_one_line rules texts s) (omega (arith, high)) quiet
  run_node-Quiet left Node.plan_text answers s high quiet settled =
      let t = Planning.plan_text rules texts services s in
      let done_ = plan_text-Settled s (quiet, settled) in
      after_plan-Quiet left t (omega (arith, high)) done_.0 done_.1
  run_node-Quiet left Node.guided answers s high quiet settled =
      guided-Quiet services rules texts left answers s (omega (arith, high)) quiet
  run_node-Quiet left Node.refine answers s high quiet settled =
      after_request-Quiet left (Planning.refine rules texts s) (omega (arith, high))
        (ap (find has_candidates) (refine-clear services rules texts s) ∙ quiet)
  run_node-Quiet left Node.optimize answers s high quiet settled =
      after_request-Quiet left (Planning.optimize rules texts s) (omega (arith, high))
        (ap (find has_candidates) (optimize-clear services rules texts s) ∙ quiet)
  run_node-Quiet left Node.plan_route answers s high quiet settled =
      let t = Planning.plan_route rules texts services s in
      let done_ = plan_route-Settled s quiet in
      after_plan-Quiet left t (omega (arith, high)) done_.0 done_.1
  run_node-Quiet left Node.clarify_place answers s high quiet settled =
      clarify-Quiet services rules texts left answers s (omega (arith, high)) (quiet, settled)
  run_node-Quiet left Node.alternatives answers s high quiet settled =
      last-Quiet services rules texts left s (Answers.alternatives rules texts s)
        (omega (arith, high)) (quiet, settled) (alternatives-SameWaits services rules texts s)
  run_node-Quiet left Node.sights answers s high quiet settled =
      last-Quiet services rules texts left s (Answers.sights rules texts services s)
        (omega (arith, high)) (quiet, settled) (sights-SameWaits services rules texts s)
  run_node-Quiet left Node.explain answers s high quiet settled =
      last-Quiet services rules texts left s (Answers.explain rules texts s) (omega (arith, high))
        (quiet, settled) (explain-SameWaits services rules texts s)
  run_node-Quiet left Node.export answers s high quiet settled =
      last-Quiet services rules texts left s (Answers.export rules texts s) (omega (arith, high))
        (quiet, settled) (export-SameWaits services rules texts s)
  run_node-Quiet left Node.reset answers s high quiet settled = (refl, settled, omega (arith, high))
  run_node-Quiet left Node.help answers s high quiet settled = (quiet, settled, omega (arith, high))
  run_node-Quiet left Node.finish answers s high quiet settled =
      (finish-pending s ∙ settled, finish-messages s)

  go_to-IsOver :
      (left : ℕ) (walk_on : Node → Walk) (t : ChatState) (edge : Option Node)
      → EdgeQuiet left t edge
      → ((next : Node)
          → height next ≤ left
          → NoChoice t.clarification
          → HasPending next t
          → IsOver (walk_on next))
      → IsOver (go_to services rules texts walk_on t edge)
  go_to-IsOver left walk_on t none quiet goes_on = quiet
  go_to-IsOver left walk_on t (some next) quiet goes_on = goes_on next quiet.2 quiet.0 quiet.1

  follow-IsOver :
      (left : ℕ) (walk_on : Node → List String → ChatState → Walk) (node : Node) (s : ChatState)
      (stepped : Stepped)
      → StepQuiet left node stepped
      → ((next : Node) (answers : List String) (t : ChatState)
          → height next ≤ left
          → NoChoice t.clarification
          → HasPending next t
          → IsOver (walk_on next answers t))
      → IsOver (follow services rules texts walk_on node s stepped)
  follow-IsOver left walk_on node s pauses quiet goes_on = quiet
  follow-IsOver left walk_on node s (raises key) quiet goes_on = quiet
  follow-IsOver left walk_on node s (done answers t) quiet goes_on =
      go_to-IsOver left (λ next. walk_on next answers t) t (next_node node t) quiet
        (λ next low calm waits. goes_on next answers t low calm waits)

  walk-IsOver :
      (fuel : ℕ) (node : Node) (answers : List String) (s : ChatState)
      → height node ≤ fuel
      → NoChoice s.clarification
      → HasPending node s
      → IsOver (walk services rules texts fuel node answers s)
  unfolding walk
  walk-IsOver zero node answers s high quiet waits = ground arith
  walk-IsOver (suc fuel) node answers s high quiet waits =
      follow-IsOver fuel (λ next left t. walk services rules texts fuel next left t) node s
        (run_node services rules texts node answers s)
        (run_node-Quiet fuel node answers s high quiet waits)
        (λ next left t low calm pending. walk-IsOver fuel next left t low calm pending)

-- Where neither the state nor a plan of the turn has a place with candidates to choose from, a turn is
-- over after at most six nodes: it does not raise and does not wait for an answer, its pending_request is
-- none, and at most 40 messages are kept. Places that were not found may be among the clarifications.
pub turn-IsOver :
    (services : ChatServices) (rules : Rules) (texts : Texts) (text : String)
    (answers : List String) (s : ChatState)
    → ((request : Request) (p : Plan) → services.plan request ≡ ok p → NoChoice p.clarification)
    → ((said : String) (p : Plan) → services.plan_text said ≡ ok p → NoChoice p.clarification)
    → NoChoice s.clarification
    → IsOver (turn services rules texts 6 text answers s)
unfolding turn
turn-IsOver services rules texts text answers s clear clear_text quiet =
    walk-IsOver services rules texts (clear, clear_text) 6 Node.ingest answers
      (record s { user_text = text }) (omega arith) quiet tt
