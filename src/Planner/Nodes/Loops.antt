-- ===== src/Planner/Nodes/Loops.antt =====
-- loops.py, and nodes/route.py `_sized_loop`: a circuit whose road distance is near the goal.
-- Lengths are counted in millionths of a metre; the next chord is rounded down to that unit.
pub mod Sizing
use py_bike_router.Base.{
  ℕ, zero, suc, ◌+◌, ◌-◌, ◌*◌, ◌/◌, ◌%◌, min, max, Option, none, some, Bool, ◌||◌, leb, ltb, ◌==◌,
  if◌then◌else◌, Result, ok, err,
}
use py_bike_router.Base.Int.{pos_part, neg_part}
use py_bike_router.Errors.{Kind}
use py_bike_router.Planner.State.{Candidate}
use py_bike_router.Planner.Constraints.{RouteConstraints, LoopDirection}
use py_bike_router.Planner.Services.{
  Raised, Coordinate, RoutingRequest, RoutingProvider, RouteFailure, LoopPlan, Services,
}

abbrev pub loop_max_routes : ℕ
loop_max_routes = 3

-- LOOP_BEARINGS_DEG[turns % len(LOOP_BEARINGS_DEG)]
abbrev pub bearing_for : ℕ → ℕ
bearing_for turns = 120 * (turns % 3)

-- abs(lat) > 89.5, in units of 1e-7 degrees.
abbrev pub is_polar : Coordinate → Bool
is_polar c = ltb 895_000_000 (pos_part c.lat + neg_part c.lat)

-- The `ValueError`s of `synthesize_loop_vias` are `none`; a direction is one of the two by its type.
unfoldable pub synthesize_loop_vias :
    Services → Coordinate → ℕ → LoopDirection → ℕ → Option LoopPlan
synthesize_loop_vias sv origin target direction bearing =
    if target == 0 || is_polar origin
    then none
    else some (sv.polygon origin target direction bearing)

-- min(max(chord * goal / routed, 0.4 * goal), 1.6 * goal); `none` is the ZeroDivisionError.
unfoldable pub next_chord_target : (chord routed goal : ℕ) → Option ℕ
next_chord_target chord routed goal =
    if routed == 0
    then none
    else some (min (max (chord * goal / routed) (4 * goal / 10)) (16 * goal / 10))

-- abs(routed - goal): the miss is this over the goal.
abbrev pub miss : (goal routed : ℕ) → ℕ
miss goal routed = (routed - goal) + (goal - routed)

-- miss <= LOOP_TOLERANCE
abbrev pub within_tolerance : (goal routed : ℕ) → Bool
within_tolerance goal routed = leb (10 * miss goal routed) goal

-- The best plan so far, with its miss.
abbrev pub Best : Type 0
Best = Option (ℕ × LoopPlan)

abbrev pub better : Best → ℕ → LoopPlan → Best
better none m plan = some (m, plan)
better (some (b, old)) m plan = if ltb m b then some (m, plan) else some (b, old)

abbrev pub plan_of : Best → Option LoopPlan
plan_of none = none
plan_of (some (m, plan)) = some plan

-- How one attempt ends: with the loop's result, or with the loop's variables for the next attempt.
-- `raised` is the `ValueError` of a chord or an origin that no circuit can be drawn for, or a
-- `BaseException` of the engine.
pub data Attempt : Type 0 where
  raised : Raised → Attempt
  stop : Option LoopPlan → Attempt
  next : (chord turns : ℕ) → Best → Attempt

module _ (sv : Services) (provider : RoutingProvider) (origin destination : Coordinate)
    (constraints : RouteConstraints) (goal : ℕ) where
  abbrev pub resized : (turns : ℕ) → Best → Option ℕ → Attempt
  resized turns best none = raised (Raised.other "ZeroDivisionError")
  resized turns best (some chord) = next chord turns best

  -- What follows a route that came back.
  abbrev measured : (attempt chord turns routed : ℕ) → Best → LoopPlan → Attempt
  measured attempt chord turns routed best plan =
      let sized = record plan { routed = some routed; attempts = attempt } in
      let best' = better best (miss goal routed) sized in
      if routed == 0
      then stop (plan_of best)
      else if within_tolerance goal routed
      then stop (plan_of best')
      else resized turns best' (next_chord_target chord routed goal)

  abbrev answered :
      (attempt chord turns : ℕ) → Best → LoopPlan → Result RouteFailure Candidate → Attempt
  answered attempt chord turns best plan (ok c) = measured attempt chord turns c.distance best plan
  answered attempt chord turns best plan (err (RouteFailure.provider_failed e)) = elim e.kind [
    | Kind.coverage ↦ stop none
    | _ ↦ next chord (suc turns) best
  ]
  answered attempt chord turns best plan (err (RouteFailure.unexpected t m)) = stop (plan_of best)
  answered attempt chord turns best plan (err (RouteFailure.cancelled m)) = raised (Raised.other m)

  abbrev request_for : LoopPlan → RoutingRequest
  request_for plan = record {
    origin = origin;
    destination = destination;
    via = plan.vias;
    constraints = constraints;
  }

  -- One pass of the loop's body.
  unfoldable pub attempt_loop : (attempt chord turns : ℕ) → Best → Attempt
  unfolding synthesize_loop_vias next_chord_target
  attempt_loop attempt chord turns best =
      elim (synthesize_loop_vias sv origin chord constraints.loop_direction (bearing_for turns)) [
        | none ↦ raised Raised.value_error
        | some plan ↦
            answered attempt chord turns best plan (provider.route attempt (request_for plan))
      ]

  -- `left` attempts remain; the attempt's number is counted up from 1.
  unfoldable pub size_loop : (left attempt chord turns : ℕ) → Best → Result Raised (Option LoopPlan)
  size_loop zero attempt chord turns best = ok (plan_of best)
  size_loop (suc left) attempt chord turns best = elim (attempt_loop attempt chord turns best) [
    | raised e ↦ err e
    | stop result ↦ ok result
    | next chord' turns' best' ↦ size_loop left (suc attempt) chord' turns' best'
  ]

  unfoldable pub sized_loop : Result Raised (Option LoopPlan)
  unfolding size_loop attempt_loop
  sized_loop = size_loop loop_max_routes 1 goal 0 none
