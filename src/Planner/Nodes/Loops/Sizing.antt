-- ===== src/Planner/Nodes/Loops/Sizing.antt =====
-- nodes/route.py `_sized_loop` and loops.py `next_chord_target`: what is known of a loop that was sized.
use py_bike_router.Base.{
  ℕ, zero, suc, ◌+◌, ◌*◌, ◌/◌, ◌≤◌, ◌<◌, min, max, ==_iff, ◌≡◌, refl, subst, inl, inr, Bool-cases,
  Option-cases, Option, none, some, arith, ltb, ◌==◌, Result, ok, err, ok-injective,
}
use native.Mathlib.Nat.{le-div_iff_mul-le}
use py_bike_router.Errors.{Kind}
use py_bike_router.Planner.State.{Candidate}
use py_bike_router.Planner.Constraints.{RouteConstraints}
use py_bike_router.Planner.Services.{Coordinate, RoutingProvider, RouteFailure, LoopPlan, Services}
use py_bike_router.Planner.Nodes.Loops.{
  next_chord_target, miss, within_tolerance, Best, better, plan_of, Attempt, raised, stop, next,
  resized, measured, answered, request_for, attempt_loop, size_loop, sized_loop,
  synthesize_loop_vias, bearing_for, loop_max_routes,
}

-- The next chord: within 0.4 and 1.6 of the goal, and inside these bounds the chord whose ratio to the
-- last one is that of the goal to the last route, rounded down.
abbrev pub IsScaled : (chord routed goal n : ℕ) → Type 0
IsScaled chord routed goal n =
    (4 * goal / 10 ≤ n)
    × (n ≤ 16 * goal / 10)
    × (4 * goal / 10 < n → n * routed ≤ chord * goal)
    × (n < 16 * goal / 10 → chord * goal < (n + 1) * routed)

clamped-IsScaled :
    (chord routed goal : ℕ)
    → 1 ≤ routed
    → IsScaled chord routed goal
        (min (max (chord * goal / routed) (4 * goal / 10)) (16 * goal / 10))
clamped-IsScaled chord routed goal some_route =
    let n = min (max (chord * goal / routed) (4 * goal / 10)) (16 * goal / 10) in
    (
      omega arith,
      omega arith,
      (λ above.
          (le-div_iff_mul-le {k = routed} {x = n} {y = chord * goal} some_route).0
            (omega (arith, above))),
      (λ below.
          let quotient : ¬ (n + 1 ≤ chord * goal / routed) = λ more. omega (arith, below, more) in
          not_le_lem (chord * goal) ((n + 1) * routed) (λ least.
            quotient (
              (le-div_iff_mul-le {k = routed} {x = n + 1} {y = chord * goal} some_route).1 least))),
    )
  where
    not_le_lem : (a b : ℕ) → ¬ (b ≤ a) → a < b
    not_le_lem a b other = omega (arith, other)

-- After a route with a length, the chord to draw next is the last one scaled by the goal over this length,
-- rounded down, unless this is below 0.4 or above 1.6 of the goal, which are then taken. After a route
-- of length 0 the function raises.
pub next_chord_target-IsScaled :
    (chord routed goal : ℕ)
    → (routed ≡ 0 → next_chord_target chord routed goal ≡ none)
      × (1 ≤ routed
          → (n : ℕ) × (next_chord_target chord routed goal ≡ some n) × IsScaled chord routed goal n)
unfolding next_chord_target
next_chord_target-IsScaled chord routed goal = elim (Bool-cases (routed == 0)) [
  | inl e ↦
      rw e ((λ _. refl), (λ some_route. absurd (ground (arith, e, some_route, ==_iff routed 0))))
  | inr e ↦ rw e (
    (λ zero_route. absurd (ground (arith, e, zero_route, ==_iff routed 0))),
    (λ some_route. (
      min (max (chord * goal / routed) (4 * goal / 10)) (16 * goal / 10),
      refl,
      clamped-IsScaled chord routed goal some_route,
    )),
  )
]

module _ (sv : Services) (provider : RoutingProvider) (origin destination : Coordinate)
    (constraints : RouteConstraints) (goal : ℕ) where
  -- The plan is one that the engine has routed, at one of the first `n` attempts: it records the
  -- attempt and the length of that route.
  pub record Routed (n : ℕ) (plan : LoopPlan) : Type 0 where
    pub route : Candidate
    pub answered :
        provider.route plan.attempts
          (request_for sv provider origin destination constraints goal plan)
        ≡ ok route
    pub recorded : plan.routed ≡ some route.distance
    pub first : 1 ≤ plan.attempts
    pub last : plan.attempts ≤ n

  RoutedBest : ℕ → Best → Type 0
  RoutedBest n none = Unit
  RoutedBest n (some (m, plan)) = Routed n plan

  RoutedPlan : ℕ → Option LoopPlan → Type 0
  RoutedPlan n none = Unit
  RoutedPlan n (some plan) = Routed n plan

  RoutedAttempt : ℕ → Attempt → Type 0
  RoutedAttempt n (raised e) = Unit
  RoutedAttempt n (stop plan) = RoutedPlan n plan
  RoutedAttempt n (next chord turns best) = RoutedBest n best

  Routed-le : (n m : ℕ) (plan : LoopPlan) → n ≤ m → Routed n plan → Routed m plan
  Routed-le n m plan le r = record {
    route = r.route;
    answered = r.answered;
    recorded = r.recorded;
    first = r.first;
    last = omega (arith, r.last, le);
  }

  RoutedBest-le : (n m : ℕ) (best : Best) → n ≤ m → RoutedBest n best → RoutedBest m best
  unfolding RoutedBest
  RoutedBest-le n m none le r = tt
  RoutedBest-le n m (some (b, plan)) le r = Routed-le n m plan le r

  RoutedPlan-le : (n m : ℕ) (plan : Option LoopPlan) → n ≤ m → RoutedPlan n plan → RoutedPlan m plan
  unfolding RoutedPlan
  RoutedPlan-le n m none le r = tt
  RoutedPlan-le n m (some plan) le r = Routed-le n m plan le r

  RoutedBest-plan : (n : ℕ) (best : Best) → RoutedBest n best → RoutedPlan n (plan_of best)
  unfolding RoutedBest RoutedPlan
  RoutedBest-plan n none r = tt
  RoutedBest-plan n (some (m, plan)) r = r

  RoutedBest-better :
      (n : ℕ) (best : Best) (m : ℕ) (plan : LoopPlan)
      → RoutedBest n best
      → Routed n plan
      → RoutedBest n (better best m plan)
  unfolding RoutedBest
  RoutedBest-better n none m plan r q = q
  RoutedBest-better n (some (b, old)) m plan r q = elim (Bool-cases (ltb m b)) [
    | inl e ↦ rw e q
    | inr e ↦ rw e r
  ]

  resized-RoutedAttempt :
      (n turns : ℕ) (best : Best) (chord : Option ℕ)
      → RoutedBest n best
      → RoutedAttempt n (resized sv provider origin destination constraints goal turns best chord)
  unfolding RoutedAttempt
  resized-RoutedAttempt n turns best none r = tt
  resized-RoutedAttempt n turns best (some chord) r = r

  measured-RoutedAttempt :
      (attempt chord turns : ℕ) (best : Best) (plan : LoopPlan) (c : Candidate)
      → 1 ≤ attempt
      → provider.route attempt (request_for sv provider origin destination constraints goal plan)
        ≡ ok c
      → RoutedBest attempt best
      → RoutedAttempt attempt (
          measured sv provider origin destination constraints goal attempt chord turns c.distance
            best plan)
  unfolding RoutedAttempt
  measured-RoutedAttempt attempt chord turns best plan c least a r =
      let sized : LoopPlan = record plan { routed = some c.distance; attempts = attempt } in
      let q : Routed attempt sized = record {
        route = c;
        answered = a;
        recorded = refl;
        first = least;
        last = omega arith;
      } in
      let b = RoutedBest-better attempt best (miss goal c.distance) sized r q in
      elim (Bool-cases (c.distance == 0)) [
        | inl e ↦ rw e (RoutedBest-plan attempt best r)
        | inr e ↦ elim (Bool-cases (within_tolerance goal c.distance)) [
          | inl f ↦ rw (e, f) (RoutedBest-plan attempt _ b)
          | inr f ↦
              rw (e, f)
                (resized-RoutedAttempt attempt turns (better best (miss goal c.distance) sized)
                  (next_chord_target chord c.distance goal) b)
        ]
      ]

  failed-RoutedAttempt :
      (attempt chord turns : ℕ) (best : Best) (k : Kind)
      → RoutedBest attempt best
      → RoutedAttempt attempt
          (elim k [ Kind.coverage ↦ stop none | _ ↦ next chord (suc turns) best ])
  unfolding RoutedAttempt RoutedPlan
  failed-RoutedAttempt attempt chord turns best Kind.coverage r = tt
  failed-RoutedAttempt attempt chord turns best k r = r

  answered-RoutedAttempt :
      (attempt chord turns : ℕ) (best : Best) (plan : LoopPlan) (a : Result RouteFailure Candidate)
      → 1 ≤ attempt
      → provider.route attempt (request_for sv provider origin destination constraints goal plan)
        ≡ a
      → RoutedBest attempt best
      → RoutedAttempt attempt
          (answered sv provider origin destination constraints goal attempt chord turns best plan a)
  unfolding RoutedAttempt
  answered-RoutedAttempt attempt chord turns best plan (ok c) least e r =
      measured-RoutedAttempt attempt chord turns best plan c least e r
  answered-RoutedAttempt attempt chord turns best plan (err (RouteFailure.provider_failed x)) least
        e r =
      failed-RoutedAttempt attempt chord turns best x.kind r
  answered-RoutedAttempt attempt chord turns best plan (err (RouteFailure.unexpected t m)) least e
        r =
      RoutedBest-plan attempt best r
  answered-RoutedAttempt attempt chord turns best plan (err (RouteFailure.cancelled m)) least e r =
      tt

  attempt_loop-RoutedAttempt :
      (attempt chord turns : ℕ) (best : Best)
      → 1 ≤ attempt
      → RoutedBest attempt best
      → RoutedAttempt attempt
          (attempt_loop sv provider origin destination constraints goal attempt chord turns best)
  unfolding attempt_loop RoutedAttempt
  attempt_loop-RoutedAttempt attempt chord turns best least r =
      elim (Option-cases
        (synthesize_loop_vias sv origin chord constraints.loop_direction (bearing_for turns))) [
          | inl e ↦ rw (e, attempt_loop) tt
          | inr (plan, e) ↦
              rw (e, attempt_loop)
                (answered-RoutedAttempt attempt chord turns best plan _ least refl r)
        ]

  size_loop-Routed :
      (left n chord turns : ℕ) (best : Best) (plan : Option LoopPlan)
      → RoutedBest n best
      → size_loop sv provider origin destination constraints goal left (suc n) chord turns best
        ≡ ok plan
      → RoutedPlan (n + left) plan
  unfolding size_loop RoutedAttempt
  size_loop-Routed zero n chord turns best plan r h =
      subst (RoutedPlan (n + zero)) (ok-injective _ plan h)
        (RoutedPlan-le n (n + zero) _ (omega arith) (RoutedBest-plan n best r))
  size_loop-Routed (suc left) n chord turns best plan r h =
      (elim (attempt_loop sv provider origin destination constraints goal (suc n) chord turns best)
          as (λ a.
            RoutedAttempt (suc n) a
            → (elim a [
              | raised e ↦ err e
              | stop result ↦ ok result
              | next chord' turns' best' ↦
                  size_loop sv provider origin destination constraints goal left (suc (suc n))
                    chord' turns' best'
            ])
              ≡ ok plan
            → RoutedPlan (n + suc left) plan) [
              | raised e ↦ λ ra eq. cc
              | stop result ↦ λ ra eq.
                  subst (RoutedPlan (n + suc left)) (ok-injective result plan eq)
                    (RoutedPlan-le (suc n) (n + suc left) result (omega arith) ra)
              | next chord' turns' best' ↦ λ ra eq.
                  RoutedPlan-le (suc n + left) (n + suc left) plan (omega arith)
                    (size_loop-Routed left (suc n) chord' turns' best' plan ra eq)
            ])
        (attempt_loop-RoutedAttempt (suc n) chord turns best (omega arith)
          (RoutedBest-le n (suc n) best (omega arith) r))
        h

  -- A plan that the sizing of a loop returns was routed by the engine, with the waypoints of this very
  -- plan, at one of at most three attempts, and it records the attempt and the length of that route.
  pub sized_loop-Routed :
      (plan : LoopPlan)
      → sized_loop sv provider origin destination constraints goal ≡ ok (some plan)
      → Routed loop_max_routes plan
  unfolding sized_loop RoutedPlan RoutedBest
  sized_loop-Routed plan h = size_loop-Routed loop_max_routes 0 goal 0 none (some plan) tt h
