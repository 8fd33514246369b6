-- ===== src/Optimizer/Engine/Winner.antt =====
-- optimizer/engine.py: the candidate that wins.

use py_bike_router.Base.{
  ℕ, String, ==_iff, Option, some, List, [], ◌∷◌, Bool, true, false, ◌&&◌, map, any, filter, All,
  Bool-cases, inl, inr, ◌⊎◌, is_empty, get_elem?, ok, ◌≡◌, refl, ap, ◌∙◌, subst, arith,
}
use py_bike_router.Base.Every.{All-filter}
use py_bike_router.Optimizer.Metrics.{Arithmetic, MetricName, RouteCandidate}
use py_bike_router.Optimizer.Engine.{
  OptimizeSpec, Limits, ActiveGoal, Entry, Outcome, numbered, pool_of, left_out, active_goals,
  dropped_goals, entry_of, shortest_from, in_detour, meets_limits, is_feasible, in_order, concluded,
  choose, optimize, Goal, goal_phrase, rationale, pareto_of,
}
use py_bike_router.Base.Text.{concat}
use py_bike_router.Optimizer.Engine.Order.{reported-ok}
use py_bike_router.Optimizer.Engine.Sequence.{
  IsOrdered, IsBest, member-All, HasGoalOrZeros, in_order-IsBest, entry_of-HasGoalOrZeros,
}

module _ {F : Type 0} (float : Arithmetic F) where
  -- The rationale of the winner.
  abbrev pub best_fit : List (Goal F) → Entry F → String
  best_fit goals w = concat "optimizer: utility " (
      concat (float.shown w.utility)
        (concat " for " (concat (goal_phrase goals) " -- the best fit")))

  -- Where the winner stands: first of the candidates that come back, with rank 1 and its rationale, within
  -- the cap on detours, and within the hard limits unless no candidate in the cap is; and none that is
  -- has a higher utility.
  abbrev pub Wins : OptimizeSpec F → Option (Limits F) → Outcome F → Type 0
  Wins spec limits o =
      (get_elem? o.ordered 0
        ≡ some (record o.winner.candidate {
          rank = some 1;
          rank_rationale = some (best_fit spec.goals o.winner);
        }))
      × IsBest float o.winner o.feasible
      × (in_detour float o.shortest spec o.winner ≡ true)
      × ((meets_limits float limits o.winner ≡ true)
          ⊎ All (λ e. meets_limits float limits e ≡ false) o.feasible)

module _ {F : Type 0} (float : Arithmetic F) (order : IsOrdered float) where
  feasible_limits :
      (shortest : F) (spec : OptimizeSpec F) (limits : Option (Limits F)) (pool : List (Entry F))
      (w : Entry F)
      → is_feasible float shortest spec limits pool w ≡ true
      → (in_detour float shortest spec w ≡ true)
        × ((meets_limits float limits w ≡ true)
            ⊎ (any (λ p. in_detour float shortest spec p && meets_limits float limits p) pool
                ≡ false))
  unfolding is_feasible
  feasible_limits shortest spec limits pool w feasible = ground arith

  any-All :
      (test : Entry F → Bool) (es : List (Entry F))
      → any test es ≡ false
      → All (λ e. test e ≡ false) es
  any-All test [] never = tt
  any-All test (e ∷ es) never = (ground arith, any-All test es (ground arith))

  filter-All :
      (test : Entry F → Bool) (es : List (Entry F)) → All (λ e. test e ≡ true) (filter test es)
  filter-All test [] = tt
  filter-All test (e ∷ es) = elim (Bool-cases (test e)) [
    | inl held ↦ rw held (held, filter-All test es)
    | inr lost ↦ rw lost (filter-All test es)
  ]

  none_meets :
      (shortest : F) (spec : OptimizeSpec F) (limits : Option (Limits F)) (pool : List (Entry F))
      → any (λ p. in_detour float shortest spec p && meets_limits float limits p) pool ≡ false
      → All
          (λ e. meets_limits float limits e ≡ false)
          (filter (is_feasible float shortest spec limits pool) pool)
  none_meets shortest spec limits pool never =
      let test = λ (p : Entry F). in_detour float shortest spec p && meets_limits float limits p in
      All-filter (λ e. test e ≡ false) (λ e. meets_limits float limits e ≡ false)
        (is_feasible float shortest spec limits pool)
        (λ e feasible unmet.
          ground (arith, (feasible_limits shortest spec limits pool e feasible).0, unmet))
        pool (any-All test pool never)

  winner-rationale :
      (goals : List (Goal F)) (feasible : Entry F → Bool) (pareto : List (Entry F)) (w : Entry F)
      → feasible w ≡ true
      → rationale float goals feasible pareto w w ≡ best_fit float goals w
  winner-rationale goals feasible pareto w held = rw (held, (==_iff w.index w.index).1 refl) refl

  concluded-Wins :
      (spec : OptimizeSpec F) (limits : Option (Limits F)) (active : List (ActiveGoal F))
      (dropped : List MetricName) (shortest : F) (pool : List (Entry F))
      (duplicates : List (ℕ × RouteCandidate F)) (sequence : List (Entry F)) {o : Outcome F}
      → HasGoalOrZeros float order active pool
      → in_order float active (is_feasible float shortest spec limits pool) pool ≡ sequence
      → concluded float spec.goals active dropped shortest
          (is_feasible float shortest spec limits pool)
          pool
          duplicates
          sequence
        ≡ ok o
      → is_empty o.feasible ≡ false
      → Wins float spec limits o
  concluded-Wins spec limits active dropped shortest pool duplicates [] goals same chosen full = cc
  concluded-Wins spec limits active dropped shortest pool duplicates (w ∷ others) {o} goals same
        chosen full =
      subst (Wins float spec limits) (reported-ok float shortest _ o chosen) (
        ap (λ text. some (record w.candidate { rank = some 1; rank_rationale = some text }))
            (winner-rationale spec.goals feasible (pareto_of float active (filter feasible pool)) w
              held),
        best,
        allowed.0,
        within allowed.1,
      )
    where
      feasible : Entry F → Bool
      feasible = is_feasible float shortest spec limits pool

      best : IsBest float w (filter feasible pool)
      best =
          in_order-IsBest float order active feasible pool w others goals
            (ap (λ (x : Outcome F). is_empty x.feasible) (reported-ok float shortest _ o chosen)
              ∙ full)
            same

      held : feasible w ≡ true
      held =
          member-All float order (λ e. feasible e ≡ true) (λ e. hlevel) (filter feasible pool)
            (filter-All feasible pool) w best.0

      allowed :
          (in_detour float shortest spec w ≡ true)
          × ((meets_limits float limits w ≡ true)
              ⊎ (any (λ p. in_detour float shortest spec p && meets_limits float limits p) pool
                  ≡ false))
      allowed = feasible_limits shortest spec limits pool w held

      within :
          (meets_limits float limits w ≡ true)
            ⊎ (any (λ p. in_detour float shortest spec p && meets_limits float limits p) pool
                ≡ false)
          → (meets_limits float limits w ≡ true)
            ⊎ All (λ e. meets_limits float limits e ≡ false) (filter feasible pool)
      within (inl met) = inl met
      within (inr unmet) = inr (none_meets shortest spec limits pool unmet)

  choose-Wins :
      (spec : OptimizeSpec F) (limits : Option (Limits F))
      (pool duplicates : List (ℕ × RouteCandidate F)) {o : Outcome F}
      → choose float spec limits pool duplicates ≡ ok o
      → is_empty o.feasible ≡ false
      → Wins float spec limits o
  choose-Wins spec limits [] duplicates chosen full = cc
  choose-Wins spec limits ((i, c) ∷ cs) duplicates chosen full =
      let shortest = shortest_from float c.metrics.distance cs in
      let active = active_goals float spec.goals ((i, c) ∷ cs) in
      let pool = map (entry_of float active) ((i, c) ∷ cs) in
      concluded-Wins spec limits active (dropped_goals float spec.goals ((i, c) ∷ cs)) shortest pool
        duplicates (in_order float active (is_feasible float shortest spec limits pool) pool)
        (entry_of-HasGoalOrZeros float order active ((i, c) ∷ cs)) refl chosen full

-- Where some candidate is feasible, the winner is one of the feasible ones, none of which has a higher
-- utility, and comes back first, with rank 1 and the rationale of the best fit. It is within the cap on
-- detours, and within the hard limits unless no feasible candidate is.
pub optimize-Wins :
    {F : Type 0} (float : Arithmetic F)
    → IsOrdered float
    → (candidates : List (RouteCandidate F)) (spec : OptimizeSpec F) (limits : Option (Limits F))
      {o : Outcome F}
    → optimize float candidates spec limits ≡ ok o
    → is_empty o.feasible ≡ false
    → Wins float spec limits o
unfolding optimize
optimize-Wins float order candidates spec limits chosen full =
    choose-Wins float order spec limits (pool_of (numbered 0 candidates))
      (left_out (numbered 0 candidates)) chosen full
