-- ===== src/Optimizer/Engine.antt =====
-- optimizer/engine.py: `optimize` orders the candidates for the goals. A dictionary from indices to
-- values is a list of entries, one for each candidate of the pool. The report's table and texts
-- are not modelled, but for the division by the shortest distance, which raises where that is 0.
pub mod Order
pub mod Sequence
pub mod Winner
mod Tests
use py_bike_router.Base.{
  ℕ, zero, suc, ◌+◌, String, Option, none, some, List, [], ◌∷◌, ◌++◌, Bool, true, false, not, ◌&&◌,
  ◌||◌, ◌==◌, map, any, all, filter, is_empty, leb, str_eq, if◌then◌else◌, Result, ok, err,
}
use py_bike_router.Base.Sorting.{sorted}
use py_bike_router.Base.Text.{concat}
use py_bike_router.Optimizer.Metrics.{
  Arithmetic, MetricName, RouteCandidate, value, best_value, goodness, lt, smaller, label_of,
}

pub record Goal (F : Type 0) : Type 0 where
  pub metric : MetricName
  pub weight : F

pub record OptimizeSpec (F : Type 0) : Type 0 where
  pub goals : List (Goal F)
  pub max_detour_pct : F

-- The hard limits of the request's constraints.
pub record Limits (F : Type 0) : Type 0 where
  pub max_distance_km : Option F
  pub max_ascent : Option F

-- A goal that some candidate has a value for, with the best one.
pub record ActiveGoal (F : Type 0) : Type 0 where
  pub goal : Goal F
  pub best : F

pub record Entry (F : Type 0) : Type 0 where
  pub index : ℕ
  pub candidate : RouteCandidate F
  pub vector : List F
  pub utility : F

pub record Outcome (F : Type 0) : Type 0 where
  pub ordered : List (RouteCandidate F)
  pub winner : Entry F
  pub feasible : List (Entry F)
  pub pareto : List (Entry F)
  pub dropped : List MetricName
  pub shortest : F

abbrev phrase_from : String → List String → String
phrase_from name [] = name
phrase_from name (last ∷ []) = concat name (concat " and " last)
phrase_from name (next ∷ names) = concat name (concat ", " (phrase_from next names))

module _ {F : Type 0} where
  -- label
  unfoldable pub label : RouteCandidate F → String
  label c =
      let base = concat c.provider (concat "/" c.profile) in
      if str_eq c.optimizer_source "" || str_eq c.optimizer_source "profile"
      then base
      else concat base (concat " (" (concat c.optimizer_source ")"))

  -- goal_phrase
  unfoldable pub goal_phrase : List (Goal F) → String
  unfolding label_of
  goal_phrase [] = ""
  goal_phrase (g ∷ gs) =
      phrase_from (label_of g.metric) (map (λ (h : Goal F). label_of h.metric) gs)

  abbrev pub is_original : ℕ × RouteCandidate F → Bool
  is_original (i, c) = str_eq c.duplicate_of ""

  -- enumerate(candidates)
  abbrev pub numbered : ℕ → List (RouteCandidate F) → List (ℕ × RouteCandidate F)
  numbered i [] = []
  numbered i (c ∷ cs) = (i, c) ∷ numbered (i + 1) cs

  -- The candidates that are no duplicates, or all of them where each is one.
  abbrev pub pool_of : List (ℕ × RouteCandidate F) → List (ℕ × RouteCandidate F)
  pool_of cs = if any is_original cs then filter is_original cs else cs

  abbrev pub left_out : List (ℕ × RouteCandidate F) → List (ℕ × RouteCandidate F)
  left_out cs = if any is_original cs then filter (λ c. not (is_original c)) cs else []

module _ {F : Type 0} (float : Arithmetic F) where
  open float use {zero_, millionths, add, multiply, divide, le, shown}

  abbrev activated : Goal F → Option F → List (ActiveGoal F) → List (ActiveGoal F)
  activated g none rest = rest
  activated g (some best) rest = record { goal = g; best = best } ∷ rest

  unfoldable pub active_goals : List (Goal F) → List (ℕ × RouteCandidate F) → List (ActiveGoal F)
  unfolding best_value value
  active_goals [] pool = []
  active_goals (g ∷ gs) pool =
      let values = map (λ (c : ℕ × RouteCandidate F). value float g.metric c.1) pool in
      activated g (best_value float g.metric values) (active_goals gs pool)

  abbrev is_missing : Option F → Bool
  is_missing none = true
  is_missing (some best) = false

  -- The goals that no candidate has a value for.
  unfoldable pub dropped_goals : List (Goal F) → List (ℕ × RouteCandidate F) → List MetricName
  unfolding best_value value
  dropped_goals [] pool = []
  dropped_goals (g ∷ gs) pool =
      let values = map (λ (c : ℕ × RouteCandidate F). value float g.metric c.1) pool in
      let rest = dropped_goals gs pool in
      if is_missing (best_value float g.metric values) then g.metric ∷ rest else rest

  abbrev sum_from : F → List F → F
  sum_from total [] = total
  sum_from total (a ∷ rest) = sum_from (add total a) rest

  abbrev goodness_for : RouteCandidate F → ActiveGoal F → F
  goodness_for c a = goodness float a.goal.metric a.best (value float a.goal.metric c)

  -- The weighted mean of the goodness values.
  unfoldable pub utility_of : List (ActiveGoal F) → RouteCandidate F → F
  unfolding goodness value
  utility_of [] c = zero_
  utility_of (a ∷ as_) c =
      divide
        (sum_from zero_
          (map (λ (b : ActiveGoal F). multiply b.goal.weight (goodness_for c b)) (a ∷ as_)))
        (sum_from zero_ (map (λ (b : ActiveGoal F). b.goal.weight) (a ∷ as_)))

  abbrev pub entry_of : List (ActiveGoal F) → ℕ × RouteCandidate F → Entry F
  entry_of active (i, c) = record {
    index = i;
    candidate = c;
    vector = map (goodness_for c) active;
    utility = utility_of active c;
  }

  abbrev shortest_from : F → List (ℕ × RouteCandidate F) → F
  shortest_from d [] = d
  shortest_from d ((i, c) ∷ cs) = shortest_from (smaller float d c.metrics.distance) cs

  -- shortest * (1 + max_detour_pct / 100) + 1e-6
  abbrev pub detour_cap : F → OptimizeSpec F → F
  detour_cap shortest spec =
      add
        (multiply shortest
          (add (millionths 1_000_000) (divide spec.max_detour_pct (millionths 100_000_000))))
        (millionths 1)

  abbrev pub in_detour : F → OptimizeSpec F → Entry F → Bool
  in_detour shortest spec e = le e.candidate.metrics.distance (detour_cap shortest spec)

  abbrev below_distance : Option F → Entry F → Bool
  below_distance none e = true
  below_distance (some km) e =
      le e.candidate.metrics.distance (multiply km (millionths 1_000_000_000))

  abbrev below_ascent : Option F → Option F → Bool
  below_ascent none ascent = true
  below_ascent (some limit) none = true
  below_ascent (some limit) (some ascent) = le ascent limit

  abbrev pub meets_limits : Option (Limits F) → Entry F → Bool
  meets_limits none e = true
  meets_limits (some limits) e =
      below_distance limits.max_distance_km e
      && below_ascent limits.max_ascent e.candidate.metrics.ascent

  -- The test of being feasible: the hard limits count unless no candidate meets them.
  unfoldable pub is_feasible :
      F → OptimizeSpec F → Option (Limits F) → List (Entry F) → Entry F → Bool
  is_feasible shortest spec limits pool e =
      in_detour shortest spec e
      && (meets_limits limits e
          || not (any (λ p. in_detour shortest spec p && meets_limits limits p) pool))

  -- a == b
  abbrev pub same : F → F → Bool
  same a b = le a b && le b a

  -- key(a) <= key(b): the higher utility first, then the shorter, then the earlier one.
  abbrev pub before : Entry F → Entry F → Bool
  before a b =
      if lt float b.utility a.utility
      then true
      else if lt float a.utility b.utility
      then false
      else if lt float a.candidate.metrics.distance b.candidate.metrics.distance
      then true
      else if lt float b.candidate.metrics.distance a.candidate.metrics.distance
      then false
      else leb a.index b.index

  unfoldable pub in_order : List (ActiveGoal F) → (Entry F → Bool) → List (Entry F) → List (Entry F)
  in_order [] feasible pool = filter feasible pool ++ filter (λ e. not (feasible e)) pool
  in_order (a ∷ as_) feasible pool =
      sorted before (filter feasible pool) ++ sorted before (filter (λ e. not (feasible e)) pool)

  abbrev all_at_least : List F → List F → Bool
  all_at_least (a ∷ as_) (b ∷ bs) = le b a && all_at_least as_ bs
  all_at_least as_ bs = true

  abbrev some_better : List F → List F → Bool
  some_better (a ∷ as_) (b ∷ bs) = lt float b a || some_better as_ bs
  some_better as_ bs = false

  -- dominated
  unfoldable pub is_dominated : List (Entry F) → Entry F → Bool
  is_dominated feasible e =
      any
        (λ j.
          not (j.index == e.index)
          && all_at_least j.vector e.vector
          && some_better j.vector e.vector)
        feasible

  abbrev pub pareto_of : List (ActiveGoal F) → List (Entry F) → List (Entry F)
  pareto_of [] feasible = []
  pareto_of (a ∷ as_) feasible = filter (λ e. not (is_dominated feasible e)) feasible

  -- f"optimizer: utility {utility:.2f} for {goal_phrase(spec)}", and what is added to it
  abbrev with_utility : List (Goal F) → Entry F → String → String
  with_utility goals e added =
      concat "optimizer: utility "
        (concat (shown e.utility) (concat " for " (concat (goal_phrase goals) added)))

  -- What is added for a candidate that is feasible, wins, and is on the Pareto front, or not.
  abbrev remark : (feasible wins pareto : Bool) → String
  remark false wins pareto = " (over the detour or hard limits)"
  remark true true pareto = " -- the best fit"
  remark true false true = " -- a different trade-off, not worse on every goal"
  remark true false false = ""

  abbrev pub rationale :
      List (Goal F) → (Entry F → Bool) → List (Entry F) → Entry F → Entry F → String
  rationale goals feasible pareto winner e =
      with_utility goals e
        (remark (feasible e) (e.index == winner.index) (any (λ p. p.index == e.index) pareto))

  -- The candidates as they come back, with their rationales.
  abbrev pub explained :
      (Entry F → String)
      → List (Entry F)
      → List (ℕ × RouteCandidate F)
      → List (RouteCandidate F × String)
  explained reason order duplicates =
      map (λ (e : Entry F). (e.candidate, reason e)) order
      ++ map (λ (c : ℕ × RouteCandidate F). (c.1, "near-identical to a better route")) duplicates

  abbrev pub ranked : ℕ → List (RouteCandidate F × String) → List (RouteCandidate F)
  ranked rank [] = []
  ranked rank ((c, reason) ∷ cs) =
      record c { rank = some rank; rank_rationale = some reason } ∷ ranked (rank + 1) cs

  -- distances[i] / shortest, in each row of the report
  abbrev pub reported : F → Outcome F → Result String (Outcome F)
  reported shortest o = if same shortest zero_ then err "ZeroDivisionError" else ok o

  abbrev pub concluded :
      List (Goal F)
      → List (ActiveGoal F)
      → List MetricName
      → F
      → (Entry F → Bool)
      → List (Entry F)
      → List (ℕ × RouteCandidate F)
      → List (Entry F)
      → Result String (Outcome F)
  concluded goals active dropped shortest feasible pool duplicates [] = err "ValueError"
  concluded goals active dropped shortest feasible pool duplicates (winner ∷ order) =
      let pareto = pareto_of active (filter feasible pool) in
      let reason = rationale goals feasible pareto winner in
      reported shortest (record {
        ordered = ranked 1 (explained reason (winner ∷ order) duplicates);
        winner = winner;
        feasible = filter feasible pool;
        pareto = pareto;
        dropped = dropped;
        shortest = shortest;
      })

  abbrev pub choose :
      OptimizeSpec F
      → Option (Limits F)
      → List (ℕ × RouteCandidate F)
      → List (ℕ × RouteCandidate F)
      → Result String (Outcome F)
  choose spec limits [] duplicates = err "ValueError"
  choose spec limits ((i, c) ∷ cs) duplicates =
      let shortest = shortest_from c.metrics.distance cs in
      let active = active_goals spec.goals ((i, c) ∷ cs) in
      let pool = map (entry_of active) ((i, c) ∷ cs) in
      let feasible = is_feasible shortest spec limits pool in
      concluded spec.goals active (dropped_goals spec.goals ((i, c) ∷ cs)) shortest feasible pool
        duplicates (in_order active feasible pool)

  -- `err` is the ValueError of no candidates at all, or the ZeroDivisionError of a distance of 0.
  unfoldable pub optimize :
      List (RouteCandidate F) → OptimizeSpec F → Option (Limits F) → Result String (Outcome F)
  unfolding active_goals dropped_goals utility_of is_feasible in_order is_dominated
  optimize candidates spec limits =
      choose spec limits (pool_of (numbered 0 candidates)) (left_out (numbered 0 candidates))
