-- ===== src/Optimizer/Engine/Tests.antt =====
-- Two routes and a duplicate, compared for less traffic, with fixed-point numbers for floats.
use mathlib.Core.List.{Perm}
use py_bike_router.Base.{
  ℕ, ◌+◌, ◌-◌, ◌*◌, ◌/◌, String, none, some, List, [], ◌∷◌, true, leb, ltb, if◌then◌else◌, map, ok,
  ◌≡◌, refl, ◌⊎◌, arith,
}
use py_bike_router.Optimizer.Metrics.{
  Arithmetic, MetricName, RouteCandidate, value, goodness, best_value, direction, zero_at,
}
use py_bike_router.Optimizer.Engine.{
  OptimizeSpec, Entry, Outcome, optimize, active_goals, dropped_goals, utility_of, is_feasible,
  in_order, is_dominated, goal_phrase,
}
use py_bike_router.Optimizer.Engine.Order.{unranked, HasRanks, optimize-HasRanks}
use py_bike_router.Optimizer.Engine.Sequence.{IsOrdered}
use py_bike_router.Optimizer.Engine.Winner.{Wins, optimize-Wins}

abbrev fixed : Arithmetic ℕ
fixed = record {
  zero_ = 0;
  millionths = λ n. n;
  add = λ a b. a + b;
  subtract = λ a b. a - b;
  multiply = λ a b. a * b / 1_000_000;
  divide = λ a b. a * 1_000_000 / b;
  magnitude = λ a. a;
  le = leb;
  shown = λ n. if ltb n 500_000 then "0.00" else "0.67";
}

leb_total : (a b : ℕ) → (leb a b ≡ true) ⊎ (leb b a ≡ true)
leb_total a b = ground arith

leb_trans : (a b c : ℕ) → leb a b ≡ true → leb b c ≡ true → leb a c ≡ true
leb_trans a b c first second = ground arith

fixed-IsOrdered : IsOrdered fixed
fixed-IsOrdered = record { total = leb_total; transitive = leb_trans }

abbrev route : String → ℕ → ℕ → String → RouteCandidate ℕ
route profile distance traffic duplicate = record {
  provider = "brouter";
  profile = profile;
  optimizer_source = "";
  duplicate_of = duplicate;
  metrics = record {
    distance = distance;
    duration = none;
    ascent = none;
    traffic_index = some traffic;
    traffic_shares = [];
    surface_shares = [];
    poi_count = none;
  };
  rank = none;
  rank_rationale = none;
  others = [];
}

-- The far one has no traffic but is too long.
abbrev routes : List (RouteCandidate ℕ)
routes =
    route "direct" 10_000 300_000 ""
    ∷ route "same" 10_000 300_000 "brouter/direct"
    ∷ route "quiet" 12_000 100_000 ""
    ∷ route "far" 90_000 0 ""
    ∷ []

abbrev spec : OptimizeSpec ℕ
spec = record {
  goals = record { metric = MetricName.traffic; weight = 1_000_000 } ∷ [];
  max_detour_pct = 30_000_000;
}

abbrev quiet_entry : Entry ℕ
quiet_entry = record {
  index = 2;
  candidate = route "quiet" 12_000 100_000 "";
  vector = 666_667 ∷ [];
  utility = 666_667;
}

abbrev direct_entry : Entry ℕ
direct_entry = record {
  index = 0;
  candidate = route "direct" 10_000 300_000 "";
  vector = 0 ∷ [];
  utility = 0;
}

abbrev ranked_as : ℕ → String → RouteCandidate ℕ → RouteCandidate ℕ
ranked_as rank text c = record c { rank = some rank; rank_rationale = some text }

abbrev outcome : Outcome ℕ
outcome = record {
  ordered =
      ranked_as 1 "optimizer: utility 0.67 for less traffic -- the best fit"
        (route "quiet" 12_000 100_000 "")
      ∷ ranked_as 2 "optimizer: utility 0.00 for less traffic" (route "direct" 10_000 300_000 "")
      ∷ ranked_as 3 "optimizer: utility 0.67 for less traffic (over the detour or hard limits)"
          (route "far" 90_000 0 "")
      ∷ ranked_as 4 "near-identical to a better route"
          (route "same" 10_000 300_000 "brouter/direct")
      ∷ [];
  winner = quiet_entry;
  feasible = direct_entry ∷ quiet_entry ∷ [];
  pareto = quiet_entry ∷ [];
  dropped = [];
  shortest = 10_000;
}

optimize-outcome : optimize fixed routes spec none ≡ ok outcome
unfolding optimize active_goals dropped_goals utility_of is_feasible in_order is_dominated value
    goodness best_value direction zero_at goal_phrase
optimize-outcome = refl

optimize-HasRanks_example :
    Perm (map unranked outcome.ordered) (map unranked routes) × HasRanks 1 outcome.ordered
optimize-HasRanks_example = optimize-HasRanks fixed routes spec none optimize-outcome

optimize-Wins_example : Wins fixed spec none outcome
optimize-Wins_example = optimize-Wins fixed fixed-IsOrdered routes spec none optimize-outcome refl
