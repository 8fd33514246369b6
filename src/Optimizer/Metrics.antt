-- ===== src/Optimizer/Metrics.antt =====
-- optimizer/engine.py: the goal metrics, and the goodness of a value next to the best one. Floats are
-- a parameter with the operations that the code uses; the literals are given in millionths. The
-- function `show` of a metric, which formats a value, is not modelled.
use py_bike_router.Base.{
  ℕ, String, Option, none, some, List, [], ◌∷◌, Bool, not, lookup, is_empty, if◌then◌else◌,
}
use py_bike_router.Base.Json.{Json}

-- The operations on floats, none of which is NaN.
pub record Arithmetic (F : Type 0) : Type 0 where
  pub zero_ : F
  pub millionths : ℕ → F
  pub add : F → F → F
  pub subtract : F → F → F
  pub multiply : F → F → F
  pub divide : F → F → F
  pub magnitude : F → F
  pub le : F → F → Bool
  pub shown : F → String

pub data MetricName : Type 0 where
  traffic busy_roads paved unpaved cobbles distance duration pois ascent : MetricName

pub data Direction : Type 0 where
  min_ max_ : Direction

pub record RouteMetrics (F : Type 0) : Type 0 where
  pub distance : F
  pub duration : Option F
  pub ascent : Option F
  pub traffic_index : Option F
  pub traffic_shares : List (String × F)
  pub surface_shares : List (String × F)
  pub poi_count : Option F

-- `others` are the fields that the optimizer does not look at.
pub record RouteCandidate (F : Type 0) : Type 0 where
  pub provider : String
  pub profile : String
  pub optimizer_source : String
  pub duplicate_of : String
  pub metrics : RouteMetrics F
  pub rank : Option ℕ
  pub rank_rationale : Option String
  pub others : List (String × Json)

unfoldable pub direction : MetricName → Direction
direction paved = max_
direction unpaved = max_
direction pois = max_
direction metric = min_

unfoldable pub label_of : MetricName → String
label_of traffic = "less traffic"
label_of busy_roads = "fewer busy roads"
label_of paved = "more asphalt"
label_of unpaved = "more off-road"
label_of cobbles = "fewer cobbles"
label_of distance = "shorter"
label_of duration = "faster"
label_of pois = "more sights along the route"
label_of ascent = "less climbing"

module _ {F : Type 0} (float : Arithmetic F) where
  open float use {zero_, millionths, add, subtract, multiply, divide, magnitude, le}

  abbrev pub lt : F → F → Bool
  lt a b = not (le b a)

  -- max(a, b) and min(a, b): the first one where they are equal.
  abbrev pub larger : F → F → F
  larger a b = if lt a b then b else a

  abbrev pub smaller : F → F → F
  smaller a b = if lt b a then b else a

  -- _share: shares.get(key) if shares else None
  abbrev share : RouteCandidate F → String → Option F
  share c key = lookup key c.metrics.surface_shares

  abbrev or_zero : Option F → F
  or_zero none = zero_
  or_zero (some a) = a

  -- _band: shares.get(key, 0.0) if shares else None
  abbrev band : RouteCandidate F → String → Option F
  band c key =
      if is_empty c.metrics.traffic_shares
      then none
      else some (or_zero (lookup key c.metrics.traffic_shares))

  unfoldable pub value : MetricName → RouteCandidate F → Option F
  value traffic c = c.metrics.traffic_index
  value busy_roads c = band c "busy"
  value paved c = share c "paved"
  value unpaved c = share c "unpaved"
  value cobbles c = share c "cobbles"
  value distance c = some c.metrics.distance
  value duration c = c.metrics.duration
  value pois c = c.metrics.poi_count
  value ascent c = c.metrics.ascent

  -- How far from the best value the goodness reaches 0.
  unfoldable pub zero_at : MetricName → F → F
  zero_at traffic best = millionths 300_000
  zero_at busy_roads best = millionths 300_000
  zero_at paved best = millionths 400_000
  zero_at unpaved best = millionths 400_000
  zero_at cobbles best = millionths 150_000
  zero_at distance best = larger (millionths 2_000_000_000) (multiply (millionths 250_000) best)
  zero_at duration best = larger (millionths 900_000_000) (multiply (millionths 250_000) best)
  zero_at pois best = larger (millionths 3_000_000) (multiply (millionths 500_000) best)
  zero_at ascent best = larger (millionths 100_000_000) (multiply (millionths 500_000) best)

  abbrev present : List (Option F) → List F
  present [] = []
  present (none ∷ vs) = present vs
  present (some v ∷ vs) = v ∷ present vs

  abbrev best_from : Direction → F → List F → F
  best_from d a [] = a
  best_from min_ a (b ∷ bs) = best_from min_ (smaller a b) bs
  best_from max_ a (b ∷ bs) = best_from max_ (larger a b) bs

  abbrev best_present : Direction → List F → Option F
  best_present d [] = none
  best_present d (a ∷ bs) = some (best_from d a bs)

  -- The best of the values that there are.
  unfoldable pub best_value : MetricName → List (Option F) → Option F
  unfolding direction
  best_value metric values = best_present (direction metric) (present values)

  abbrev behind : Direction → F → F → F
  behind min_ best v = subtract v best
  behind max_ best v = subtract best v

  -- max(0.0, min(1.0, x))
  abbrev clamped : F → F
  clamped x = larger zero_ (smaller (millionths 1_000_000) x)

  -- The goodness of a candidate's value; of a missing one it is 0.
  unfoldable pub goodness : MetricName → F → Option F → F
  unfolding direction zero_at
  goodness metric best none = zero_
  goodness metric best (some v) = clamped (
      subtract (millionths 1_000_000)
        (divide (behind (direction metric) best v) (zero_at metric (magnitude best))))
