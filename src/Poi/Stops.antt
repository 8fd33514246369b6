-- ===== src/Poi/Stops.antt =====
-- poi/stops.py: the best-known sights along a line. The great-circle distance of two positions is a
-- parameter; it, the spacing and the lengths are counted in one unit each. Fields of a Poi that the choice does
-- not look at are left out.
pub mod Chosen
pub mod Greedy
use py_bike_router.Base.{
  ℕ, ◌*◌, String, Option, none, some, List, [], ◌∷◌, ◌++◌, Bool, true, false, not, ◌&&◌, ◌||◌, any,
  filter, leb, ltb, ◌==◌, length, str_eq, if◌then◌else◌,
}
use py_bike_router.Base.Sorting.{sorted}
use py_bike_router.Base.TextOrder.{text_ltb}

pub record Poi (P : Type 0) : Type 0 where
  pub id : String
  pub kind : String
  pub position : P
  pub fame : Option ℕ
  pub distance_from_route : Option ℕ
  pub along_route : Option ℕ

-- value or 0
abbrev pub or_zero : Option ℕ → ℕ
or_zero none = 0
or_zero (some n) = n

abbrev pub is_famous : ℕ → Option ℕ → Bool
is_famous min_fame none = false
is_famous min_fame (some fame) = leb min_fame fame

-- low <= p.along_route_km <= high, with _END_MARGIN = 3/100
abbrev pub is_inside : ℕ → Option ℕ → Bool
is_inside line_length none = false
is_inside line_length (some along) =
    leb (3 * line_length) (100 * along) && leb (100 * along) (97 * line_length)

module _ {P : Type 0} where
  abbrev pub is_candidate : ℕ → ℕ → Poi P → Bool
  is_candidate line_length min_fame p =
      str_eq p.kind "sight" && is_famous min_fame p.fame && is_inside line_length p.along_route

  -- key(a) <= key(b): the more famous first, then the nearer to the line, then by id.
  abbrev pub before : Poi P → Poi P → Bool
  before a b =
      if ltb (or_zero b.fame) (or_zero a.fame)
      then true
      else if ltb (or_zero a.fame) (or_zero b.fame)
      then false
      else if ltb (or_zero a.distance_from_route) (or_zero b.distance_from_route)
      then true
      else if ltb (or_zero b.distance_from_route) (or_zero a.distance_from_route)
      then false
      else not (text_ltb b.id a.id)

  abbrev pub visited_before : Poi P → Poi P → Bool
  visited_before a b = leb (or_zero a.along_route) (or_zero b.along_route)

module _ {P : Type 0} (distance : P → P → ℕ) (min_spacing : ℕ) where
  abbrev pub is_near : P → P → Bool
  is_near a b = ltb (distance a b) min_spacing

  -- One pass of the loop; `next` is the rest of it.
  abbrev pub visit :
      ℕ → List P → (List (Poi P) → List (Poi P)) → List (Poi P) → Poi P → List (Poi P)
  visit count avoid next chosen p =
      let added = chosen ++ p ∷ [] in
      if any (λ other. is_near p.position other) avoid
      then next chosen
      else if any (λ c. is_near p.position c.position) chosen
      then next chosen
      else if length added == count
      then added
      else next added

  unfoldable pub walk : ℕ → List P → List (Poi P) → List (Poi P) → List (Poi P)
  walk count avoid [] chosen = chosen
  walk count avoid (p ∷ ps) chosen = visit count avoid (walk count avoid ps) chosen p

  unfoldable pub select_stops : ℕ → ℕ → ℕ → List P → List (Poi P) → List (Poi P)
  unfolding walk
  select_stops count line_length min_fame avoid pois =
      if ltb count 1 || line_length == 0
      then []
      else sorted visited_before
          (walk count avoid (sorted before (filter (is_candidate line_length min_fame) pois)) [])
