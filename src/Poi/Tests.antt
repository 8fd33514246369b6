-- ===== src/Poi/Tests.antt =====
-- Five places along a line of 100 units, two of them near each other.
use py_bike_router.Base.{ℕ, ◌+◌, ◌-◌, String, some, List, [], ◌∷◌, ◌≡◌, refl, arith}
use py_bike_router.Base.TextOrder.{text_ltb}
use py_bike_router.Poi.Stops.{Poi, is_candidate, select_stops}
use py_bike_router.Poi.Stops.Greedy.{IsSelection, select_stops-IsSelection}

abbrev apart : ℕ → ℕ → ℕ
apart a b = (a - b) + (b - a)

apart_comm : (a b : ℕ) → apart a b ≡ apart b a
apart_comm a b = omega arith

abbrev sight : String → ℕ → ℕ → Poi ℕ
sight id position fame = record {
  id = id;
  kind = "sight";
  position = position;
  fame = some fame;
  distance_from_route = some 0;
  along_route = some position;
}

abbrev water : Poi ℕ
water = record (sight "water" 60 99) { kind = "service" }

abbrev places : List (Poi ℕ)
places =
    sight "castle" 80 50
    ∷ sight "chapel" 78 20
    ∷ sight "abbey" 20 30
    ∷ sight "start" 1 90
    ∷ water
    ∷ []

-- The chapel is too close to the castle, the start too close to the end of the line, and the fountain
-- is no sight.
select_stops_test :
    select_stops apart 5 3 100 5 (0 ∷ 100 ∷ []) places
    ≡ sight "abbey" 20 30 ∷ sight "castle" 80 50 ∷ []
unfolding select_stops text_ltb
select_stops_test = refl

select_stops-IsSelection_example :
    IsSelection apart 5 3
      (0 ∷ 100 ∷ [])
      (is_candidate 100 5)
      places
      (select_stops apart 5 3 100 5 (0 ∷ 100 ∷ []) places)
select_stops-IsSelection_example =
    select_stops-IsSelection apart 5 3 100 5 (0 ∷ 100 ∷ []) places apart_comm (omega arith)
      (omega arith)
