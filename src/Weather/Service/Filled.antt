-- ===== src/Weather/Service/Filled.antt =====
-- weather/service.py: what filling the gaps of a forecast keeps.
use py_bike_router.Base.{
  ℕ, String, some, List, Bool, true, false, ◌||◌, filter, is_empty, length, get_elem?, ◌==◌,
  if◌then◌else◌, Bool-cases, inl, inr, ◌≡◌, refl,
}
use py_bike_router.Weather.Merge.{missing_fields}
use py_bike_router.Weather.Service.{
  WeatherProvider, WeatherForecast, Cache, Merged, merge_all, begin, conclude, fill_from, fetch_all,
  merged, is_useful,
}
use py_bike_router.Weather.Service.Kept.{SeriesKept, SeriesKept-refl, merge_all_kept}

module _ {V : Type 0} where
  -- A forecast with gaps filled: the provider, the time and the first source are the same.
  abbrev pub GapsFilled : WeatherForecast V → String → WeatherForecast V × Cache V → Type 0
  GapsFilled f name (g, cache) =
      (g.provider ≡ f.provider)
      × (g.retrieved_at ≡ f.retrieved_at)
      × (get_elem? g.sources 0 ≡ some name)
      × SeriesKept f.series g.series

  if-GapsFilled :
      (f : WeatherForecast V) (name : String) (b : Bool) (x y : WeatherForecast V × Cache V)
      → GapsFilled f name x
      → GapsFilled f name y
      → GapsFilled f name (if b then x else y)
  if-GapsFilled f name true x y left right = left
  if-GapsFilled f name false x y left right = right

  same-GapsFilled :
      (f : WeatherForecast V) (name : String) (cache : Cache V)
      → get_elem? f.sources 0 ≡ some name
      → GapsFilled f name (f, cache)
  same-GapsFilled f name cache first = (refl, refl, first, SeriesKept-refl f.series)

  conclude-GapsFilled :
      (f : WeatherForecast V) (m : Merged V) (name : String) (cache : Cache V)
      → get_elem? f.sources 0 ≡ some name
      → get_elem? m.sources 0 ≡ some name
      → SeriesKept f.series m.series
      → GapsFilled f name (conclude f m, cache)
  conclude-GapsFilled f m name cache first merged_first kept =
      elim (Bool-cases (length m.sources == 1)) [
        | inl e ↦ rw e (same-GapsFilled f name cache first)
        | inr e ↦ rw e (refl, refl, merged_first, kept)
      ]

module _ {V : Type 0} (cache_key : String → String) (now : ℕ) where
  fill_from-GapsFilled :
      (f : WeatherForecast V) (others : List (WeatherProvider V)) (cache : Cache V) (name : String)
      → get_elem? f.sources 0 ≡ some name
      → GapsFilled f name (fill_from cache_key now f others cache)
  unfolding fill_from
  fill_from-GapsFilled f others cache name first =
      let useful = filter (is_useful (missing_fields f.series)) others in
      let results = fetch_all cache_key now useful cache in
      let kept = merge_all_kept results.0 (begin f) name first in
      if-GapsFilled f name (is_empty (missing_fields f.series) || is_empty useful) (f, cache)
        (conclude f (merge_all results.0 (begin f)), results.1) (same-GapsFilled f name cache first)
        (conclude-GapsFilled f (merge_all results.0 (begin f)) name results.1 first kept.1 kept.0)

  pub merged-GapsFilled :
      (merge : Bool) (f : WeatherForecast V) (others : List (WeatherProvider V)) (cache : Cache V)
      (name : String)
      → get_elem? f.sources 0 ≡ some name
      → GapsFilled f name (merged cache_key now merge f others cache)
  merged-GapsFilled true f others cache name first = fill_from-GapsFilled f others cache name first
  merged-GapsFilled false f others cache name first = same-GapsFilled f name cache first
