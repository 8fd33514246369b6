-- ===== src/Weather/Service.antt =====
-- weather/service.py: the first provider that covers the points and answers gives the forecast, and others
-- may fill its gaps. The points and the time window of a call are fixed, so that a provider is what it
-- answers for them. The cache is a dictionary whose entries do not expire during the call; the key
-- of a provider is a parameter. The lookups that the code makes at the same time are made in order.
pub mod Fallback
pub mod Filled
pub mod Kept
use py_bike_router.Base.{
  ℕ, String, Option, none, some, List, [], ◌∷◌, ◌++◌, Bool, true, false, not, ◌&&◌, ◌||◌, any, all,
  filter, lookup, insert, is_empty, length, ◌==◌, str_eq, if◌then◌else◌, Result, ok, err,
}
use py_bike_router.Base.Text.{concat}
use py_bike_router.Weather.Merge.{Field, HourlyWeather, has_field, missing_fields, fill_gaps}

abbrev pub Series : Type 0 → Type 0
Series V = List (List (HourlyWeather V))

-- `covers` is always true for a provider without this method.
pub record WeatherProvider (V : Type 0) : Type 0 where
  pub name : String
  pub attribution : String
  pub covers : Bool
  pub provides : List Field
  pub forecast : Result String (Series V)
  pub health : String

pub record WeatherForecast (V : Type 0) : Type 0 where
  pub provider : String
  pub attribution : String
  pub series : Series V
  pub retrieved_at : ℕ
  pub sources : List String

-- A cached entry that can be read back, or one that cannot.
pub data Cached (V : Type 0) : Type 0 where
  readable : Series V → ℕ → Cached V
  unreadable : Cached V

-- A dictionary of the cached entries.
abbrev pub Cache : Type 0 → Type 0
Cache V = List (String × Cached V)

pub data Failure : Type 0 where
  not_covered : Failure
  not_reached : Failure

-- The series with its gaps filled, with the sources and the credits.
pub record Merged (V : Type 0) : Type 0 where
  pub series : Series V
  pub sources : List String
  pub credits : List String

abbrev join : List String → String
join [] = ""
join (text ∷ []) = text
join (text ∷ next ∷ texts) = concat text (concat "; " (join (next ∷ texts)))

abbrev pub failure : Option String → Failure
failure none = not_covered
failure (some last_error) = not_reached

module _ {V : Type 0} where
  -- A provider that can supply a missing field.
  abbrev pub is_useful : List Field → WeatherProvider V → Bool
  is_useful gaps p = any (λ f. has_field f p.provides) gaps && p.covers

  abbrev pub credit : WeatherProvider V → List Field → Merged V → Merged V
  credit p filled m = if is_empty filled then m else record m {
    sources = m.sources ++ p.name ∷ [];
    credits = m.credits ++ p.attribution ∷ [];
  }

  unfoldable pub merge_all :
      List (WeatherProvider V × Result String (Series V × ℕ)) → Merged V → Merged V
  unfolding fill_gaps missing_fields
  merge_all [] m = m
  merge_all ((p, err e) ∷ results) m = merge_all results m
  merge_all ((p, ok (series, time)) ∷ results) m =
      let filled = fill_gaps m.series series (missing_fields m.series) in
      merge_all results (credit p filled.1 (record m { series = filled.0 }))

  abbrev pub conclude : WeatherForecast V → Merged V → WeatherForecast V
  conclude f m =
      if length m.sources == 1
      then f
      else record f { series = m.series; sources = m.sources; attribution = join m.credits }

  abbrev pub begin : WeatherForecast V → Merged V
  begin f = record { series = f.series; sources = f.sources; credits = f.attribution ∷ [] }

  abbrev pub forecast_of : WeatherProvider V → Series V → ℕ → WeatherForecast V
  forecast_of p series time = record {
    provider = p.name;
    attribution = p.attribution;
    series = series;
    retrieved_at = time;
    sources = p.name ∷ [];
  }

  -- The status of the service, from those of the providers.
  unfoldable pub health : List (WeatherProvider V) → String
  health providers =
      if all (λ p. str_eq p.health "ok") providers
      then "ok"
      else if any (λ p. str_eq p.health "ok") providers
      then "degraded"
      else "unavailable"

module _ {V : Type 0} (cache_key : String → String) (now : ℕ) where
  abbrev pub stored :
      WeatherProvider V
      → Cache V
      → Result String (Series V)
      → Result String (Series V × ℕ) × Cache V
  stored p cache (err e) = (err e, cache)
  stored p cache (ok series) =
      (ok (series, now), insert (cache_key p.name) (readable series now) cache)

  abbrev pub found_or_asked :
      WeatherProvider V → Cache V → Option (Cached V) → Result String (Series V × ℕ) × Cache V
  found_or_asked p cache (some (readable series time)) = (ok (series, time), cache)
  found_or_asked p cache entry = stored p cache p.forecast

  -- _fetch: one provider's forecast, from the cache where it has one.
  unfoldable pub fetch : WeatherProvider V → Cache V → Result String (Series V × ℕ) × Cache V
  fetch p cache = found_or_asked p cache (lookup (cache_key p.name) cache)

  abbrev pub fetch_all :
      List (WeatherProvider V)
      → Cache V
      → List (WeatherProvider V × Result String (Series V × ℕ)) × Cache V
  fetch_all [] cache = ([], cache)
  fetch_all (p ∷ ps) cache =
      let one = fetch p cache in let rest = fetch_all ps one.1 in ((p, one.0) ∷ rest.0, rest.1)

  -- _fill_gaps: only providers that can supply a missing field are asked, and a failure is ignored.
  unfoldable pub fill_from :
      WeatherForecast V → List (WeatherProvider V) → Cache V → WeatherForecast V × Cache V
  unfolding merge_all missing_fields fetch
  fill_from f others cache =
      let useful = filter (is_useful (missing_fields f.series)) others in
      let results = fetch_all useful cache in
      if is_empty (missing_fields f.series) || is_empty useful
      then (f, cache)
      else (conclude f (merge_all results.0 (begin f)), results.1)

  abbrev pub merged :
      Bool → WeatherForecast V → List (WeatherProvider V) → Cache V → WeatherForecast V × Cache V
  merged merge f others cache = if merge then fill_from f others cache else (f, cache)

  -- The loop of `forecast`, with the last error so far.
  abbrev pub answered :
      Bool
      → (Option String → Cache V → Result Failure (WeatherForecast V × Cache V))
      → WeatherProvider V
      → List (WeatherProvider V)
      → Result String (Series V × ℕ) × Cache V
      → Result Failure (WeatherForecast V × Cache V)
  answered merge next p others (err e, cache) = next (some e) cache
  answered merge next p others (ok (series, time), cache) =
      ok (merged merge (forecast_of p series time) others cache)

  unfoldable pub forecast_from :
      Bool
      → List (WeatherProvider V)
      → Option String
      → Cache V
      → Result Failure (WeatherForecast V × Cache V)
  unfolding fetch fill_from
  forecast_from merge [] last_error cache = err (failure last_error)
  forecast_from merge (p ∷ ps) last_error cache =
      let next = forecast_from merge ps in
      if p.covers then answered merge next p ps (fetch p cache) else next last_error cache

  unfoldable pub forecast :
      Bool → List (WeatherProvider V) → Cache V → Result Failure (WeatherForecast V × Cache V)
  unfolding forecast_from
  forecast merge providers cache = forecast_from merge providers none cache
