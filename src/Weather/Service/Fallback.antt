-- ===== src/Weather/Service/Fallback.antt =====
-- weather/service.py: which provider gives the forecast, and that the others only fill its gaps.
use py_bike_router.Base.{
  ℕ, String, Option, none, some, List, [], ◌∷◌, Bool, true, false, ◌&&◌, any, find, lookup,
  get_elem?, if◌then◌else◌, Result, ok, err, ◌≡◌, refl, sym, ap, ◌∙◌, subst, arith,
}
use py_bike_router.Weather.Service.{
  Series, WeatherProvider, WeatherForecast, Cache, Cached, readable, unreadable, Failure,
  not_covered, not_reached, fetch, found_or_asked, stored, merged, forecast_of, answered,
  forecast_from, forecast,
}
use py_bike_router.Weather.Service.Kept.{SeriesKept}
use py_bike_router.Weather.Service.Filled.{GapsFilled, merged-GapsFilled}

module _ {V : Type 0} (cache_key : String → String) (now : ℕ) where
  -- The provider covers the points, and its forecast is in the cache or can be had.
  abbrev is_ok : Result String (Series V × ℕ) → Bool
  is_ok (err e) = false
  is_ok (ok answer) = true

  abbrev pub answers : Cache V → WeatherProvider V → Bool
  answers cache p = p.covers && is_ok (fetch cache_key now p cache).0

  stored-cache :
      (p : WeatherProvider V) (cache : Cache V) (answer : Result String (Series V)) (e : String)
      → (stored cache_key now p cache answer).0 ≡ err e
      → (stored cache_key now p cache answer).1 ≡ cache
  stored-cache p cache (err other) e failed = refl
  stored-cache p cache (ok series) e failed = cc

  found_or_asked-cache :
      (p : WeatherProvider V) (cache : Cache V) (entry : Option (Cached V)) (e : String)
      → (found_or_asked cache_key now p cache entry).0 ≡ err e
      → (found_or_asked cache_key now p cache entry).1 ≡ cache
  found_or_asked-cache p cache (some (readable series time)) e failed = cc
  found_or_asked-cache p cache (some unreadable) e failed = stored-cache p cache p.forecast e failed
  found_or_asked-cache p cache none e failed = stored-cache p cache p.forecast e failed

  -- A failed lookup leaves the cache alone.
  fetch-cache :
      (p : WeatherProvider V) (cache : Cache V) (e : String)
      → (fetch cache_key now p cache).0 ≡ err e
      → (fetch cache_key now p cache).1 ≡ cache
  unfolding fetch
  fetch-cache p cache e failed =
      found_or_asked-cache p cache (lookup (cache_key p.name) cache) e failed

  -- The forecast of the provider, with nothing but gaps filled by others.
  abbrev pub IsForecastOf : Cache V → WeatherForecast V → WeatherProvider V → Type 0
  IsForecastOf cache f p =
      (series : Series V) × (time : ℕ) × ((fetch cache_key now p cache).0 ≡ ok (series, time))
      × (f.provider ≡ p.name)
      × (f.retrieved_at ≡ time)
      × (get_elem? f.sources 0 ≡ some p.name)
      × SeriesKept series f.series

  -- What `forecast` promises: the forecast of the first provider that covers the points and answers; or
  -- the error that none covers them, or that none of those that do answers.
  abbrev pub Promise :
      List (WeatherProvider V) → Cache V → Result Failure (WeatherForecast V × Cache V) → Type 0
  Promise providers cache (ok (f, after)) =
      (p : WeatherProvider V) × (find (answers cache) providers ≡ some p) × IsForecastOf cache f p
  Promise providers cache (err not_covered) = any (λ p. p.covers) providers ≡ false
  Promise providers cache (err not_reached) =
      (any (λ p. p.covers) providers ≡ true) × (find (answers cache) providers ≡ none)

  -- The same of the rest of the loop, after a last error.
  abbrev Rest :
      Option String
      → List (WeatherProvider V)
      → Cache V
      → Result Failure (WeatherForecast V × Cache V)
      → Type 0
  Rest last_error providers cache (ok (f, after)) =
      (p : WeatherProvider V) × (find (answers cache) providers ≡ some p) × IsForecastOf cache f p
  Rest none providers cache (err not_covered) = any (λ p. p.covers) providers ≡ false
  Rest (some e) providers cache (err not_covered) = ⊥
  Rest none providers cache (err not_reached) =
      (any (λ p. p.covers) providers ≡ true) × (find (answers cache) providers ≡ none)
  Rest (some e) providers cache (err not_reached) = find (answers cache) providers ≡ none

  -- An answer with its gaps filled is the forecast of its provider.
  GapsFilled-IsForecastOf :
      (cache : Cache V) (p : WeatherProvider V) (series : Series V) (time : ℕ)
      (x : WeatherForecast V × Cache V)
      → (fetch cache_key now p cache).0 ≡ ok (series, time)
      → GapsFilled (forecast_of p series time) p.name x
      → IsForecastOf cache x.0 p
  GapsFilled-IsForecastOf cache p series time (f, after) answer filled =
      (series, time, answer, filled.0, filled.1, filled.2, filled.3)

  find-passed_over :
      (p : WeatherProvider V) (ps : List (WeatherProvider V)) (cache : Cache V)
      → answers cache p ≡ false
      → find (answers cache) (p ∷ ps) ≡ find (answers cache) ps
  find-passed_over p ps cache silent = rw silent refl

  -- A provider that does not cover the points is passed over.
  uncovered-Rest :
      (p : WeatherProvider V) (ps : List (WeatherProvider V)) (last_error : Option String)
      (cache : Cache V) (result : Result Failure (WeatherForecast V × Cache V))
      → p.covers ≡ false
      → answers cache p ≡ false
      → Rest last_error ps cache result
      → Rest last_error (p ∷ ps) cache result
  uncovered-Rest p ps last_error cache (ok (f, after)) uncovered silent rest =
      (rest.0, find-passed_over p ps cache silent ∙ rest.1, rest.2)
  uncovered-Rest p ps none cache (err not_covered) uncovered silent rest =
      ground (arith, uncovered, rest)
  uncovered-Rest p ps (some e) cache (err not_covered) uncovered silent rest = rest
  uncovered-Rest p ps none cache (err not_reached) uncovered silent rest =
      (ground (arith, rest.0), find-passed_over p ps cache silent ∙ rest.1)
  uncovered-Rest p ps (some e) cache (err not_reached) uncovered silent rest =
      find-passed_over p ps cache silent ∙ rest

  -- So is one that fails, which leaves an error behind.
  failed-Rest :
      (p : WeatherProvider V) (ps : List (WeatherProvider V)) (last_error : Option String)
      (e : String) (cache : Cache V) (result : Result Failure (WeatherForecast V × Cache V))
      → p.covers ≡ true
      → answers cache p ≡ false
      → Rest (some e) ps cache result
      → Rest last_error (p ∷ ps) cache result
  failed-Rest p ps last_error e cache (ok (f, after)) covered silent rest =
      (rest.0, find-passed_over p ps cache silent ∙ rest.1, rest.2)
  failed-Rest p ps last_error e cache (err not_covered) covered silent rest = absurd rest
  failed-Rest p ps none e cache (err not_reached) covered silent rest =
      (ground (arith, covered), find-passed_over p ps cache silent ∙ rest)
  failed-Rest p ps (some other) e cache (err not_reached) covered silent rest =
      find-passed_over p ps cache silent ∙ rest

  -- The first one that covers the points and answers.
  found-Rest :
      (p : WeatherProvider V) (ps : List (WeatherProvider V)) (last_error : Option String)
      (cache : Cache V) (x : WeatherForecast V × Cache V)
      → answers cache p ≡ true
      → IsForecastOf cache x.0 p
      → Rest last_error (p ∷ ps) cache (ok x)
  found-Rest p ps last_error cache (f, after) answering is_forecast =
      (p, rw answering refl, is_forecast)

  answered-Rest :
      (merge : Bool) (p : WeatherProvider V) (ps : List (WeatherProvider V))
      (last_error : Option String) (cache : Cache V)
      (next : Option String → Cache V → Result Failure (WeatherForecast V × Cache V))
      (fetched : Result String (Series V × ℕ) × Cache V)
      → p.covers ≡ true
      → fetch cache_key now p cache ≡ fetched
      → ((e : String) → Rest (some e) ps cache (next (some e) cache))
      → Rest last_error (p ∷ ps) cache (answered cache_key now merge next p ps fetched)
  answered-Rest merge p ps last_error cache next (err e, after) covered same rest =
      let answer = ap (λ (x : Result String (Series V × ℕ) × Cache V). x.0) same in
      let kept =
        sym (ap (λ (x : Result String (Series V × ℕ) × Cache V). x.1) same)
        ∙ fetch-cache p cache e answer in
      subst (λ c. Rest last_error (p ∷ ps) cache (next (some e) c)) (sym kept)
        (failed-Rest p ps last_error e cache (next (some e) cache) covered
          (ground (arith, ap is_ok answer)) (rest e))
  answered-Rest merge p ps last_error cache next (ok (series, time), after) covered same rest =
      let answer = ap (λ (x : Result String (Series V × ℕ) × Cache V). x.0) same in
      let x = merged cache_key now merge (forecast_of p series time) ps after in
      found-Rest p ps last_error cache x (ground (arith, covered, ap is_ok answer)) (
        GapsFilled-IsForecastOf cache p series time x answer
          (merged-GapsFilled cache_key now merge (forecast_of p series time) ps after p.name refl))

  if-Rest :
      (last_error : Option String) (providers : List (WeatherProvider V)) (cache : Cache V)
      (b : Bool) (x y : Result Failure (WeatherForecast V × Cache V))
      → (b ≡ true → Rest last_error providers cache x)
      → (b ≡ false → Rest last_error providers cache y)
      → Rest last_error providers cache (if b then x else y)
  if-Rest last_error providers cache true x y left right = left refl
  if-Rest last_error providers cache false x y left right = right refl

  forecast_from-Rest :
      (merge : Bool) (providers : List (WeatherProvider V)) (last_error : Option String)
      (cache : Cache V)
      → Rest last_error providers cache
          (forecast_from cache_key now merge providers last_error cache)
  unfolding forecast_from
  forecast_from-Rest merge [] none cache = refl
  forecast_from-Rest merge [] (some e) cache = refl
  forecast_from-Rest merge (p ∷ ps) last_error cache =
      let next = forecast_from cache_key now merge ps in
      if-Rest last_error (p ∷ ps) cache p.covers
        (answered cache_key now merge next p ps (fetch cache_key now p cache))
        (next last_error cache)
        (λ covered.
          answered-Rest merge p ps last_error cache next (fetch cache_key now p cache) covered refl
            (λ e. forecast_from-Rest merge ps (some e) cache))
        (λ uncovered.
          uncovered-Rest p ps last_error cache (next last_error cache) uncovered
            (ground (arith, uncovered)) (forecast_from-Rest merge ps last_error cache))

  Rest-Promise :
      (providers : List (WeatherProvider V)) (cache : Cache V)
      (result : Result Failure (WeatherForecast V × Cache V))
      → Rest none providers cache result
      → Promise providers cache result
  Rest-Promise providers cache (ok (f, after)) rest = rest
  Rest-Promise providers cache (err not_covered) rest = rest
  Rest-Promise providers cache (err not_reached) rest = rest

-- The forecast is that of the first provider which covers the points and answers: it names this provider
-- first, and others fill nothing but its gaps. There is an error exactly where there is no such
-- provider, and it says whether any covers the points at all.
pub forecast-Promise :
    {V : Type 0} (cache_key : String → String) (now : ℕ) (merge : Bool)
    (providers : List (WeatherProvider V)) (cache : Cache V)
    → Promise cache_key now providers cache (forecast cache_key now merge providers cache)
unfolding forecast
forecast-Promise cache_key now merge providers cache =
    Rest-Promise cache_key now providers cache
      (forecast_from cache_key now merge providers none cache)
      (forecast_from-Rest cache_key now merge providers none cache)
