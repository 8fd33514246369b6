-- ===== src/Weather/Tests.antt =====
-- A forecast with a gap, whose provider comes after one that does not cover the points and one that fails.
use py_bike_router.Base.{
  length, ℕ, String, none, some, List, [], ◌∷◌, true, false, ok, err, ◌≡◌, refl,
}
use py_bike_router.Weather.Merge.{Field, HourlyWeather, fill_gaps, fillable_fields, nearest}
use py_bike_router.Weather.Merge.Gaps.{SeriesFilled, fill_gaps-SeriesFilled}
use py_bike_router.Weather.Service.{
  Series, WeatherProvider, WeatherForecast, not_covered, not_reached, readable, forecast,
}
use py_bike_router.Weather.Service.Fallback.{Promise, forecast-Promise}

abbrev hour : ℕ → ℕ → HourlyWeather ℕ
hour time core = record {
  time = time;
  core = core;
  apparent_temperature = some 11;
  uv_index = some 2;
  wind_gust = none;
  precipitation_probability = some 30;
}

abbrev with_gust : ℕ → ℕ → HourlyWeather ℕ
with_gust time core = record (hour time core) { wind_gust = some 25; uv_index = some 9 }

abbrev gappy : Series ℕ
gappy = (hour 3_600 7 ∷ hour 7_200 8 ∷ []) ∷ []

-- Only the first hour has a value of the other within half an hour.
abbrev complete : Series ℕ
complete = (with_gust 4_000 1 ∷ []) ∷ []

abbrev expected : Series ℕ
expected = (record (hour 3_600 7) { wind_gust = some 25 } ∷ hour 7_200 8 ∷ []) ∷ []

fill_gaps_test : fill_gaps gappy complete fillable_fields ≡ (expected, Field.wind_gust ∷ [])
unfolding fill_gaps nearest
fill_gaps_test = refl

abbrev abroad : WeatherProvider ℕ
abroad = record {
  name = "abroad";
  attribution = "A";
  covers = false;
  provides = fillable_fields;
  forecast = ok complete;
  health = "ok";
}

abbrev broken : WeatherProvider ℕ
broken = record abroad { name = "broken"; covers = true; forecast = err "timeout" }

abbrev local : WeatherProvider ℕ
local = record abroad { name = "local"; covers = true; forecast = ok gappy; provides = [] }

abbrev helper : WeatherProvider ℕ
helper = record abroad { name = "helper"; covers = true; attribution = "H" }

abbrev providers : List (WeatherProvider ℕ)
providers = abroad ∷ broken ∷ local ∷ helper ∷ []

abbrev own_key : String → String
own_key name = name

abbrev answer : WeatherForecast ℕ
answer = record {
  provider = "local";
  attribution = "A; H";
  series = expected;
  retrieved_at = 5;
  sources = "local" ∷ "helper" ∷ [];
}

forecast_test :
    forecast own_key 5 true providers []
    ≡ ok (answer, ("local", readable gappy 5) ∷ ("helper", readable complete 5) ∷ [])
unfolding forecast fill_gaps nearest
forecast_test = refl

uncovered_test : forecast own_key 5 true (abroad ∷ []) [] ≡ err not_covered
unfolding forecast
uncovered_test = refl

unreached_test : forecast own_key 5 true (abroad ∷ broken ∷ []) [] ≡ err not_reached
unfolding forecast
unreached_test = refl

fill_gaps-SeriesFilled_example :
    (length gappy ≡ length complete
      → SeriesFilled fillable_fields gappy complete (fill_gaps gappy complete fillable_fields).0)
    × (¬ (length gappy ≡ length complete) → (fill_gaps gappy complete fillable_fields).0 ≡ gappy)
fill_gaps-SeriesFilled_example = fill_gaps-SeriesFilled gappy complete fillable_fields

forecast-Promise_example : Promise own_key 5 providers [] (forecast own_key 5 true providers [])
forecast-Promise_example = forecast-Promise own_key 5 true providers []
