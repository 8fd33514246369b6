-- ===== src/Weather/Merge.antt =====
-- weather/merge.py: what the primary forecast lacks is taken from another one, matched by point and
-- hour. Values are kept by a type that the code never looks into; a time is a number of seconds. Sets
-- of fields are lists.
pub mod Donors
pub mod Gaps
pub mod Hours
use py_bike_router.Base.{
  ℕ, ◌+◌, ◌-◌, Option, none, some, List, [], ◌∷◌, ◌++◌, Bool, true, false, not, ◌&&◌, ◌||◌, any,
  filter, leb, ltb, ◌==◌, length, is_empty, if◌then◌else◌,
}

-- FILLABLE_FIELDS
pub data Field : Type 0 where
  apparent_temperature uv_index wind_gust precipitation_probability : Field

abbrev pub fillable_fields : List Field
fillable_fields = apparent_temperature ∷ uv_index ∷ wind_gust ∷ precipitation_probability ∷ []

-- The core fields are not told apart.
pub record HourlyWeather (V : Type 0) : Type 0 where
  pub time : ℕ
  pub core : V
  pub apparent_temperature : Option V
  pub uv_index : Option V
  pub wind_gust : Option V
  pub precipitation_probability : Option V

abbrev pub field_eq : Field → Field → Bool
field_eq Field.apparent_temperature Field.apparent_temperature = true
field_eq Field.uv_index Field.uv_index = true
field_eq Field.wind_gust Field.wind_gust = true
field_eq Field.precipitation_probability Field.precipitation_probability = true
field_eq f g = false

abbrev pub has_field : Field → List Field → Bool
has_field f fields = any (λ g. field_eq g f) fields

-- MAX_HOUR_OFFSET, in seconds
abbrev pub max_hour_offset : ℕ
max_hour_offset = 1_800

-- abs(a - b)
abbrev pub apart : ℕ → ℕ → ℕ
apart a b = (a - b) + (b - a)

-- filled.update(update)
abbrev pub add_fields : List Field → List Field → List Field
add_fields filled fs = filled ++ filter (λ f. not (has_field f filled)) fs

abbrev pub wanted_of : List Field → List Field
wanted_of fields = filter (λ f. has_field f fields) fillable_fields

module _ {V : Type 0} where
  -- getattr(hour, field), and model_copy with one field
  abbrev pub get : HourlyWeather V → Field → Option V
  get h Field.apparent_temperature = h.apparent_temperature
  get h Field.uv_index = h.uv_index
  get h Field.wind_gust = h.wind_gust
  get h Field.precipitation_probability = h.precipitation_probability

  abbrev pub put : HourlyWeather V → Field → Option V → HourlyWeather V
  put h Field.apparent_temperature v = record h { apparent_temperature = v }
  put h Field.uv_index v = record h { uv_index = v }
  put h Field.wind_gust v = record h { wind_gust = v }
  put h Field.precipitation_probability v = record h { precipitation_probability = v }

  abbrev pub is_missing : HourlyWeather V → Field → Bool
  is_missing h f = elim (get h f) [ none ↦ true | some v ↦ false ]

  -- A field is missing in some hour of the forecast.
  abbrev pub is_gap : List (List (HourlyWeather V)) → Field → Bool
  is_gap series f = any (λ hours. any (λ h. is_missing h f) hours) series

  unfoldable pub missing_fields : List (List (HourlyWeather V)) → List Field
  missing_fields series = filter (is_gap series) fillable_fields

  -- min(series, key=...): the first of the nearest.
  abbrev pub nearest_from : ℕ → HourlyWeather V → List (HourlyWeather V) → HourlyWeather V
  nearest_from when best [] = best
  nearest_from when best (h ∷ hs) =
      nearest_from when (if ltb (apart h.time when) (apart best.time when) then h else best) hs

  abbrev pub close_enough : ℕ → HourlyWeather V → Option (HourlyWeather V)
  close_enough when best = if leb (apart best.time when) max_hour_offset then some best else none

  -- _nearest
  unfoldable pub nearest : List (HourlyWeather V) → ℕ → Option (HourlyWeather V)
  nearest [] when = none
  nearest (h ∷ hs) when = close_enough when (nearest_from when h hs)

  -- The gaps of an hour among the wanted fields.
  abbrev pub gaps_of : HourlyWeather V → List Field → List Field
  gaps_of h wanted = filter (is_missing h) wanted

  abbrev pub donor_for :
      List (HourlyWeather V) → HourlyWeather V → List Field → Option (HourlyWeather V)
  donor_for other h gaps = if is_empty gaps then none else nearest other h.time

  abbrev pub has_value : HourlyWeather V → Field → Bool
  has_value donor f = not (is_missing donor f)

  -- The fields of `update`: the gaps that the donor has a value for.
  abbrev pub updates : Option (HourlyWeather V) → List Field → List Field
  updates none gaps = []
  updates (some donor) gaps = filter (has_value donor) gaps

  abbrev pub take_over : HourlyWeather V → HourlyWeather V → List Field → HourlyWeather V
  take_over donor h [] = h
  take_over donor h (f ∷ fs) = take_over donor (put h f (get donor f)) fs

  -- hour.model_copy(update=update)
  abbrev pub updated : Option (HourlyWeather V) → HourlyWeather V → List Field → HourlyWeather V
  updated none h fs = h
  updated (some donor) h fs = take_over donor h fs

  abbrev pub fill_hour :
      List Field → List (HourlyWeather V) → HourlyWeather V → HourlyWeather V × List Field
  fill_hour wanted other h =
      let gaps = gaps_of h wanted in
      let donor = donor_for other h gaps in
      (updated donor h (updates donor gaps), updates donor gaps)

  unfoldable pub fill_hours :
      List Field
      → List (HourlyWeather V)
      → List (HourlyWeather V)
      → List Field
      → List (HourlyWeather V) × List Field
  unfolding nearest
  fill_hours wanted other [] filled = ([], filled)
  fill_hours wanted other (h ∷ hs) filled =
      let hour = fill_hour wanted other h in
      let rest = fill_hours wanted other hs (add_fields filled hour.1) in (hour.0 ∷ rest.0, rest.1)

  -- zip(primary, secondary), of lists of the same length
  unfoldable pub fill_series :
      List Field
      → List (List (HourlyWeather V))
      → List (List (HourlyWeather V))
      → List Field
      → List (List (HourlyWeather V)) × List Field
  unfolding fill_hours
  fill_series wanted [] others filled = ([], filled)
  fill_series wanted (own ∷ primary) [] filled = ([], filled)
  fill_series wanted (own ∷ primary) (other ∷ secondary) filled =
      let hours = fill_hours wanted other own filled in
      let rest = fill_series wanted primary secondary hours.1 in (hours.0 ∷ rest.0, rest.1)

  -- The merged forecast, and the fields that were filled somewhere.
  unfoldable pub fill_gaps :
      List (List (HourlyWeather V))
      → List (List (HourlyWeather V))
      → List Field
      → List (List (HourlyWeather V)) × List Field
  unfolding fill_series
  fill_gaps primary secondary fields =
      if length primary == length secondary && not (is_empty (wanted_of fields))
      then fill_series (wanted_of fields) primary secondary []
      else (primary, [])
