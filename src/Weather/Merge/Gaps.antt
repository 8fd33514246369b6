-- ===== src/Weather/Merge/Gaps.antt =====
-- weather/merge.py: the filling, hour by hour and point by point.
use py_bike_router.Base.{
  ◌==◌, List, [], ◌∷◌, true, false, not, ◌&&◌, length, is_empty, Bool-cases, inl, inr, ◌≡◌, refl,
  sym, ◌∙◌, arith, ==_iff,
}
use py_bike_router.Weather.Merge.{
  Field, HourlyWeather, has_field, get, add_fields, fill_hour, fill_hours, fill_series, wanted_of,
  fill_gaps, nearest,
}
use py_bike_router.Weather.Merge.Hours.{
  FilledFrom, from_donor, has_field-empty, wanted_of_lem, fill_hour-FilledFrom, pick_unwanted,
}
use py_bike_router.Weather.Merge.Donors.{nearest-IsDonor}

module _ {V : Type 0} where
  -- Hour by hour, and point by point.
  abbrev pub HoursFilled :
      List Field → List (HourlyWeather V) → List (HourlyWeather V) → List (HourlyWeather V) → Type 0
  HoursFilled fields other [] [] = Unit {0}
  HoursFilled fields other (h ∷ hs) (g ∷ gs) =
      FilledFrom fields other h g × HoursFilled fields other hs gs
  HoursFilled fields other hs gs = ⊥

  abbrev pub SeriesFilled :
      List Field
      → List (List (HourlyWeather V))
      → List (List (HourlyWeather V))
      → List (List (HourlyWeather V))
      → Type 0
  SeriesFilled fields [] [] [] = Unit {0}
  SeriesFilled fields (own ∷ primary) (other ∷ secondary) (hours ∷ merged) =
      HoursFilled fields other own hours × SeriesFilled fields primary secondary merged
  SeriesFilled fields primary secondary merged = ⊥

  fill_hours-Filled :
      (fields : List Field) (other hs : List (HourlyWeather V)) (filled : List Field)
      → HoursFilled fields other hs (fill_hours (wanted_of fields) other hs filled).0
  unfolding fill_hours
  fill_hours-Filled fields other [] filled = tt
  fill_hours-Filled fields other (h ∷ hs) filled = (
    fill_hour-FilledFrom fields other h,
    fill_hours-Filled fields other hs (add_fields filled (fill_hour (wanted_of fields) other h).1),
  )

  fill_series-Filled :
      (fields : List Field) (primary secondary : List (List (HourlyWeather V)))
      (filled : List Field)
      → length primary ≡ length secondary
      → SeriesFilled fields primary secondary
          (fill_series (wanted_of fields) primary secondary filled).0
  unfolding fill_series
  fill_series-Filled fields [] [] filled same = tt
  fill_series-Filled fields [] (other ∷ secondary) filled same = absurd (omega (arith, same))
  fill_series-Filled fields (own ∷ primary) [] filled same = absurd (omega (arith, same))
  fill_series-Filled fields (own ∷ primary) (other ∷ secondary) filled same = (
    fill_hours-Filled fields other own filled,
    fill_series-Filled fields primary secondary (fill_hours (wanted_of fields) other own filled).1
        (omega (arith, same)),
  )

  -- Where nothing is wanted, every hour is as it is to be.
  unwanted-HoursFilled :
      (fields : List Field) (other hs : List (HourlyWeather V))
      → ((f : Field) → has_field f fields ≡ false)
      → HoursFilled fields other hs hs
  unwanted-HoursFilled fields other [] unwanted = tt
  unwanted-HoursFilled fields other (h ∷ hs) unwanted = (
    (
      refl,
      refl,
      nearest other h.time,
      nearest-IsDonor h.time other,
      λ f.
          pick_unwanted (get h f) (from_donor (nearest other h.time) f) (has_field f fields)
            (ground (arith, unwanted f)),
    ),
    unwanted-HoursFilled fields other hs unwanted,
  )

  unwanted-SeriesFilled :
      (fields : List Field) (primary secondary : List (List (HourlyWeather V)))
      → length primary ≡ length secondary
      → ((f : Field) → has_field f fields ≡ false)
      → SeriesFilled fields primary secondary primary
  unwanted-SeriesFilled fields [] [] same unwanted = tt
  unwanted-SeriesFilled fields [] (other ∷ secondary) same unwanted = absurd (omega (arith, same))
  unwanted-SeriesFilled fields (own ∷ primary) [] same unwanted = absurd (omega (arith, same))
  unwanted-SeriesFilled fields (own ∷ primary) (other ∷ secondary) same unwanted = (
    unwanted-HoursFilled fields other own unwanted,
    unwanted-SeriesFilled fields primary secondary (omega (arith, same)) unwanted,
  )

-- A forecast of other points is not used. Otherwise the merged forecast has the points and hours of the
-- primary one, with their times and core values, and every field of an hour is the primary's own, and,
-- where there is none and the field is asked for, that of the nearest hour, within half an hour, of
-- the other forecast at this point, if there is one.
pub fill_gaps-SeriesFilled :
    {V : Type 0} (primary secondary : List (List (HourlyWeather V))) (fields : List Field)
    → (length primary ≡ length secondary
        → SeriesFilled fields primary secondary (fill_gaps primary secondary fields).0)
      × (¬ (length primary ≡ length secondary) → (fill_gaps primary secondary fields).0 ≡ primary)
unfolding fill_gaps
fill_gaps-SeriesFilled primary secondary fields =
    elim (Bool-cases (length primary == length secondary && not (is_empty (wanted_of fields)))) [
      | inl e ↦ rw e (
        (λ same. fill_series-Filled fields primary secondary [] same),
        (λ other. absurd (other (ground (arith, ==_iff (length primary) (length secondary), e)))),
      )
      | inr e ↦ rw e (
        (λ same.
            let wanted : is_empty (wanted_of fields) ≡ true =
              ground (arith, ==_iff (length primary) (length secondary), e, same) in
            unwanted-SeriesFilled fields primary secondary same
              (λ f. sym (wanted_of_lem fields f) ∙ has_field-empty f (wanted_of fields) wanted)),
        (λ other. refl),
      )
    ]
