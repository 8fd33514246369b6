-- ===== src/Weather/Service/Kept.antt =====
-- weather/service.py: a forecast whose gaps are filled keeps everything else.
use py_bike_router.Base.{
  Option, Bool, Bool-cases, ==_iff, ◌==◌, arith, length, ℕ, String, none, some, List, [], ◌∷◌, ◌++◌,
  get_elem?, Result, ok, err, inl, inr, ◌⊎◌, ◌≡◌, refl, sym, ◌∙◌, subst, arith,
}
use py_bike_router.Weather.Merge.{Field, HourlyWeather, get, fill_gaps, has_field, missing_fields}
use py_bike_router.Weather.Merge.Hours.{FilledFrom, pick, from_donor}
use py_bike_router.Weather.Merge.Gaps.{HoursFilled, SeriesFilled, fill_gaps-SeriesFilled}
use py_bike_router.Weather.Service.{Series, WeatherProvider, Merged, merge_all, credit}

first_of_append :
    (xs ys : List String) (x : String) → get_elem? xs 0 ≡ some x → get_elem? (xs ++ ys) 0 ≡ some x
first_of_append [] ys x first = cc
first_of_append (y ∷ xs) ys x first = first

module _ {V : Type 0} where
  -- The hour keeps its time and core values, and every field that it has.
  abbrev pub HourKept : HourlyWeather V → HourlyWeather V → Type 0
  HourKept h g =
      (g.time ≡ h.time) × (g.core ≡ h.core) × ((f : Field) → (get h f ≡ none) ⊎ (get g f ≡ get h f))

  abbrev pub HoursKept : List (HourlyWeather V) → List (HourlyWeather V) → Type 0
  HoursKept [] [] = Unit {0}
  HoursKept (h ∷ hs) (g ∷ gs) = HourKept h g × HoursKept hs gs
  HoursKept hs gs = ⊥

  -- The same points and hours, and in each hour nothing but gaps is different.
  abbrev pub SeriesKept : Series V → Series V → Type 0
  SeriesKept [] [] = Unit {0}
  SeriesKept (hs ∷ s) (gs ∷ t) = HoursKept hs gs × SeriesKept s t
  SeriesKept s t = ⊥

  HourKept-trans : (h g k : HourlyWeather V) → HourKept h g → HourKept g k → HourKept h k
  HourKept-trans h g k first second =
      (second.0 ∙ first.0, second.1 ∙ first.1, λ f. ground (arith, first.2 f, second.2 f))

  HoursKept-trans :
      (hs gs ks : List (HourlyWeather V)) → HoursKept hs gs → HoursKept gs ks → HoursKept hs ks
  HoursKept-trans [] [] [] first second = tt
  HoursKept-trans [] [] (k ∷ ks) first second = second
  HoursKept-trans [] (g ∷ gs) ks first second = absurd first
  HoursKept-trans (h ∷ hs) [] ks first second = absurd first
  HoursKept-trans (h ∷ hs) (g ∷ gs) [] first second = second
  HoursKept-trans (h ∷ hs) (g ∷ gs) (k ∷ ks) first second =
      (HourKept-trans h g k first.0 second.0, HoursKept-trans hs gs ks first.1 second.1)

  SeriesKept-trans : (s t u : Series V) → SeriesKept s t → SeriesKept t u → SeriesKept s u
  SeriesKept-trans [] [] [] first second = tt
  SeriesKept-trans [] [] (k ∷ u) first second = second
  SeriesKept-trans [] (g ∷ t) u first second = absurd first
  SeriesKept-trans (h ∷ s) [] u first second = absurd first
  SeriesKept-trans (h ∷ s) (g ∷ t) [] first second = second
  SeriesKept-trans (h ∷ s) (g ∷ t) (k ∷ u) first second =
      (HoursKept-trans h g k first.0 second.0, SeriesKept-trans s t u first.1 second.1)

  HoursKept-refl : (hs : List (HourlyWeather V)) → HoursKept hs hs
  HoursKept-refl [] = tt
  HoursKept-refl (h ∷ hs) = ((refl, refl, λ f. inr refl), HoursKept-refl hs)

  pub SeriesKept-refl : (s : Series V) → SeriesKept s s
  SeriesKept-refl [] = tt
  SeriesKept-refl (hs ∷ s) = (HoursKept-refl hs, SeriesKept-refl s)

  pick_kept : (own donor : Option V) (wanted : Bool) → (own ≡ none) ⊎ (pick own wanted donor ≡ own)
  pick_kept none donor wanted = inl refl
  pick_kept (some v) donor wanted = inr refl

  FilledFrom-HourKept :
      (fields : List Field) (other : List (HourlyWeather V)) (h g : HourlyWeather V)
      → FilledFrom fields other h g
      → HourKept h g
  FilledFrom-HourKept fields other h g filled = (
    filled.0,
    filled.1,
    λ f. elim (pick_kept (get h f) (from_donor filled.2 f) (has_field f fields)) [
      | inl gap ↦ inl gap
      | inr same ↦ inr (filled.4 f ∙ same)
    ],
  )

  HoursFilled-HoursKept :
      (fields : List Field) (other hs gs : List (HourlyWeather V))
      → HoursFilled fields other hs gs
      → HoursKept hs gs
  HoursFilled-HoursKept fields other [] [] filled = tt
  HoursFilled-HoursKept fields other [] (g ∷ gs) filled = filled
  HoursFilled-HoursKept fields other (h ∷ hs) [] filled = filled
  HoursFilled-HoursKept fields other (h ∷ hs) (g ∷ gs) filled = (
    FilledFrom-HourKept fields other h g filled.0,
    HoursFilled-HoursKept fields other hs gs filled.1,
  )

  SeriesFilled-SeriesKept :
      (fields : List Field) (s other t : Series V) → SeriesFilled fields s other t → SeriesKept s t
  SeriesFilled-SeriesKept fields [] [] [] filled = tt
  SeriesFilled-SeriesKept fields [] [] (g ∷ t) filled = absurd filled
  SeriesFilled-SeriesKept fields [] (o ∷ other) t filled = absurd filled
  SeriesFilled-SeriesKept fields (h ∷ s) [] t filled = absurd filled
  SeriesFilled-SeriesKept fields (h ∷ s) (o ∷ other) [] filled = absurd filled
  SeriesFilled-SeriesKept fields (h ∷ s) (o ∷ other) (g ∷ t) filled = (
    HoursFilled-HoursKept fields o h g filled.0,
    SeriesFilled-SeriesKept fields s other t filled.1,
  )

  fill_gaps-SeriesKept :
      (primary secondary : Series V) (fields : List Field)
      → SeriesKept primary (fill_gaps primary secondary fields).0
  fill_gaps-SeriesKept primary secondary fields =
      let filled = fill_gaps-SeriesFilled primary secondary fields in
      elim (Bool-cases (length primary == length secondary)) [
        | inl e ↦
            SeriesFilled-SeriesKept fields primary secondary (fill_gaps primary secondary fields).0
              (filled.0 (ground (arith, ==_iff (length primary) (length secondary), e)))
        | inr e ↦
            subst (SeriesKept primary)
              (sym (
                filled.1
                  (λ same. ground (arith, ==_iff (length primary) (length secondary), e, same))))
              (SeriesKept-refl primary)
      ]

  credit_kept :
      (p : WeatherProvider V) (filled : List Field) (m : Merged V) (name : String)
      → get_elem? m.sources 0 ≡ some name
      → ((credit p filled m).series ≡ m.series)
        × (get_elem? (credit p filled m).sources 0 ≡ some name)
  credit_kept p [] m name first = (refl, first)
  credit_kept p (f ∷ fs) m name first = (refl, first_of_append m.sources (p.name ∷ []) name first)

  pub merge_all_kept :
      (results : List (WeatherProvider V × Result String (Series V × ℕ))) (m : Merged V)
      (name : String)
      → get_elem? m.sources 0 ≡ some name
      → SeriesKept m.series (merge_all results m).series
        × (get_elem? (merge_all results m).sources 0 ≡ some name)
  unfolding merge_all
  merge_all_kept [] m name first = (SeriesKept-refl m.series, first)
  merge_all_kept ((p, err e) ∷ results) m name first = merge_all_kept results m name first
  merge_all_kept ((p, ok (series, time)) ∷ results) m name first =
      let filled = fill_gaps m.series series (missing_fields m.series) in
      let next = credit p filled.1 (record m { series = filled.0 }) in
      let credited = credit_kept p filled.1 (record m { series = filled.0 }) name first in
      let rest = merge_all_kept results next name credited.1 in
      (
        SeriesKept-trans m.series filled.0 (merge_all results next).series
            (fill_gaps-SeriesKept m.series series (missing_fields m.series))
            (subst (λ s. SeriesKept s (merge_all results next).series) credited.0 rest.0),
        rest.1,
      )
