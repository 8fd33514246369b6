-- ===== src/Weather/Merge/Hours.antt =====
-- weather/merge.py: what the filling makes of one hour.
use py_bike_router.Base.{
  Option, none, some, List, [], ◌∷◌, Bool, true, false, not, ◌&&◌, filter, is_empty, if◌then◌else◌,
  Bool-cases, inl, inr, ◌≡◌, refl, sym, ap, ◌∙◌, arith,
}
use py_bike_router.Weather.Merge.{
  Field, HourlyWeather, field_eq, has_field, get, put, is_missing, gaps_of, donor_for, updates,
  has_value, take_over, updated, fillable_fields, fill_hour, wanted_of, nearest,
}
use py_bike_router.Weather.Merge.Donors.{IsDonor, nearest-IsDonor}

field_eq-symmetric : (f g : Field) → field_eq f g ≡ field_eq g f
field_eq-symmetric f g = ground arith

field_eq_sound : (f g : Field) → field_eq f g ≡ true → f ≡ g
field_eq_sound f g same = ground arith

has_field-filter :
    (p : Field → Bool) (g : Field) (fs : List Field)
    → has_field g (filter p fs) ≡ (has_field g fs && p g)
has_field-filter p g [] = refl
has_field-filter p g (f ∷ fs) = elim (Bool-cases (field_eq g f)) [
  | inl e ↦ let same = ap p (field_eq_sound g f e) in ground (arith, has_field-filter p g fs, same)
  | inr e ↦ ground (arith, has_field-filter p g fs)
]

pub has_field-empty : (f : Field) (fs : List Field) → is_empty fs ≡ true → has_field f fs ≡ false
has_field-empty f [] none_left = refl
has_field-empty f (g ∷ fs) none_left = absurd (ground (arith, none_left))

pub wanted_of_lem :
    (fields : List Field) (f : Field) → has_field f (wanted_of fields) ≡ has_field f fields
wanted_of_lem fields f =
    has_field-filter (λ g. has_field g fields) f fillable_fields
    ∙ ap (λ b. b && has_field f fields) (fillable f)
  where
    fillable : (g : Field) → has_field g fillable_fields ≡ true
    fillable Field.apparent_temperature = refl
    fillable Field.uv_index = refl
    fillable Field.wind_gust = refl
    fillable Field.precipitation_probability = refl

module _ {V : Type 0} where
  abbrev pub from_donor : Option (HourlyWeather V) → Field → Option V
  from_donor none f = none
  from_donor (some d) f = get d f

  -- The own value, and where there is none that of the other, if the field is wanted.
  abbrev pub pick : Option V → Bool → Option V → Option V
  pick (some own) wanted other = some own
  pick none true other = other
  pick none false other = none

  -- What a field of an hour is to be after the filling.
  abbrev value_for : List Field → List (HourlyWeather V) → HourlyWeather V → Field → Option V
  value_for fields other h f =
      pick (get h f) (has_field f fields) (from_donor (nearest other h.time) f)

  -- The time and the core fields stay, and every field is as it is to be, with one hour to fill from.
  abbrev pub FilledFrom :
      List Field → List (HourlyWeather V) → HourlyWeather V → HourlyWeather V → Type 0
  FilledFrom fields other h g =
      (g.time ≡ h.time)
      × (g.core ≡ h.core)
      × (donor : Option (HourlyWeather V)) × IsDonor h.time other donor
      × ((f : Field) → get g f ≡ pick (get h f) (has_field f fields) (from_donor donor f))

  get-put :
      (h : HourlyWeather V) (f g : Field) (v : Option V)
      → get (put h f v) g ≡ (if field_eq f g then v else get h g)
  get-put h f g v = ground arith

  get-take_over :
      (donor h : HourlyWeather V) (fs : List Field) (g : Field)
      → get (take_over donor h fs) g ≡ (if has_field g fs then get donor g else get h g)
  get-take_over donor h [] g = refl
  get-take_over donor h (f ∷ fs) g =
      get-take_over donor (put h f (get donor f)) fs g
      ∙ ground (arith, get-put h f g (get donor f), field_eq_sound f g, field_eq-symmetric f g)

  time-take_over :
      (donor h : HourlyWeather V) (fs : List Field)
      → ((take_over donor h fs).time ≡ h.time) × ((take_over donor h fs).core ≡ h.core)
  time-take_over donor h [] = (refl, refl)
  time-take_over donor h (f ∷ fs) = ground (arith, time-take_over donor (put h f (get donor f)) fs)

  nearest-donor_for :
      (other : List (HourlyWeather V)) (h : HourlyWeather V) (gaps : List Field)
      (d : HourlyWeather V)
      → donor_for other h gaps ≡ some d
      → nearest other h.time ≡ some d
  nearest-donor_for other h [] d found = cc
  nearest-donor_for other h (f ∷ fs) d found = found

  pick_lem :
      (own donor : Option V) (wanted : Bool)
      → (if (wanted && elim own [ none ↦ true | some v ↦ false ])
            && not (elim donor [ none ↦ true | some v ↦ false ])
          then donor
          else own)
        ≡ pick own wanted donor
  pick_lem own donor wanted = ground arith

  pub pick_unwanted :
      (own donor : Option V) (wanted : Bool)
      → (wanted && elim own [ none ↦ true | some v ↦ false ]) ≡ false
      → own ≡ pick own wanted donor
  pick_unwanted own donor wanted none_wanted = ground arith

  pick-none : (own : Option V) (wanted : Bool) → own ≡ pick own wanted none
  pick-none own wanted = ground arith

  -- Only gaps are taken over.
  take_over_lem :
      (other : List (HourlyWeather V)) (h d : HourlyWeather V) (wanted : List Field) (f : Field)
      → nearest other h.time ≡ some d
      → get (take_over d h (filter (has_value d) (gaps_of h wanted))) f ≡ value_for wanted other h f
  take_over_lem other h d wanted f near =
      let result = get-take_over d h (filter (has_value d) (gaps_of h wanted)) f in
      let filtered = has_field-filter (has_value d) f (gaps_of h wanted) in
      let gap = has_field-filter (is_missing h) f wanted in
      result
      ∙ ap (λ b. if b then get d f else get h f) (filtered ∙ ap (λ b. b && has_value d f) gap)
      ∙ pick_lem (get h f) (get d f) (has_field f wanted)
      ∙ ap (λ o. pick (get h f) (has_field f wanted) (from_donor o f)) (sym near)

  -- Nothing is taken over where there is no gap, and where no hour is near enough.
  no_donor_lem :
      (other : List (HourlyWeather V)) (h : HourlyWeather V) (wanted : List Field) (f : Field)
      → donor_for other h (gaps_of h wanted) ≡ none
      → get h f ≡ value_for wanted other h f
  no_donor_lem other h wanted f found = elim (Bool-cases (is_empty (gaps_of h wanted))) [
    | inl e ↦
        pick_unwanted (get h f) (from_donor (nearest other h.time) f) (has_field f wanted)
          (sym (has_field-filter (is_missing h) f wanted) ∙ has_field-empty f (gaps_of h wanted) e)
    | inr e ↦
        let near : nearest other h.time ≡ none =
          sym (ap (λ b. if b then none else nearest other h.time) e) ∙ found in
        pick-none (get h f) (has_field f wanted)
        ∙ ap (λ o. pick (get h f) (has_field f wanted) (from_donor o f)) (sym near)
  ]

  value_for_same :
      (fields wanted : List Field) (other : List (HourlyWeather V)) (h : HourlyWeather V)
      (f : Field)
      → has_field f wanted ≡ has_field f fields
      → value_for wanted other h f ≡ value_for fields other h f
  value_for_same fields wanted other h f same =
      ap (λ b. pick (get h f) b (from_donor (nearest other h.time) f)) same

  pub fill_hour-FilledFrom :
      (fields : List Field) (other : List (HourlyWeather V)) (h : HourlyWeather V)
      → FilledFrom fields other h (fill_hour (wanted_of fields) other h).0
  fill_hour-FilledFrom fields other h = with_donor (donor_for other h (gaps_of h wanted)) refl
    where
      wanted : List Field
      wanted = wanted_of fields

      with_donor :
          (o : Option (HourlyWeather V))
          → donor_for other h (gaps_of h wanted) ≡ o
          → FilledFrom fields other h (updated o h (updates o (gaps_of h wanted)))
      with_donor none found = (
        refl,
        refl,
        nearest other h.time,
        nearest-IsDonor h.time other,
        λ f.
            no_donor_lem other h wanted f found
            ∙ value_for_same fields wanted other h f (wanted_of_lem fields f),
      )
      with_donor (some d) found =
          let kept = time-take_over d h (filter (has_value d) (gaps_of h wanted)) in
          (
            kept.0,
            kept.1,
            nearest other h.time,
            nearest-IsDonor h.time other,
            λ f.
                take_over_lem other h d wanted f
                  (nearest-donor_for other h (gaps_of h wanted) d found)
                ∙ value_for_same fields wanted other h f (wanted_of_lem fields f),
          )
