-- ===== src/Weather/Merge/Donors.antt =====
-- weather/merge.py `_nearest`: the hour of the other forecast that a gap is filled from.
use py_bike_router.Base.{
  ℕ, ◌<◌, ◌≤◌, Option, none, some, List, [], ◌∷◌, Bool, true, false, leb, ltb, if◌then◌else◌,
  Bool-cases, inl, inr, ◌⊎◌, ◌≡◌, refl, ap, sym, subst, arith, All, All-map,
}
use py_bike_router.Weather.Merge.{HourlyWeather, apart, nearest, nearest_from, close_enough}

module _ {V : Type 0} where
  -- The first of the hours that are least far from the time.
  abbrev pub IsNearest : ℕ → HourlyWeather V → List (HourlyWeather V) → Type 0
  IsNearest when d [] = ⊥
  IsNearest when d (h ∷ hs) =
      ((d ≡ h) × All (λ k. apart h.time when ≤ apart k.time when) hs)
      ⊎ ((apart d.time when < apart h.time when) × IsNearest when d hs)

  -- The hour to fill from: the nearest, half an hour away at most, and none where all are farther.
  abbrev pub IsDonor : ℕ → List (HourlyWeather V) → Option (HourlyWeather V) → Type 0
  IsDonor when hs none = All (λ h. 1_800 < apart h.time when) hs
  IsDonor when hs (some d) = IsNearest when d hs × (apart d.time when ≤ 1_800)

  IsNearest-first :
      (when : ℕ) (d h : HourlyWeather V) (hs : List (HourlyWeather V))
      → IsNearest when d (h ∷ hs)
      → apart d.time when ≤ apart h.time when
  IsNearest-first when d h hs (inl here) =
      subst (λ n. n ≤ apart h.time when)
        (ap (λ (k : HourlyWeather V). apart k.time when) (sym here.0)) (omega arith)
  IsNearest-first when d h hs (inr later) = omega (arith, later.0)

  IsNearest-least :
      (when : ℕ) (d : HourlyWeather V) (hs : List (HourlyWeather V))
      → IsNearest when d hs
      → All (λ h. apart d.time when ≤ apart h.time when) hs
  IsNearest-least when d [] near = absurd near
  IsNearest-least when d (h ∷ hs) (inl here) =
      let same = ap (λ (k : HourlyWeather V). apart k.time when) here.0 in
      (
        omega (arith, same),
        subst (λ n. All (λ (k : HourlyWeather V). n ≤ apart k.time when) hs) (sym same) here.1,
      )
  IsNearest-least when d (h ∷ hs) (inr later) =
      (omega (arith, later.0), IsNearest-least when d hs later.1)

  -- A best hour stays ahead of one that is no nearer, and a nearer one comes before it.
  IsNearest-skip :
      (when : ℕ) (d best h : HourlyWeather V) (hs : List (HourlyWeather V))
      → apart best.time when ≤ apart h.time when
      → IsNearest when d (best ∷ hs)
      → IsNearest when d (best ∷ h ∷ hs)
  IsNearest-skip when d best h hs no_nearer (inl here) = inl (here.0, (no_nearer, here.1))
  IsNearest-skip when d best h hs no_nearer (inr later) =
      inr (later.0, inr (omega (arith, later.0, no_nearer), later.1))

  compared-IsNearest :
      (when : ℕ) (best h : HourlyWeather V) (hs : List (HourlyWeather V)) (b : Bool)
      → ltb (apart h.time when) (apart best.time when) ≡ b
      → IsNearest when (nearest_from when h hs) (h ∷ hs)
      → IsNearest when (nearest_from when best hs) (best ∷ hs)
      → IsNearest when (nearest_from when (if b then h else best) hs) (best ∷ h ∷ hs)
  compared-IsNearest when best h hs true e nearer same =
      let first = IsNearest-first when (nearest_from when h hs) h hs nearer in
      inr (ground (arith, first, e), nearer)
  compared-IsNearest when best h hs false e nearer same =
      IsNearest-skip when (nearest_from when best hs) best h hs (ground (arith, e)) same

  nearest_from-IsNearest :
      (when : ℕ) (best : HourlyWeather V) (hs : List (HourlyWeather V))
      → IsNearest when (nearest_from when best hs) (best ∷ hs)
  nearest_from-IsNearest when best [] = inl (refl, tt)
  nearest_from-IsNearest when best (h ∷ hs) =
      compared-IsNearest when best h hs (ltb (apart h.time when) (apart best.time when)) refl
        (nearest_from-IsNearest when h hs) (nearest_from-IsNearest when best hs)

  close_enough-IsDonor :
      (when : ℕ) (d : HourlyWeather V) (hs : List (HourlyWeather V))
      → IsNearest when d hs
      → IsDonor when hs (close_enough when d)
  close_enough-IsDonor when d hs near = elim (Bool-cases (leb (apart d.time when) 1_800)) [
    | inl e ↦ rw e (near, ground (arith, e))
    | inr e ↦ rw e (
        All-map (λ h. apart d.time when ≤ apart h.time when) (λ h. 1_800 < apart h.time when) hs
          (λ h closer. ground (arith, e, closer)) (IsNearest-least when d hs near))
  ]

  pub nearest-IsDonor : (when : ℕ) (hs : List (HourlyWeather V)) → IsDonor when hs (nearest hs when)
  unfolding nearest
  nearest-IsDonor when [] = tt
  nearest-IsDonor when (h ∷ hs) =
      close_enough-IsDonor when (nearest_from when h hs) (h ∷ hs) (nearest_from-IsNearest when h hs)
