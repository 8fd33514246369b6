-- ===== src/Planner/Constraints.antt =====
-- models.py `RouteConstraints`: its fields and the check that spans several of them.
use py_bike_router.Base.{
  ℕ, String, ◌≡◌, ◌≢◌, Option, none, some, List, [], ◌∷◌, Bool, true, false, ◌&&◌, arith, ltb,
  if◌then◌else◌, filter, is_empty, not, contains, Result, ok, err,
}
use py_bike_router.Base.Json.{Json}
use py_bike_router.Base.Text.{concat}

pub data LoopDirection : Type 0 where
  clockwise counterclockwise : LoopDirection

-- Distances are counted in millionths of a metre.
pub record RouteConstraints : Type 0 where
  pub bike_type : String
  pub target_distance : Option ℕ
  pub max_distance : Option ℕ
  pub prefer_surfaces : List String
  pub avoid_surfaces : List String
  pub return_to_origin : Bool
  pub loop_direction : LoopDirection
  pub rest : Json

-- One entry of `ValidationError.errors()`.
pub record Issue : Type 0 where
  pub msg : String
  pub loc : List String

abbrev pub is_none {ℓ} : {A : Type ℓ} → Option A → Bool
is_none none = true
is_none (some a) = false

abbrev exceeds : Option ℕ → Option ℕ → Bool
exceeds (some t) (some m) = ltb m t
exceeds _ _ = false

-- The members of set(xs) & set(ys)
abbrev overlap : List String → List String → List String
overlap xs ys = filter (λ x. contains x ys) xs

abbrev issue : String → List Issue
issue message = record { msg = message; loc = [] } ∷ []

-- How Python writes a distance in kilometres, and str(sorted(set(names))).
pub record Writing : Type 0 where
  pub distance : Option ℕ → String
  pub sorted_names : List String → String

abbrev too_long : Writing → RouteConstraints → String
too_long w c =
    concat "target_distance_km cannot exceed max_distance_km (" (
      concat (w.distance c.target_distance) (concat " > " (concat (w.distance c.max_distance) ")")))

-- `resolve` is the first part of config.py `resolve_surface_tokens`. Pydantic's own prefix of a message is
-- left out.
unfoldable pub check_distance_consistency :
    Writing
    → (resolve : List String → List String) → RouteConstraints
    → Result (List Issue) RouteConstraints
check_distance_consistency w resolve c =
    let both = overlap c.prefer_surfaces c.avoid_surfaces in
    let categories = overlap (resolve c.prefer_surfaces) (resolve c.avoid_surfaces) in
    if exceeds c.target_distance c.max_distance
    then err (issue (too_long w c))
    else if not (is_empty both)
    then err (issue (concat "surfaces listed in both prefer and avoid: " (w.sorted_names both)))
    else if not (is_empty categories)
    then err (
        issue (
          concat "prefer_surfaces and avoid_surfaces resolve to the same surface categories: "
            (w.sorted_names categories)))
    else if c.return_to_origin && is_none c.target_distance
    then err (
        issue (
          concat "return_to_origin requires target_distance_km to size the loop "
            "(there is no silently invented loop length)"))
    else ok c

-- A loop that passes the check has a size.
pub check_distance_consistency-sized :
    (w : Writing) (resolve : List String → List String) (c : RouteConstraints)
    {d : RouteConstraints}
    → check_distance_consistency w resolve c ≡ ok d
    → d.return_to_origin ≡ true
    → d.target_distance ≢ none
unfolding check_distance_consistency
check_distance_consistency-sized w resolve c h r n = ground arith
