-- ===== src/Storage/History.antt =====
-- storage/history.py: the history of plans that one process keeps. The dictionary from identifiers to
-- records is the list of its records, in the order of their first saving. Times are counted from a
-- moment before the first plan. `stats` and the geometry's box are not modelled.
use py_bike_router.Base.{
  ℕ, ◌+◌, String, Option, none, some, List, [], ◌∷◌, ◌++◌, Bool, true, false, not, ◌&&◌, ◌||◌, map,
  any, filter, find, take, drop, contains, leb, ltb, str_eq, if◌then◌else◌,
}
use py_bike_router.Base.Int.{ℤ, leb_ℤ}
use py_bike_router.Base.Json.{Json}
use py_bike_router.Base.Sorting.{sorted}
use py_bike_router.Base.TextOrder.{text_ltb}

pub record BBox : Type 0 where
  pub west : ℤ
  pub south : ℤ
  pub east : ℤ
  pub north : ℤ

pub record StoredCandidate : Type 0 where
  pub provider : String
  pub provider_profile : String
  pub geometry : Json
  pub selected : Bool

-- The names of the artifacts are the values of the record's dictionary.
pub record PlanRecord : Type 0 where
  pub plan_id : String
  pub created_at : ℕ
  pub status : String
  pub bike_type : Option String
  pub artifacts : List String
  pub candidates : List StoredCandidate

pub record PlanFilter : Type 0 where
  pub provider : Option String
  pub profile : Option String
  pub status : Option String
  pub bike_type : Option String
  pub selected_only : Bool
  pub since : Option ℕ
  pub until : Option ℕ
  pub bbox : Option BBox
  pub limit : ℕ
  pub offset : ℕ

-- A plan as retention sees it, and the place in the order that retention pages through.
pub record PlanRetentionRef : Type 0 where
  pub plan_id : String
  pub created_at : ℕ
  pub artifacts : List String

abbrev pub RetentionCursor : Type 0
RetentionCursor = ℕ × String

-- self._records[record.plan_id] = record
unfoldable pub save : PlanRecord → List PlanRecord → List PlanRecord
save record_ [] = record_ ∷ []
save record_ (r ∷ rs) =
    if str_eq r.plan_id record_.plan_id then record_ ∷ rs else r ∷ save record_ rs

unfoldable pub get : String → List PlanRecord → Option PlanRecord
get plan_id records = find (λ r. str_eq r.plan_id plan_id) records

-- The comparison of the tuples (created_at, plan_id).
abbrev pub cursor_ltb : RetentionCursor → RetentionCursor → Bool
cursor_ltb (a, s) (b, t) = if ltb a b then true else if ltb b a then false else text_ltb s t

abbrev pub cursor_of : PlanRecord → RetentionCursor
cursor_of r = (r.created_at, r.plan_id)

abbrev pub is_after : Option RetentionCursor → PlanRecord → Bool
is_after none r = true
is_after (some cursor) r = cursor_ltb cursor (cursor_of r)

abbrev pub older_first : PlanRecord → PlanRecord → Bool
older_first a b = not (cursor_ltb (cursor_of b) (cursor_of a))

abbrev pub retention_ref : PlanRecord → PlanRetentionRef
retention_ref r = record { plan_id = r.plan_id; created_at = r.created_at; artifacts = r.artifacts }

unfoldable pub find_older_than :
    ℕ → ℕ → Option RetentionCursor → List PlanRecord → List PlanRetentionRef
find_older_than cutoff limit after records = map retention_ref (
    take limit (
      filter (is_after after) (sorted older_first (filter (λ r. ltb r.created_at cutoff) records))))

-- self._records.pop(plan_id, None), and whether there was such a record.
abbrev pub has_plan : String → List PlanRecord → Bool
has_plan plan_id records = any (λ r. str_eq r.plan_id plan_id) records

abbrev pub without : String → List PlanRecord → List PlanRecord
without plan_id records = filter (λ r. not (str_eq r.plan_id plan_id)) records

-- The records that are left, and how many there were of those to delete.
unfoldable pub delete_plans : List String → List PlanRecord → List PlanRecord × ℕ
delete_plans [] records = (records, 0)
delete_plans (plan_id ∷ plan_ids) records =
    let rest = delete_plans plan_ids (without plan_id records) in
    (rest.0, (if has_plan plan_id records then 1 else 0) + rest.1)

abbrev pub counts_since : Option ℕ → PlanRecord → Bool
counts_since none r = true
counts_since (some newer_than) r = leb newer_than r.created_at

abbrev pub all_artifacts : List PlanRecord → List String
all_artifacts [] = []
all_artifacts (r ∷ rs) = r.artifacts ++ all_artifacts rs

-- referenced if names is None else referenced & set(names)
unfoldable pub referenced_artifacts :
    Option (List String) → Option ℕ → List PlanRecord → List String
referenced_artifacts none newer_than records =
    all_artifacts (filter (counts_since newer_than) records)
referenced_artifacts (some names) newer_than records =
    filter (λ name. contains name names) (all_artifacts (filter (counts_since newer_than) records))

abbrev pub bboxes_intersect : BBox → BBox → Bool
bboxes_intersect a b =
    leb_ℤ a.west b.east && leb_ℤ b.west a.east && leb_ℤ a.south b.north && leb_ℤ b.south a.north

-- f is None or value == f
abbrev pub is_or_any : Option String → String → Bool
is_or_any none value = true
is_or_any (some wanted) value = str_eq value wanted

abbrev pub is_type_or_any : Option String → Option String → Bool
is_type_or_any none value = true
is_type_or_any (some wanted) none = false
is_type_or_any (some wanted) (some value) = str_eq value wanted

abbrev pub is_since : Option ℕ → ℕ → Bool
is_since none time = true
is_since (some since) time = leb since time

abbrev pub is_until : Option ℕ → ℕ → Bool
is_until none time = true
is_until (some until) time = ltb time until

module _ (geometry_bbox : Json → Option BBox) where
  abbrev pub meets_box : Option BBox → Option BBox → Bool
  meets_box none box = true
  meets_box (some wanted) none = false
  meets_box (some wanted) (some box) = bboxes_intersect box wanted

  abbrev pub candidate_matches : PlanFilter → StoredCandidate → Bool
  candidate_matches f s =
      (not f.selected_only || s.selected)
      && is_or_any f.provider s.provider
      && is_or_any f.profile s.provider_profile
      && meets_box f.bbox (geometry_bbox s.geometry)

  -- No filter is about the candidates.
  abbrev pub any_candidate : PlanFilter → Bool
  any_candidate f = elim f.provider [
    | some provider ↦ false
    | none ↦ elim f.profile [
      | some profile ↦ false
      | none ↦ elim f.bbox [ some bbox ↦ false | none ↦ not f.selected_only ]
    ]
  ]

  unfoldable pub matches : PlanFilter → PlanRecord → Bool
  matches f record_ =
      is_or_any f.status record_.status
      && is_type_or_any f.bike_type record_.bike_type
      && is_since f.since record_.created_at
      && is_until f.until record_.created_at
      && (any_candidate f || any (candidate_matches f) record_.candidates)

  abbrev pub newer_first : PlanRecord → PlanRecord → Bool
  newer_first a b = leb b.created_at a.created_at

  -- The page of the matching records; the summary of a record leaves out its geometries.
  unfoldable pub query : PlanFilter → List PlanRecord → List PlanRecord
  unfolding matches
  query f records = take f.limit (drop f.offset (sorted newer_first (filter (matches f) records)))
