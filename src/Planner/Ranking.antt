-- ===== src/Planner/Ranking.antt =====
-- scoring/alternatives.py: the order of the candidates, and which of them are the same route again.
-- The texts of `rank_rationale` are not modelled.
pub mod Laws
pub mod Distinct
use Prim.Native.Nat.{Ordering}
use Prim.Native.String.{compare}
use py_bike_router.Base.{
  ℕ, ◌+◌, String, Option, none, some, List, [], ◌∷◌, ◌++◌, Bool, true, false, not, ◌&&◌, str_eq,
  filter, find, take, max, leb, ltb, if◌then◌else◌,
}
use py_bike_router.Base.Int.{ℤ, pos, ◌+ℤ◌, ◌-ℤ◌, ltb_ℤ}
use py_bike_router.Base.Json.{Json}
use py_bike_router.Base.Sorting.{sorted}
use py_bike_router.Base.Text.{concat}
use py_bike_router.Planner.State.{Candidate}

abbrev pub alternative_rank_margin : ℤ
alternative_rank_margin = pos 100_000

unfoldable pub candidate_label : Candidate → String
candidate_label c = concat c.provider (concat "/" c.profile)

-- c.provenance.get("alternative_of") as a test: an empty name is false.
abbrev pub is_alternative : Candidate → Bool
is_alternative c = elim c.alternative_of [ none ↦ false | some name ↦ not (str_eq name "") ]

abbrev penalty : Candidate → ℤ
penalty c = elim c.warning_penalty [ none ↦ pos 0 | some p ↦ p ]

-- The dictionary `main_penalty`: of several main routes of a provider the last one counts.
abbrev main_penalty : List Candidate → String → Option ℤ
main_penalty [] provider = none
main_penalty (c ∷ cs) provider = elim (main_penalty cs provider) [
  | some p ↦ some p
  | none ↦ if not (is_alternative c) && str_eq c.provider provider then some (penalty c) else none
]

abbrev or_own : Option ℤ → ℤ → ℤ
or_own none own = own
or_own (some p) own = p

-- The score that the order goes by; `none` is minus infinity.
abbrev pub order_score : List Candidate → Candidate → Option ℤ
order_score all c = elim c.score [
  | none ↦ none
  | some score ↦
      if is_alternative c
      then some (
          score
          +ℤ (penalty c
              -ℤ or_own (main_penalty all c.provider) (penalty c)
              -ℤ alternative_rank_margin))
      else some score
]

-- The comparison of two keys goes on to the next component where this one is equal.
abbrev text_le : String → String → Bool → Bool
text_le a b next = elim (compare a b) [
  | Ordering.lt ↦ true
  | Ordering.eq ↦ next
  | Ordering.gt ↦ false
]

abbrev pub score_le : Option ℤ → Option ℤ → Bool → Bool
score_le none none next = next
score_le none (some b) next = false
score_le (some a) none next = true
score_le (some a) (some b) next = if ltb_ℤ b a then true else if ltb_ℤ a b then false else next

-- _order_key(a) <= _order_key(b): higher score, then shorter, then provider and profile.
unfoldable pub order_le : List Candidate → Candidate → Candidate → Bool
unfolding ◌+ℤ◌ ◌-ℤ◌
order_le all a b = score_le (order_score all a) (order_score all b) (
    if ltb a.distance b.distance
    then true
    else if ltb b.distance a.distance
    then false
    else text_le a.provider b.provider (text_le a.profile b.profile true))

-- A candidate with what the walk over the order found out about it. The kept ones are those that are
-- no duplicate.
pub record Entry : Type 0 where
  pub candidate : Candidate
  pub duplicate_of : Option String
  pub duplicates : List String

abbrev pub is_kept : Entry → Bool
is_kept e = elim e.duplicate_of [ none ↦ true | some label ↦ false ]

module _ (distance : Json → Json → Option ℕ) (threshold : ℕ) where
  -- d is not None and d <= dedup_threshold_m
  unfoldable pub is_near : Candidate → Candidate → Bool
  is_near c k = elim (distance c.rest k.rest) [ none ↦ false | some d ↦ leb d threshold ]

  abbrev pub matches : Candidate → Entry → Bool
  matches c e = is_kept e && is_near c e.candidate

  -- duplicates_of_kept[match].append(label)
  abbrev pub add_duplicate : Candidate → List Entry → List Entry
  add_duplicate c [] = []
  add_duplicate c (e ∷ es) =
      if matches c e
      then record e { duplicates = e.duplicates ++ candidate_label c ∷ [] } ∷ es
      else e ∷ add_duplicate c es

  abbrev pub new_entry : Candidate → Option String → Entry
  new_entry c label = record { candidate = c; duplicate_of = label; duplicates = [] }

  -- What the loop does with a candidate and the entry that it matches.
  abbrev pub file_entry : List Entry → Candidate → Option Entry → List Entry
  file_entry es c none = es ++ new_entry c none ∷ []
  file_entry es c (some k) =
      add_duplicate c es ++ new_entry c (some (candidate_label k.candidate)) ∷ []

  -- One pass of the loop over the ordered candidates.
  unfoldable pub visit : List Entry → Candidate → List Entry
  unfolding is_near candidate_label
  visit es c = file_entry es c (find (matches c) es)

  unfoldable pub walk : List Entry → List Candidate → List Entry
  walk es [] = es
  walk es (c ∷ cs) = walk (visit es c) cs

  -- Every candidate, or the first `n` distinct ones.
  unfoldable pub choose : Option ℕ → List Entry → List Entry
  choose none es = es
  choose (some n) es = take (max 1 n) (filter is_kept es)

  abbrev pub ranked_entry : ℕ → Entry → Candidate
  ranked_entry rank e = record e.candidate {
    rank = some rank;
    duplicate_of = e.duplicate_of;
    duplicates = e.duplicates;
  }

  -- enumerate(result, start=rank)
  unfoldable pub number : ℕ → List Entry → List Candidate
  number rank [] = []
  number rank (e ∷ es) = ranked_entry rank e ∷ number (rank + 1) es

  unfoldable pub rank_candidates : Option ℕ → List Candidate → List Candidate
  unfolding order_le walk visit is_near choose number
  rank_candidates cap cs = number 1 (choose cap (walk [] (sorted (order_le cs) cs)))
