-- ===== src/Planner/Nodes/Score.antt =====
-- nodes/score.py: the candidates are scored together, ranked, and the best one is selected.
use py_bike_router.Base.{ℕ, suc, Option, none, some, List, [], ◌∷◌, min, Result, ok, err, ◌>>=◌}
use py_bike_router.Base.Int.{ℤ}
use py_bike_router.Base.Json.{Json, integer}
use py_bike_router.Errors.{entry}
use py_bike_router.Planner.State.{PlanStatus, Candidate, State, Change, Update}
use py_bike_router.Planner.Services.{Raised, Services}
use py_bike_router.Planner.Ranking.{rank_candidates}
use py_bike_router.Planner.Nodes.Route.{constraints_or_raise}

abbrev pub max_alternatives : ℕ
max_alternatives = 5

-- A bool is no `int` here, and a nonsensical cap is none.
unfoldable pub alternatives_cap : Json → Option ℕ
alternatives_cap (integer (ℤ.pos (suc n))) = some (min (suc n) max_alternatives)
alternatives_cap _ = none

-- zip(parsed, results, strict=True)
unfoldable pub with_scores : List Candidate → List (ℤ × Option ℤ) → Result Raised (List Candidate)
with_scores [] [] = ok []
with_scores (c ∷ cs) ((score, penalty) ∷ rs) = do
  rest ← with_scores cs rs
  ok (record c { score = some score; warning_penalty = penalty } ∷ rest)
with_scores _ _ = err Raised.value_error

abbrev pub select_first : List Candidate → Result Raised Update
select_first [] = err (Raised.other "IndexError")
select_first (best ∷ others) = ok (
    Change.status PlanStatus.in_progress
    ∷ Change.candidates (best ∷ others)
    ∷ Change.selected_candidate best
    ∷ [])

abbrev pub scored : Services → ℕ → State → List Candidate → Result Raised Update
scored sv threshold s [] = ok (
    Change.status PlanStatus.no_route
    ∷ Change.errors (entry "no_candidates" "no route candidates to score" ∷ [])
    ∷ [])
scored sv threshold s (c ∷ cs) = do
  constraints ← constraints_or_raise sv s.constraints
  with_score ← with_scores (c ∷ cs) (sv.score_together (c ∷ cs) constraints)
  select_first (
      rank_candidates sv.frechet_distance threshold (alternatives_cap s.max_alternatives)
        with_score)

-- `threshold` is the `dedup_threshold_m` of `build_score_node`.
unfoldable pub score_candidates : Services → (threshold : ℕ) → State → Result Raised Update
unfolding constraints_or_raise with_scores alternatives_cap rank_candidates
score_candidates sv threshold s = scored sv threshold s s.candidates
