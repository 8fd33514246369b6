-- ===== src/Planner/Ranking/Laws.antt =====
-- scoring/alternatives.py: what `rank_candidates` keeps of the candidates that it is given.
use mathlib.Core.List.Perm
use mathlib.Core.List.{Perm, append-nil, append_assoc, map-append}
use py_bike_router.Base.{
  ℕ, ◌+◌, ◌≡◌, refl, sym, ap, ◌∙◌, Option, none, some, List, [], ◌∷◌, ◌++◌, map, find, inl, inr,
  Bool-cases, subst,
}
use py_bike_router.Base.Json.{Json}
use py_bike_router.Base.Sorting.{sorted, sorted-perm}
use py_bike_router.Planner.State.{Candidate}
use py_bike_router.Planner.Ranking.{
  Entry, matches, add_duplicate, file_entry, visit, walk, choose, number, rank_candidates, order_le,
}

-- A candidate without what the ranking writes into it.
abbrev pub unranked : Candidate → Candidate
unranked c = record c { rank = none; duplicate_of = none; duplicates = [] }

abbrev pub candidates_of : List Entry → List Candidate
candidates_of es = map (λ e. e.candidate) es

module _ (distance : Json → Json → Option ℕ) (threshold : ℕ) where
  candidates-add_duplicate :
      (c : Candidate) (es : List Entry)
      → candidates_of (add_duplicate distance threshold c es) ≡ candidates_of es
  candidates-add_duplicate c [] = refl
  candidates-add_duplicate c (e ∷ es) = elim (Bool-cases (matches distance threshold c e)) [
    | inl m ↦ rw m
    | inr m ↦ rw m (ap (λ r. e.candidate ∷ r) (candidates-add_duplicate c es))
  ]

  candidates-file_entry :
      (es : List Entry) (c : Candidate) (o : Option Entry)
      → candidates_of (file_entry distance threshold es c o) ≡ candidates_of es ++ c ∷ []
  candidates-file_entry es c none = map-append _ _ _
  candidates-file_entry es c (some k) =
      map-append _ _ _ ∙ ap (λ r. r ++ c ∷ []) (candidates-add_duplicate c es)

  candidates-visit :
      (es : List Entry) (c : Candidate)
      → candidates_of (visit distance threshold es c) ≡ candidates_of es ++ c ∷ []
  unfolding visit
  candidates-visit es c = candidates-file_entry es c (find (matches distance threshold c) es)

  candidates-walk :
      (cs : List Candidate) (es : List Entry)
      → candidates_of (walk distance threshold es cs) ≡ candidates_of es ++ cs
  unfolding walk
  candidates-walk [] es = sym (append-nil _)
  candidates-walk (c ∷ cs) es =
      candidates-walk cs (visit distance threshold es c)
      ∙ ap (λ r. r ++ cs) (candidates-visit es c)
      ∙ append_assoc (candidates_of es) (c ∷ []) cs

  unranked-number :
      (n : ℕ) (es : List Entry)
      → map unranked (number distance threshold n es) ≡ map unranked (candidates_of es)
  unfolding number
  unranked-number n [] = refl
  unranked-number n (e ∷ es) = ap (λ r. unranked e.candidate ∷ r) (unranked-number (n + 1) es)

  -- Without a cap every candidate comes back, each as often as it was given, whatever is a duplicate
  -- of what: only the rank and the duplicate marks are written.
  pub rank_candidates-perm :
      (cs : List Candidate)
      → Perm (map unranked (rank_candidates distance threshold none cs)) (map unranked cs)
  unfolding rank_candidates choose
  rank_candidates-perm cs =
      subst (λ l. Perm l (map unranked cs))
        (sym (
          unranked-number 1 (walk distance threshold [] (sorted (order_le cs) cs))
          ∙ ap (map unranked) (candidates-walk (sorted (order_le cs) cs) [])))
        (Perm.map unranked (sorted-perm (order_le cs) cs))
