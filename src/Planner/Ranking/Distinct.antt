-- ===== src/Planner/Ranking/Distinct.antt =====
-- scoring/alternatives.py: the candidates that are kept are distinct routes.
use py_bike_router.Base.{
  ℕ, zero, suc, ◌+◌, ◌≤◌, ◌≡◌, refl, ap, String, Option, none, some, List, [], ◌∷◌, ◌++◌, true,
  false, arith, filter, find, take, max, length, inl, inr, Bool-cases, All, All-append, length-take,
}
use py_bike_router.Base.Json.{Json}
use py_bike_router.Base.Sorting.{sorted}
use py_bike_router.Planner.State.{Candidate}
use py_bike_router.Planner.Ranking.{
  Entry, is_kept, is_near, matches, add_duplicate, new_entry, file_entry, visit, walk, choose,
  number, rank_candidates, order_le, candidate_label,
}

module _ (distance : Json → Json → Option ℕ) (threshold : ℕ) where
  -- A later kept route is not near an earlier kept one.
  abbrev Apart : Entry → Entry → Type 0
  Apart e f =
      is_kept e ≡ true
      → is_kept f ≡ true
      → is_near distance threshold f.candidate e.candidate ≡ false

  abbrev Distinct : List Entry → Type 0
  Distinct [] = Unit
  Distinct (e ∷ es) = All (Apart e) es × Distinct es

  All-add_duplicate :
      (e : Entry) (c : Candidate) (es : List Entry)
      → All (Apart e) es
      → All (Apart e) (add_duplicate distance threshold c es)
  All-add_duplicate e c [] h = tt
  All-add_duplicate e c (f ∷ es) h = elim (Bool-cases (matches distance threshold c f)) [
    | inl m ↦ rw m (h.0, h.1)
    | inr m ↦ rw m (h.0, All-add_duplicate e c es h.1)
  ]

  Distinct-add_duplicate :
      (c : Candidate) (es : List Entry)
      → Distinct es
      → Distinct (add_duplicate distance threshold c es)
  Distinct-add_duplicate c [] h = tt
  Distinct-add_duplicate c (e ∷ es) h = elim (Bool-cases (matches distance threshold c e)) [
    | inl m ↦ rw m (h.0, h.1)
    | inr m ↦ rw m (All-add_duplicate e c es h.0, Distinct-add_duplicate c es h.1)
  ]

  Distinct-snoc :
      (es : List Entry) (f : Entry)
      → Distinct es
      → All (λ e. Apart e f) es
      → Distinct (es ++ f ∷ [])
  Distinct-snoc [] f h new = (tt, tt)
  Distinct-snoc (e ∷ es) f h new =
      (All-append (Apart e) es (f ∷ []) h.0 (new.0, tt), Distinct-snoc es f h.1 new.1)

  -- A candidate that matches no entry is apart from all of them.
  unmatched-Apart :
      (c : Candidate) (es : List Entry)
      → find (matches distance threshold c) es ≡ none
      → All (λ e. Apart e (new_entry distance threshold c none)) es
  unmatched-Apart c [] h = tt
  unmatched-Apart c (e ∷ es) h = elim (Bool-cases (matches distance threshold c e)) [
    | inl m ↦ let bad : some e ≡ none = rw m at h in cc
    | inr m ↦ ((λ k _. ground arith), unmatched-Apart c es (rw m at h))
  ]

  duplicate-Apart :
      (c : Candidate) (label : String) (es : List Entry)
      → All (λ e. Apart e (new_entry distance threshold c (some label))) es
  duplicate-Apart c label [] = tt
  duplicate-Apart c label (e ∷ es) = ((λ k d. cc), duplicate-Apart c label es)

  Distinct-file_entry :
      (es : List Entry) (c : Candidate) (o : Option Entry)
      → find (matches distance threshold c) es ≡ o
      → Distinct es
      → Distinct (file_entry distance threshold es c o)
  Distinct-file_entry es c none e h = Distinct-snoc es _ h (unmatched-Apart c es e)
  Distinct-file_entry es c (some k) e h =
      Distinct-snoc (add_duplicate distance threshold c es) _ (Distinct-add_duplicate c es h)
        (duplicate-Apart c (candidate_label k.candidate) _)

  Distinct-visit :
      (es : List Entry) (c : Candidate) → Distinct es → Distinct (visit distance threshold es c)
  unfolding visit
  Distinct-visit es c h = Distinct-file_entry es c (find (matches distance threshold c) es) refl h

  Distinct-walk :
      (cs : List Candidate) (es : List Entry)
      → Distinct es
      → Distinct (walk distance threshold es cs)
  unfolding walk
  Distinct-walk [] es h = h
  Distinct-walk (c ∷ cs) es h =
      Distinct-walk cs (visit distance threshold es c) (Distinct-visit es c h)

  All-filter :
      (P : Entry → Type 0) (es : List Entry)
      → All P es
      → All (λ e. P e × (is_kept e ≡ true)) (filter is_kept es)
  All-filter P [] h = tt
  All-filter P (e ∷ es) h = elim (Bool-cases (is_kept e)) [
    | inl k ↦ rw k ((h.0, k), All-filter P es h.1)
    | inr k ↦ rw k (All-filter P es h.1)
  ]

  -- The kept entries, cut to any length: none is a duplicate, and each is far from those before it.
  Kept : List Entry → Type 0
  Kept [] = Unit
  Kept (e ∷ es) =
      (e.duplicate_of ≡ none)
      × All (λ f. is_near distance threshold f.candidate e.candidate ≡ false) es
      × Kept es

  not_duplicate : (o : Option String) (e : Entry) → e.duplicate_of ≡ o → is_kept e ≡ true → o ≡ none
  not_duplicate none e h k = refl
  not_duplicate (some l) e h k = ground arith

  All-Apart :
      (e : Entry) (es : List Entry)
      → is_kept e ≡ true
      → All (λ f. Apart e f × (is_kept f ≡ true)) es
      → All (λ f. is_near distance threshold f.candidate e.candidate ≡ false) es
  All-Apart e [] k h = tt
  All-Apart e (f ∷ es) k h = (h.0.0 k h.0.1, All-Apart e es k h.1)

  Kept-filter : (es : List Entry) → Distinct es → Kept (filter is_kept es)
  unfolding Kept
  Kept-filter [] h = tt
  Kept-filter (e ∷ es) h = elim (Bool-cases (is_kept e)) [
    | inl k ↦ rw k (
      not_duplicate e.duplicate_of e refl k,
      All-Apart e _ k (All-filter (Apart e) es h.0),
      Kept-filter es h.1,
    )
    | inr k ↦ rw k (Kept-filter es h.1)
  ]

  All-take : (P : Entry → Type 0) (n : ℕ) (es : List Entry) → All P es → All P (take n es)
  All-take P zero es h = tt
  All-take P (suc n) [] h = tt
  All-take P (suc n) (e ∷ es) h = (h.0, All-take P n es h.1)

  Kept-take : (n : ℕ) (es : List Entry) → Kept es → Kept (take n es)
  unfolding Kept
  Kept-take zero es h = tt
  Kept-take (suc n) [] h = tt
  Kept-take (suc n) (e ∷ es) h = (h.0, All-take _ n es h.1, Kept-take n es h.2)

  -- The ranked candidates: the ranks count up from `n`, none is a duplicate, and each is far from
  -- those before it.
  abbrev pub DistinctFrom : ℕ → List Candidate → Type 0
  DistinctFrom n [] = Unit
  DistinctFrom n (c ∷ cs) =
      (c.rank ≡ some n)
      × (c.duplicate_of ≡ none)
      × All (λ d. is_near distance threshold d c ≡ false) cs
      × DistinctFrom (n + 1) cs

  All-number :
      (k : Candidate) (n : ℕ) (es : List Entry)
      → All (λ f. is_near distance threshold f.candidate k ≡ false) es
      → All (λ d. is_near distance threshold d k ≡ false) (number distance threshold n es)
  unfolding number is_near
  All-number k n [] h = tt
  All-number k n (e ∷ es) h = (h.0, All-number k (n + 1) es h.1)

  DistinctFrom-number :
      (n : ℕ) (es : List Entry) → Kept es → DistinctFrom n (number distance threshold n es)
  unfolding number Kept is_near
  DistinctFrom-number n [] h = tt
  DistinctFrom-number n (e ∷ es) h =
      (refl, h.0, All-number e.candidate (n + 1) es h.1, DistinctFrom-number (n + 1) es h.2)

  length-number : (n : ℕ) (es : List Entry) → length (number distance threshold n es) ≡ length es
  unfolding number
  length-number n [] = refl
  length-number n (e ∷ es) = ap suc (length-number (n + 1) es)

  -- With a cap `n` the result has at most `n` candidates (at most one, where `n` is 0), ranked 1, 2, …
  -- None is marked as a duplicate, and no two of them are near each other: each is further than the
  -- threshold from every one ranked above it, or their distance is unknown.
  pub rank_candidates-distinct :
      (n : ℕ) (cs : List Candidate)
      → DistinctFrom 1 (rank_candidates distance threshold (some n) cs)
        × (length (rank_candidates distance threshold (some n) cs) ≤ max 1 n)
  unfolding rank_candidates choose
  rank_candidates-distinct n cs =
      let kept = filter is_kept (walk distance threshold [] (sorted (order_le cs) cs)) in
      (
        DistinctFrom-number 1 (take (max 1 n) kept) (
            Kept-take (max 1 n) kept
              (Kept-filter _ (Distinct-walk (sorted (order_le cs) cs) [] tt))),
        omega (arith, length-number 1 (take (max 1 n) kept), length-take (max 1 n) kept),
      )
