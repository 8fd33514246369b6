-- ===== src/Optimizer/Engine/Order.antt =====
-- optimizer/engine.py: the candidates come back in another order, each of them once.
use mathlib.Core.List.{Perm, append-nil, map-append, perm_middle}
use mathlib.Core.List.Perm
use py_bike_router.Base.{
  ℕ, ◌+◌, String, Option, none, some, List, [], ◌∷◌, ◌++◌, Bool, not, map, any, filter, Bool-cases,
  inl, inr, err, ok, ok-injective, ◌≡◌, refl, sym, ap, ◌∙◌, subst,
}
use py_bike_router.Base.Sorting.{sorted-perm}
use py_bike_router.Optimizer.Metrics.{Arithmetic, MetricName, RouteCandidate}
use py_bike_router.Optimizer.Engine.{
  OptimizeSpec, Limits, ActiveGoal, Entry, Outcome, is_original, numbered, pool_of, left_out,
  active_goals, dropped_goals, entry_of, shortest_from, is_feasible, before, in_order, ranked, Goal,
  pareto_of, same, rationale, explained, reported, concluded, choose, optimize,
}

filter-partition-perm {ℓ} :
    {A : Type ℓ} (p : A → Bool) (xs : List A) → Perm (filter p xs ++ filter (λ x. not (p x)) xs) xs
filter-partition-perm p [] = Perm.refl []
filter-partition-perm p (x ∷ xs) = elim (Bool-cases (p x)) [
  | inl e ↦ rw e (Perm.cons x (filter-partition-perm p xs))
  | inr e ↦ rw e (
      Perm.trans (perm_middle (filter p xs) (filter (λ y. not (p y)) xs))
        (Perm.cons x (filter-partition-perm p xs)))
]

module _ {F : Type 0} where
  -- A candidate without its rank and the rationale of it.
  abbrev pub unranked : RouteCandidate F → RouteCandidate F
  unranked c = record c { rank = none; rank_rationale = none }

  -- The ranks count on from the given one.
  abbrev pub HasRanks : ℕ → List (RouteCandidate F) → Type 0
  HasRanks rank [] = Unit {0}
  HasRanks rank (c ∷ cs) = (c.rank ≡ some rank) × HasRanks (rank + 1) cs

  abbrev second : ℕ × RouteCandidate F → RouteCandidate F
  second c = c.1

  abbrev first : RouteCandidate F × String → RouteCandidate F
  first c = c.0

  second-numbered : (i : ℕ) (cs : List (RouteCandidate F)) → map second (numbered i cs) ≡ cs
  second-numbered i [] = refl
  second-numbered i (c ∷ cs) = ap (λ r. c ∷ r) (second-numbered (i + 1) cs)

  pool_of-perm : (cs : List (ℕ × RouteCandidate F)) → Perm (pool_of cs ++ left_out cs) cs
  pool_of-perm cs = elim (Bool-cases (any is_original cs)) [
    | inl e ↦ rw e (filter-partition-perm is_original cs)
    | inr e ↦ rw (e, append-nil) (Perm.refl cs)
  ]

module _ {F : Type 0} (float : Arithmetic F) where
  unranked-ranked :
      (rank : ℕ) (cs : List (RouteCandidate F × String))
      → map unranked (ranked float rank cs) ≡ map unranked (map first cs)
  unranked-ranked rank [] = refl
  unranked-ranked rank ((c, reason) ∷ cs) = ap (λ r. unranked c ∷ r) (unranked-ranked (rank + 1) cs)

  ranked-HasRanks :
      (rank : ℕ) (cs : List (RouteCandidate F × String)) → HasRanks rank (ranked float rank cs)
  ranked-HasRanks rank [] = tt
  ranked-HasRanks rank ((c, reason) ∷ cs) = (refl, ranked-HasRanks (rank + 1) cs)

  -- The candidates that come back, without the rationales.
  abbrev candidates_of : List (Entry F) → List (ℕ × RouteCandidate F) → List (RouteCandidate F)
  candidates_of order duplicates = map (λ (e : Entry F). e.candidate) order ++ map second duplicates

  map-entries :
      (reason : Entry F → String) (order : List (Entry F)) (rest : List (RouteCandidate F × String))
      → map first (map (λ (e : Entry F). (e.candidate, reason e)) order ++ rest)
        ≡ map (λ (e : Entry F). e.candidate) order ++ map first rest
  map-entries reason [] rest = refl
  map-entries reason (e ∷ order) rest = ap (λ r. e.candidate ∷ r) (map-entries reason order rest)

  map-duplicates :
      (text : String) (duplicates : List (ℕ × RouteCandidate F))
      → map first (map (λ (c : ℕ × RouteCandidate F). (c.1, text)) duplicates)
        ≡ map second duplicates
  map-duplicates text [] = refl
  map-duplicates text (c ∷ cs) = ap (λ r. c.1 ∷ r) (map-duplicates text cs)

  first-explained :
      (reason : Entry F → String) (order : List (Entry F))
      (duplicates : List (ℕ × RouteCandidate F))
      → map first (explained float reason order duplicates) ≡ candidates_of order duplicates
  first-explained reason order duplicates =
      map-entries reason order
        (map (λ (c : ℕ × RouteCandidate F). (c.1, "near-identical to a better route")) duplicates)
      ∙ ap (λ l. map (λ (e : Entry F). e.candidate) order ++ l)
          (map-duplicates "near-identical to a better route" duplicates)

  pub reported-ok :
      (shortest : F) (o result : Outcome F) → reported float shortest o ≡ ok result → o ≡ result
  reported-ok shortest o result same_result = elim (Bool-cases (same float shortest float.zero_)) [
    | inl e ↦ let failed : err "ZeroDivisionError" ≡ ok result = rw e at same_result in cc
    | inr e ↦ let done : ok o ≡ ok result = rw e at same_result in ok-injective o result done
  ]

  in_order-perm :
      (active : List (ActiveGoal F)) (feasible : Entry F → Bool) (pool : List (Entry F))
      → Perm (in_order float active feasible pool) pool
  unfolding in_order
  in_order-perm [] feasible pool = filter-partition-perm feasible pool
  in_order-perm (a ∷ as_) feasible pool =
      Perm.trans
        (Perm.append (sorted-perm (before float) (filter feasible pool))
          (sorted-perm (before float) (filter (λ e. not (feasible e)) pool)))
        (filter-partition-perm feasible pool)

  candidates-entry_of :
      (active : List (ActiveGoal F)) (cs : List (ℕ × RouteCandidate F))
      → map (λ (e : Entry F). e.candidate) (map (entry_of float active) cs) ≡ map second cs
  candidates-entry_of active [] = refl
  candidates-entry_of active (c ∷ cs) = ap (λ r. c.1 ∷ r) (candidates-entry_of active cs)

  candidates_of-perm :
      (active : List (ActiveGoal F)) (feasible : Entry F → Bool)
      (pool duplicates : List (ℕ × RouteCandidate F))
      → Perm
          (candidates_of
            (in_order float active feasible (map (entry_of float active) pool))
            duplicates)
          (map second (pool ++ duplicates))
  candidates_of-perm active feasible pool duplicates =
      let entries = map (entry_of float active) pool in
      let moved = Perm.map (λ (e : Entry F). e.candidate) (in_order-perm active feasible entries) in
      subst (λ l. Perm (candidates_of (in_order float active feasible entries) duplicates) l)
        (ap (λ l. l ++ map second duplicates) (candidates-entry_of active pool)
          ∙ sym (map-append second pool duplicates))
        (Perm.append_right (map second duplicates) moved)

  abbrev IsExplained : List (Entry F) → List (ℕ × RouteCandidate F) → Outcome F → Type 0
  IsExplained order duplicates o =
      (reason : Entry F → String) × (o.ordered
        ≡ ranked float 1 (explained float reason order duplicates))

  concluded-ordered :
      (goals : List (Goal F)) (active : List (ActiveGoal F)) (dropped : List MetricName)
      (shortest : F) (feasible : Entry F → Bool) (pool : List (Entry F))
      (duplicates : List (ℕ × RouteCandidate F)) (order : List (Entry F)) {o : Outcome F}
      → concluded float goals active dropped shortest feasible pool duplicates order ≡ ok o
      → IsExplained order duplicates o
  concluded-ordered goals active dropped shortest feasible pool duplicates [] chosen = cc
  concluded-ordered goals active dropped shortest feasible pool duplicates (winner ∷ order) {o}
        chosen =
      let pareto = pareto_of float active (filter feasible pool) in
      (
        rationale float goals feasible pareto winner,
        sym (ap (λ (x : Outcome F). x.ordered) (reported-ok shortest _ o chosen)),
      )

  explained-Ordered :
      (order : List (Entry F)) (duplicates : List (ℕ × RouteCandidate F)) (o : Outcome F)
      (cs : List (RouteCandidate F))
      → IsExplained order duplicates o
      → Perm (candidates_of order duplicates) cs
      → Perm (map unranked o.ordered) (map unranked cs) × HasRanks 1 o.ordered
  explained-Ordered order duplicates o cs (reason, same_order) moved = (
    subst (λ l. Perm l (map unranked cs))
        (sym (
          ap (map unranked) same_order
          ∙ unranked-ranked 1 (explained float reason order duplicates)
          ∙ ap (map unranked) (first-explained reason order duplicates)))
        (Perm.map unranked moved),
    subst (HasRanks 1) (sym same_order)
        (ranked-HasRanks 1 (explained float reason order duplicates)),
  )

  chosen-Ordered :
      (spec : OptimizeSpec F) (limits : Option (Limits F))
      (pool duplicates : List (ℕ × RouteCandidate F)) {o : Outcome F}
      → choose float spec limits pool duplicates ≡ ok o
      → Perm (map unranked o.ordered) (map unranked (map second (pool ++ duplicates)))
        × HasRanks 1 o.ordered
  chosen-Ordered spec limits [] duplicates chosen = cc
  chosen-Ordered spec limits ((i, c) ∷ cs) duplicates {o} chosen =
      let active = active_goals float spec.goals ((i, c) ∷ cs) in
      let shortest = shortest_from float c.metrics.distance cs in
      let entries = map (entry_of float active) ((i, c) ∷ cs) in
      let feasible = is_feasible float shortest spec limits entries in
      let order = in_order float active feasible entries in
      explained-Ordered order duplicates o (map second (((i, c) ∷ cs) ++ duplicates))
        (concluded-ordered spec.goals active (dropped_goals float spec.goals ((i, c) ∷ cs)) shortest
          feasible entries duplicates order chosen)
        (candidates_of-perm active feasible ((i, c) ∷ cs) duplicates)

-- The optimizer returns every candidate that it is given, each as often as it was given and with
-- nothing but its rank and the rationale of it changed, and the ranks are 1, 2, ... in this order.
pub optimize-HasRanks :
    {F : Type 0} (float : Arithmetic F) (candidates : List (RouteCandidate F))
    (spec : OptimizeSpec F) (limits : Option (Limits F)) {o : Outcome F}
    → optimize float candidates spec limits ≡ ok o
    → Perm (map unranked o.ordered) (map unranked candidates) × HasRanks 1 o.ordered
unfolding optimize
optimize-HasRanks {F} float candidates spec limits {o} chosen =
    let given = numbered 0 candidates in
    let ordered = chosen-Ordered float spec limits (pool_of given) (left_out given) chosen in
    let whole = Perm.map second (pool_of-perm given) in
    (
      Perm.trans (ordered.0) (
          subst
            (λ l.
              Perm (map unranked (map second (pool_of given ++ left_out given))) (map unranked l))
            (second-numbered 0 candidates) (Perm.map unranked whole)),
      ordered.1,
    )
