-- ===== src/Optimizer/Engine/Sequence.antt =====
-- optimizer/engine.py: the first of the candidates that are ordered by utility, distance and index.
use mathlib.Core.Logic.Or
use mathlib.Core.List.{Perm, Mem, mem-cons, mem-cons_self, not-mem-nil}
use mathlib.Core.List.Perm
use py_bike_router.Base.{
  ℕ, List, [], ◌∷◌, ◌++◌, Bool, true, false, not, map, filter, leb, All, Bool-cases, inl, inr, ◌⊎◌,
  if◌then◌else◌, is_empty, ◌≡◌, refl, sym, ap, ◌∙◌, subst, arith,
}
use py_bike_router.Base.Every.{All-Mem, All-filter}
use py_bike_router.Base.Sorting.{sorted, insert_sorted, sorted-perm, IsSorted, sorted-IsSorted}
use py_bike_router.Optimizer.Metrics.{Arithmetic, RouteCandidate, lt}
use py_bike_router.Optimizer.Engine.{ActiveGoal, Entry, entry_of, before, in_order, utility_of}

-- Comparing floats that are not NaN.
pub record IsOrdered {F : Type 0} (float : Arithmetic F) : Type 0 where
  pub total : (a b : F) → (float.le a b ≡ true) ⊎ (float.le b a ≡ true)
  pub transitive : (a b c : F) → float.le a b ≡ true → float.le b c ≡ true → float.le a c ≡ true

module _ {F : Type 0} (float : Arithmetic F) where
  -- The entry is one of them, and none has a higher utility.
  abbrev pub IsBest : Entry F → List (Entry F) → Type 0
  IsBest w es = Mem w es × All (λ e. float.le e.utility w.utility ≡ true) es

module _ {F : Type 0} (float : Arithmetic F) (order : IsOrdered float) where
  before-total : (a b : Entry F) → (before float a b ≡ true) ⊎ (before float b a ≡ true)
  before-total a b = ground (
    arith,
    order.total a.utility b.utility,
    order.total a.candidate.metrics.distance b.candidate.metrics.distance,
  )

  -- One component of a key: smaller first, then by the rest.
  abbrev by_smaller : F → F → Bool → Bool
  by_smaller a b next = if lt float a b then true else if lt float b a then false else next

  by_smaller_trans :
      (a b c : F) (first second both : Bool)
      → (first ≡ true → second ≡ true → both ≡ true)
      → by_smaller a b first ≡ true
      → by_smaller b c second ≡ true
      → by_smaller a c both ≡ true
  by_smaller_trans a b c first second both next one two = ground (
    arith,
    next,
    order.total a b,
    order.total b c,
    order.total a c,
    order.transitive a b c,
    order.transitive b c a,
    order.transitive c a b,
    order.transitive c b a,
    order.transitive b a c,
    order.transitive a c b,
  )

  by_larger_trans :
      (a b c : F) (first second both : Bool)
      → (first ≡ true → second ≡ true → both ≡ true)
      → by_smaller b a first ≡ true
      → by_smaller c b second ≡ true
      → by_smaller c a both ≡ true
  by_larger_trans a b c first second both next one two = ground (
    arith,
    next,
    order.total a b,
    order.total b c,
    order.total a c,
    order.transitive a b c,
    order.transitive b c a,
    order.transitive c a b,
    order.transitive c b a,
    order.transitive b a c,
    order.transitive a c b,
  )

  before_trans :
      (a b c : Entry F)
      → before float a b ≡ true
      → before float b c ≡ true
      → before float a c ≡ true
  before_trans a b c first second =
      let d = λ (e : Entry F). e.candidate.metrics.distance in
      by_larger_trans a.utility b.utility c.utility (by_smaller (d a) (d b) (leb a.index b.index))
        (by_smaller (d b) (d c) (leb b.index c.index))
        (by_smaller (d a) (d c) (leb a.index c.index))
        (by_smaller_trans (d a) (d b) (d c) (leb a.index b.index) (leb b.index c.index)
          (leb a.index c.index) (λ i j. ground arith))
        first second

  before-le : (a b : Entry F) → before float a b ≡ true → float.le b.utility a.utility ≡ true
  before-le a b first = ground (arith, order.total a.utility b.utility)

  pub member-All :
      (P : Entry F → Type 0)
      → ((e : Entry F) → IsProp (P e))
      → (es : List (Entry F)) → All P es
      → (e : Entry F) → Mem e es
      → P e
  member-All P is_prop [] every e member = absurd (not-mem-nil member)
  member-All P is_prop (f ∷ fs) every e member =
      Or.elim (is_prop e) (mem-cons.0 member) (λ same. subst P (sym same) every.0)
        (member-All P is_prop fs every.1 e)

  All-perm :
      (P : Entry F → Type 0)
      → ((e : Entry F) → IsProp (P e))
      → (es fs : List (Entry F)) → Perm es fs
      → All P es
      → All P fs
  All-perm P is_prop es fs moved every =
      All-Mem P fs (λ e member. member-All P is_prop es every e ((Perm.mem_iff moved).1 member))

  sorted-IsBest :
      (es : List (Entry F)) (w : Entry F) (others : List (Entry F))
      → sorted (before float) es ≡ w ∷ others
      → IsBest float w es
  sorted-IsBest es w others same =
      let moved : Perm (w ∷ others) es =
        subst (λ l. Perm l es) same (sorted-perm (before float) es) in
      let in_order_ : IsSorted (before float) (w ∷ others) =
        subst (IsSorted (before float)) same
          (sorted-IsSorted (before float) before-total before_trans es) in
      let self : float.le w.utility w.utility ≡ true =
        ground (arith, order.total w.utility w.utility) in
      (
        (Perm.mem_iff moved).0 mem-cons_self,
        All-perm (λ e. float.le e.utility w.utility ≡ true) (λ e. hlevel) (w ∷ others) es moved
            (self, lower others in_order_.0),
      )
    where
      lower :
          (fs : List (Entry F))
          → All (λ e. before float w e ≡ true) fs
          → All (λ e. float.le e.utility w.utility ≡ true) fs
      lower [] every = tt
      lower (f ∷ fs) every = (before-le w f every.0, lower fs every.1)

  first_of :
      (xs ys : List (Entry F)) (w : Entry F) (others : List (Entry F))
      → is_empty xs ≡ false
      → xs ++ ys ≡ w ∷ others
      → (rest : List (Entry F)) × (xs ≡ w ∷ rest)
  first_of [] ys w others full same = cc
  first_of (x ∷ xs) ys w others full same = (xs, cc)

  is_empty-insert_sorted :
      (e : Entry F) (es : List (Entry F)) → is_empty (insert_sorted (before float) e es) ≡ false
  is_empty-insert_sorted e [] = refl
  is_empty-insert_sorted e (f ∷ fs) = elim (Bool-cases (before float e f)) [
    | inl first ↦ rw first refl
    | inr later ↦ rw later refl
  ]

  is_empty-sorted :
      (es : List (Entry F)) → is_empty es ≡ false → is_empty (sorted (before float) es) ≡ false
  is_empty-sorted [] full = full
  is_empty-sorted (e ∷ es) full = is_empty-insert_sorted e (sorted (before float) es)

  zero_highest :
      (w : Entry F) (es : List (Entry F))
      → w.utility ≡ float.zero_
      → All (λ e. e.utility ≡ float.zero_) es
      → All (λ e. float.le e.utility w.utility ≡ true) es
  zero_highest w [] zero_w zeros = tt
  zero_highest w (e ∷ es) zero_w zeros = (
    ground (arith, order.total float.zero_ float.zero_, zero_w, zeros.0),
    zero_highest w es zero_w zeros.1,
  )

  zeros-IsBest :
      (es : List (Entry F)) (w : Entry F) (others : List (Entry F))
      → es ≡ w ∷ others
      → All (λ e. e.utility ≡ float.zero_) es
      → IsBest float w es
  zeros-IsBest [] w others same zeros = cc
  zeros-IsBest (e ∷ es) w others same zeros =
      let first : e ≡ w = cc in
      (
        subst (λ f. Mem f (e ∷ es)) first mem-cons_self,
        zero_highest w (e ∷ es) (sym (ap (λ (f : Entry F). f.utility) first) ∙ zeros.0) zeros,
      )

  -- Either some goal is active, or all utilities are zero.
  abbrev pub HasGoalOrZeros : List (ActiveGoal F) → List (Entry F) → Type 0
  HasGoalOrZeros active pool = (is_empty active ≡ false) ⊎ All (λ e. e.utility ≡ float.zero_) pool

  pub in_order-IsBest :
      (active : List (ActiveGoal F)) (feasible : Entry F → Bool) (pool : List (Entry F))
      (w : Entry F) (others : List (Entry F))
      → HasGoalOrZeros active pool
      → is_empty (filter feasible pool) ≡ false
      → in_order float active feasible pool ≡ w ∷ others
      → IsBest float w (filter feasible pool)
  unfolding in_order
  in_order-IsBest [] feasible pool w others (inl some_goal) full same = cc
  in_order-IsBest [] feasible pool w others (inr zeros) full same =
      let found =
        first_of (filter feasible pool) (filter (λ e. not (feasible e)) pool) w others full same in
      zeros-IsBest (filter feasible pool) w found.0 found.1 (
        All-filter (λ e. e.utility ≡ float.zero_) (λ e. e.utility ≡ float.zero_) feasible
          (λ e test zero_. zero_) pool zeros)
  in_order-IsBest (a ∷ as_) feasible pool w others zeros full same =
      let found =
        first_of (sorted (before float) (filter feasible pool))
          (sorted (before float) (filter (λ e. not (feasible e)) pool)) w others
          (is_empty-sorted (filter feasible pool) full) same in
      sorted-IsBest (filter feasible pool) w found.0 found.1

  pub entry_of-HasGoalOrZeros :
      (active : List (ActiveGoal F)) (cs : List (ℕ × RouteCandidate F))
      → HasGoalOrZeros active (map (entry_of float active) cs)
  unfolding utility_of
  entry_of-HasGoalOrZeros [] cs = inr (zeros cs)
    where
      zeros :
          (ds : List (ℕ × RouteCandidate F))
          → All (λ e. e.utility ≡ float.zero_) (map (entry_of float []) ds)
      zeros [] = tt
      zeros (d ∷ ds) = (refl, zeros ds)
  entry_of-HasGoalOrZeros (a ∷ as_) cs = inl refl
