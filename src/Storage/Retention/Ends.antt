-- ===== src/Storage/Retention/Ends.antt =====
-- storage/retention.py: the loop over the batches ends, in a dry run too.
use mathlib.Core.List.{Mem}
use py_bike_router.Base.Counting.{count, count-less, count-filter, count-length}
use py_bike_router.Base.Every.{All-take, All-filter, All-sorted, All-Mem}
use py_bike_router.Base.{
  ℕ, zero, suc, ◌-◌, ◌<◌, ◌≤◌, String, Option, none, some, List, [], ◌∷◌, ◌++◌, Bool, true, false,
  not, ◌&&◌, ◌≢◌, map, length, ltb, str_eq, All, err, ◌≡◌, refl, sym, ap, ◌∙◌, subst, arith,
}
use py_bike_router.Base.TextOrder.{text_ltb_trans, text_ltb_irreflexive}
use py_bike_router.Storage.History.{
  PlanRecord, PlanRetentionRef, RetentionCursor, cursor_ltb, cursor_of, is_after, older_first,
  retention_ref, delete_plans, without, find_older_than,
}
use py_bike_router.Storage.Retention.{
  RetentionPolicy, ArtifactInfo, Pruning, out_of_fuel, delete_batch, prune_batch, after_batch,
  prune_batches, last_cursor, swept, prune_with_history, prune, begin_pruning, doomed,
}
use py_bike_router.Storage.Retention.Deletions.{delete_artifacts-Undisturbed, prune_batch-cutoff}

cursor_ltb_trans :
    (a b c : RetentionCursor)
    → cursor_ltb a b ≡ true
    → cursor_ltb b c ≡ true
    → cursor_ltb a c ≡ true
cursor_ltb_trans (k, s) (m, t) (n, u) first second = ground (arith, text_ltb_trans s t u)

cursor_ltb_irreflexive : (a : RetentionCursor) → cursor_ltb a a ≡ false
cursor_ltb_irreflexive (k, s) = ground (arith, text_ltb_irreflexive s)

-- The plans that the loop has still to page through.
abbrev is_due : ℕ → Option RetentionCursor → PlanRecord → Bool
is_due cutoff cursor r = ltb r.created_at cutoff && is_after cursor r

is_due-cursor_of :
    (cutoff : ℕ) (cursor : Option RetentionCursor) (a : PlanRecord)
    → is_due cutoff cursor a ≡ true
    → (r : PlanRecord) → is_due cutoff (some (cursor_of a)) r ≡ true
    → is_due cutoff cursor r ≡ true
is_due-cursor_of cutoff none a due r later = ground arith
is_due-cursor_of cutoff (some cursor) a due r later =
    ground (arith, cursor_ltb_trans cursor (cursor_of a) (cursor_of r))

-- Fewer plans are due after the plan `a` than were due before.
abbrev Advances : ℕ → Option RetentionCursor → List PlanRecord → RetentionCursor → Type 0
Advances cutoff cursor plans next =
    count (is_due cutoff (some next)) plans < count (is_due cutoff cursor) plans

Advances-due :
    (cutoff : ℕ) (cursor : Option RetentionCursor) (plans : List PlanRecord) (a : PlanRecord)
    → Mem a plans
    → is_due cutoff cursor a ≡ true
    → Advances cutoff cursor plans (cursor_of a)
Advances-due cutoff cursor plans a member due =
    count-less (is_due cutoff cursor) (is_due cutoff (some (cursor_of a)))
      (is_due-cursor_of cutoff cursor a due) a due
      (ground (arith, cursor_ltb_irreflexive (cursor_of a))) plans member

abbrev AdvancesTo : ℕ → Option RetentionCursor → List PlanRecord → PlanRetentionRef → Type 0
AdvancesTo cutoff cursor plans ref = Advances cutoff cursor plans (ref.created_at, ref.plan_id)

All-retention_ref :
    (P : PlanRetentionRef → Type 0) (rs : List PlanRecord)
    → All (λ r. P (retention_ref r)) rs
    → All P (map retention_ref rs)
All-retention_ref P [] every = tt
All-retention_ref P (r ∷ rs) every = (every.0, All-retention_ref P rs every.1)

find_older_than-AdvancesTo :
    (cutoff limit : ℕ) (cursor : Option RetentionCursor) (plans : List PlanRecord)
    → All (AdvancesTo cutoff cursor plans) (find_older_than cutoff limit cursor plans)
unfolding find_older_than
find_older_than-AdvancesTo cutoff limit cursor plans =
    let Q = λ (a : PlanRecord). Advances cutoff cursor plans (cursor_of a) in
    let older = λ (a : PlanRecord). Mem a plans × (ltb a.created_at cutoff ≡ true) in
    All-retention_ref (AdvancesTo cutoff cursor plans) _ (
      All-take Q limit _ (
        All-filter older Q (is_after cursor)
          (λ a later held. Advances-due cutoff cursor plans a held.0 (ground (arith, held.1))) _
          (All-sorted older older_first _ (
            All-filter (λ a. Mem a plans) older (λ r. ltb r.created_at cutoff)
              (λ a is_older member. (member, is_older)) plans
              (All-Mem (λ a. Mem a plans) plans (λ a member. member))))))

last_cursor-Advances :
    (delete_error : String → Option String) (cutoff : ℕ) (cursor : Option RetentionCursor)
    (plans : List PlanRecord) (ref : PlanRetentionRef) (refs : List PlanRetentionRef)
    → All (AdvancesTo cutoff cursor plans) (ref ∷ refs)
    → Advances cutoff cursor plans (last_cursor ref refs)
last_cursor-Advances delete_error cutoff cursor plans ref [] every = every.0
last_cursor-Advances delete_error cutoff cursor plans ref (next ∷ refs) every =
    last_cursor-Advances delete_error cutoff cursor plans next refs every.1

count-delete_plans :
    (p : PlanRecord → Bool) (plan_ids : List String) (plans : List PlanRecord)
    → count p (delete_plans plan_ids plans).0 ≤ count p plans
unfolding delete_plans
count-delete_plans p [] plans = omega arith
count-delete_plans p (plan_id ∷ plan_ids) plans = omega (
  arith,
  count-delete_plans p plan_ids (without plan_id plans),
  count-filter p (λ r. not (str_eq r.plan_id plan_id)) plans,
)

module _ (delete_error : String → Option String) where
  count-delete_batch :
      (p : PlanRecord → Bool) (dry_run : Bool) (batch : List PlanRetentionRef) (s : Pruning)
      → count p (delete_batch dry_run batch s).plans ≤ count p s.plans
  count-delete_batch p true batch s = omega arith
  count-delete_batch p false batch s = count-delete_plans p (map (λ ref. ref.plan_id) batch) s.plans

  count-prune_batch :
      (p : PlanRecord → Bool) (infos : List ArtifactInfo) (batch : List PlanRetentionRef)
      (s : Pruning)
      → count p (prune_batch delete_error infos batch s).plans ≤ count p s.plans
  unfolding prune_batch
  count-prune_batch p infos batch s =
      let after = delete_batch s.report.dry_run batch s in
      let names = doomed batch after in
      let same =
        (delete_artifacts-Undisturbed delete_error infos after.report.dry_run false names
          (record after { handled = after.handled ++ names })).plans in
      omega (arith, ap (count p) same, count-delete_batch p s.report.dry_run batch s)

  after_batch-ends :
      (cutoff fuel : ℕ) (infos : List ArtifactInfo) (cursor : Option RetentionCursor)
      (next : Option RetentionCursor → Pruning → Option Pruning) (s : Pruning)
      → s.report.cutoff ≡ cutoff
      → ((later : Option RetentionCursor) (r : Pruning)
          → r.report.cutoff ≡ cutoff
          → count (is_due cutoff later) r.plans < fuel
          → next later r ≢ none)
      → count (is_due cutoff cursor) s.plans < suc fuel
      → (batch : List PlanRetentionRef) → All (AdvancesTo cutoff cursor s.plans) batch
      → after_batch delete_error infos next s batch ≢ none
  after_batch-ends cutoff fuel infos cursor next s same continues enough [] every = λ e. cc
  after_batch-ends cutoff fuel infos cursor next s same continues enough (ref ∷ refs) every =
      continues (some (last_cursor ref refs)) (prune_batch delete_error infos (ref ∷ refs) s)
        (prune_batch-cutoff delete_error infos (ref ∷ refs) s ∙ same)
        (omega (
          arith,
          count-prune_batch (is_due cutoff (some (last_cursor ref refs))) infos (ref ∷ refs) s,
          last_cursor-Advances delete_error cutoff cursor s.plans ref refs every,
        ))

  prune_batches-ends :
      (fuel batch_size : ℕ) (infos : List ArtifactInfo) (cursor : Option RetentionCursor)
      (s : Pruning)
      → count (is_due s.report.cutoff cursor) s.plans < fuel
      → prune_batches delete_error fuel batch_size infos cursor s ≢ none
  unfolding prune_batches
  prune_batches-ends zero batch_size infos cursor s enough = absurd (omega arith)
  prune_batches-ends (suc fuel) batch_size infos cursor s enough =
      after_batch-ends s.report.cutoff fuel infos cursor
        (prune_batches delete_error fuel batch_size infos) s refl
        (λ later r same less.
          prune_batches-ends fuel batch_size infos later r
            (subst (λ c. count (is_due c later) r.plans < fuel) (sym same) less))
        enough (find_older_than s.report.cutoff batch_size cursor s.plans)
        (find_older_than-AdvancesTo s.report.cutoff batch_size cursor s.plans)

  swept-ends :
      (infos : List ArtifactInfo) (grace_cutoff : ℕ) (o : Option Pruning)
      → o ≢ none
      → swept delete_error infos grace_cutoff o ≢ err out_of_fuel
  swept-ends infos grace_cutoff none ended = absurd (ended refl)
  swept-ends infos grace_cutoff (some s) ended = λ e. cc

-- The loop over the batches always ends: a run of `prune`, dry or not, with any batch size, is
-- refused because another one is in progress or comes to its report.
pub prune-ends :
    (delete_error : String → Option String) (policy : RetentionPolicy) (dry_run : Bool) (now : ℕ)
    (acquired : Bool) (history : Option (List PlanRecord)) (stored : List ArtifactInfo)
    → prune delete_error policy dry_run now acquired history stored ≢ err out_of_fuel
unfolding prune prune_with_history
prune-ends delete_error policy dry_run now acquired none stored = λ e. cc
prune-ends delete_error policy dry_run now false (some plans) stored = λ e. cc
prune-ends delete_error policy dry_run now true (some plans) stored =
    let s = begin_pruning policy dry_run now plans stored in
    swept-ends delete_error stored (now - policy.orphan_grace)
      (prune_batches delete_error (suc (length plans)) policy.batch_size stored none s)
      (prune_batches-ends delete_error (suc (length plans)) policy.batch_size stored none s
        (omega (arith, count-length (is_due s.report.cutoff none) plans)))
