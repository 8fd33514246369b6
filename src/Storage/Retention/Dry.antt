-- ===== src/Storage/Retention/Dry.antt =====
-- storage/retention.py: a dry run only counts.
use py_bike_router.Base.{
  ℕ, zero, suc, ◌-◌, String, Option, none, some, List, [], ◌∷◌, ◌++◌, Bool, true, false, ◌≢◌,
  Result, ok, err, length, ◌≡◌, refl, arith, map, unique, filter, ltb,
}
use py_bike_router.Base.Sorting.{sorted}
use py_bike_router.Storage.History.{PlanRecord, PlanRetentionRef, RetentionCursor, find_older_than}
use py_bike_router.Storage.Retention.{
  RetentionPolicy, ArtifactInfo, Pruning, Failure, busy, out_of_fuel, delete_artifact,
  delete_artifacts, delete_batch, doomed, prune_batch, after_batch, prune_batches, last_cursor,
  sweep_orphans, orphan_names, swept, prune_with_history, prune, begin_pruning, expire_by_age,
  by_name,
}
use py_bike_router.Storage.Retention.Ends.{prune-ends}

-- A dry run that has changed nothing so far.
abbrev pub IsDry : List PlanRecord → List ArtifactInfo → Pruning → Type 0
IsDry plans stored p =
    (p.report.dry_run ≡ true) × (p.plans ≡ plans) × (p.stored ≡ stored) × (p.report.errors ≡ [])

abbrev pub plans_of : Option (List PlanRecord) → List PlanRecord
plans_of none = []
plans_of (some plans) = plans

-- What a dry run comes to: the plans and artifacts as they were and no error, or the lock is taken.
abbrev pub Untouched :
    Bool → Option (List PlanRecord) → List ArtifactInfo → Result Failure Pruning → Type 0
Untouched acquired history stored (ok left) = IsDry (plans_of history) stored left
Untouched acquired history stored (err busy) = acquired ≡ false
Untouched acquired history stored (err out_of_fuel) = ⊥

module _ (delete_error : String → Option String) (plans : List PlanRecord)
    (stored : List ArtifactInfo) where
  delete_artifact-IsDry :
      (sizes : List ArtifactInfo) (dry_run orphans : Bool) (name : String) (p : Pruning)
      → dry_run ≡ true
      → IsDry plans stored p
      → IsDry plans stored (delete_artifact delete_error sizes dry_run orphans name p)
  delete_artifact-IsDry sizes true true name p dry kept = kept
  delete_artifact-IsDry sizes true false name p dry kept = kept
  delete_artifact-IsDry sizes false orphans name p dry kept = absurd (ground (arith, dry))

  delete_artifacts-IsDry :
      (sizes : List ArtifactInfo) (dry_run orphans : Bool) (names : List String) (p : Pruning)
      → dry_run ≡ true
      → IsDry plans stored p
      → IsDry plans stored (delete_artifacts delete_error sizes dry_run orphans names p)
  unfolding delete_artifacts
  delete_artifacts-IsDry sizes dry_run orphans [] p dry kept = kept
  delete_artifacts-IsDry sizes dry_run orphans (name ∷ names) p dry kept =
      delete_artifacts-IsDry sizes dry_run orphans names
        (delete_artifact delete_error sizes dry_run orphans name p) dry
        (delete_artifact-IsDry sizes dry_run orphans name p dry kept)

  delete_batch-IsDry :
      (dry_run : Bool) (batch : List PlanRetentionRef) (p : Pruning)
      → dry_run ≡ true
      → IsDry plans stored p
      → IsDry plans stored (delete_batch dry_run batch p)
  delete_batch-IsDry true batch p dry kept = kept
  delete_batch-IsDry false batch p dry kept = absurd (ground (arith, dry))

  prune_batch-IsDry :
      (infos : List ArtifactInfo) (batch : List PlanRetentionRef) (p : Pruning)
      → IsDry plans stored p
      → IsDry plans stored (prune_batch delete_error infos batch p)
  unfolding prune_batch
  prune_batch-IsDry infos batch p kept =
      let after = delete_batch p.report.dry_run batch p in
      let counted = delete_batch-IsDry p.report.dry_run batch p kept.0 kept in
      delete_artifacts-IsDry infos after.report.dry_run false (doomed batch after)
        (record after { handled = after.handled ++ doomed batch after }) counted.0 counted

  -- The loop keeps this, however far it gets.
  abbrev OptionIsDry : Option Pruning → Type 0
  OptionIsDry none = Unit {0}
  OptionIsDry (some p) = IsDry plans stored p

  after_batch-IsDry :
      (infos : List ArtifactInfo) (next : Option RetentionCursor → Pruning → Option Pruning)
      (p : Pruning) (batch : List PlanRetentionRef)
      → ((cursor : Option RetentionCursor) (q : Pruning)
          → IsDry plans stored q
          → OptionIsDry (next cursor q))
      → IsDry plans stored p
      → OptionIsDry (after_batch delete_error infos next p batch)
  after_batch-IsDry infos next p [] rest kept = kept
  after_batch-IsDry infos next p (ref ∷ refs) rest kept =
      rest (some (last_cursor ref refs)) (prune_batch delete_error infos (ref ∷ refs) p)
        (prune_batch-IsDry infos (ref ∷ refs) p kept)

  prune_batches-IsDry :
      (fuel batch_size : ℕ) (infos : List ArtifactInfo) (cursor : Option RetentionCursor)
      (p : Pruning)
      → IsDry plans stored p
      → OptionIsDry (prune_batches delete_error fuel batch_size infos cursor p)
  unfolding prune_batches
  prune_batches-IsDry zero batch_size infos cursor p kept = tt
  prune_batches-IsDry (suc fuel) batch_size infos cursor p kept =
      after_batch-IsDry infos (prune_batches delete_error fuel batch_size infos) p
        (find_older_than p.report.cutoff batch_size cursor p.plans)
        (prune_batches-IsDry fuel batch_size infos) kept

  swept-Untouched :
      (infos : List ArtifactInfo) (grace_cutoff : ℕ) (o : Option Pruning)
      → swept delete_error infos grace_cutoff o ≢ err out_of_fuel
      → OptionIsDry o
      → Untouched true (some plans) stored (swept delete_error infos grace_cutoff o)
  unfolding sweep_orphans
  swept-Untouched infos grace_cutoff none ends kept = ends refl
  swept-Untouched infos grace_cutoff (some p) ends kept =
      delete_artifacts-IsDry infos p.report.dry_run true (orphan_names infos grace_cutoff p) p
        kept.0 kept

-- A dry run of retention always comes to a report, or finds the lock of another run, and it leaves every
-- plan and every artifact as it was and records no failed deletion.
pub prune-Untouched :
    (delete_error : String → Option String) (policy : RetentionPolicy) (now : ℕ) (acquired : Bool)
    (history : Option (List PlanRecord)) (stored : List ArtifactInfo)
    → Untouched acquired history stored (prune delete_error policy true now acquired history stored)
unfolding prune prune_with_history expire_by_age
prune-Untouched delete_error policy now acquired none stored =
    let start = begin_pruning policy true now [] stored in
    delete_artifacts-IsDry delete_error [] stored stored true true
      (sorted by_name
        (unique (map (λ i. i.name) (filter (λ i. ltb i.created_at start.report.cutoff) stored))))
      start refl (refl, refl, refl, refl)
prune-Untouched delete_error policy now false (some plans) stored = refl
prune-Untouched delete_error policy now true (some plans) stored =
    let start = begin_pruning policy true now plans stored in
    swept-Untouched delete_error plans stored stored (now - policy.orphan_grace)
      (prune_batches delete_error (suc (length plans)) policy.batch_size stored none start)
      (prune-ends delete_error policy true now true (some plans) stored)
      (prune_batches-IsDry delete_error plans stored (suc (length plans)) policy.batch_size stored
        none start (refl, refl, refl, refl))
