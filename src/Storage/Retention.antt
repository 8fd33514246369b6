-- ===== src/Storage/Retention.antt =====
-- storage/retention.py: old plans are deleted from the history, then the artifacts that only they
-- referenced, then the artifacts that no plan references. The history is the one of
-- storage/history.py. The artifact store is a list of what it holds, and a parameter says which
-- deletions fail; sets of names are lists.
pub mod Deletions
pub mod Kept
pub mod Ends
pub mod Dry
mod Tests
use py_bike_router.Base.{
  ℕ, zero, suc, ◌+◌, ◌-◌, String, Option, none, some, List, [], ◌∷◌, ◌++◌, Bool, true, false, not,
  ◌&&◌, map, any, filter, find_last, length, contains, unique, ltb, str_eq, Result, ok, err,
}
use py_bike_router.Base.Sorting.{sorted}
use py_bike_router.Base.Text.{concat}
use py_bike_router.Base.TextOrder.{text_ltb}
use py_bike_router.Storage.History.{
  PlanRecord, PlanRetentionRef, RetentionCursor, find_older_than, delete_plans,
  referenced_artifacts,
}

pub record RetentionPolicy : Type 0 where
  pub max_age : ℕ
  pub orphan_grace : ℕ
  pub batch_size : ℕ

pub record ArtifactInfo : Type 0 where
  pub name : String
  pub size : ℕ
  pub created_at : ℕ

pub record PruneReport : Type 0 where
  pub dry_run : Bool
  pub cutoff : ℕ
  pub plans : ℕ
  pub plan_artifacts : ℕ
  pub orphans : ℕ
  pub bytes_freed : ℕ
  pub errors : List String

-- RetentionBusy; the other one is the model's own, for a loop that is given too little fuel.
pub data Failure : Type 0 where
  busy : Failure
  out_of_fuel : Failure

-- PruneReport.artifacts
unfoldable pub artifacts_deleted : PruneReport → ℕ
artifacts_deleted report = report.plan_artifacts + report.orphans

-- What a run reads and changes.
pub record Pruning : Type 0 where
  pub plans : List PlanRecord
  pub stored : List ArtifactInfo
  pub handled : List String
  pub report : PruneReport

abbrev pub is_stored : String → List ArtifactInfo → Bool
is_stored name stored = any (λ i. str_eq i.name name) stored

abbrev pub without_artifact : String → List ArtifactInfo → List ArtifactInfo
without_artifact name stored = filter (λ i. not (str_eq i.name name)) stored

-- sizes[name].size if name in sizes else 0
abbrev pub size_in : List ArtifactInfo → String → ℕ
size_in infos name = elim (find_last (λ i. str_eq i.name name) infos) [ some i ↦ i.size | none ↦ 0 ]

abbrev pub by_name : String → String → Bool
by_name a b = not (text_ltb b a)

abbrev pub count_deleted : Bool → ℕ → PruneReport → PruneReport
count_deleted true size report = record report {
  bytes_freed = report.bytes_freed + size;
  orphans = report.orphans + 1;
}
count_deleted false size report = record report {
  bytes_freed = report.bytes_freed + size;
  plan_artifacts = report.plan_artifacts + 1;
}

abbrev pub names_of : List PlanRetentionRef → List String
names_of [] = []
names_of (ref ∷ refs) = ref.artifacts ++ names_of refs

-- report.plans += history.delete_plans(ids), or += len(batch) in a dry run
abbrev pub delete_batch : Bool → List PlanRetentionRef → Pruning → Pruning
delete_batch true batch p = record p {
  report = record p.report { plans = p.report.plans + length batch };
}
delete_batch false batch p =
    let deleted = delete_plans (map (λ ref. ref.plan_id) batch) p.plans in
    record p { plans = deleted.0; report = record p.report { plans = p.report.plans + deleted.1 } }

-- sorted(names - keep - handled)
unfoldable pub doomed : List PlanRetentionRef → Pruning → List String
unfolding referenced_artifacts unique
doomed batch p =
    let names = unique (names_of batch) in
    let keep = referenced_artifacts (some names) (some p.report.cutoff) p.plans in
    sorted by_name
      (filter (λ name. not (contains name keep) && not (contains name p.handled)) names)

-- (batch[-1].created_at, batch[-1].plan_id)
abbrev pub last_cursor : PlanRetentionRef → List PlanRetentionRef → RetentionCursor
last_cursor ref [] = (ref.created_at, ref.plan_id)
last_cursor ref (next ∷ refs) = last_cursor next refs

unfoldable pub orphan_names : List ArtifactInfo → ℕ → Pruning → List String
unfolding referenced_artifacts
orphan_names infos grace_cutoff p =
    let referenced = referenced_artifacts none none p.plans in
    sorted by_name (
      unique (
        map (λ i. i.name)
          (filter
            (λ i.
              not (contains i.name referenced)
              && not (contains i.name p.handled)
              && ltb i.created_at grace_cutoff)
            infos)))

abbrev pub new_report : Bool → ℕ → PruneReport
new_report dry_run cutoff = record {
  dry_run = dry_run;
  cutoff = cutoff;
  plans = 0;
  plan_artifacts = 0;
  orphans = 0;
  bytes_freed = 0;
  errors = [];
}

abbrev pub begin_pruning :
    RetentionPolicy → Bool → ℕ → List PlanRecord → List ArtifactInfo → Pruning
begin_pruning policy dry_run now plans stored = record {
  plans = plans;
  stored = stored;
  handled = [];
  report = new_report dry_run (now - policy.max_age);
}

-- `delete_error name` is the type of the exception that store.delete(name) raises, if it does.
module _ (delete_error : String → Option String) where
  abbrev pub delete_real : ℕ → Bool → String → Option String → Pruning → Pruning
  delete_real size orphans name (some error) p = record p {
    report = record p.report { errors = p.report.errors ++ concat name (concat ": " error) ∷ [] };
  }
  delete_real size orphans name none p = record p {
    stored = without_artifact name p.stored;
    report = count_deleted orphans size p.report;
  }

  -- One pass of the loop of _delete_artifacts.
  abbrev pub delete_artifact : List ArtifactInfo → Bool → Bool → String → Pruning → Pruning
  delete_artifact sizes true orphans name p = record p {
    report = count_deleted orphans (size_in sizes name) p.report;
  }
  delete_artifact sizes false orphans name p =
      delete_real (size_in sizes name) orphans name (delete_error name) p

  unfoldable pub delete_artifacts :
      List ArtifactInfo → Bool → Bool → List String → Pruning → Pruning
  delete_artifacts sizes dry_run orphans [] p = p
  delete_artifacts sizes dry_run orphans (name ∷ names) p =
      delete_artifacts sizes dry_run orphans names (delete_artifact sizes dry_run orphans name p)

  -- _expire_by_age: without a history.
  unfoldable pub expire_by_age : Bool → Pruning → Pruning
  unfolding delete_artifacts
  expire_by_age dry_run p =
      delete_artifacts p.stored dry_run true
        (sorted by_name
          (unique (map (λ i. i.name) (filter (λ i. ltb i.created_at p.report.cutoff) p.stored))))
        p

  abbrev pub delete_doomed : List ArtifactInfo → List String → Pruning → Pruning
  delete_doomed infos names p =
      delete_artifacts infos p.report.dry_run false names
        (record p { handled = p.handled ++ names })

  -- The body of the loop, after the test that the batch is not empty.
  unfoldable pub prune_batch : List ArtifactInfo → List PlanRetentionRef → Pruning → Pruning
  unfolding delete_artifacts doomed
  prune_batch infos batch p =
      let after = delete_batch p.report.dry_run batch p in
      delete_doomed infos (doomed batch after) after

  abbrev pub after_batch :
      List ArtifactInfo
      → (Option RetentionCursor → Pruning → Option Pruning)
      → Pruning
      → List PlanRetentionRef
      → Option Pruning
  after_batch infos next p [] = some p
  after_batch infos next p (ref ∷ refs) =
      next (some (last_cursor ref refs)) (prune_batch infos (ref ∷ refs) p)

  unfoldable pub prune_batches :
      ℕ → ℕ → List ArtifactInfo → Option RetentionCursor → Pruning → Option Pruning
  unfolding prune_batch find_older_than
  prune_batches zero batch_size infos cursor p = none
  prune_batches (suc fuel) batch_size infos cursor p =
      after_batch infos (prune_batches fuel batch_size infos) p
        (find_older_than p.report.cutoff batch_size cursor p.plans)

  unfoldable pub sweep_orphans : List ArtifactInfo → ℕ → Pruning → Pruning
  unfolding orphan_names delete_artifacts
  sweep_orphans infos grace_cutoff p =
      delete_artifacts infos p.report.dry_run true (orphan_names infos grace_cutoff p) p

  abbrev pub swept : List ArtifactInfo → ℕ → Option Pruning → Result Failure Pruning
  swept infos grace_cutoff none = err out_of_fuel
  swept infos grace_cutoff (some p) = ok (sweep_orphans infos grace_cutoff p)

  -- Each batch pages on, so that as many rounds as there are plans and one more are enough.
  unfoldable pub prune_with_history : RetentionPolicy → ℕ → Pruning → Result Failure Pruning
  unfolding prune_batches sweep_orphans
  prune_with_history policy now p =
      swept p.stored (now - policy.orphan_grace)
        (prune_batches (suc (length p.plans)) policy.batch_size p.stored none p)

  -- `history` is none without a database; `acquired` is what the maintenance lock yields.
  unfoldable pub prune :
      RetentionPolicy
      → Bool
      → ℕ
      → Bool
      → Option (List PlanRecord)
      → List ArtifactInfo
      → Result Failure Pruning
  unfolding expire_by_age prune_with_history
  prune policy dry_run now acquired none stored =
      ok (expire_by_age dry_run (begin_pruning policy dry_run now [] stored))
  prune policy dry_run now false (some plans) stored = err busy
  prune policy dry_run now true (some plans) stored =
      prune_with_history policy now (begin_pruning policy dry_run now plans stored)
