-- ===== src/Storage/Retention/Deletions.antt =====
-- storage/retention.py: what the deletion of plans and of artifacts leaves alone.
use py_bike_router.Base.{
  ℕ, String, Option, none, some, List, [], ◌∷◌, ◌++◌, Bool, true, false, ◌&&◌, any, filter,
  contains, contains-append, leb, str_eq, eq_iff, ◌≡◌, refl, ◌∙◌, arith,
}
use py_bike_router.Storage.History.{
  PlanRecord, PlanRetentionRef, counts_since, delete_plans, without, all_artifacts,
}
use py_bike_router.Storage.Retention.{
  ArtifactInfo, Pruning, is_stored, without_artifact, delete_artifact, delete_artifacts,
  delete_batch, doomed, prune_batch,
}

-- A plan that is not older than the cutoff points at the artifact.
abbrev pub refers : ℕ → String → List PlanRecord → Bool
refers cutoff name plans = any (λ r. leb cutoff r.created_at && contains name r.artifacts) plans

pub refers-all_artifacts :
    (cutoff : ℕ) (name : String) (plans : List PlanRecord)
    → contains name (all_artifacts (filter (counts_since (some cutoff)) plans))
      ≡ refers cutoff name plans
refers-all_artifacts cutoff name [] = refl
refers-all_artifacts cutoff name (r ∷ rs) =
    let rest = refers-all_artifacts cutoff name rs in
    let joined =
      contains-append name r.artifacts (all_artifacts (filter (counts_since (some cutoff)) rs)) in
    ground (arith, rest, joined)

pub refers-referenced :
    (cutoff : ℕ) (name : String) (plans : List PlanRecord)
    → refers cutoff name plans ≡ true
    → contains name (all_artifacts (filter (counts_since none) plans)) ≡ true
refers-referenced cutoff name [] referred = referred
refers-referenced cutoff name (r ∷ rs) referred =
    let joined = contains-append name r.artifacts (all_artifacts (filter (counts_since none) rs)) in
    ground (arith, refers-referenced cutoff name rs, joined)

pub refers-without :
    (cutoff : ℕ) (name plan_id : String) (plans : List PlanRecord)
    → refers cutoff name (without plan_id plans) ≡ true
    → refers cutoff name plans ≡ true
refers-without cutoff name plan_id [] left = left
refers-without cutoff name plan_id (r ∷ rs) left =
    ground (arith, refers-without cutoff name plan_id rs)

pub refers-delete_plans :
    (cutoff : ℕ) (name : String) (plan_ids : List String) (plans : List PlanRecord)
    → refers cutoff name (delete_plans plan_ids plans).0 ≡ true
    → refers cutoff name plans ≡ true
unfolding delete_plans
refers-delete_plans cutoff name [] plans left = left
refers-delete_plans cutoff name (plan_id ∷ plan_ids) plans left =
    refers-without cutoff name plan_id plans
      (refers-delete_plans cutoff name plan_ids (without plan_id plans) left)

pub is_stored-without :
    (name other : String) (stored : List ArtifactInfo)
    → str_eq other name ≡ false
    → is_stored name (without_artifact other stored) ≡ is_stored name stored
is_stored-without name other [] apart = refl
is_stored-without name other (i ∷ is) apart = ground (
  arith,
  is_stored-without name other is,
  eq_iff i.name name,
  eq_iff i.name other,
  eq_iff other name,
)

-- What a deletion of artifacts leaves alone.
pub record Undisturbed (p q : Pruning) : Type 0 where
  pub plans : q.plans ≡ p.plans
  pub handled : q.handled ≡ p.handled
  pub cutoff : q.report.cutoff ≡ p.report.cutoff
  pub dry_run : q.report.dry_run ≡ p.report.dry_run

module _ (delete_error : String → Option String) (name : String) where
  pub delete_artifact-is_stored :
      (sizes : List ArtifactInfo) (dry_run orphans : Bool) (other : String) (p : Pruning)
      → str_eq other name ≡ false
      → is_stored name (delete_artifact delete_error sizes dry_run orphans other p).stored
        ≡ is_stored name p.stored
  delete_artifact-is_stored sizes true orphans other p apart = refl
  delete_artifact-is_stored sizes false orphans other p apart =
      ground (arith, is_stored-without name other p.stored apart)

  pub delete_artifacts-is_stored :
      (sizes : List ArtifactInfo) (dry_run orphans : Bool) (names : List String) (p : Pruning)
      → contains name names ≡ false
      → is_stored name (delete_artifacts delete_error sizes dry_run orphans names p).stored
        ≡ is_stored name p.stored
  unfolding delete_artifacts
  delete_artifacts-is_stored sizes dry_run orphans [] p absent = refl
  delete_artifacts-is_stored sizes dry_run orphans (other ∷ names) p absent =
      delete_artifacts-is_stored sizes dry_run orphans names
        (delete_artifact delete_error sizes dry_run orphans other p) (ground arith)
      ∙ delete_artifact-is_stored sizes dry_run orphans other p (ground arith)

module _ (delete_error : String → Option String) where
  pub delete_artifact-Undisturbed :
      (sizes : List ArtifactInfo) (dry_run orphans : Bool) (other : String) (p : Pruning)
      → Undisturbed p (delete_artifact delete_error sizes dry_run orphans other p)
  delete_artifact-Undisturbed sizes true true other p = ground arith
  delete_artifact-Undisturbed sizes true false other p = ground arith
  delete_artifact-Undisturbed sizes false orphans other p = ground arith

  pub delete_artifacts-Undisturbed :
      (sizes : List ArtifactInfo) (dry_run orphans : Bool) (names : List String) (p : Pruning)
      → Undisturbed p (delete_artifacts delete_error sizes dry_run orphans names p)
  unfolding delete_artifacts
  delete_artifacts-Undisturbed sizes dry_run orphans [] p = ground arith
  delete_artifacts-Undisturbed sizes dry_run orphans (other ∷ names) p =
      let one = delete_artifact-Undisturbed sizes dry_run orphans other p in
      let rest =
        delete_artifacts-Undisturbed sizes dry_run orphans names
          (delete_artifact delete_error sizes dry_run orphans other p) in
      ground arith

  pub delete_batch-cutoff :
      (dry_run : Bool) (batch : List PlanRetentionRef) (p : Pruning)
      → (delete_batch dry_run batch p).report.cutoff ≡ p.report.cutoff
  delete_batch-cutoff true batch p = refl
  delete_batch-cutoff false batch p = refl

  pub prune_batch-cutoff :
      (infos : List ArtifactInfo) (batch : List PlanRetentionRef) (p : Pruning)
      → (prune_batch delete_error infos batch p).report.cutoff ≡ p.report.cutoff
  unfolding prune_batch
  prune_batch-cutoff infos batch p =
      let after = delete_batch p.report.dry_run batch p in
      let names = doomed batch after in
      (delete_artifacts-Undisturbed infos after.report.dry_run false names
        (record after { handled = after.handled ++ names })).cutoff
      ∙ delete_batch-cutoff p.report.dry_run batch p
