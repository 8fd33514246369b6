-- ===== src/Storage/Retention/Kept.antt =====
-- storage/retention.py: which artifacts a run keeps.
use py_bike_router.Base.{
  ◌⊎◌, inl, inr, ℕ, zero, suc, ◌-◌, String, Option, none, some, List, [], ◌∷◌, ◌++◌, Bool, true,
  false, not, ◌&&◌, map, filter, contains, contains-filter, contains-sorted, contains-unique,
  unique, ltb, length, ok-injective, Bool-cases, str_eq, eq_iff, ok, ◌≡◌, refl, sym, ap, ◌∙◌, arith,
}
use py_bike_router.Storage.History.{
  PlanRecord, PlanRetentionRef, RetentionCursor, counts_since, all_artifacts, referenced_artifacts,
  find_older_than,
}
use py_bike_router.Storage.Retention.{
  RetentionPolicy, ArtifactInfo, Pruning, is_stored, delete_batch, doomed, names_of, prune_batch,
  after_batch, prune_batches, orphan_names, sweep_orphans, swept, prune_with_history, prune,
  by_name, begin_pruning,
}
use py_bike_router.Storage.Retention.Deletions.{
  delete_batch-cutoff, prune_batch-cutoff, refers, refers-all_artifacts, refers-referenced,
  refers-delete_plans, delete_artifacts-is_stored, delete_artifacts-Undisturbed,
}

module _ (delete_error : String → Option String) (name : String) where
  not_doomed :
      (batch : List PlanRetentionRef) (p : Pruning)
      → refers p.report.cutoff name p.plans ≡ true
      → contains name (doomed batch p) ≡ false
  unfolding doomed referenced_artifacts
  not_doomed batch p referred =
      let names = unique (names_of batch) in
      let kept = all_artifacts (filter (counts_since (some p.report.cutoff)) p.plans) in
      let keep = filter (λ n. contains n names) kept in
      let is_left = λ (n : String). not (contains n keep) && not (contains n p.handled) in
      contains-sorted by_name name (filter is_left names)
      ∙ contains-filter is_left name names
      ∙ ground (
        arith,
        contains-filter (λ n. contains n names) name kept,
        refers-all_artifacts p.report.cutoff name p.plans,
      )

  delete_batch-stored :
      (dry_run : Bool) (batch : List PlanRetentionRef) (p : Pruning)
      → (delete_batch dry_run batch p).stored ≡ p.stored
  delete_batch-stored true batch p = refl
  delete_batch-stored false batch p = refl

  refers-delete_batch :
      (cutoff : ℕ) (dry_run : Bool) (batch : List PlanRetentionRef) (p : Pruning)
      → refers cutoff name (delete_batch dry_run batch p).plans ≡ true
      → refers cutoff name p.plans ≡ true
  refers-delete_batch cutoff true batch p left = left
  refers-delete_batch cutoff false batch p left =
      refers-delete_plans cutoff name (map (λ ref. ref.plan_id) batch) p.plans left

  prune_batch-refers :
      (cutoff : ℕ) (infos : List ArtifactInfo) (batch : List PlanRetentionRef) (p : Pruning)
      → refers cutoff name (prune_batch delete_error infos batch p).plans ≡ true
      → refers cutoff name (delete_batch p.report.dry_run batch p).plans ≡ true
  unfolding prune_batch
  prune_batch-refers cutoff infos batch p left =
      let after = delete_batch p.report.dry_run batch p in
      let names = doomed batch after in
      let same =
        (delete_artifacts-Undisturbed delete_error infos after.report.dry_run false names
          (record after { handled = after.handled ++ names })).plans in
      ap (refers cutoff name) (sym same) ∙ left

  prune_batch-is_stored :
      (infos : List ArtifactInfo) (batch : List PlanRetentionRef) (p : Pruning)
      → refers p.report.cutoff name (delete_batch p.report.dry_run batch p).plans ≡ true
      → is_stored name (prune_batch delete_error infos batch p).stored ≡ is_stored name p.stored
  unfolding prune_batch
  prune_batch-is_stored infos batch p referred =
      let after = delete_batch p.report.dry_run batch p in
      let names = doomed batch after in
      delete_artifacts-is_stored delete_error name infos after.report.dry_run false names
        (record after { handled = after.handled ++ names })
        (not_doomed batch after (
          ap (λ c. refers c name after.plans)
            (delete_batch-cutoff delete_error p.report.dry_run batch p)
          ∙ referred))
      ∙ ap (is_stored name) (delete_batch-stored p.report.dry_run batch p)

-- What the loop leaves of a run: the cutoff, and each artifact that a plan in the end points at.
record Spared (name : String) (p q : Pruning) : Type 0 where
  cutoff : q.report.cutoff ≡ p.report.cutoff
  refers_before :
      (refers p.report.cutoff name q.plans ≡ false) ⊎ (refers p.report.cutoff name p.plans ≡ true)
  is_stored_still :
      (refers p.report.cutoff name q.plans ≡ false)
      ⊎ (is_stored name q.stored ≡ is_stored name p.stored)

prune_batch-Spared :
    (delete_error : String → Option String) (name : String) (infos : List ArtifactInfo)
    (batch : List PlanRetentionRef) (p : Pruning)
    → Spared name p (prune_batch delete_error infos batch p)
prune_batch-Spared delete_error name infos batch p = ground (
  arith,
  prune_batch-cutoff delete_error infos batch p,
  prune_batch-refers delete_error name p.report.cutoff infos batch p,
  refers-delete_batch delete_error name p.report.cutoff p.report.dry_run batch p,
  prune_batch-is_stored delete_error name infos batch p,
)

Spared-trans :
    (name : String) (p q r : Pruning) → Spared name p q → Spared name q r → Spared name p r
Spared-trans name p q r first second =
    let same = ap (λ c. refers c name r.plans) first.cutoff in
    let same_q = ap (λ c. refers c name q.plans) first.cutoff in ground (arith, same, same_q)

module _ (delete_error : String → Option String) (name : String) where
  after_batch-Spared :
      (infos : List ArtifactInfo) (next : Option RetentionCursor → Pruning → Option Pruning)
      (p : Pruning) {q : Pruning}
      → ((cursor : Option RetentionCursor) (r : Pruning) → next cursor r ≡ some q → Spared name r q)
      → (batch : List PlanRetentionRef) → after_batch delete_error infos next p batch ≡ some q
      → Spared name p q
  after_batch-Spared infos next p continues [] found = ground arith
  after_batch-Spared infos next p {q} continues (ref ∷ refs) found =
      Spared-trans name p (prune_batch delete_error infos (ref ∷ refs) p) q
        (prune_batch-Spared delete_error name infos (ref ∷ refs) p)
        (continues _ (prune_batch delete_error infos (ref ∷ refs) p) found)

  prune_batches-Spared :
      (fuel batch_size : ℕ) (infos : List ArtifactInfo) (cursor : Option RetentionCursor)
      (p : Pruning) {q : Pruning}
      → prune_batches delete_error fuel batch_size infos cursor p ≡ some q
      → Spared name p q
  unfolding prune_batches
  prune_batches-Spared zero batch_size infos cursor p run = cc
  prune_batches-Spared (suc fuel) batch_size infos cursor p run =
      after_batch-Spared infos (prune_batches delete_error fuel batch_size infos) p
        (λ next r. prune_batches-Spared fuel batch_size infos next r)
        (find_older_than p.report.cutoff batch_size cursor p.plans) run

  not_swept :
      (referenced handled : List String) (grace_cutoff : ℕ) (infos : List ArtifactInfo)
      → contains name referenced ≡ true
      → contains name (
          map
            (λ i. i.name)
            (filter
              (λ i.
                not (contains i.name referenced)
                && not (contains i.name handled)
                && ltb i.created_at grace_cutoff)
              infos))
        ≡ false
  not_swept referenced handled grace_cutoff [] held = refl
  not_swept referenced handled grace_cutoff (i ∷ is) held = elim (Bool-cases (str_eq i.name name)) [
    | inl e ↦
        let same = ap (λ n. contains n referenced) ((eq_iff i.name name).0 e) in
        ground (arith, not_swept referenced handled grace_cutoff is held, same)
    | inr e ↦ ground (arith, not_swept referenced handled grace_cutoff is held)
  ]

  not_orphan :
      (cutoff grace_cutoff : ℕ) (infos : List ArtifactInfo) (p : Pruning)
      → refers cutoff name p.plans ≡ true
      → contains name (orphan_names infos grace_cutoff p) ≡ false
  unfolding orphan_names referenced_artifacts
  not_orphan cutoff grace_cutoff infos p referred =
      contains-sorted by_name name _
      ∙ contains-unique name _
      ∙ not_swept (all_artifacts (filter (counts_since none) p.plans)) p.handled grace_cutoff infos
          (refers-referenced cutoff name p.plans referred)

  sweep_orphans-plans :
      (infos : List ArtifactInfo) (grace_cutoff : ℕ) (p : Pruning)
      → (sweep_orphans delete_error infos grace_cutoff p).plans ≡ p.plans
  unfolding sweep_orphans
  sweep_orphans-plans infos grace_cutoff p =
      (delete_artifacts-Undisturbed delete_error infos p.report.dry_run true
        (orphan_names infos grace_cutoff p) p).plans

  sweep_orphans-is_stored :
      (cutoff : ℕ) (infos : List ArtifactInfo) (grace_cutoff : ℕ) (p : Pruning)
      → refers cutoff name p.plans ≡ true
      → is_stored name (sweep_orphans delete_error infos grace_cutoff p).stored
        ≡ is_stored name p.stored
  unfolding sweep_orphans
  sweep_orphans-is_stored cutoff infos grace_cutoff p referred =
      delete_artifacts-is_stored delete_error name infos p.report.dry_run true
        (orphan_names infos grace_cutoff p) p (not_orphan cutoff grace_cutoff infos p referred)

  swept-is_stored :
      (infos : List ArtifactInfo) (grace_cutoff : ℕ) (p : Pruning) (o : Option Pruning)
      {q : Pruning}
      → ((r : Pruning) → o ≡ some r → Spared name p r)
      → swept delete_error infos grace_cutoff o ≡ ok q
      → refers p.report.cutoff name q.plans ≡ true
      → is_stored name q.stored ≡ is_stored name p.stored
  swept-is_stored infos grace_cutoff p none spares ended referred = cc
  swept-is_stored infos grace_cutoff p (some r) {q} spares ended referred =
      let spared = spares r refl in
      let done = sweep_orphans delete_error infos grace_cutoff r in
      let same : done ≡ q = ok-injective done q ended in
      let at_end = ap (λ (s : Pruning). refers p.report.cutoff name s.plans) same in
      let plans = ap (refers p.report.cutoff name) (sweep_orphans-plans infos grace_cutoff r) in
      let kept =
        sweep_orphans-is_stored p.report.cutoff infos grace_cutoff r
          (sym plans ∙ at_end ∙ referred) in
      let stored = ap (λ (s : Pruning). is_stored name s.stored) same in
      ground (arith, at_end, plans, kept, stored, spared)

-- However a run of `prune` with a history ends, dry or not, whichever deletions fail: an artifact
-- that a remaining plan not older than the cutoff points at is stored after it exactly when it was
-- before.
pub prune-keeps_referenced :
    (delete_error : String → Option String) (policy : RetentionPolicy) (dry_run : Bool) (now : ℕ)
    (acquired : Bool) (plans : List PlanRecord) (stored : List ArtifactInfo) (name : String)
    {q : Pruning}
    → prune delete_error policy dry_run now acquired (some plans) stored ≡ ok q
    → refers (now - policy.max_age) name q.plans ≡ true
    → is_stored name q.stored ≡ is_stored name stored
unfolding prune prune_with_history
prune-keeps_referenced delete_error policy dry_run now false plans stored name ended referred = cc
prune-keeps_referenced delete_error policy dry_run now true plans stored name ended referred =
    let p = begin_pruning policy dry_run now plans stored in
    swept-is_stored delete_error name stored (now - policy.orphan_grace) p
      (prune_batches delete_error (suc (length plans)) policy.batch_size stored none p)
      (λ r run.
        prune_batches-Spared delete_error name (suc (length plans)) policy.batch_size stored none p
          run)
      ended referred
