-- ===== src/Storage/Retention/Tests.antt =====
-- Retention of three plans, one of which shares an artifact with an old plan.
use py_bike_router.Base.{
  ℕ, String, Option, none, some, List, [], ◌∷◌, true, false, ok, err, ◌≡◌, refl, ◌≢◌, unique,
  str_eq, if◌then◌else◌,
}
use py_bike_router.Storage.History.{PlanRecord, find_older_than, delete_plans, referenced_artifacts}
use py_bike_router.Storage.Retention.{
  RetentionPolicy, ArtifactInfo, Pruning, out_of_fuel, prune, prune_with_history, prune_batches,
  prune_batch, sweep_orphans, orphan_names, doomed, delete_artifacts, is_stored,
}
use py_bike_router.Storage.Retention.Kept.{prune-keeps_referenced}
use py_bike_router.Storage.Retention.Dry.{Untouched, prune-Untouched}
use py_bike_router.Storage.Retention.Ends.{prune-ends}

abbrev plan : String → ℕ → List String → PlanRecord
plan plan_id created_at artifacts = record {
  plan_id = plan_id;
  created_at = created_at;
  status = "ready";
  bike_type = none;
  artifacts = artifacts;
  candidates = [];
}

abbrev artifact : String → ℕ → ArtifactInfo
artifact name created_at = record { name = name; size = 10; created_at = created_at }

abbrev history : List PlanRecord
history =
    plan "a" 10 ("a.gpx" ∷ "shared.gpx" ∷ [])
    ∷ plan "b" 20 ("b.gpx" ∷ [])
    ∷ plan "c" 90 ("shared.gpx" ∷ [])
    ∷ []

abbrev stored : List ArtifactInfo
stored =
    artifact "a.gpx" 10
    ∷ artifact "shared.gpx" 10
    ∷ artifact "b.gpx" 20
    ∷ artifact "lost.gpx" 5
    ∷ artifact "new.gpx" 99
    ∷ []

abbrev policy : RetentionPolicy
policy = record { max_age = 50; orphan_grace = 24; batch_size = 1 }

-- One artifact cannot be deleted.
abbrev delete_error : String → Option String
delete_error name = if str_eq name "b.gpx" then some "OSError" else none

abbrev left : Pruning
left = record {
  plans = plan "c" 90 ("shared.gpx" ∷ []) ∷ [];
  stored = artifact "shared.gpx" 10 ∷ artifact "b.gpx" 20 ∷ artifact "new.gpx" 99 ∷ [];
  handled = "a.gpx" ∷ "b.gpx" ∷ [];
  report = record {
    dry_run = false;
    cutoff = 50;
    plans = 2;
    plan_artifacts = 1;
    orphans = 1;
    bytes_freed = 20;
    errors = "b.gpx: OSError" ∷ [];
  };
}

prune-left : prune delete_error policy false 100 true (some history) stored ≡ ok left
unfolding prune prune_with_history prune_batches prune_batch sweep_orphans orphan_names doomed
    delete_artifacts find_older_than delete_plans referenced_artifacts unique
prune-left = refl

prune-keeps_referenced_example : is_stored "shared.gpx" left.stored ≡ is_stored "shared.gpx" stored
prune-keeps_referenced_example =
    prune-keeps_referenced delete_error policy false 100 true history stored "shared.gpx" prune-left
      refl

prune-ends_example : prune delete_error policy true 100 true (some history) stored ≢ err out_of_fuel
prune-ends_example = prune-ends delete_error policy true 100 true (some history) stored

prune-Untouched_example :
    Untouched true
      (some history)
      stored
      (prune delete_error policy true 100 true (some history) stored)
prune-Untouched_example = prune-Untouched delete_error policy 100 true (some history) stored
