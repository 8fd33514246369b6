-- ===== src/Storage/Migrations/Tests.antt =====
-- The theorems on migrations at a database with one of two migrations applied.
use mathlib.Core.List.{Perm}
use py_bike_router.Base.{
  arith, ℕ, String, ◌≡◌, ◌⊎◌, map, refl, Option, none, some, List, [], ◌∷◌, ◌++◌, true, str_eq,
  length, if◌then◌else◌, Result, ok, err,
}
use py_bike_router.Storage.Migrations.{
  Migration, Row, Failure, MigrationStatus, Database, versions_of, unrecorded, pending_migrations,
  row_of, range, parse_files, create_table, load_migrations, apply_pending,
}
use py_bike_router.Storage.Migrations.Verdicts.{Verdict, pending_migrations-Verdict}
use py_bike_router.Storage.Migrations.Runs.{replay, scripts, apply_pending-atomic}
use py_bike_router.Storage.Migrations.UpToDate.{is_unique, apply_pending-up_to_date}
use py_bike_router.Storage.Migrations.Loading.{load_migrations-contiguous}

abbrev initial : Migration
initial = record { version = 1; name = "initial"; sql = "CREATE TABLE plans"; checksum = "c1" }

abbrev retention : Migration
retention = record { version = 2; name = "retention"; sql = "CREATE INDEX"; checksum = "c2" }

abbrev both : List Migration
both = initial ∷ retention ∷ []

-- The data is the list of the executed statements.
abbrev execute : String → List String → Result String (List String)
execute s d = if str_eq s "" then err "syntax error" else ok (d ++ s ∷ [])

abbrev adopted : Database (List String)
adopted = record { data_ = []; has_table = true; rows = row_of initial ∷ []; held = [] }

abbrev upgraded : MigrationStatus
upgraded = record {
  current = 2;
  applied = (1, "initial") ∷ (2, "retention") ∷ [];
  pending = [];
  applied_now = 2 ∷ [];
}

apply_pending-adopted : (apply_pending execute 7 both adopted).1 ≡ ok upgraded
unfolding apply_pending
apply_pending-adopted = refl

pending_migrations-Verdict_example :
    Verdict adopted.rows both (pending_migrations adopted.rows both)
pending_migrations-Verdict_example =
    pending_migrations-Verdict adopted.rows both (((λ same. ground (arith, same)), tt), (tt, tt))

-- An edited migration, and a schema of a newer release.
abbrev edited_row : Row
edited_row = record { version = 1; name = "initial"; checksum = "other" }

edited_test : pending_migrations (edited_row ∷ []) both ≡ err (Failure.edited 1)
unfolding pending_migrations
edited_test = refl

newer_test :
    pending_migrations (record edited_row { version = 3 } ∷ []) both
    ≡ err (Failure.newer_schema 3 2)
unfolding pending_migrations
newer_test = refl

abbrev after : Database (List String)
after = (apply_pending execute 7 both adopted).0

apply_pending-atomic_example :
    (created : List String) × (done : List Migration) × (rest : List Migration) × (unrecorded
        adopted.rows both
      ≡ done ++ rest)
    × (after.rows ≡ adopted.rows ++ map row_of done)
    × (replay execute (created ++ scripts done) [] ≡ ok after.data_)
    × ((created ≡ []) ⊎ (created ≡ create_table ∷ []))
    × (after.held ≡ [])
apply_pending-atomic_example = apply_pending-atomic execute 7 both adopted

apply_pending-up_to_date_example :
    (upgraded.pending ≡ [])
    × (upgraded.applied_now ≡ versions_of (unrecorded adopted.rows both))
    × (pending_migrations (apply_pending execute 7 both adopted).0.rows both ≡ ok [])
apply_pending-up_to_date_example =
    apply_pending-up_to_date execute 7 both adopted upgraded refl apply_pending-adopted

abbrev names : String → Option (ℕ × String)
names file =
    if str_eq file "0001_initial.sql"
    then some (1, "initial")
    else if str_eq file "0002_retention.sql"
    then some (2, "retention")
    else none

abbrev first_two : String → String
first_two sql = if str_eq sql "CREATE TABLE plans" then "c1" else "c2"

abbrev files : List (String × String)
files = ("0002_retention.sql", "CREATE INDEX") ∷ ("0001_initial.sql", "CREATE TABLE plans") ∷ []

load_migrations-files : load_migrations names first_two files ≡ ok both
unfolding load_migrations
load_migrations-files = refl

load_migrations-contiguous_example :
    (versions_of both ≡ range 1 (length both))
    × (is_unique both ≡ true)
    × ((fs : List Migration) × (parse_files names first_two files ≡ ok fs) × Perm both fs)
load_migrations-contiguous_example =
    load_migrations-contiguous names first_two files both load_migrations-files
