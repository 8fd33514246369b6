-- ===== src/Storage/Migrations.antt =====
-- storage/migrate.py: ordered SQL files are applied once each, and the table `schema_migrations` records
-- which. A database is the data that SQL statements act on, the rows of that table, and the advisory
-- locks that the session holds.
pub mod History
pub mod Verdicts
pub mod Runs
pub mod UpToDate
pub mod Loading
mod Tests
use Prim.Native.Nat.{Ordering}
use Prim.Native.String.{compare}
use py_bike_router.Base.{
  ℕ, zero, suc, String, Option, none, some, List, [], ◌∷◌, ◌++◌, Bool, true, false, not, map, any,
  is_empty, filter, find_last, length, max, leb, ltb, ◌==◌, str_eq, if◌then◌else◌, Result, ok, err,
  ◌>>=◌,
}
use py_bike_router.Base.Sorting.{sorted}

pub record Migration : Type 0 where
  pub version : ℕ
  pub name : String
  pub sql : String
  pub checksum : String

-- A row of `schema_migrations`; its time is not modelled.
pub record Row : Type 0 where
  pub version : ℕ
  pub name : String
  pub checksum : String

pub record MigrationStatus : Type 0 where
  pub current : ℕ
  pub applied : List (ℕ × String)
  pub pending : List (ℕ × String)
  pub applied_now : List ℕ

-- The reasons of a `MigrationError`, and an exception of the database.
pub data Failure : Type 0 where
  bad_file_name : String → Failure
  not_contiguous : List ℕ → Failure
  newer_schema : (newest latest : ℕ) → Failure
  edited : (version : ℕ) → Failure
  database : String → Failure

abbrev pub largest : List ℕ → ℕ
largest [] = 0
largest (n ∷ ns) = max n (largest ns)

abbrev pub versions_of : List Migration → List ℕ
versions_of ms = map (λ m. m.version) ms

abbrev pub has_version : ℕ → List Row → Bool
has_version v rows = any (λ r. r.version == v) rows

-- known.get(version), of the dictionary {m.version: m for m in migrations}
abbrev pub known : List Migration → ℕ → Option Migration
known ms v = find_last (λ m. m.version == v) ms

-- The recorded version is one of the code's, with the same checksum.
abbrev pub is_known : List Migration → Row → Bool
is_known ms r = elim (known ms r.version) [ none ↦ false | some m ↦ str_eq m.checksum r.checksum ]

abbrev pub by_version : Row → Row → Bool
by_version a b = leb a.version b.version

-- The loop over the recorded versions.
abbrev pub check_rows : List Migration → List Row → Result Failure (Unit {0})
check_rows ms [] = ok tt
check_rows ms (r ∷ rs) =
    let rest = check_rows ms rs in if is_known ms r then rest else err (Failure.edited r.version)

abbrev pub is_newer : List Migration → Row → Bool
is_newer ms r = ltb (largest (versions_of ms)) r.version

abbrev pub newer : List Row → List Migration → List Row
newer rows ms = filter (is_newer ms) rows

abbrev pub unrecorded : List Row → List Migration → List Migration
unrecorded rows ms = filter (λ m. not (has_version m.version rows)) ms

unfoldable pub pending_migrations : List Row → List Migration → Result Failure (List Migration)
pending_migrations rows ms =
    if is_empty (newer rows ms)
    then (do checked ← check_rows ms (sorted by_version rows); ok (unrecorded rows ms))
    else err (
        Failure.newer_schema (largest (map (λ r. r.version) (newer rows ms)))
          (largest (versions_of ms)))

-- v in applied_now
abbrev pub is_in : ℕ → List ℕ → Bool
is_in v vs = any (λ w. w == v) vs

abbrev pub titles : List Migration → List (ℕ × String)
titles ms = map (λ m. (m.version, m.name)) ms

abbrev title_le : ℕ × String → ℕ × String → Bool
title_le a b =
    if ltb a.0 b.0
    then true
    else if ltb b.0 a.0
    then false
    else elim (compare a.1 b.1) [ Ordering.gt ↦ false | _ ↦ true ]

abbrev done_titles :
    List Migration → List Row → (todo : List Migration) → (now : List ℕ) → List (ℕ × String)
done_titles ms rows todo now = sorted title_le (
    titles (filter (λ m. has_version m.version rows) ms)
    ++ titles (filter (λ m. is_in m.version now) todo))

unfoldable pub status :
    List Migration → List Row → (todo : List Migration) → List ℕ → MigrationStatus
status ms rows todo now = record {
  current = largest (map (λ t. t.0) (done_titles ms rows todo now));
  applied = done_titles ms rows todo now;
  pending = titles (filter (λ m. not (is_in m.version now)) todo);
  applied_now = now;
}

-- range(start, start + n)
abbrev pub range : (start n : ℕ) → List ℕ
range start zero = []
range start (suc n) = start ∷ range (suc start) n

abbrev pub same_versions : List ℕ → List ℕ → Bool
same_versions [] [] = true
same_versions (a ∷ vs) (b ∷ ws) = let rest = same_versions vs ws in if a == b then rest else false
same_versions _ _ = false

abbrev pub migration_le : Migration → Migration → Bool
migration_le a b = leb a.version b.version

abbrev pub contiguous : List Migration → Result Failure (List Migration)
contiguous ms =
    if same_versions (versions_of ms) (range 1 (length ms))
    then ok ms
    else err (Failure.not_contiguous (versions_of ms))

-- `read_name` is the regular expression MIGRATION_FILE, and `checksum` is `_checksum`.
module _ (read_name : String → Option (ℕ × String)) (checksum : String → String) where
  abbrev pub parse_files : List (String × String) → Result Failure (List Migration)
  parse_files [] = ok []
  parse_files ((file, sql) ∷ entries) = elim (read_name file) [
    | none ↦ err (Failure.bad_file_name file)
    | some (v, name) ↦ (do
      ms ← parse_files entries
      ok (record { version = v; name = name; sql = sql; checksum = checksum sql } ∷ ms))
  ]

  unfoldable pub load_migrations :
      (entries : List (String × String)) → Result Failure (List Migration)
  load_migrations entries = do ms ← parse_files entries; contiguous (sorted migration_le ms)

pub record Database (D : Type 0) : Type 0 where
  pub data_ : D
  pub has_table : Bool
  pub rows : List Row
  pub held : List ℕ

abbrev pub create_table : String
create_table =
    "CREATE TABLE IF NOT EXISTS schema_migrations (version integer PRIMARY KEY, name text NOT NULL, checksum text NOT NULL, applied_at timestamptz NOT NULL DEFAULT now())"

abbrev pub row_of : Migration → Row
row_of m = record { version = m.version; name = m.name; checksum = m.checksum }

-- pg_advisory_unlock
abbrev pub unlock : ℕ → List ℕ → List ℕ
unlock key [] = []
unlock key (k ∷ ks) = let rest = unlock key ks in if k == key then ks else k ∷ rest

-- `run_sql` executes a statement, or fails and changes nothing.
module _ {D : Type 0} (run_sql : String → D → Result String D) where
  -- The explicit transaction of one migration: its SQL and its row, or neither.
  unfoldable pub commit : Migration → Database D → Result String (Database D)
  commit m db = do
    changed ← run_sql m.sql db.data_
    (if has_version m.version db.rows
        then err "duplicate key value violates unique constraint"
        else ok (record db { data_ = changed; rows = db.rows ++ row_of m ∷ [] }))

  unfoldable pub apply_all :
      List Migration → Database D → (done_now : List ℕ) → Database D × Result Failure (List ℕ)
  unfolding commit
  apply_all [] db done_now = (db, ok done_now)
  apply_all (m ∷ ms) db done_now = elim (commit m db) [
    | ok db' ↦ apply_all ms db' (done_now ++ m.version ∷ [])
    | err e ↦ (db, err (Failure.database e))
  ]

  abbrev pub reported :
      List Migration
      → List Row
      → List Migration
      → Database D × Result Failure (List ℕ)
      → Database D × Result Failure MigrationStatus
  reported ms rows todo (db, ok now) = (db, ok (status ms rows todo now))
  reported ms rows todo (db, err e) = (db, err e)

  abbrev pub planned :
      List Migration
      → Database D
      → Result Failure (List Migration)
      → Database D × Result Failure MigrationStatus
  planned ms db (err e) = (db, err e)
  planned ms db (ok todo) = reported ms db.rows todo (apply_all todo db [])

  abbrev pub opened :
      List Migration → Database D → Result String D → Database D × Result Failure MigrationStatus
  opened ms db (err e) = (db, err (Failure.database e))
  opened ms db (ok d) =
      planned ms (record db { data_ = d; has_table = true }) (pending_migrations db.rows ms)

  abbrev pub released :
      ℕ → Database D × Result Failure MigrationStatus → Database D × Result Failure MigrationStatus
  released key (db, r) = (record db { held = unlock key db.held }, r)

  unfoldable pub apply_pending :
      (lock_key : ℕ) → List Migration → Database D → Database D × Result Failure MigrationStatus
  unfolding apply_all pending_migrations status
  apply_pending lock_key ms db =
      let locked = record db { held = lock_key ∷ db.held } in
      released lock_key (opened ms locked (run_sql create_table db.data_))

  -- Status without a write: where the table is missing, nothing is applied.
  unfoldable pub read_status : List Migration → Database D → Result Failure MigrationStatus
  unfolding pending_migrations status
  read_status ms db = do
    let applied = if db.has_table then db.rows else []
    todo ← pending_migrations applied ms
    ok (status ms applied todo [])
