-- ===== src/Storage/Migrations/UpToDate.antt =====
-- storage/migrate.py: after a successful run there is nothing left to apply.
use mathlib.Core.List.{append-nil}
use py_bike_router.Base.{
  ℕ, ◌≡◌, refl, sym, ◌∙◌, ap, none, some, String, List, [], ◌∷◌, ◌++◌, Bool, true, false, ◌&&◌,
  ◌||◌, not, arith, any, all, filter, ◌==◌, map, Result, ok, All, All-map, eq_iff,
}
use py_bike_router.Storage.Migrations.{
  Migration, Row, MigrationStatus, Database, versions_of, known, is_known, unrecorded,
  pending_migrations, row_of, has_version, is_in, titles, status, apply_pending,
}
use py_bike_router.Storage.Migrations.History.{pending_migrations_iff}
use py_bike_router.Storage.Migrations.Runs.{apply_pending-Ran}

-- No two migrations of the code share a version.
abbrev pub is_unique : List Migration → Bool
is_unique [] = true
is_unique (m ∷ ms) = not (is_in m.version (versions_of ms)) && is_unique ms

known-none : (ms : List Migration) (v : ℕ) → is_in v (versions_of ms) ≡ false → known ms v ≡ none
known-none [] v h = refl
known-none (m ∷ ms) v h = ground (arith, known-none ms v)

known_self : (ms : List Migration) → is_unique ms ≡ true → All (λ m. known ms m.version ≡ some m) ms
known_self [] h = tt
known_self (m ∷ ms) h = (
  ground (arith, known-none ms m.version),
  All-map _ _ ms (λ k e. rw e refl) (known_self ms (ground arith)),
)

known-rows :
    (ms : List Migration) (q : Migration → Bool) (ns : List Migration)
    → All (λ m. known ms m.version ≡ some m) ns
    → all (is_known ms) (map row_of (filter q ns)) ≡ true
known-rows ms q [] h = refl
known-rows ms q (n ∷ ns) h =
    ground (arith, h.0, eq_iff n.checksum n.checksum, known-rows ms q ns h.1)

all-append {ℓ} :
    {A : Type ℓ} (p : A → Bool) (xs ys : List A) → all p (xs ++ ys) ≡ (all p xs && all p ys)
all-append p [] ys = refl
all-append p (x ∷ xs) ys = ground (arith, all-append p xs ys)

any-append {ℓ} :
    {A : Type ℓ} (p : A → Bool) (xs ys : List A) → any p (xs ++ ys) ≡ (any p xs || any p ys)
any-append p [] ys = refl
any-append p (x ∷ xs) ys = ground (arith, any-append p xs ys)

-- Each migration is recorded, or its row is among the new ones.
covered :
    (rows : List Row) (ms : List Migration)
    → All (λ m. has_version m.version (rows ++ map row_of (unrecorded rows ms)) ≡ true) ms
covered rows [] = tt
covered rows (m ∷ ms) = (
  ground (
    arith,
    any-append (λ r. r.version == m.version) rows (map row_of (unrecorded rows (m ∷ ms))),
  ),
  All-map _ _ ms
      (λ k e. ground (
        arith,
        e,
        any-append (λ r. r.version == k.version) rows (map row_of (unrecorded rows (m ∷ ms))),
        any-append (λ r. r.version == k.version) rows (map row_of (unrecorded rows ms)),
      ))
      (covered rows ms),
)

none_unrecorded :
    (rows : List Row) (ms : List Migration)
    → All (λ m. has_version m.version rows ≡ true) ms
    → unrecorded rows ms ≡ []
none_unrecorded rows [] h = refl
none_unrecorded rows (m ∷ ms) h = ground (arith, h.0, none_unrecorded rows ms h.1)

none_pending :
    (now : List ℕ) (ms : List Migration)
    → All (λ m. is_in m.version now ≡ true) ms
    → filter (λ m. not (is_in m.version now)) ms ≡ []
none_pending now [] h = refl
none_pending now (m ∷ ms) h = ground (arith, h.0, none_pending now ms h.1)

each_listed : (ms : List Migration) → All (λ m. is_in m.version (versions_of ms) ≡ true) ms
each_listed [] = tt
each_listed (m ∷ ms) = (ground arith, All-map _ _ ms (λ k e. ground (arith, e)) (each_listed ms))

module _ {D : Type 0} (run_sql : String → D → Result String D) where
  -- After a run that succeeds, with migrations of different versions: the status reports nothing
  -- pending, as applied now exactly the migrations that were not recorded before, and the new recorded
  -- history is consistent with nothing pending, so that the next run has no migration to apply.
  pub apply_pending-up_to_date :
      (key : ℕ) (ms : List Migration) (db : Database D) (st : MigrationStatus)
      → is_unique ms ≡ true
      → (apply_pending run_sql key ms db).1 ≡ ok st
      → (st.pending ≡ [])
        × (st.applied_now ≡ versions_of (unrecorded db.rows ms))
        × (pending_migrations (apply_pending run_sql key ms db).0.rows ms ≡ ok [])
  unfolding status
  apply_pending-up_to_date key ms db st u h =
      let r = apply_pending-Ran run_sql key ms db in
      let (none_left, consistent, is_status) = r.complete st h in
      let all_done : unrecorded db.rows ms ≡ r.done =
        r.split ∙ ap (λ l. r.done ++ l) none_left ∙ append-nil r.done in
      let rows' = r.rows ∙ ap (λ l. db.rows ++ map row_of l) (sym all_done) in
      let status' =
        is_status
        ∙ ap (λ l. status ms db.rows (unrecorded db.rows ms) (versions_of l)) (sym all_done) in
      (
        ap (λ x. x.pending) status'
            ∙ ap titles
                (none_pending _ (unrecorded db.rows ms) (each_listed (unrecorded db.rows ms))),
        ap (λ x. x.applied_now) status',
        (pending_migrations_iff _ ms []).1 (
          ap (all (is_known ms)) rows'
              ∙ all-append (is_known ms) db.rows (map row_of (unrecorded db.rows ms))
              ∙ rw (consistent, known-rows ms _ ms (known_self ms u)) refl,
          sym (ap (λ l. unrecorded l ms) rows' ∙ none_unrecorded _ ms (covered db.rows ms)),
        ),
      )
