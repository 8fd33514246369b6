-- ===== src/Storage/Migrations/Loading.antt =====
-- storage/migrate.py `load_migrations`: what is known of migrations that were loaded.
use mathlib.Core.List.{Perm}
use py_bike_router.Base.{
  ℕ, zero, suc, ◌<◌, ◌≡◌, refl, subst, inl, inr, Bool-cases, Option, String, List, [], ◌∷◌, true,
  false, arith, length, ok, >>=-eq-ok,
}
use py_bike_router.Base.Sorting.{sorted, sorted-perm}
use py_bike_router.Storage.Migrations.{
  Migration, versions_of, is_in, range, same_versions, migration_le, contiguous, parse_files,
  load_migrations,
}
use py_bike_router.Storage.Migrations.UpToDate.{is_unique}

same_versions-eq : (as' bs : List ℕ) → same_versions as' bs ≡ true → as' ≡ bs
same_versions-eq [] [] h = refl
same_versions-eq [] (b ∷ bs) h = cc
same_versions-eq (a ∷ vs) [] h = cc
same_versions-eq (a ∷ vs) (b ∷ bs) h = ground (arith, same_versions-eq vs bs)

not_in-range : (v start n : ℕ) → v < start → is_in v (range start n) ≡ false
not_in-range v start zero h = refl
not_in-range v start (suc n) h = ground (arith, not_in-range v (suc start) n (omega arith))

unique-range :
    (start : ℕ) (ms : List Migration)
    → versions_of ms ≡ range start (length ms)
    → is_unique ms ≡ true
unique-range start [] h = refl
unique-range start (m ∷ ms) h = ground (
  arith,
  h,
  unique-range (suc start) ms,
  not_in-range start (suc start) (length ms) (omega arith),
)

contiguous-ok :
    (fs ms : List Migration)
    → contiguous fs ≡ ok ms
    → (versions_of ms ≡ range 1 (length ms)) × (fs ≡ ms)
contiguous-ok fs ms h = elim (Bool-cases (same_versions (versions_of fs) (range 1 (length fs)))) [
  | inl e ↦
      let same : fs ≡ ms = ground (arith, e, h) in
      (subst (λ l. versions_of l ≡ range 1 (length l)) same (same_versions-eq _ _ e), same)
  | inr e ↦ ground (arith, e, h)
]

module _ (read_name : String → Option (ℕ × String)) (checksum : String → String) where
  -- Migrations that load are those of the files, in some order and none left out. Their versions are
  -- 1, 2, … without a gap, so that no two of them share one.
  pub load_migrations-contiguous :
      (entries : List (String × String)) (ms : List Migration)
      → load_migrations read_name checksum entries ≡ ok ms
      → (versions_of ms ≡ range 1 (length ms))
        × (is_unique ms ≡ true)
        × ((files : List Migration) × (parse_files read_name checksum entries ≡ ok files)
            × Perm ms files)
  unfolding load_migrations
  load_migrations-contiguous entries ms h =
      let (files, parsed, checked) = >>=-eq-ok (parse_files read_name checksum entries) _ h in
      let (in_order, same) = contiguous-ok (sorted migration_le files) ms checked in
      (
        in_order,
        unique-range 1 ms in_order,
        (files, parsed, subst (λ l. Perm l files) same (sorted-perm migration_le files)),
      )
