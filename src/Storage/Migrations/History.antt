-- ===== src/Storage/Migrations/History.antt =====
-- storage/migrate.py `pending_migrations`: which recorded histories it goes on with.
use py_bike_router.Base.{
  ℕ, ◌≤◌, ◌≡◌, refl, ◌∙◌, ap, ◌↔◌, inl, inr, Option-cases, some, List, [], ◌∷◌, Bool, true, false,
  ◌&&◌, arith, all, ok,
}
use py_bike_router.Base.Sorting.{insert_sorted, sorted}
use py_bike_router.Storage.Migrations.{
  Migration, Row, largest, versions_of, known, is_known, by_version, check_rows, is_newer, newer,
  unrecorded, pending_migrations,
}

-- Every recorded migration is in the code, unedited.
abbrev pub is_consistent : List Row → List Migration → Bool
is_consistent rows ms = all (is_known ms) rows

all-insert_sorted {ℓ} :
    {A : Type ℓ} (le : A → A → Bool) (p : A → Bool) (x : A) (ys : List A)
    → all p (insert_sorted le x ys) ≡ (p x && all p ys)
all-insert_sorted le p x [] = refl
all-insert_sorted le p x (y ∷ ys) = ground (arith, all-insert_sorted le p x ys)

all-sorted {ℓ} :
    {A : Type ℓ} (le : A → A → Bool) (p : A → Bool) (xs : List A) → all p (sorted le xs) ≡ all p xs
all-sorted le p [] = refl
all-sorted le p (x ∷ xs) =
    all-insert_sorted le p x (sorted le xs) ∙ ap (λ b. p x && b) (all-sorted le p xs)

check_rows-all :
    (ms : List Migration) (rs : List Row)
    → (check_rows ms rs ≡ ok tt) ↔ (all (is_known ms) rs ≡ true)
check_rows-all ms [] = ground arith
check_rows-all ms (r ∷ rs) = ground (arith, check_rows-all ms rs)

known-le :
    (ms : List Migration) (v : ℕ) (m : Migration)
    → known ms v ≡ some m
    → v ≤ largest (versions_of ms)
known-le [] v m h = cc
known-le (n ∷ ms) v m h = elim (Option-cases (known ms v)) [
  | inr (k, e) ↦ omega (arith, known-le ms v k e)
  | inl e ↦ ground (arith, e)
]

not_newer-known : (ms : List Migration) (r : Row) → is_known ms r ≡ true → is_newer ms r ≡ false
not_newer-known ms r h = elim (Option-cases (known ms r.version)) [
  | inr (k, e) ↦ ground (arith, known-le ms r.version k e)
  | inl e ↦ ground (arith, e)
]

none_newer :
    (rows : List Row) (ms : List Migration) → is_consistent rows ms ≡ true → newer rows ms ≡ []
none_newer [] ms h = refl
none_newer (r ∷ rows) ms h = ground (arith, not_newer-known ms r, none_newer rows ms)

checked-consistent :
    (rows : List Row) (ms : List Migration)
    → (check_rows ms (sorted by_version rows) ≡ ok tt) ↔ (is_consistent rows ms ≡ true)
checked-consistent rows ms =
    ground
      (arith, check_rows-all ms (sorted by_version rows), all-sorted by_version (is_known ms) rows)

-- The pending migrations are computed exactly for a consistent history: one in which every recorded
-- version is a migration of the code with the recorded checksum. They are then the migrations of the
-- code, in their order, whose version is not recorded. Any other history is refused.
pub pending_migrations_iff :
    (rows : List Row) (ms todo : List Migration)
    → (pending_migrations rows ms ≡ ok todo)
      ↔ ((is_consistent rows ms ≡ true) × (todo ≡ unrecorded rows ms))
unfolding pending_migrations
pending_migrations_iff rows ms todo = ground (arith, checked-consistent rows ms, none_newer rows ms)
