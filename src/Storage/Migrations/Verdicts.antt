-- ===== src/Storage/Migrations/Verdicts.antt =====
-- storage/migrate.py `pending_migrations`: what each of its results says of the recorded history.
use py_bike_router.Base.{
  ℕ, ◌≤◌, ◌<◌, max, ◌≡◌, refl, sym, ◌∙◌, ◌⊎◌, inl, inr, Bool-cases, Option-cases, some, List, [],
  ◌∷◌, true, false, arith, map, is_empty, ◌==◌, ==_iff, eq_iff, ltb, Result, ok, err, ◌>>=◌, All,
  All-map,
}
use py_bike_router.Base.Sorting.{sorted, sorted-IsSorted, IsSorted}
use py_bike_router.Base.Every.{sorted-each, filter-All}
use py_bike_router.Base.Some.{
  Any, Pairwise, Any-any, All-any, Any-map, none_of, sorted-Any, filter-Any,
}
use py_bike_router.Storage.Migrations.{
  Migration, Row, Failure, largest, versions_of, known, is_known, by_version, check_rows, is_newer,
  newer, has_version, unrecorded, pending_migrations,
}

-- The row records this migration, unedited.
abbrev pub Records : Row → Migration → Type 0
Records r m = (m.version ≡ r.version) × (m.checksum ≡ r.checksum)

-- The versions of the migrations are distinct, as `load_migrations` makes sure.
abbrev pub IsDistinct : List Migration → Type 0
IsDistinct ms = Pairwise (λ m n. ¬ (m.version ≡ n.version)) ms

abbrev IsRecorded : List Row → Migration → Type 0
IsRecorded rows m = Any (λ r. r.version ≡ m.version) rows

-- The migrations that no row records, in their order.
abbrev pub IsLeft : List Row → List Migration → List Migration → Type 0
IsLeft rows [] todo = todo ≡ []
IsLeft rows (m ∷ ms) todo =
    (IsRecorded rows m × IsLeft rows ms todo)
    ⊎ (¬ IsRecorded rows m × (rest : List Migration) × (todo ≡ m ∷ rest) × IsLeft rows ms rest)

-- No migration has a higher version, and there is none with this one only if there are none.
abbrev IsLatest : List Migration → ℕ → Type 0
IsLatest ms latest =
    All (λ m. m.version ≤ latest) ms
    × (((ms ≡ []) × (latest ≡ 0)) ⊎ Any (λ m. m.version ≡ latest) ms)

-- What a result says: every row records a migration, and those that are left are to be applied; or the
-- newest row is newer than every migration; or no row is, and of the rows that record no
-- migration this is the version of the first.
abbrev pub Verdict : List Row → List Migration → Result Failure (List Migration) → Type 0
Verdict rows ms (ok todo) = All (λ r. Any (Records r) ms) rows × IsLeft rows ms todo
Verdict rows ms (err (Failure.newer_schema newest latest)) =
    (latest < newest)
    × IsLatest ms latest
    × All (λ r. r.version ≤ newest) rows
    × Any (λ r. r.version ≡ newest) rows
Verdict rows ms (err (Failure.edited version)) =
    ((latest : ℕ) × IsLatest ms latest × All (λ r. r.version ≤ latest) rows)
    × Any (λ r. (r.version ≡ version) × All (λ m. ¬ Records r m) ms) rows
    × All (λ r. r.version < version → Any (Records r) ms) rows
Verdict rows ms (err failure) = ⊥

module _ {A : Type 0} (f : A → ℕ) where
  largest-bounds : (xs : List A) → All (λ x. f x ≤ largest (map f xs)) xs
  largest-bounds [] = tt
  largest-bounds (x ∷ xs) = (
    omega arith,
    All-map (λ y. f y ≤ largest (map f xs)) (λ y. f y ≤ max (f x) (largest (map f xs))) xs
        (λ y below. omega (arith, below)) (largest-bounds xs),
  )

  largest-attained :
      (xs : List A)
      → ((xs ≡ []) × (largest (map f xs) ≡ 0)) ⊎ Any (λ x. f x ≡ largest (map f xs)) xs
  largest-attained [] = inl (refl, refl)
  largest-attained (x ∷ xs) = elim (Bool-cases (ltb (f x) (largest (map f xs)))) [
    | inr e ↦ inr (inl (ground (arith, e)))
    | inl e ↦ elim (largest-attained xs) [
      | inl empty ↦ absurd (ground (arith, e, empty.1))
      | inr found ↦ inr (
          inr (
            Any-map (λ y. f y ≡ largest (map f xs)) (λ y. f y ≡ max (f x) (largest (map f xs))) xs
              (λ y same. ground (arith, e, same)) found))
    ]
  ]

-- A row is known exactly where it records a migration.
known-Any :
    (ms : List Migration) (v : ℕ) (k : Migration)
    → known ms v ≡ some k
    → Any (λ m. m.version ≡ v) ms
known-Any [] v k found = cc
known-Any (n ∷ ms) v k found = elim (Option-cases (known ms v)) [
  | inr (m, e) ↦ inr (known-Any ms v m e)
  | inl e ↦ inl (ground (arith, e, found))
]

is_known-Records : (ms : List Migration) (r : Row) → is_known ms r ≡ true → Any (Records r) ms
is_known-Records [] r h = cc
is_known-Records (n ∷ ms) r h = elim (Option-cases (known ms r.version)) [
  | inr (k, e) ↦ inr (is_known-Records ms r (ground (arith, e, h)))
  | inl e ↦
      let text = eq_iff n.checksum r.checksum in
      let version = ==_iff n.version r.version in inl (ground (arith, e, h, text.0, version.0))
]

is_known-not_Records :
    (ms : List Migration) (r : Row)
    → IsDistinct ms
    → is_known ms r ≡ false
    → All (λ m. ¬ Records r m) ms
is_known-not_Records [] r distinct h = tt
is_known-not_Records (n ∷ ms) r distinct h = elim (Option-cases (known ms r.version)) [
  | inr (k, e) ↦ (
    (λ records.
        none_of (λ m. m.version ≡ r.version) ms
          (All-map (λ m. ¬ (n.version ≡ m.version)) (λ m. ¬ (m.version ≡ r.version)) ms
            (λ m differ same. differ (records.0 ∙ sym same)) distinct.0)
          (known-Any ms r.version k e)),
    is_known-not_Records ms r distinct.1 (ground (arith, e, h)),
  )
  | inl e ↦ (
    (λ records.
        let text = eq_iff n.checksum r.checksum in
        let version = ==_iff n.version r.version in
        let at_version = version.1 records.0 in
        let at_text = text.1 records.1 in ground (arith, e, h, at_version, at_text)),
    is_known-not_Records ms r distinct.1 (ground (arith, e)),
  )
]

-- The loop over the sorted rows stops at the first one that is not known.
abbrev Checked : List Migration → List Row → Result Failure (Unit {0}) → Type 0
Checked ms rows (ok done) = All (λ r. is_known ms r ≡ true) rows
Checked ms rows (err (Failure.edited version)) =
    Any (λ r. (r.version ≡ version) × (is_known ms r ≡ false)) rows
    × All (λ r. r.version < version → is_known ms r ≡ true) rows
Checked ms rows (err failure) = ⊥

check_rows-Checked :
    (ms : List Migration) (rows : List Row)
    → IsSorted by_version rows
    → Checked ms rows (check_rows ms rows)
check_rows-Checked ms [] in_order = tt
check_rows-Checked ms (r ∷ rows) in_order = elim (Bool-cases (is_known ms r)) [
  | inl e ↦ rw e (rest_Checked (check_rows ms rows) e (check_rows-Checked ms rows in_order.1))
  | inr e ↦ rw e (
    inl (refl, e),
    (
      (λ below. absurd (omega (arith, below))),
      All-map (λ q. by_version r q ≡ true) (λ q. q.version < r.version → is_known ms q ≡ true) rows
          (λ q after below. absurd (ground (arith, after, below))) in_order.0,
    ),
  )
]
  where
    rest_Checked :
        (result : Result Failure (Unit {0}))
        → is_known ms r ≡ true
        → Checked ms rows result
        → Checked ms (r ∷ rows) result
    rest_Checked (ok done) e rest = (e, rest)
    rest_Checked (err (Failure.edited version)) e rest = (inr rest.0, ((λ _. e), rest.1))
    rest_Checked (err (Failure.bad_file_name name)) e rest = rest
    rest_Checked (err (Failure.not_contiguous versions)) e rest = rest
    rest_Checked (err (Failure.newer_schema newest latest)) e rest = rest
    rest_Checked (err (Failure.database message)) e rest = rest

has_version-Any :
    (v : ℕ) (rows : List Row) → has_version v rows ≡ true → Any (λ r. r.version ≡ v) rows
has_version-Any v rows found =
    Any-map (λ r. (r.version == v) ≡ true) (λ r. r.version ≡ v) rows (λ r. (==_iff r.version v).0)
      (Any-any (λ r. r.version == v) rows found)

not_has_version :
    (v : ℕ) (rows : List Row) → has_version v rows ≡ false → ¬ Any (λ r. r.version ≡ v) rows
not_has_version v rows missing =
    none_of (λ r. r.version ≡ v) rows
      (All-map (λ r. (r.version == v) ≡ false) (λ r. ¬ (r.version ≡ v)) rows
        (λ r other same. let met = (==_iff r.version v).1 same in ground (arith, other, met))
        (All-any (λ r. r.version == v) rows missing))

unrecorded-IsLeft : (rows : List Row) (ms : List Migration) → IsLeft rows ms (unrecorded rows ms)
unrecorded-IsLeft rows [] = refl
unrecorded-IsLeft rows (m ∷ ms) = elim (Bool-cases (has_version m.version rows)) [
  | inl e ↦ rw e (inl (has_version-Any m.version rows e, unrecorded-IsLeft rows ms))
  | inr e ↦
      rw e (
        inr (not_has_version m.version rows e, unrecorded rows ms, refl, unrecorded-IsLeft rows ms))
]

largest-IsLatest : (ms : List Migration) → IsLatest ms (largest (versions_of ms))
largest-IsLatest ms = (largest-bounds (λ m. m.version) ms, largest-attained (λ m. m.version) ms)

none_newer :
    (ms : List Migration) (rows : List Row)
    → is_empty (newer rows ms) ≡ true
    → All (λ r. r.version ≤ largest (versions_of ms)) rows
none_newer ms [] empty = tt
none_newer ms (r ∷ rows) empty = elim (Bool-cases (is_newer ms r)) [
  | inl e ↦ absurd (ground (arith, e, empty))
  | inr e ↦ (ground (arith, e), none_newer ms rows (ground (arith, e, empty)))
]

by_version-InOrder : (rows : List Row) → IsSorted by_version (sorted by_version rows)
by_version-InOrder rows =
    sorted-IsSorted by_version (λ a b. ground arith)
      (λ a b c first second. ground (arith, first, second)) rows

module _ (ms : List Migration) (rows : List Row) where
  checked-Verdict :
      (result : Result Failure (Unit {0}))
      → IsDistinct ms
      → All (λ r. r.version ≤ largest (versions_of ms)) rows
      → Checked ms (sorted by_version rows) result
      → Verdict rows ms (do checked ← result; ok (unrecorded rows ms))
  checked-Verdict (ok done) distinct small checked = (
    All-map (λ r. is_known ms r ≡ true) (λ r. Any (Records r) ms) rows (λ r. is_known-Records ms r)
        (sorted-each (λ r. is_known ms r ≡ true) by_version rows checked),
    unrecorded-IsLeft rows ms,
  )
  checked-Verdict (err (Failure.edited version)) distinct small checked =
      let Fails : Row → Type 0 = λ r. (r.version ≡ version) × (is_known ms r ≡ false) in
      (
        (largest (versions_of ms), largest-IsLatest ms, small),
        Any-map Fails (λ r. (r.version ≡ version) × All (λ m. ¬ Records r m) ms) rows
            (λ r fails. (fails.0, is_known-not_Records ms r distinct fails.1))
            (sorted-Any Fails by_version rows checked.0),
        All-map (λ r. r.version < version → is_known ms r ≡ true)
            (λ r. r.version < version → Any (Records r) ms) rows
            (λ r known_below below. is_known-Records ms r (known_below below))
            (sorted-each (λ r. r.version < version → is_known ms r ≡ true) by_version rows
              checked.1),
      )
  checked-Verdict (err (Failure.bad_file_name name)) distinct small checked = checked
  checked-Verdict (err (Failure.not_contiguous versions)) distinct small checked = checked
  checked-Verdict (err (Failure.newer_schema newest latest)) distinct small checked = absurd checked
  checked-Verdict (err (Failure.database message)) distinct small checked = checked

  newer-Verdict :
      is_empty (newer rows ms) ≡ false
      → Verdict rows ms (
          err (
            Failure.newer_schema
              (largest (map (λ r. r.version) (newer rows ms)))
              (largest (versions_of ms))))
  newer-Verdict some_newer =
      let newest = largest (map (λ (r : Row). r.version) (newer rows ms)) in
      let latest = largest (versions_of ms) in
      let Newest : Row → Type 0 = λ r. r.version ≡ newest in
      let found : Any Newest (newer rows ms) =
        elim (largest-attained (λ (r : Row). r.version) (newer rows ms)) [
          | inl empty ↦ absurd (ground (arith, empty.0, some_newer))
          | inr found ↦ found
        ] in
      let above : latest < newest = newest_above (newer rows ms) (newer-above rows) found in
      (
        above,
        largest-IsLatest ms,
        All-map (λ r. is_newer ms r ≡ true → r.version ≤ newest) (λ r. r.version ≤ newest) rows
            (λ r below. elim (Bool-cases (is_newer ms r)) [
              | inl e ↦ below e
              | inr e ↦ ground (arith, e, above)
            ])
            (filter-All (λ r. r.version ≤ newest) (is_newer ms) rows
              (largest-bounds (λ (r : Row). r.version) (newer rows ms))),
        filter-Any Newest (is_newer ms) rows found,
      )
    where
      newer-above : (rs : List Row) → All (λ r. largest (versions_of ms) < r.version) (newer rs ms)
      newer-above [] = tt
      newer-above (r ∷ rs) = elim (Bool-cases (is_newer ms r)) [
        | inl e ↦ rw e (ground (arith, e), newer-above rs)
        | inr e ↦ rw e (newer-above rs)
      ]

      newest_above :
          (rs : List Row) {n : ℕ}
          → All (λ r. largest (versions_of ms) < r.version) rs
          → Any (λ r. r.version ≡ n) rs
          → largest (versions_of ms) < n
      newest_above [] above found = absurd found
      newest_above (r ∷ rs) above (inl here) = omega (arith, above.0, here)
      newest_above (r ∷ rs) above (inr there) = newest_above rs above.1 there

-- For migrations of different versions, `pending_migrations` goes on exactly where every row records
-- one of them with its checksum, and gives those that no row records, in their order. It names the newest
-- row and the latest migration where the first is above the second. Otherwise it names the first version
-- that is recorded without such a migration.
pub pending_migrations-Verdict :
    (rows : List Row) (ms : List Migration)
    → IsDistinct ms
    → Verdict rows ms (pending_migrations rows ms)
unfolding pending_migrations
pending_migrations-Verdict rows ms distinct = elim (Bool-cases (is_empty (newer rows ms))) [
  | inl e ↦ rw e (
      checked-Verdict ms rows (check_rows ms (sorted by_version rows)) distinct
        (none_newer ms rows e)
        (check_rows-Checked ms (sorted by_version rows) (by_version-InOrder rows)))
  | inr e ↦ rw e (newer-Verdict ms rows e)
]
