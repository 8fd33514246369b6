-- ===== src/Storage/Migrations/Runs.antt =====
-- storage/migrate.py `apply_pending`: what a run leaves in the database, whether it succeeds or fails.
use mathlib.Core.List.{append-nil, append_assoc}
use py_bike_router.Base.{
  ◌⊎◌, ℕ, ◌≡◌, refl, sym, ◌∙◌, ap, inl, inr, Result-cases, >>=-eq-ok, String, List, [], ◌∷◌, ◌++◌,
  true, arith, map, Result, ok, err, ok-injective, ◌>>=◌,
}
use py_bike_router.Storage.Migrations.History.{is_consistent, pending_migrations_iff}
use py_bike_router.Storage.Migrations.{
  Migration, Row, Failure, MigrationStatus, Database, versions_of, unrecorded, pending_migrations,
  row_of, status, create_table, unlock, commit, apply_all, reported, planned, opened, released,
  apply_pending,
}

abbrev pub scripts : List Migration → List String
scripts ms = map (λ m. m.sql) ms

module _ {D : Type 0} (run_sql : String → D → Result String D) where
  -- Statements executed one after the other.
  abbrev pub replay : List String → D → Result String D
  replay [] d = ok d
  replay (s ∷ ss) d = do d' ← run_sql s d; replay ss d'

  commit-ok :
      (m : Migration) (db db' : Database D)
      → commit run_sql m db ≡ ok db'
      → (db'.rows ≡ db.rows ++ row_of m ∷ [])
        × (run_sql m.sql db.data_ ≡ ok db'.data_)
        × (db'.held ≡ db.held)
  unfolding commit
  commit-ok m db db' h =
      let (d, e, f) = >>=-eq-ok (run_sql m.sql db.data_) _ h in ground (arith, e, f)

  -- A run over `ms` commits the migrations of a prefix, and all of them where it succeeds.
  record Commits (ms : List Migration) (db : Database D) (now : List ℕ)
      (p : Database D × Result Failure (List ℕ)) : Type 0 where
    done : List Migration
    rest : List Migration
    split : ms ≡ done ++ rest
    rows : p.0.rows ≡ db.rows ++ map row_of done
    replayed : replay (scripts done) db.data_ ≡ ok p.0.data_
    held : p.0.held ≡ db.held
    complete : (vs : List ℕ) → p.1 ≡ ok vs → (rest ≡ []) × (vs ≡ now ++ versions_of done)

  apply_all-Commits :
      (ms : List Migration) (db : Database D) (now : List ℕ)
      → Commits ms db now (apply_all run_sql ms db now)
  unfolding apply_all
  apply_all-Commits [] db now = record {
    done = [];
    rest = [];
    split = refl;
    rows = sym (append-nil db.rows);
    replayed = refl;
    held = refl;
    complete = λ vs h. (refl, sym (ok-injective now vs h) ∙ sym (append-nil now));
  }
  apply_all-Commits (m ∷ ms) db now = elim (Result-cases (commit run_sql m db)) [
    | inr (e, eq) ↦
        rw (eq, apply_all)
          (record {
            done = [];
            rest = m ∷ ms;
            split = refl;
            rows = sym (append-nil db.rows);
            replayed = refl;
            held = refl;
            complete = λ vs h. cc;
          })
    | inl (db', eq) ↦
        let (r, d, k) = commit-ok m db db' eq in
        let c = apply_all-Commits ms db' (now ++ m.version ∷ []) in
        rw (eq, apply_all)
          (record {
            done = m ∷ c.done;
            rest = c.rest;
            split = ap (λ l. m ∷ l) c.split;
            rows =
                c.rows
                ∙ ap (λ l. l ++ map row_of c.done) r
                ∙ append_assoc db.rows (row_of m ∷ []) (map row_of c.done);
            replayed = rw d c.replayed;
            held = c.held ∙ k;
            complete = λ vs h.
                let (none_left, counted) = c.complete vs h in
                (none_left, counted ∙ append_assoc now (m.version ∷ []) (versions_of c.done));
          })
  ]

  -- What a run did: it created the table or did not come to that, it committed the first `done` of the
  -- pending migrations, and it holds no lock that was not held before.
  pub record Ran (ms : List Migration) (db : Database D)
      (out : Database D × Result Failure MigrationStatus) : Type 0 where
    pub created : List String
    pub done : List Migration
    pub rest : List Migration
    pub split : unrecorded db.rows ms ≡ done ++ rest
    pub rows : out.0.rows ≡ db.rows ++ map row_of done
    pub replayed : replay (created ++ scripts done) db.data_ ≡ ok out.0.data_
    pub only_table : (created ≡ []) ⊎ (created ≡ create_table ∷ [])
    pub held : out.0.held ≡ db.held
    pub complete :
        (st : MigrationStatus)
        → out.1 ≡ ok st
        → (rest ≡ [])
          × (is_consistent db.rows ms ≡ true)
          × (st ≡ status ms db.rows (unrecorded db.rows ms) (versions_of done))

  reported-database :
      (ms : List Migration) (rows : List Row) (todo : List Migration)
      (p : Database D × Result Failure (List ℕ))
      → (reported run_sql ms rows todo p).0 ≡ p.0
  reported-database ms rows todo (db, ok now) = refl
  reported-database ms rows todo (db, err e) = refl

  reported-ok :
      (ms : List Migration) (rows : List Row) (todo : List Migration)
      (p : Database D × Result Failure (List ℕ)) (st : MigrationStatus)
      → (reported run_sql ms rows todo p).1 ≡ ok st
      → (now : List ℕ) × (p.1 ≡ ok now) × (st ≡ status ms rows todo now)
  reported-ok ms rows todo (db, ok now) st h = (now, refl, sym (ok-injective _ st h))
  reported-ok ms rows todo (db, err e) st h = cc

  unlock-lock : (key : ℕ) (ks : List ℕ) → unlock key (key ∷ ks) ≡ ks
  unlock-lock key ks = ground arith

  planned-Ran :
      (key : ℕ) (ms : List Migration) (db : Database D) (d : D)
      → run_sql create_table db.data_ ≡ ok d
      → (todo : Result Failure (List Migration)) → pending_migrations db.rows ms ≡ todo
      → Ran ms db (
          released run_sql key (
            planned run_sql ms
              (record db { data_ = d; has_table = true; held = key ∷ db.held })
              todo))
  planned-Ran key ms db d made (err e) eq = record {
    created = create_table ∷ [];
    only_table = inr refl;
    done = [];
    rest = unrecorded db.rows ms;
    split = refl;
    rows = sym (append-nil db.rows);
    replayed = rw made refl;
    held = unlock-lock key db.held;
    complete = λ st h. cc;
  }
  planned-Ran key ms db d made (ok todo) eq =
      let (consistent, is_todo) = (pending_migrations_iff db.rows ms todo).0 eq in
      let db' : Database D = record db { data_ = d; has_table = true; held = key ∷ db.held } in
      let c = apply_all-Commits todo db' [] in
      let same = reported-database ms db.rows todo (apply_all run_sql todo db' []) in
      record {
        created = create_table ∷ [];
        only_table = inr refl;
        done = c.done;
        rest = c.rest;
        split = sym is_todo ∙ c.split;
        rows = ap (λ x. x.rows) same ∙ c.rows;
        replayed = rw made (c.replayed ∙ ap (λ x. ok x.data_) (sym same));
        held = ap (λ x. unlock key x.held) same ∙ ap (unlock key) c.held ∙ unlock-lock key db.held;
        complete = λ st h.
            let (now, is_now, reported_status) = reported-ok ms db.rows todo _ st h in
            let (none_left, counted) = c.complete now is_now in
            (
              none_left,
              consistent,
              reported_status
                  ∙ ap (λ l. status ms db.rows l now) is_todo
                  ∙ ap (status ms db.rows (unrecorded db.rows ms)) counted,
            );
      }

  opened-Ran :
      (key : ℕ) (ms : List Migration) (db : Database D) (r : Result String D)
      → run_sql create_table db.data_ ≡ r
      → Ran ms db (released run_sql key (opened run_sql ms (record db { held = key ∷ db.held }) r))
  opened-Ran key ms db (err e) made = record {
    created = [];
    only_table = inl refl;
    done = [];
    rest = unrecorded db.rows ms;
    split = refl;
    rows = sym (append-nil db.rows);
    replayed = refl;
    held = unlock-lock key db.held;
    complete = λ st h. cc;
  }
  opened-Ran key ms db (ok d) made =
      planned-Ran key ms db d made (pending_migrations db.rows ms) refl

  pub apply_pending-Ran :
      (key : ℕ) (ms : List Migration) (db : Database D)
      → Ran ms db (apply_pending run_sql key ms db)
  unfolding apply_pending
  apply_pending-Ran key ms db = opened-Ran key ms db (run_sql create_table db.data_) refl

  -- However a run of `apply_pending` ends, it has committed a prefix of the pending migrations: the
  -- table has exactly their rows in addition, the data is what the statements of these migrations,
  -- executed one after the other (after the table's, unless that failed), make of the data before, and
  -- the locks are those that were held before.
  pub apply_pending-atomic :
      (key : ℕ) (ms : List Migration) (db : Database D)
      → (created : List String) × (done : List Migration) × (rest : List Migration) × (unrecorded
            db.rows ms
          ≡ done ++ rest)
        × ((apply_pending run_sql key ms db).0.rows ≡ db.rows ++ map row_of done)
        × (replay (created ++ scripts done) db.data_ ≡ ok (apply_pending run_sql key ms db).0.data_)
        × ((created ≡ []) ⊎ (created ≡ create_table ∷ []))
        × ((apply_pending run_sql key ms db).0.held ≡ db.held)
  apply_pending-atomic key ms db =
      let r = apply_pending-Ran key ms db in
      (r.created, r.done, r.rest, r.split, r.rows, r.replayed, r.only_table, r.held)
