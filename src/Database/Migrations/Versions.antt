-- ===== src/Database/Migrations/Versions.antt =====
-- server/src/Database.cpp: the version that the database records while init runs.
use qt_chat_app.Prelude.{
  ℕ, zero, suc, ◌+◌, ◌≤◌, ◌<◌, ◌≡◌, ◌⊎◌, refl, sym, ap, ◌∙◌, Bool, true, false, List, [], ◌∷◌,
  Option, some, inl, inr, has_value, length, drop, arith,
}
use qt_chat_app.Qt.{Qt, QString}
use qt_chat_app.Database.Sql.{create_schema_migrations, max_version, Engine}
use qt_chat_app.Database.Laws.{EngineLaws}
use qt_chat_app.Database.Migrations.{migrate, migrate_all, init}
use qt_chat_app.Database.Migrations.Laws.{IsVersion, CreateLaws, MigrationLaws}
use qt_chat_app.Database.Migrations.Steps.{Migrated, start, next, StopsAt, migrate_all-LoopEnds}
use qt_chat_app.Database.Migrations.Atomic.{behind, IsTried, migrate-IsTried}

-- How init ends that begins at a version: at the version of all files, at one between the two, or
-- with a COMMIT that failed behind the complete migrations up to k.
abbrev pub VersionsEnd : {D : Type 0} → Engine D → ℕ → ℕ → Bool × D → Type 0
VersionsEnd engine from total result =
    ((result.0 ≡ true) × IsVersion engine result.1 total)
    ⊎ ((result.0 ≡ false)
        × (((k : ℕ) × (from ≤ k) × (k < total) × IsVersion engine result.1 k)
            ⊎ ((k : ℕ) × (sql : QString) × (d : _) × IsVersion engine d k
                × IsTried engine (k + 1) sql d (false, result.1))))

length-drop : (n : ℕ) (xs : List QString) → n ≤ length xs → n + length (drop n xs) ≡ length xs
length-drop zero xs h = omega arith
length-drop (suc n) [] h = absurd (omega arith)
length-drop (suc n) (x ∷ xs) h = omega (arith, length-drop n xs (omega arith))

drop-length : (xs : List QString) → drop (length xs) xs ≡ []
drop-length [] = refl
drop-length (x ∷ xs) = drop-length xs

module _ {D : Type 0} (qt : Qt) (engine : Engine D) (laws : EngineLaws qt engine)
    (IsIdle : D → Type 0) (read_file : QString → Option QString)
    (texts : MigrationLaws engine IsIdle read_file) where
  -- The database is at a version, and no transaction is in progress.
  abbrev IsAt : D → ℕ → Type 0
  IsAt d v = IsVersion engine d v × IsIdle d

  -- A migration that is committed records its version.
  migrate-IsAt :
      (i : ℕ) (file sql : QString) (d d' : D)
      → read_file file ≡ some sql
      → IsAt d i
      → migrate engine (i + 1) sql d ≡ (true, d')
      → IsAt d' (i + 1)
  migrate-IsAt i file sql d d' text ((rows, read, current), idle) done =
      elim (migrate-IsTried engine qt laws (i + 1) sql d
        (texts.script_undone file sql d text idle)) [
          | inl undone ↦ absurd (ground arith)
          | inr (begun, (executed, (recorded, end)), e) ↦
              let (rows', read', now) =
                texts.insert_version _ i (i + 1) (omega arith)
                  (
                    rows,
                    texts.script_keeps file sql _ text executed
                        ∙ laws.transaction_keeps d max_version begun
                        ∙ read,
                    current,
                  )
                  recorded in
              let committed : engine.commit (behind engine (i + 1) sql d) ≡ (true, d') =
                sym e ∙ done in
              let ok = ap (λ (r : Bool × D). r.0) committed in
              (
                (rows', rw committed at (laws.commit_keeps _ max_version ok) ∙ read', now),
                rw committed at (texts.commit_idle _ ok),
              )
        ]

  -- Complete migrations advance the version by one each.
  Migrated-IsAt :
      {i j : ℕ} {files rest : List QString} {d e : D}
      → Migrated engine read_file i files d j rest e
      → IsAt d i
      → IsAt e j × (i + length files ≡ j + length rest) × (i ≤ j)
  Migrated-IsAt start v = (v, refl, omega arith)
  Migrated-IsAt (next read done steps) v =
      let (w, e, l) = Migrated-IsAt steps (migrate-IsAt _ _ _ _ _ read v done) in
      (w, omega (arith, e), omega (arith, l))

  stopped-IsVersion :
      (j : ℕ) (file : QString) (d e : D)
      → IsAt d j
      → StopsAt engine read_file j file d e
      → IsVersion engine e j ⊎ ((sql : QString) × IsTried engine (j + 1) sql d (false, e))
  stopped-IsVersion j file d e (v, idle) (inl (missing, same)) = inl (rw same v)
  stopped-IsVersion j file d e (v, idle) (inr (sql, read, failed)) =
      elim (migrate-IsTried engine qt laws (j + 1) sql d
        (texts.script_undone file sql d read idle)) [
          | inl undone ↦
              let same : e ≡ d = ap (λ (r : Bool × D). r.1) (sym failed ∙ undone) in inl (rw same v)
          | inr (begun, succeeded, tried) ↦ inr (sql, (begun, succeeded, sym failed ∙ tried))
        ]

  migrate_all-VersionsEnd :
      (v : ℕ) (files : List QString) (d : D)
      → IsAt d v
      → VersionsEnd engine v (v + length files) (migrate_all engine read_file v files d)
  migrate_all-VersionsEnd v files d current =
      elim (migrate_all-LoopEnds engine read_file v files d) [
        | inl (all, (j, e, steps)) ↦ inl (all, rw (← e) (Migrated-IsAt steps current).0.0)
        | inr (stopped, (j, file, rest, d', steps, stop)) ↦
            let (reached, sum, above) = Migrated-IsAt steps current in
            elim (stopped-IsVersion j file d' _ reached stop) [
              | inl same ↦ inr (stopped, inl (j, above, omega (arith, sum), same))
              | inr (sql, tried) ↦ inr (stopped, inr (j, sql, d', reached.0, tried))
            ]
      ]

  -- Database::init on an open database without a transaction in progress, in which
  -- schema_migrations can be created and has a version that is not above the number of files,
  -- returns true at the version that is the number of files; or false at a version from the
  -- first one up to below that number, or after a COMMIT failed. The texts of the files neither
  -- write to schema_migrations nor end the transaction that they run in; the engine and the
  -- table satisfy their laws.
  pub init-VersionsEnd :
      (files : List QString) (d : D) (v : ℕ)
      → engine.is_open d ≡ true
      → IsIdle d
      → has_value (engine.exec d create_schema_migrations).0 ≡ true
      → IsVersion engine (engine.exec d create_schema_migrations).1 v
      → v ≤ length files
      → VersionsEnd engine v (length files) (init engine read_file files d)
  unfolding init
  init-VersionsEnd files d v opened idle created (rows, read, current) low =
      let d' = (engine.exec d create_schema_migrations).1 in
      let e : init engine read_file files d ≡ migrate_all engine read_file v (drop v files) d' =
        ground arith in
      rw (e, ← length-drop v files low)
        (migrate_all-VersionsEnd v (drop v files) d'
          ((rows, read, current), texts.create_idle d idle))

module _ {D : Type 0} (engine : Engine D) (creation : CreateLaws engine) where
  -- Database::init on an open database whose version is the number of files returns true,
  -- whatever the files hold, executes no more than CREATE TABLE IF NOT EXISTS, and leaves the
  -- version as it is. CREATE TABLE IF NOT EXISTS succeeds and leaves a table that is there as it
  -- is.
  pub init_again :
      (read_file : QString → Option QString) (files : List QString) (e : D)
      → engine.is_open e ≡ true
      → IsVersion engine e (length files)
      → let e' = (engine.exec e create_schema_migrations).1 in
        (init engine read_file files e ≡ (true, e')) × IsVersion engine e' (length files)
  unfolding init migrate_all
  init_again read_file files e opened v =
      let (created, (rows, read, current)) = creation.create_keeps e _ v in
      (ground (arith, drop-length files), (rows, read, current))
