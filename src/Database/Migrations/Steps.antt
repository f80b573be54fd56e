-- ===== src/Database/Migrations/Steps.antt =====
-- server/src/Database.cpp: the loop of init as a sequence of migrations, each done as a whole.
use qt_chat_app.Prelude.{
  ℕ, ◌+◌, ◌≡◌, ◌⊎◌, refl, ap, Bool, true, false, List, [], ◌∷◌, Option, none, some, inl, inr,
  Bool-cases, Option-cases, length, arith,
}
use qt_chat_app.Qt.{QString}
use qt_chat_app.Qt.JsonValue.{pos}
use qt_chat_app.Database.Sql.{Command, int, script, insert_into, Engine}
use qt_chat_app.Database.Migrations.{migrate, migrate_all}

-- The commands of a migration's transaction.
abbrev pub migration : ℕ → QString → List Command
migration version sql =
    script sql ∷ insert_into "schema_migrations" (("version", int (pos version)) ∷ []) ∷ []

module _ {D : Type 0} (engine : Engine D) (read_file : QString → Option QString) where
  -- Migrations from the file with the index i on, up to the one with the index j: each file was
  -- read, and its migration committed.
  pub data Migrated : ℕ → List QString → D → ℕ → List QString → D → Type 0 where
    start : {i : ℕ} {files : List QString} {d : D} → Migrated i files d i files d
    next :
        {i j : ℕ} {file : QString} {files rest : List QString} {sql : QString} {d d' e : D}
        → read_file file ≡ some sql
        → migrate engine (i + 1) sql d ≡ (true, d')
        → Migrated (i + 1) files d' j rest e
        → Migrated i (file ∷ files) d j rest e

  -- The file that stopped the loop: it could not be read, or its migration failed.
  abbrev pub StopsAt : ℕ → QString → D → D → Type 0
  StopsAt j file d e =
      ((read_file file ≡ none) × (e ≡ d))
      ⊎ ((sql : QString) × (read_file file ≡ some sql)
          × (migrate engine (j + 1) sql d ≡ (false, e)))

  -- How the loop ends: with every file, or at the first that fails.
  abbrev pub LoopEnds : ℕ → List QString → D → Bool × D → Type 0
  LoopEnds i files d result =
      ((result.0 ≡ true) × ((j : ℕ) × (j ≡ i + length files) × Migrated i files d j [] result.1))
      ⊎ ((result.0 ≡ false)
          × ((j : ℕ) × (file : QString) × (rest : List QString) × (d' : D) × Migrated i files d j
                (file ∷ rest) d'
              × StopsAt j file d' result.1))

  LoopEnds-next :
      (i : ℕ) (file : QString) (files : List QString) (sql : QString) (d d' : D)
      → (result : Bool × D) → read_file file ≡ some sql
      → migrate engine (i + 1) sql d ≡ (true, d')
      → LoopEnds (i + 1) files d' result
      → LoopEnds i (file ∷ files) d result
  LoopEnds-next i file files sql d d' result read done (inl (all, (j, e, steps))) =
      inl (all, (j, omega (arith, e), next read done steps))
  LoopEnds-next i file files sql d d' result read done
        (inr (stopped, (j, g, rest, d₁, steps, stop))) =
      inr (stopped, (j, g, rest, d₁, next read done steps, stop))

  -- The loop of Database::init ends with true after a migration of every file that is left, in
  -- their order, or with false at the first file that cannot be read or whose migration fails,
  -- with the migrations of all files before it done.
  pub migrate_all-LoopEnds :
      (i : ℕ) (files : List QString) (d : D)
      → LoopEnds i files d (migrate_all engine read_file i files d)
  unfolding migrate_all
  migrate_all-LoopEnds i [] d = inl (refl, (i, omega arith, start))
  migrate_all-LoopEnds i (file ∷ files) d = elim (Option-cases (read_file file)) [
    | inl missing ↦
        let e : migrate_all engine read_file i (file ∷ files) d ≡ (false, d) = ground arith in
        rw e (inr (refl, (i, file, files, d, start, inl (missing, refl))))
    | inr (sql, read) ↦
        let (migrated, d') = migrate engine (i + 1) sql d in
        elim (Bool-cases migrated) [
          | inl done ↦
              let e : migrate_all engine read_file i (file ∷ files) d
                  ≡ migrate_all engine read_file (i + 1) files d' =
                rw (migrate_all, read, done) refl in
              rw e (
                LoopEnds-next i file files sql d d' _ read (ap (λ (b : Bool). (b, d')) done)
                  (migrate_all-LoopEnds (i + 1) files d'))
          | inr failed ↦
              let e : migrate_all engine read_file i (file ∷ files) d ≡ (false, d') =
                rw (migrate_all, read, failed) refl in
              rw e (
                inr (
                  refl,
                  (i, file, files, d, start, inr (sql, read, ap (λ (b : Bool). (b, d')) failed)),
                ))
        ]
  ]
