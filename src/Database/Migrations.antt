-- ===== src/Database/Migrations.antt =====
-- server/src/Database.cpp: the connection, and init, which runs the migrations that are missing.
pub mod Steps
pub mod Laws
pub mod Atomic
pub mod Versions
use qt_chat_app.Prelude.{
  ℕ, zero, suc, ◌+◌, ◌-◌, ltb, Bool, true, false, List, [], ◌∷◌, Option, none, some, if◌then◌else◌,
  drop,
}
use qt_chat_app.Qt.{QString}
use qt_chat_app.Qt.JsonValue.{ℤ, pos, negsuc}
use qt_chat_app.Database.Sql.{
  Value, int, Command, create_schema_migrations, script, insert_into, max_version, Engine, value_of,
}

-- The Database object: `D` is behind m_db, and the flag is m_initialized.
pub record Connection (D : Type 0) : Type 0 where
  pub db : D
  pub is_initialized : Bool

module _ {D : Type 0} (engine : Engine D) where
  -- Database::isConnected
  unfoldable pub is_connected : Connection D → Bool
  is_connected c = engine.is_open c.db

  -- Database::connect
  unfoldable pub connect : Connection D → Bool × Connection D
  connect c =
      if c.is_initialized
      then (engine.is_open c.db, c)
      else let (opened, d) = engine.open_connection c.db in
        (opened, record { db = d; is_initialized = true })

  -- `m_db.rollback(); return false;`
  abbrev undo : D → Bool × D
  undo d = let (rolled_back, d') = engine.rollback d in (false, d')

  -- the insertion of the version, with the commit behind it
  unfoldable pub record_version : ℕ → D → Bool × D
  record_version version d =
      let (recorded, d') =
        engine.exec d (insert_into "schema_migrations" (("version", int (pos version)) ∷ [])) in
      elim recorded [ none ↦ undo d' | some n ↦ engine.commit d' ]

  -- The body of init's loop, from the call of transaction() on.
  unfoldable pub migrate : ℕ → QString → D → Bool × D
  unfolding record_version
  migrate version sql d =
      let (begun, in_transaction) = engine.transaction d in
      let (executed, d') = engine.exec in_transaction (script sql) in
      if begun
      then elim executed [ none ↦ undo d' | some n ↦ record_version version d' ]
      else (false, in_transaction)

  -- The loop of init: the files that are left, the first of which has the index `i`.
  unfoldable pub migrate_all : (QString → Option QString) → ℕ → List QString → D → Bool × D
  unfolding migrate
  migrate_all read_file i [] d = (true, d)
  migrate_all read_file i (file ∷ files) d = elim (read_file file) [
    | none ↦ (false, d)
    | some sql ↦
        let (migrated, d') = migrate (i + 1) sql d in
        elim migrated [ true ↦ migrate_all read_file (i + 1) files d' | false ↦ (false, d') ]
  ]

  -- `currentVersion`, after the query of MAX(version) was executed
  unfoldable pub version_of_rows : List (List Value) → ℤ
  unfolding value_of
  version_of_rows [] = pos 0
  version_of_rows (row ∷ rows) = engine.to_int (value_of 0 row)

  -- the loop from the current version on; `files[i]` with a negative index is out of range
  abbrev migrate_from : (QString → Option QString) → ℤ → List QString → D → Bool × D
  migrate_from read_file (pos v) files d = migrate_all read_file v (drop v files) d
  migrate_from read_file (negsuc v) files d = (false, d)

  -- Database::init, with the files of the directory and their texts
  unfoldable pub init : (QString → Option QString) → List QString → D → Bool × D
  unfolding migrate_all version_of_rows
  init read_file files d =
      let (created, d') = engine.exec d create_schema_migrations in
      if engine.is_open d
      then elim created [
        | none ↦ (false, d')
        | some n ↦ elim (engine.query d' max_version) [
          | none ↦ (false, d')
          | some rows ↦ migrate_from read_file (version_of_rows rows) files d'
        ]
      ]
      else (false, d)
