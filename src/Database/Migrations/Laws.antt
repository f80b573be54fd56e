-- ===== src/Database/Migrations/Laws.antt =====
-- What the loop of server/src/Database.cpp's init relies on: the table schema_migrations, and the texts
-- of the files of migrations/, which define tables, functions and triggers and change rows of other
-- tables, and which neither name schema_migrations nor end the transaction that they run in.
use qt_chat_app.Prelude.{ℕ, ◌<◌, ◌≡◌, true, List, [], ◌∷◌, Option, some, has_value, All}
use qt_chat_app.Qt.{QString}
use qt_chat_app.Qt.JsonValue.{pos}
use qt_chat_app.Database.Sql.{
  Value, int, Command, script, insert_into, create_schema_migrations, max_version, Engine,
}
use qt_chat_app.Database.Laws.{IsRowCommand, exec_all}
use qt_chat_app.Database.Migrations.{version_of_rows}

-- The version that init reads from the database.
abbrev pub IsVersion : {D : Type 0} → Engine D → D → ℕ → Type 0
IsVersion engine d v =
    (rows : List (List Value)) × (engine.query d max_version ≡ some rows)
    × (version_of_rows engine rows ≡ pos v)

-- IF NOT EXISTS: a table that is there stays as it is.
pub record CreateLaws {D : Type 0} (engine : Engine D) : Type 0 where
  pub create_keeps :
      (d : D) (v : ℕ)
      → IsVersion engine d v
      → (has_value (engine.exec d create_schema_migrations).0 ≡ true)
        × IsVersion engine (engine.exec d create_schema_migrations).1 v

-- ROLLBACK takes back the text, and the rows that were written behind it.
abbrev pub IsUndone : {D : Type 0} → Engine D → QString → D → Type 0
IsUndone engine sql d =
    (cs : List Command)
    → All IsRowCommand cs
    → (engine.transaction d).0 ≡ true
    → (engine.rollback (exec_all engine (script sql ∷ cs) (engine.transaction d).1)).1 ≡ d

-- `IsIdle` says that no transaction is in progress.
pub record MigrationLaws {D : Type 0} (engine : Engine D) (IsIdle : D → Type 0)
    (read_file : QString → Option QString) : Type 0 where
  -- MAX(version) is the version that was inserted last, when it is above the others.
  pub insert_version :
      (d : D) (v w : ℕ)
      → v < w
      → IsVersion engine d v
      → has_value
          (engine.exec d (insert_into "schema_migrations" (("version", int (pos w)) ∷ []))).0
        ≡ true
      → IsVersion engine
          (engine.exec d (insert_into "schema_migrations" (("version", int (pos w)) ∷ []))).1
          w
  -- The text of a file writes no version.
  pub script_keeps :
      (file sql : QString) (d : D)
      → read_file file ≡ some sql
      → has_value (engine.exec d (script sql)).0 ≡ true
      → engine.query (engine.exec d (script sql)).1 max_version ≡ engine.query d max_version
  -- The text of a file does not end the transaction that it runs in.
  pub script_undone :
      (file sql : QString) (d : D) → read_file file ≡ some sql → IsIdle d → IsUndone engine sql d
  -- COMMIT ends the transaction, and CREATE TABLE begins none.
  pub commit_idle : (d : D) → (engine.commit d).0 ≡ true → IsIdle (engine.commit d).1
  pub create_idle : (d : D) → IsIdle d → IsIdle (engine.exec d create_schema_migrations).1
