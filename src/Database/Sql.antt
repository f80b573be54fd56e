-- ===== src/Database/Sql.antt =====
-- server/src/Database.cpp: the SQL statements that it prepares, and the database below them as
-- a parameter: PostgreSQL, reached through Qt's QSqlDatabase, QSqlQuery and QVariant.
use qt_chat_app.Prelude.{
  ℕ, zero, suc, ltb, Bool, true, false, List, [], ◌∷◌, Option, none, some, if◌then◌else◌,
}
use qt_chat_app.Qt.{QString}
use qt_chat_app.Qt.JsonValue.{ℤ}

-- A QVariant in a statement or in a row. `cast t s` is `CAST(:x AS t)` of a text s; a `double` is
-- the number that its 64 bits stand for.
pub data Value : Type 0 where
  sql_null : Value
  string : QString → Value
  int : ℤ → Value
  double date_time : ℕ → Value
  cast : QString → QString → Value

abbrev pub Row : Type 0
Row = List (QString × Value)

-- `a = :x AND b = :y`, with the texts that are bound
abbrev pub Condition : Type 0
Condition = List (QString × QString)

-- `first` and `all` have their columns, table and condition; `first` ends in `LIMIT 1`.
pub data Query : Type 0 where
  first all : List QString → QString → Condition → Query
  -- the chats whose type is ILIKE a pattern, by `created_at DESC`
  chats_like : List QString → QString → Query
  -- the chats joined with the members whose user_id is a text, by `created_at DESC`
  chats_of_member : List QString → QString → Query
  -- SELECT MAX(version) FROM schema_migrations
  max_version : Query

pub data Command : Type 0 where
  insert_into : QString → Row → Command
  update : QString → Row → Condition → Command
  delete_from : QString → Condition → Command
  -- CREATE TABLE IF NOT EXISTS schema_migrations
  create_schema_migrations : Command
  -- the text of a migration
  script : QString → Command

-- `D` is the state of the connection and of the database behind it. Calls that change it return
-- the new state; exec returns the number of rows affected, or none when it failed.
pub record Engine (D : Type 0) : Type 0 where
  -- QSqlDatabase::isOpen, open, transaction, commit and rollback
  pub is_open : D → Bool
  pub open_connection : D → Bool × D
  pub transaction : D → Bool × D
  pub commit : D → Bool × D
  pub rollback : D → Bool × D
  -- QSqlQuery::exec, with the rows that next() would step through
  pub query : D → Query → Option (List (List Value))
  -- QSqlQuery::exec, with numRowsAffected()
  pub exec : D → Command → Option ℕ × D
  -- QVariant::toString, toInt, toDouble and toDateTime
  pub to_string : Value → QString
  pub to_int : Value → ℤ
  pub to_double : Value → ℕ
  pub to_date_time : Value → ℕ
  -- QDateTime() and QDateTime::isValid
  pub no_date : ℕ
  pub is_valid_date : ℕ → Bool

-- QVariant::isNull
unfoldable pub is_sql_null : Value → Bool
is_sql_null sql_null = true
is_sql_null _ = false

-- QSqlQuery::value, on the row that next() stepped to
unfoldable pub value_of : ℕ → List Value → Value
value_of i [] = sql_null
value_of zero (v ∷ vs) = v
value_of (suc i) (v ∷ vs) = value_of i vs

-- `if (!query.exec() || !query.next()) return std::nullopt;` before the row is read
unfoldable pub first_row {ℓ} :
    {A : Type ℓ} → (List Value → A) → Option (List (List Value)) → Option A
first_row read none = none
first_row read (some []) = none
first_row read (some (r ∷ rs)) = some (read r)

-- `while (query.next())`
unfoldable pub read_rows {ℓ} : {A : Type ℓ} → (List Value → A) → List (List Value) → List A
read_rows read [] = []
read_rows read (r ∷ rs) = read r ∷ read_rows read rs

-- `if (!query.exec()) return list;` before the loop over the rows
unfoldable pub all_rows {ℓ} : {A : Type ℓ} → (List Value → A) → Option (List (List Value)) → List A
unfolding read_rows
all_rows read none = []
all_rows read (some rs) = read_rows read rs

module _ {D : Type 0} (engine : Engine D) where
  -- A handler that is refused when the database is not open.
  abbrev pub when_open {ℓ} : {A : Type ℓ} → D → A → A → A
  when_open d refused go = if engine.is_open d then go else refused

  -- `if (!query.exec()) return false; return true;`
  unfoldable pub run_insert : D → Command → Bool × D
  run_insert d c =
      let (affected, d') = engine.exec d c in (elim affected [ none ↦ false | some n ↦ true ], d')

  -- `if (!query.exec()) return false; return query.numRowsAffected() > 0;`
  unfoldable pub run_delete : D → Command → Bool × D
  run_delete d c =
      let (affected, d') = engine.exec d c in
      (elim affected [ none ↦ false | some n ↦ ltb 0 n ], d')
