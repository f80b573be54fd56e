-- ===== src/Database/Laws.antt =====
-- What PostgreSQL and Qt document of the engine below server/src/Database.cpp, for the schema of
-- migrations/: transactions, conversions, and reading back what a statement wrote.
use qt_chat_app.Prelude.{
  ℕ, ◌≡◌, ◌⊎◌, Bool, true, false, List, [], ◌∷◌, Option, none, some, if◌then◌else◌, str_eq,
  has_value, length, All,
}
use qt_chat_app.Qt.{Qt, QUuid, QString}
use qt_chat_app.Database.Sql.{
  Value, string, double, Row, Condition, Query, first, Command, insert_into, update, delete_from,
  Engine,
}

-- the value of a column in a row of an INSERT or in the SET of an UPDATE
abbrev pub column : QString → Row → Option Value
column c [] = none
column c ((k, v) ∷ row) = if str_eq k c then some v else column c row

abbrev pub prepend : Option Value → Option (List Value) → Option (List Value)
prepend (some v) (some vs) = some (v ∷ vs)
prepend _ _ = none

-- the values of the columns that a query asks for
abbrev pub project : List QString → Row → Option (List Value)
project [] row = some []
project (c ∷ cs) row = prepend (column c row) (project cs row)

abbrev value_from : Option Value → Value → Value
value_from (some w) v = w
value_from none v = v

-- the values of the columns after an UPDATE
abbrev pub assign : List QString → Row → List Value → List Value
assign (c ∷ cs) sets (v ∷ vs) = value_from (column c sets) v ∷ assign cs sets vs
assign _ sets _ = []

-- every condition holds of the row
abbrev pub Matches : Condition → Row → Type 0
Matches [] row = Unit
Matches ((c, s) ∷ conditions) row = (column c row ≡ some (string s)) × Matches conditions row

-- a table whose columns are TEXT and FLOAT, but for the UUID `id`
abbrev pub IsPlain : QString → Type 0
IsPlain t = (t ≡ "users") ⊎ (t ≡ "contents")

-- `id` is a primary key; username and email are unique.
abbrev pub is_unique : QString → QString → Bool
is_unique t c =
    if str_eq c "id"
    then true
    else if str_eq t "users"
    then (if str_eq c "username" then true else str_eq c "email")
    else false

-- the first condition is on a column whose values are unique
abbrev pub is_keyed : QString → Condition → Bool
is_keyed t [] = false
is_keyed t ((c, s) ∷ conditions) = is_unique t c

abbrev pub id_condition : Qt → QUuid → Condition
id_condition qt id = ("id", qt.uuid_to_string id) ∷ []

-- commands one after the other, whatever becomes of each
abbrev pub exec_all : {D : Type 0} → Engine D → List Command → D → D
exec_all engine [] d = d
exec_all engine (c ∷ cs) d = exec_all engine cs (engine.exec d c).1

-- every command of a list succeeds, one after the other
abbrev pub AllSucceed : {D : Type 0} → Engine D → List Command → D → Type 0
AllSucceed engine [] d = Unit
AllSucceed engine (c ∷ cs) d =
    (has_value (engine.exec d c).0 ≡ true) × AllSucceed engine cs (engine.exec d c).1

abbrev pub IsOnStats : Command → Type 0
IsOnStats (insert_into t row) = t ≡ "user_stats"
IsOnStats (update t sets conditions) = t ≡ "user_stats"
IsOnStats _ = ⊥

-- A statement that reads or writes rows, which does not end the transaction.
abbrev pub IsRowCommand : Command → Type 0
IsRowCommand (insert_into t row) = Unit
IsRowCommand (update t sets conditions) = Unit
IsRowCommand (delete_from t conditions) = Unit
IsRowCommand _ = ⊥

pub record EngineLaws (qt : Qt) {D : Type 0} (engine : Engine D) : Type 0 where
  -- QVariant's conversions of a value of the same type
  pub to_string_string : (s : QString) → engine.to_string (string s) ≡ s
  pub to_double_double : (x : ℕ) → engine.to_double (double x) ≡ x
  -- ROLLBACK takes back the rows that were written since the transaction began.
  pub rollback_undoes :
      (d : D) (cs : List Command)
      → All IsRowCommand cs
      → (engine.transaction d).0 ≡ true
      → (engine.rollback (exec_all engine cs (engine.transaction d).1)).1 ≡ d
  pub transaction_fails : (d : D) → (engine.transaction d).0 ≡ false → (engine.transaction d).1 ≡ d
  -- `LIMIT 1` gives one row at most, with a value for each column.
  pub first_row_only :
      (d : D) (columns : List QString) (t : QString) (conditions : Condition) (vs : List Value)
      → (rest : List (List Value)) → engine.query d (first columns t conditions) ≡ some (vs ∷ rest)
      → (rest ≡ []) × (length vs ≡ length columns)
  -- BEGIN and COMMIT change no row, and a connection that committed is open.
  pub transaction_keeps :
      (d : D) (q : Query)
      → (engine.transaction d).0 ≡ true
      → engine.query (engine.transaction d).1 q ≡ engine.query d q
  pub commit_keeps :
      (d : D) (q : Query)
      → (engine.commit d).0 ≡ true
      → engine.query (engine.commit d).1 q ≡ engine.query d q
  pub commit_open : (d : D) → (engine.commit d).0 ≡ true → engine.is_open (engine.commit d).1 ≡ true
  -- A connection stays open while its commands succeed.
  pub exec_open :
      (d : D) (c : Command)
      → engine.is_open d ≡ true
      → has_value (engine.exec d c).0 ≡ true
      → engine.is_open (engine.exec d c).1 ≡ true
  -- A row that was inserted is the one with its key, and has the values that were bound.
  pub insert_read :
      (d : D) (t : QString) (row : Row) (id : QUuid) (conditions : Condition)
      → (columns : List QString) (vs : List Value) → IsPlain t
      → column "id" row ≡ some (string (qt.uuid_to_string id))
      → is_keyed t conditions ≡ true
      → Matches conditions row
      → project columns row ≡ some vs
      → has_value (engine.exec d (insert_into t row)).0 ≡ true
      → engine.query (engine.exec d (insert_into t row)).1 (first columns t conditions)
        ≡ some (vs ∷ [])
  -- An UPDATE of a row replaces the values of the columns that it sets.
  pub update_read :
      (d : D) (t : QString) (sets : Row) (id : QUuid) (columns : List QString) (vs : List Value)
      → IsPlain t
      → column "id" sets ≡ none
      → engine.query d (first columns t (id_condition qt id)) ≡ some (vs ∷ [])
      → has_value (engine.exec d (update t sets (id_condition qt id))).0 ≡ true
      → engine.query
          (engine.exec d (update t sets (id_condition qt id))).1
          (first columns t (id_condition qt id))
        ≡ some (assign columns sets vs ∷ [])
  -- No trigger on user_stats writes to users.
  pub stats_keep_users :
      (d : D) (c : Command) (columns : List QString) (conditions : Condition)
      → IsOnStats c
      → has_value (engine.exec d c).0 ≡ true
      → engine.query (engine.exec d c).1 (first columns "users" conditions)
        ≡ engine.query d (first columns "users" conditions)
