-- ===== src/Tests/Tables.antt =====
-- A small database at which the laws of the engine hold: rows in memory, and the rows that a
-- transaction began with.
pub mod Laws
pub mod Filled
use qt_chat_app.Prelude.{
  ℕ, ◌+◌, ◌≡◌, refl, Bool, true, false, not, ◌&&◌, List, [], ◌∷◌, ◌++◌, Option, none, some,
  if◌then◌else◌, str_eq, ltb, ◌==◌,
}
use qt_chat_app.Qt.{QString}
use qt_chat_app.Qt.JsonValue.{ℤ, pos, negsuc}
use qt_chat_app.Database.Sql.{
  Value, sql_null, string, int, double, date_time, cast, Row, Condition, Query, first, all,
  chats_like, chats_of_member, max_version, Command, insert_into, update, delete_from,
  create_schema_migrations, script, Engine,
}
use qt_chat_app.Database.Laws.{column}
use Prim.Native.String.{◌++◌ as str_append}

abbrev pub Tables : Type 0
Tables = List (QString × Row)

pub record Db : Type 0 where
  pub rows : Tables
  pub saved : Option Tables

-- a cast column is also read as its text
abbrev with_texts : Row → Row
with_texts [] = []
with_texts ((c, cast t s) ∷ row) = (str_append c "::text", string s) ∷ with_texts row
with_texts (entry ∷ row) = entry ∷ with_texts row

abbrev pub stored : QString → Row → Row
stored t row = if str_eq t "user_stats" then with_texts row else row

abbrev pub has_text : Option Value → QString → Bool
has_text (some (string s)) r = str_eq s r
has_text _ r = false

abbrev pub matches : Condition → Row → Bool
matches [] row = true
matches ((c, s) ∷ conditions) row = has_text (column c row) s && matches conditions row

abbrev pub is_selected : QString → Condition → QString × Row → Bool
is_selected t conditions (u, row) = str_eq u t && matches conditions row

unfoldable pub find_first : QString → Condition → Tables → Option Row
find_first t conditions [] = none
find_first t conditions (r ∷ rows) =
    if is_selected t conditions r then some r.1 else find_first t conditions rows

unfoldable pub find_all : QString → Condition → Tables → List Row
find_all t conditions [] = []
find_all t conditions (r ∷ rows) =
    let rest = find_all t conditions rows in if is_selected t conditions r then r.1 ∷ rest else rest

abbrev pub or_null : Option Value → Value
or_null (some v) = v
or_null none = sql_null

abbrev pub read_columns : List QString → Row → List Value
read_columns [] row = []
read_columns (c ∷ cs) row = or_null (column c row) ∷ read_columns cs row

abbrev pub read_one : List QString → Option Row → List (List Value)
read_one columns none = []
read_one columns (some row) = read_columns columns row ∷ []

abbrev pub read_every : List QString → List Row → List (List Value)
read_every columns [] = []
read_every columns (row ∷ rows) = read_columns columns row ∷ read_every columns rows

unfoldable pub update_rows : QString → Row → Condition → Tables → Tables
update_rows t sets conditions [] = []
update_rows t sets conditions (r ∷ rows) =
    let rest = update_rows t sets conditions rows in
    if is_selected t conditions r then (r.0, stored t sets ++ r.1) ∷ rest else r ∷ rest

unfoldable pub delete_rows : QString → Condition → Tables → ℕ × Tables
delete_rows t conditions [] = (0, [])
delete_rows t conditions (r ∷ rows) =
    let (n, rest) = delete_rows t conditions rows in
    if is_selected t conditions r then (n + 1, rest) else (n, r ∷ rest)

abbrev version_in : Option Value → ℕ
version_in (some (int (pos n))) = n
version_in _ = 0

unfoldable pub last_version : Tables → ℕ
last_version [] = 0
last_version ((t, row) ∷ rows) =
    let v = last_version rows in
    if str_eq t "schema_migrations" && ltb v (version_in (column "version" row))
    then version_in (column "version" row)
    else v

unfoldable pub run_query : Db → Query → Option (List (List Value))
unfolding find_first find_all last_version
run_query d (first columns t conditions) = some (read_one columns (find_first t conditions d.rows))
run_query d (all columns t conditions) = some (read_every columns (find_all t conditions d.rows))
run_query d (chats_like columns pattern) = none
run_query d (chats_of_member columns user) = some []
run_query d max_version = some ((int (pos (last_version d.rows)) ∷ []) ∷ [])

unfoldable pub run_command : Db → Command → Option ℕ × Db
unfolding update_rows delete_rows
run_command d (insert_into t row) = (some 1, record d { rows = (t, stored t row) ∷ d.rows })
run_command d (update t sets conditions) =
    (some 1, record d { rows = update_rows t sets conditions d.rows })
run_command d (delete_from t conditions) =
    let (n, rest) = delete_rows t conditions d.rows in (some n, record d { rows = rest })
run_command d create_schema_migrations = (some 0, d)
run_command d (script sql) = (some 0, d)

abbrev begin : Db → Bool × Db
begin d = elim d.saved [ none ↦ (true, record d { saved = some d.rows }) | some r ↦ (false, d) ]

abbrev end : Db → Bool × Db
end d = elim d.saved [ none ↦ (false, d) | some r ↦ (true, record d { saved = none }) ]

abbrev take_back : Db → Bool × Db
take_back d = elim d.saved [
  | none ↦ (false, d)
  | some r ↦ (true, record { rows = r; saved = none })
]

abbrev pub sample_engine : Engine Db
sample_engine = record {
  is_open = λ d. true;
  open_connection = λ d. (true, d);
  transaction = begin;
  commit = end;
  rollback = take_back;
  query = run_query;
  exec = run_command;
  to_string = λ v. elim v [ string s ↦ s | _ ↦ "" ];
  to_int = λ v. elim v [ int n ↦ n | _ ↦ pos 0 ];
  to_double = λ v. elim v [ double x ↦ x | _ ↦ 0 ];
  to_date_time = λ v. elim v [ date_time t ↦ t | _ ↦ 253402300800000 ];
  no_date = 253402300800000;
  is_valid_date = λ t. not (t == 253402300800000);
}
