-- ===== src/Tests/Tables/Filled.antt =====
-- The records of laws, filled for the small database.
use qt_chat_app.Prelude.{
  ℕ, ◌≡◌, refl, ap, false, List, [], ◌∷◌, Option, none, some, inl, inr, Option-cases, length,
  str_eq, eq_refl, arith,
}
use qt_chat_app.Qt.{QUuid, QString}
use qt_chat_app.Qt.JsonValue.{pos}
use qt_chat_app.Database.Sql.{
  Value, sql_null, string, int, cast, Row, Condition, Query, first, all, is_sql_null, chats_like,
  chats_of_member, max_version, Command, insert_into, update, script,
}
use qt_chat_app.Database.Laws.{column, project, assign, Matches, IsPlain, IsOnStats, EngineLaws}
use qt_chat_app.Database.Profile.Remembered.{WritesHistory, ReadsHistory, HistoryLaws}
use qt_chat_app.Database.Migrations.{version_of_rows}
use qt_chat_app.Database.Migrations.Laws.{IsVersion, CreateLaws, MigrationLaws}
use qt_chat_app.Tests.SampleQt.{sample_qt}
use qt_chat_app.Tests.Tables.{
  Tables, Db, stored, or_null, find_first, find_all, read_every, last_version, read_columns,
  read_one, run_query, run_command, sample_engine,
}
use qt_chat_app.Tests.Tables.Laws.{
  undoes, matches-Matches, read_columns-project, length-read_columns, read_columns-append,
  find_first-update_rows, find_first-other,
}

stored-IsPlain : (t : QString) (row : Row) → IsPlain t → stored t row ≡ row
stored-IsPlain t row (inl e) = rw e refl
stored-IsPlain t row (inr e) = rw e refl

one_row :
    (d : Db) (columns : List QString) (t : QString) (conditions : Condition) (vs : List Value)
    → (rest : List (List Value)) → run_query d (first columns t conditions) ≡ some (vs ∷ rest)
    → (rest ≡ []) × (length vs ≡ length columns)
unfolding run_query
one_row d columns t conditions vs rest e = elim (Option-cases (find_first t conditions d.rows)) [
  | inl missing ↦ absurd (ground arith)
  | inr (row, found) ↦
      let f : read_columns columns row ≡ vs = ground arith in
      (ground arith, rw (← f) (length-read_columns columns row))
]

inserted_row :
    (d : Db) (t : QString) (row : Row) (conditions : Condition) (columns : List QString)
    → (vs : List Value) → IsPlain t
    → Matches conditions row
    → project columns row ≡ some vs
    → run_query (run_command d (insert_into t row)).1 (first columns t conditions) ≡ some (vs ∷ [])
unfolding run_query run_command find_first
inserted_row d t row conditions columns vs plain m p =
    rw (stored-IsPlain t row plain, eq_refl t, matches-Matches conditions row m)
      (ap (λ ws. some (ws ∷ [])) (read_columns-project columns row vs p))

updated_row :
    (d : Db) (t : QString) (sets : Row) (s : QString) (columns : List QString) (vs : List Value)
    → IsPlain t
    → column "id" sets ≡ none
    → run_query d (first columns t (("id", s) ∷ [])) ≡ some (vs ∷ [])
    → run_query
        (run_command d (update t sets (("id", s) ∷ []))).1
        (first columns t (("id", s) ∷ []))
      ≡ some (assign columns sets vs ∷ [])
unfolding run_query run_command
updated_row d t sets s columns vs plain fixed read =
    elim (Option-cases (find_first t (("id", s) ∷ []) d.rows)) [
      | inl missing ↦ absurd (ground arith)
      | inr (row, found) ↦
          let f : read_columns columns row ≡ vs = ground arith in
          let now =
            find_first-update_rows t "id" s sets row d.rows (rw (stored-IsPlain t sets plain) fixed)
              found in
          rw (now, stored-IsPlain t sets plain, read_columns-append columns sets row, f) refl
    ]

users_kept :
    (d : Db) (c : Command) (columns : List QString) (conditions : Condition)
    → IsOnStats c
    → run_query (run_command d c).1 (first columns "users" conditions)
      ≡ run_query d (first columns "users" conditions)
unfolding run_query run_command find_first
users_kept d (insert_into t row) columns conditions e = rw e refl
users_kept d (update t sets other) columns conditions e =
    ap (λ o. some (read_one columns o))
      (find_first-other "users" t conditions other sets d.rows (rw e refl))
users_kept d _ columns conditions e = absurd e

run_query-rows : (d e : Db) (q : Query) → d.rows ≡ e.rows → run_query d q ≡ run_query e q
unfolding run_query
run_query-rows d e (first columns t conditions) h =
    ap (λ (r : Tables). some (read_one columns (find_first t conditions r))) h
run_query-rows d e (all columns t conditions) h =
    ap (λ (r : Tables). some (read_every columns (find_all t conditions r))) h
run_query-rows d e (chats_like columns pattern) h = refl
run_query-rows d e (chats_of_member columns user) h = refl
run_query-rows d e max_version h =
    ap (λ (r : Tables). some ((int (pos (last_version r)) ∷ []) ∷ [])) h

begin_rows : (d : Db) → (sample_engine.transaction d).1.rows ≡ d.rows
begin_rows d = ground arith

end_rows : (d : Db) → (sample_engine.commit d).1.rows ≡ d.rows
end_rows d = ground arith

pub sample_engine_laws : EngineLaws sample_qt sample_engine
unfolding run_query run_command
sample_engine_laws = record {
  to_string_string = λ s. refl;
  to_double_double = λ x. refl;
  rollback_undoes = λ d cs rows h. undoes d cs h;
  transaction_fails = λ d h. ground arith;
  first_row_only = one_row;
  transaction_keeps = λ d q h. run_query-rows (sample_engine.transaction d).1 d q (begin_rows d);
  commit_keeps = λ d q h. run_query-rows (sample_engine.commit d).1 d q (end_rows d);
  commit_open = λ d h. refl;
  exec_open = λ d c o h. refl;
  insert_read = λ d t row id conditions columns vs plain e k m p h.
      inserted_row d t row conditions columns vs plain m p;
  update_read = λ d t sets id columns vs plain fixed read h.
      updated_row d t sets _ columns vs plain fixed read;
  stats_keep_users = λ d c columns conditions e h. users_kept d c columns conditions e;
}

version_recorded : (d : Db) (v : ℕ) → IsVersion sample_engine d v → last_version d.rows ≡ v
unfolding run_query version_of_rows
version_recorded d v (rows, read, current) =
    let e : (int (pos (last_version d.rows)) ∷ []) ∷ [] ≡ rows = ground arith in
    let f : pos (last_version d.rows) ≡ pos v = rw (← e) at current in ground arith

pub sample-CreateLaws : CreateLaws sample_engine
unfolding run_command
sample-CreateLaws = record { create_keeps = λ d v current. (refl, current) }

-- No transaction is in progress.
abbrev pub IsUnsaved : Db → Type 0
IsUnsaved d = d.saved ≡ none

-- A script changes nothing in the small database.
pub sample-MigrationLaws :
    (read_file : QString → Option QString) → MigrationLaws sample_engine IsUnsaved read_file
unfolding run_query run_command last_version version_of_rows
sample-MigrationLaws read_file = record {
  insert_version = λ d v w l current h. (_, refl, ground (arith, version_recorded d v current));
  script_keeps = λ file sql d text h. refl;
  script_undone = λ file sql d text idle cs rows h. undoes d (script sql ∷ cs) h;
  commit_idle = λ d h. ground arith;
  create_idle = λ d idle. idle;
}

history_reads :
    (d : Db) (id : QUuid) (json : QString) (c : Command)
    → str_eq json "" ≡ false
    → WritesHistory sample_qt sample_engine d id json c
    → ReadsHistory sample_qt sample_engine (run_command d c).1 id json
unfolding run_query run_command find_first is_sql_null
history_reads d id json c filled (inl e) = rw e (
  string (sample_qt.uuid_to_string id),
  sql_null,
  sql_null,
  string json,
  rw (eq_refl (sample_qt.uuid_to_string id)) refl,
  refl,
  filled,
  refl,
)
history_reads d id json c filled (inr (e, (r, rs, read))) =
    let key = sample_qt.uuid_to_string id in
    elim (Option-cases (find_first "user_stats" (("user_id", key) ∷ []) d.rows)) [
      | inl missing ↦ absurd (ground arith)
      | inr (row, found) ↦
          let now =
            find_first-update_rows "user_stats" "user_id" key
              (("ex_usernames", cast "jsonb" json) ∷ []) row d.rows refl found in
          rw e (
            or_null (column "user_id" row),
            or_null (column "messages_sent" row),
            or_null (column "chats_joined" row),
            string json,
            rw now refl,
            refl,
            filled,
            refl,
          )
    ]

pub sample_history_laws : HistoryLaws sample_qt sample_engine
sample_history_laws = record {
  history_read = λ d id json c filled writes done. history_reads d id json c filled writes;
}
