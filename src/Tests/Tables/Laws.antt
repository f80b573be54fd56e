-- ===== src/Tests/Tables/Laws.antt =====
-- The small database satisfies the laws of the engine.
use qt_chat_app.Prelude.{
  suc, ◌≡◌, refl, ap, ◌∙◌, true, false, List, [], ◌∷◌, ◌++◌, Option, none, some, inl, inr,
  Bool-cases, Option-cases, length, if◌then◌else◌, str_eq, eq_refl, eq_iff, arith,
}
use qt_chat_app.Qt.{QString}
use qt_chat_app.Database.Sql.{
  Value, Row, Condition, Command, insert_into, update, delete_from, create_schema_migrations,
  script,
}
use qt_chat_app.Database.Laws.{column, project, assign, Matches, exec_all}
use qt_chat_app.Tests.Tables.{
  Tables, Db, stored, matches, is_selected, find_first, update_rows, or_null, read_columns,
  run_command, sample_engine,
}

exec_saved : (d : Db) (c : Command) → (run_command d c).1.saved ≡ d.saved
unfolding run_command
exec_saved d (insert_into t row) = refl
exec_saved d (update t sets conditions) = refl
exec_saved d (delete_from t conditions) = refl
exec_saved d create_schema_migrations = refl
exec_saved d (script sql) = refl

exec_all_saved : (d : Db) (cs : List Command) → (exec_all sample_engine cs d).saved ≡ d.saved
exec_all_saved d [] = refl
exec_all_saved d (c ∷ cs) = exec_all_saved (run_command d c).1 cs ∙ exec_saved d c

pub undoes :
    (d : Db) (cs : List Command)
    → (sample_engine.transaction d).0 ≡ true
    → (sample_engine.rollback (exec_all sample_engine cs (sample_engine.transaction d).1)).1 ≡ d
undoes d cs h = elim (Option-cases d.saved) [
  | inr (r, e) ↦ absurd (ground arith)
  | inl e ↦
      let e₂ : (exec_all sample_engine cs (record d { saved = some d.rows })).saved ≡ some d.rows =
        exec_all_saved (record d { saved = some d.rows }) cs in
      ground arith
]

pub matches-Matches :
    (conditions : Condition) (row : Row) → Matches conditions row → matches conditions row ≡ true
matches-Matches [] row m = refl
matches-Matches ((c, s) ∷ conditions) row (m, ms) =
    rw (m, eq_refl s) (matches-Matches conditions row ms)

pub read_columns-project :
    (columns : List QString) (row : Row) (vs : List Value)
    → project columns row ≡ some vs
    → read_columns columns row ≡ vs
read_columns-project [] row [] h = refl
read_columns-project [] row (v ∷ vs) h = cc
read_columns-project (c ∷ cs) row vs h = elim (Option-cases (column c row)) [
  | inl missing ↦ absurd (ground arith)
  | inr (w, e) ↦ elim (Option-cases (project cs row)) [
    | inl missing ↦ absurd (ground arith)
    | inr (ws, f) ↦ let g : w ∷ ws ≡ vs = ground arith in rw (e, read_columns-project cs row ws f) g
  ]
]

pub length-read_columns :
    (columns : List QString) (row : Row) → length (read_columns columns row) ≡ length columns
length-read_columns [] row = refl
length-read_columns (c ∷ cs) row = ap suc (length-read_columns cs row)

column-append :
    (c : QString) (sets row : Row)
    → or_null (column c (sets ++ row))
      ≡ elim (column c sets) [ some w ↦ w | none ↦ or_null (column c row) ]
column-append c [] row = refl
column-append c ((k, v) ∷ sets) row = elim (Bool-cases (str_eq k c)) [
  | inl same ↦ rw same refl
  | inr other ↦ rw other (column-append c sets row)
]

column-append-none :
    (c : QString) (sets row : Row) → column c sets ≡ none → column c (sets ++ row) ≡ column c row
column-append-none c [] row h = refl
column-append-none c ((k, v) ∷ sets) row h = elim (Bool-cases (str_eq k c)) [
  | inl same ↦ absurd (ground arith)
  | inr other ↦ rw other (column-append-none c sets row (rw other at h))
]

pub read_columns-append :
    (columns : List QString) (sets row : Row)
    → read_columns columns (sets ++ row) ≡ assign columns sets (read_columns columns row)
read_columns-append [] sets row = refl
read_columns-append (c ∷ cs) sets row = elim (Option-cases (column c sets)) [
  | inl kept ↦ rw (kept, column-append-none c sets row kept, read_columns-append cs sets row) refl
  | inr (w, set) ↦ rw (column-append c sets row, set, read_columns-append cs sets row) refl
]

-- An UPDATE of the row under a key: the first row under the key is the one with the new values.
pub find_first-update_rows :
    (t c s : QString) (sets row : Row) (rows : Tables)
    → column c (stored t sets) ≡ none
    → find_first t ((c, s) ∷ []) rows ≡ some row
    → find_first t ((c, s) ∷ []) (update_rows t sets ((c, s) ∷ []) rows)
      ≡ some (stored t sets ++ row)
unfolding find_first update_rows
find_first-update_rows t c s sets row [] fixed found = cc
find_first-update_rows t c s sets row (r ∷ rows) fixed found =
    elim (Bool-cases (is_selected t ((c, s) ∷ []) r)) [
      | inl selected ↦
          let same : r.1 ≡ row = ground arith in
          let still : is_selected t ((c, s) ∷ []) (r.0, stored t sets ++ r.1) ≡ true =
            rw (column-append-none c (stored t sets) r.1 fixed) selected in
          rw (selected, still, same) refl
      | inr other ↦
          rw (other, other) (find_first-update_rows t c s sets row rows fixed (rw other at found))
    ]

-- An UPDATE of another table.
pub find_first-other :
    (t u : QString) (conditions other_conditions : Condition) (sets : Row) (rows : Tables)
    → str_eq u t ≡ false
    → find_first t conditions (update_rows u sets other_conditions rows)
      ≡ find_first t conditions rows
unfolding find_first update_rows
find_first-other t u conditions other_conditions sets [] h = refl
find_first-other t u conditions other_conditions sets ((v, row) ∷ rows) h =
    elim (Bool-cases (is_selected u other_conditions (v, row))) [
      | inl selected ↦
          let same : v ≡ u = (eq_iff v u).0 (ground arith) in
          let here_not : str_eq v t ≡ false = rw same h in
          rw (selected, here_not) (find_first-other t u conditions other_conditions sets rows h)
      | inr other ↦ rw other (
          ap (λ (o : Option Row). if is_selected t conditions (v, row) then some row else o)
            (find_first-other t u conditions other_conditions sets rows h))
    ]
