-- ===== src/Database/Stats.antt =====
-- server/src/Database.cpp: the statistics of the users.
use qt_chat_app.Prelude.{Bool, false, List, [], ◌∷◌, Option, none, if◌then◌else◌}
use qt_chat_app.Qt.{Qt, QUuid, QString}
use qt_chat_app.Model.{UserStats}
use qt_chat_app.Database.Sql.{
  Value, string, int, cast, Row, first, all, insert_into, delete_from, Engine, value_of,
  is_sql_null, first_row, all_rows, when_open, run_insert, run_delete,
}
use qt_chat_app.Database.Usernames.{usernames_to_json, json_to_usernames}

abbrev pub stats_columns : List QString
stats_columns = "user_id" ∷ "messages_sent" ∷ "chats_joined" ∷ "ex_usernames::text" ∷ []

-- INSERT INTO user_stats (…) VALUES (…), with the cast of the usernames
unfoldable pub stats_row : Qt → UserStats → Row
unfolding usernames_to_json
stats_row qt s =
    ("user_id", string (qt.uuid_to_string s.user_id))
    ∷ ("messages_sent", int s.messages_sent)
    ∷ ("chats_joined", int s.chats_joined)
    ∷ ("ex_usernames", cast "jsonb" (usernames_to_json qt s.ex_usernames))
    ∷ []

module _ {D : Type 0} (qt : Qt) (engine : Engine D) where
  -- a model::UserStats of a row
  unfoldable pub stats_of_row : List Value → UserStats
  unfolding value_of is_sql_null json_to_usernames
  stats_of_row row = record {
    user_id = qt.uuid_of_string (engine.to_string (value_of 0 row));
    messages_sent = engine.to_int (value_of 1 row);
    chats_joined = engine.to_int (value_of 2 row);
    ex_usernames =
        if is_sql_null (value_of 3 row)
        then []
        else json_to_usernames qt (engine.to_string (value_of 3 row));
  }

  -- Database::createUserStats
  unfoldable pub create_user_stats : D → UserStats → Bool × D
  unfolding run_insert stats_row
  create_user_stats d s =
      when_open engine d (false, d)
        (run_insert engine d (insert_into "user_stats" (stats_row qt s)))

  -- Database::deleteUserStats
  unfoldable pub delete_user_stats : D → QUuid → Bool × D
  unfolding run_delete
  delete_user_stats d user_id =
      when_open engine d (false, d)
        (run_delete engine d
          (delete_from "user_stats" (("user_id", qt.uuid_to_string user_id) ∷ [])))

  -- Database::getUserStatsById
  unfoldable pub get_user_stats_by_id : D → QUuid → Option UserStats
  unfolding first_row
  get_user_stats_by_id d user_id = when_open engine d none (
      first_row stats_of_row (
        engine.query d
          (first stats_columns "user_stats" (("user_id", qt.uuid_to_string user_id) ∷ []))))

  -- Database::getAllUserStats
  unfoldable pub get_all_user_stats : D → List UserStats
  unfolding all_rows
  get_all_user_stats d =
      when_open engine d []
        (all_rows stats_of_row (engine.query d (all stats_columns "user_stats" [])))
