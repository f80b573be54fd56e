-- ===== src/Database/Messages.antt =====
-- server/src/Database.cpp: the messages.
use qt_chat_app.Prelude.{ℕ, Bool, false, List, [], ◌∷◌, Option, none, if◌then◌else◌}
use qt_chat_app.Qt.{Qt, QUuid, QString, null_uuid, is_null}
use qt_chat_app.Model.{DbMessage}
use qt_chat_app.Database.Sql.{
  Value, string, sql_null, date_time, Row, first, all, insert_into, delete_from, Engine, value_of,
  is_sql_null, first_row, all_rows, when_open, run_insert, run_delete,
}

abbrev pub message_columns : List QString
message_columns =
    "id" ∷ "to_id" ∷ "from_id" ∷ "content_id" ∷ "chat_id" ∷ "created_at" ∷ "updated_at" ∷ []

module _ {D : Type 0} (qt : Qt) (engine : Engine D) where
  -- the null UUID is written as NULL
  abbrev nullable_id : QUuid → Value
  nullable_id u = if is_null u then sql_null else string (qt.uuid_to_string u)

  -- an invalid QDateTime is written as NULL
  abbrev nullable_date : ℕ → Value
  nullable_date t = if engine.is_valid_date t then date_time t else sql_null

  -- INSERT INTO messages (…) VALUES (…)
  unfoldable pub message_row : DbMessage → Row
  message_row m =
      ("id", string (qt.uuid_to_string m.id))
      ∷ ("to_id", nullable_id m.to_id)
      ∷ ("from_id", nullable_id m.from_id)
      ∷ ("content_id", string (qt.uuid_to_string m.content_id))
      ∷ ("chat_id", string (qt.uuid_to_string m.chat_id))
      ∷ ("created_at", nullable_date m.created_at)
      ∷ ("updated_at", nullable_date m.updated_at)
      ∷ []

  abbrev id_or_null : Value → QUuid
  id_or_null v = if is_sql_null v then null_uuid else qt.uuid_of_string (engine.to_string v)

  -- a model::DbMessage of a row
  unfoldable pub message_of_row : List Value → DbMessage
  unfolding value_of is_sql_null
  message_of_row row = record {
    id = qt.uuid_of_string (engine.to_string (value_of 0 row));
    to_id = id_or_null (value_of 1 row);
    from_id = id_or_null (value_of 2 row);
    content_id = qt.uuid_of_string (engine.to_string (value_of 3 row));
    chat_id = qt.uuid_of_string (engine.to_string (value_of 4 row));
    created_at = engine.to_date_time (value_of 5 row);
    updated_at =
        if is_sql_null (value_of 6 row)
        then engine.no_date
        else engine.to_date_time (value_of 6 row);
  }

  -- Database::createMessage
  unfoldable pub create_message : D → DbMessage → Bool × D
  unfolding run_insert message_row
  create_message d m =
      when_open engine d (false, d) (run_insert engine d (insert_into "messages" (message_row m)))

  -- Database::deleteMessage
  unfoldable pub delete_message : D → QUuid → Bool × D
  unfolding run_delete
  delete_message d id =
      when_open engine d (false, d)
        (run_delete engine d (delete_from "messages" (("id", qt.uuid_to_string id) ∷ [])))

  -- Database::getMessageById
  unfoldable pub get_message_by_id : D → QUuid → Option DbMessage
  unfolding first_row
  get_message_by_id d id = when_open engine d none (
      first_row message_of_row
        (engine.query d (first message_columns "messages" (("id", qt.uuid_to_string id) ∷ []))))

  -- Database::getAllMessages
  unfoldable pub get_all_messages : D → List DbMessage
  unfolding all_rows
  get_all_messages d =
      when_open engine d []
        (all_rows message_of_row (engine.query d (all message_columns "messages" [])))
