-- ===== src/Database/Chats.antt =====
-- server/src/Database.cpp: the chats and their members.
use qt_chat_app.Prelude.{Bool, false, List, [], ◌∷◌, Option, none, if◌then◌else◌, str_eq}
use qt_chat_app.Qt.{Qt, QUuid, QString}
use qt_chat_app.Model.{Chat, ChatMember, chat_type_to_string, chat_type_from_string}
use qt_chat_app.Database.Sql.{
  Value, string, date_time, cast, Row, first, all, chats_like, chats_of_member, insert_into,
  delete_from, Engine, value_of, first_row, all_rows, when_open, run_insert, run_delete,
}
use Prim.Native.String.{◌++◌ as str_append}

abbrev pub chat_columns : List QString
chat_columns = "id" ∷ "type" ∷ "created_by" ∷ "created_at" ∷ []

abbrev pub member_columns : List QString
member_columns = "chat_id" ∷ "user_id" ∷ []

-- INSERT INTO chats (…) VALUES (…), with the cast of the type
unfoldable pub chat_row : Qt → Chat → Row
unfolding chat_type_to_string
chat_row qt c =
    ("id", string (qt.uuid_to_string c.id))
    ∷ ("type", cast "chat_type" (chat_type_to_string c.type))
    ∷ ("created_by", string (qt.uuid_to_string c.created_by))
    ∷ ("created_at", date_time c.created_at)
    ∷ []

-- INSERT INTO chat_members (…) VALUES (…)
abbrev pub member_row : Qt → ChatMember → Row
member_row qt m =
    ("chat_id", string (qt.uuid_to_string m.chat_id))
    ∷ ("user_id", string (qt.uuid_to_string m.user_id))
    ∷ []

module _ {D : Type 0} (qt : Qt) (engine : Engine D) where
  -- a model::Chat of a row
  unfoldable pub chat_of_row : List Value → Chat
  unfolding value_of chat_type_from_string
  chat_of_row row = record {
    id = qt.uuid_of_string (engine.to_string (value_of 0 row));
    type = chat_type_from_string (engine.to_string (value_of 1 row));
    created_by = qt.uuid_of_string (engine.to_string (value_of 2 row));
    created_at = engine.to_date_time (value_of 3 row);
  }

  -- a model::ChatMember of a row
  unfoldable pub member_of_row : List Value → ChatMember
  unfolding value_of
  member_of_row row = record {
    chat_id = qt.uuid_of_string (engine.to_string (value_of 0 row));
    user_id = qt.uuid_of_string (engine.to_string (value_of 1 row));
  }

  -- Database::searchChats
  unfoldable pub search_chats : D → QString → List Chat
  unfolding all_rows
  search_chats d query_text =
      if str_eq (qt.trimmed query_text) ""
      then []
      else when_open engine d [] (
          all_rows chat_of_row
            (engine.query d (chats_like chat_columns (str_append "%" (str_append query_text "%")))))

  -- Database::createChat
  unfoldable pub create_chat : D → Chat → Bool × D
  unfolding run_insert chat_row
  create_chat d c =
      when_open engine d (false, d) (run_insert engine d (insert_into "chats" (chat_row qt c)))

  -- Database::deleteChat
  unfoldable pub delete_chat : D → QUuid → Bool × D
  unfolding run_delete
  delete_chat d id =
      when_open engine d (false, d)
        (run_delete engine d (delete_from "chats" (("id", qt.uuid_to_string id) ∷ [])))

  -- Database::getChatById
  unfoldable pub get_chat_by_id : D → QUuid → Option Chat
  unfolding first_row
  get_chat_by_id d id = when_open engine d none (
      first_row chat_of_row
        (engine.query d (first chat_columns "chats" (("id", qt.uuid_to_string id) ∷ []))))

  -- Database::getChatsByUserId
  unfoldable pub get_chats_by_user_id : D → QUuid → List Chat
  unfolding all_rows
  get_chats_by_user_id d user_id = when_open engine d [] (
      all_rows chat_of_row
        (engine.query d (chats_of_member chat_columns (qt.uuid_to_string user_id))))

  abbrev member_condition : QUuid → QUuid → List (QString × QString)
  member_condition chat_id user_id =
      ("chat_id", qt.uuid_to_string chat_id) ∷ ("user_id", qt.uuid_to_string user_id) ∷ []

  -- QUuid(query.value(0).toString())
  unfoldable pub id_of_row : List Value → QUuid
  unfolding value_of
  id_of_row row = qt.uuid_of_string (engine.to_string (value_of 0 row))

  -- Database::getUserIdsByChatId
  unfoldable pub get_user_ids_by_chat_id : D → QUuid → List QUuid
  unfolding all_rows
  get_user_ids_by_chat_id d chat_id = when_open engine d [] (
      all_rows id_of_row (
        engine.query d
          (all ("user_id" ∷ []) "chat_members" (("chat_id", qt.uuid_to_string chat_id) ∷ []))))

  -- Database::createChatMember
  unfoldable pub create_chat_member : D → ChatMember → Bool × D
  unfolding run_insert
  create_chat_member d m =
      when_open engine d (false, d)
        (run_insert engine d (insert_into "chat_members" (member_row qt m)))

  -- Database::deleteChatMember
  unfoldable pub delete_chat_member : D → QUuid → QUuid → Bool × D
  unfolding run_delete
  delete_chat_member d chat_id user_id =
      when_open engine d (false, d)
        (run_delete engine d (delete_from "chat_members" (member_condition chat_id user_id)))

  -- Database::getChatMember
  unfoldable pub get_chat_member : D → QUuid → QUuid → Option ChatMember
  unfolding first_row
  get_chat_member d chat_id user_id = when_open engine d none (
      first_row member_of_row
        (engine.query d (first member_columns "chat_members" (member_condition chat_id user_id))))

  -- Database::getAllChatMembers
  unfoldable pub get_all_chat_members : D → List ChatMember
  unfolding all_rows
  get_all_chat_members d =
      when_open engine d []
        (all_rows member_of_row (engine.query d (all member_columns "chat_members" [])))
