-- ===== src/Model.antt =====
-- server/src/model: the entities of the database.
use qt_chat_app.Prelude.{ℕ, List, if◌then◌else◌, str_eq}
use qt_chat_app.Qt.{QUuid, QString}
use qt_chat_app.Qt.JsonValue.{ℤ}

pub record User : Type 0 where
  pub id : QUuid
  pub username : QString
  pub display_name : QString
  pub password_hash : QString
  pub email : QString

-- User(username, displayName, passwordHash, email), with the UUID that QUuid::createUuid made
unfoldable pub new_user : QUuid → QString → QString → QString → QString → User
new_user id username display_name password_hash email = record {
  id = id;
  username = username;
  display_name = display_name;
  password_hash = password_hash;
  email = email;
}

pub data ChatType : Type 0 where
  direct group : ChatType

-- A QDateTime is a number of milliseconds.
pub record Chat : Type 0 where
  pub id : QUuid
  pub type : ChatType
  pub created_by : QUuid
  pub created_at : ℕ

-- Chat(type, createdBy), with the UUID and the time that Qt gave
unfoldable pub new_chat : QUuid → ℕ → ChatType → QUuid → Chat
new_chat id now type created_by = record {
  id = id;
  type = type;
  created_by = created_by;
  created_at = now;
}

-- chatTypeToString
unfoldable pub chat_type_to_string : ChatType → QString
chat_type_to_string direct = "direct"
chat_type_to_string group = "group"

-- chatTypeFromString
unfoldable pub chat_type_from_string : QString → ChatType
chat_type_from_string s = if str_eq s "group" then group else direct

pub record ChatMember : Type 0 where
  pub chat_id : QUuid
  pub user_id : QUuid

-- A double is the number that its 64 bits stand for.
pub record Content : Type 0 where
  pub id : QUuid
  pub content : QString
  pub file : QString
  pub file_size : ℕ

-- Content(content, file, fileSize), with the UUID that QUuid::createUuid made
unfoldable pub new_content : QUuid → QString → QString → ℕ → Content
new_content id content file file_size = record {
  id = id;
  content = content;
  file = file;
  file_size = file_size;
}

pub record DbMessage : Type 0 where
  pub id : QUuid
  pub to_id : QUuid
  pub from_id : QUuid
  pub content_id : QUuid
  pub chat_id : QUuid
  pub created_at : ℕ
  pub updated_at : ℕ

-- DbMessage(toId, fromId, contentId, chatId), with the UUID and the time that Qt gave, and the
-- QDateTime() that the field updatedAt starts with
unfoldable pub new_db_message : QUuid → ℕ → ℕ → QUuid → QUuid → QUuid → QUuid → DbMessage
new_db_message id now no_date to_id from_id content_id chat_id = record {
  id = id;
  to_id = to_id;
  from_id = from_id;
  content_id = content_id;
  chat_id = chat_id;
  created_at = now;
  updated_at = no_date;
}

pub record UserStats : Type 0 where
  pub user_id : QUuid
  pub messages_sent : ℤ
  pub chats_joined : ℤ
  pub ex_usernames : List QString
