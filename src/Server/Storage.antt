-- ===== src/Server/Storage.antt =====
-- server/src/Database.h: what the handlers of the server ask of the database. `D` is its state.
use qt_chat_app.Prelude.{Bool, Option, List}
use qt_chat_app.Qt.{QUuid, QString}
use qt_chat_app.Model.{User, Chat, ChatMember}
use qt_chat_app.Shared.Payload.Account.{LoginInfo}
use qt_chat_app.Shared.Payload.Profile.{ProfileInfo, PublicUserInfo, ProfileUpdateInfo}

pub record Storage (D : Type 0) : Type 0 where
  pub get_user_by_username : D → QString → Option User
  pub get_user_by_email : D → QString → Option User
  pub get_user_by_id : D → QUuid → Option User
  pub authenticate_user : D → LoginInfo → Option User
  pub create_user : D → User → Bool × D
  pub update_user_profile : D → QUuid → ProfileUpdateInfo → Option User × D
  pub get_profile_info_by_user_id : D → QUuid → Option ProfileInfo
  pub get_public_user_info_by_user_id : D → QUuid → Option PublicUserInfo
  pub get_public_user_info_by_username : D → QString → Option PublicUserInfo
  pub get_chats_by_user_id : D → QUuid → List Chat
  pub search_chats : D → QString → List Chat
  pub get_user_ids_by_chat_id : D → QUuid → List QUuid
  pub create_chat : D → Chat → Bool × D
  pub create_chat_member : D → ChatMember → Bool × D
  pub delete_chat : D → QUuid → Bool × D
