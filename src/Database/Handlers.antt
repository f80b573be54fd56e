-- ===== src/Database/Handlers.antt =====
-- server/src/Database.h: the database as the handlers of the server use it, and a registration
-- with the login that follows it.
use qt_chat_app.Prelude.{◌≡◌, refl, ◌∙◌, true, false, none, some, str_eq}
use qt_chat_app.Prelude.{==_iff}
use qt_chat_app.Qt.{Qt, QtLaws, QUuid, IsUuid}
use qt_chat_app.Model.{User, new_user}
use qt_chat_app.Shared.Payload.Account.{RegisterInfo}
use qt_chat_app.Shared.Username.{is_valid_username}
use qt_chat_app.Server.Session.{
  ClientConnection, find_connection, authorize, is_logged_in_elsewhere,
}
use qt_chat_app.Server.Storage.{Storage}
use qt_chat_app.Server.Core.{Core}
use qt_chat_app.Server.Core.Kept.{db-send_success}
use qt_chat_app.Server.Auth.{register_with, login_with}
use qt_chat_app.Server.Sessions.Login.{login_with-fresh}
use qt_chat_app.Database.Sql.{Engine}
use qt_chat_app.Database.Users.{
  get_user_by_username, get_user_by_email, authenticate_user, create_user, get_user_by_id,
  get_profile_info_by_user_id, get_public_user_info_by_user_id, get_public_user_info_by_username,
}
use qt_chat_app.Database.Chats.{
  search_chats, create_chat, delete_chat, get_chats_by_user_id, get_user_ids_by_chat_id,
  create_chat_member,
}
use qt_chat_app.Database.Profile.{update_user_profile}
use qt_chat_app.Database.Laws.{EngineLaws}
use qt_chat_app.Database.Created.{create_user-get_user}

-- Database::instance()
unfoldable pub database_storage : {D : Type 0} → Qt → Engine D → Storage D
unfolding get_user_by_username get_user_by_email authenticate_user create_user get_user_by_id
    get_profile_info_by_user_id get_public_user_info_by_user_id get_public_user_info_by_username
    search_chats create_chat delete_chat get_chats_by_user_id get_user_ids_by_chat_id
    create_chat_member update_user_profile
database_storage qt engine = record {
  get_user_by_username = get_user_by_username qt engine;
  get_user_by_email = get_user_by_email qt engine;
  get_user_by_id = get_user_by_id qt engine;
  authenticate_user = authenticate_user qt engine;
  create_user = create_user qt engine;
  update_user_profile = update_user_profile qt engine;
  get_profile_info_by_user_id = get_profile_info_by_user_id qt engine;
  get_public_user_info_by_user_id = get_public_user_info_by_user_id qt engine;
  get_public_user_info_by_username = get_public_user_info_by_username qt engine;
  get_chats_by_user_id = get_chats_by_user_id qt engine;
  search_chats = search_chats qt engine;
  get_user_ids_by_chat_id = get_user_ids_by_chat_id qt engine;
  create_chat = create_chat qt engine;
  create_chat_member = create_chat_member qt engine;
  delete_chat = delete_chat qt engine;
}

module _ {D : Type 0} (qt : Qt) (engine : Engine D) where
  -- The user that a registration makes.
  abbrev pub registered : QUuid → RegisterInfo → User
  registered id info =
      new_user id (qt.trimmed info.username) (qt.trimmed info.display_name) info.password_hash
        (qt.trimmed info.email)

  -- The registration passes the checks of the server, and the database stores the user.
  abbrev pub IsAccepted : Core D → QUuid → RegisterInfo → Type 0
  IsAccepted w id info =
      (is_valid_username (qt.trimmed info.username) ≡ true)
      × (str_eq (qt.trimmed info.display_name) "" ≡ false)
      × (get_user_by_username qt engine w.db (qt.trimmed info.username) ≡ none)
      × ((create_user qt engine w.db (registered id info)).0 ≡ true)

  register_with-db :
      (w : Core D) (session id : QUuid) (info : RegisterInfo)
      → IsAccepted w id info
      → (register_with qt (database_storage qt engine) w session id (some info)).db
        ≡ (create_user qt engine w.db (registered id info)).1
  unfolding register_with database_storage
  register_with-db w session id info (valid, filled, unused, done) =
      rw (valid, filled, unused, done)
        (db-send_success qt (record w { db = (create_user qt engine w.db (registered id info)).1 })
          session "Registration successful")

module _ {D : Type 0} (qt : Qt) (qt_laws : QtLaws qt) (engine : Engine D)
    (laws : EngineLaws qt engine) where
  -- A registration that passes the server's checks and that Database::createUser stores lets its
  -- user log in with the trimmed username and the same hash, on any session of the table: the
  -- session is then authorized for the user. The new id has 128 bits, the user is not logged in
  -- on another session, and Qt's functions and the engine satisfy their laws.
  pub register_with-login_with :
      (w : Core D) (session id : QUuid) (info : RegisterInfo) (k : QUuid) (c : ClientConnection)
      → IsUuid id
      → IsAccepted qt engine w id info
      → let w' = register_with qt (database_storage qt engine) w session id (some info) in
        find_connection k w'.clients ≡ some c
        → is_logged_in_elsewhere c.session_id id w'.clients ≡ false
        → find_connection k
            (login_with qt (database_storage qt engine) w' k c (
              authenticate_user qt engine w'.db (record {
                login = qt.trimmed info.username;
                password_hash = info.password_hash;
              }))).clients
          ≡ some (authorize id c)
  unfolding new_user
  register_with-login_with w session id info k c small accepted connected elsewhere =
      let user = registered qt engine id info in
      let stored = register_with-db qt engine w session id info accepted in
      let (by_id, by_name, by_email, found) =
        create_user-get_user qt engine laws qt_laws w.db user small accepted.3 in
      let w' = register_with qt (database_storage qt engine) w session id (some info) in
      let e : authenticate_user qt engine w'.db
            (record { login = qt.trimmed info.username; password_hash = info.password_hash })
          ≡ some user =
        rw stored found in
      rw e (
        login_with-fresh qt (database_storage qt engine) w' k k c user connected elsewhere
        ∙ rw ((==_iff k k).1 refl) refl)
