-- ===== src/Server/Auth.antt =====
-- server/src/Server.cpp: handleConnectClient, handleRegisterUser, handleLoginUser, handleLogoutUser.
use qt_chat_app.Prelude.{
  Bool, not, ◌||◌, Option, none, some, ◌==◌, if◌then◌else◌, has_value, str_eq,
}
use qt_chat_app.Qt.{Qt, QUuid, QByteArray}
use qt_chat_app.Model.{User, new_user}
use qt_chat_app.Shared.Packet.{
  Packet, is_type, connect_client, register_user, login_user, logout_user,
}
use qt_chat_app.Shared.Payload.Account.{
  LoginInfo, RegisterInfo, deserialize_login, deserialize_register,
}
use qt_chat_app.Shared.Username.{is_valid_username}
use qt_chat_app.Server.Session.{
  Socket, null_socket, ClientConnection, new_connection, authorize, logout, matches_socket,
  find_connection, contains_session, insert_connection, modify_connection, is_logged_in_elsewhere,
}
use qt_chat_app.Server.Storage.{Storage}
use qt_chat_app.Server.Core.{Core, send_error, send_success}

-- `if (!socket) return; if (packet.type() != …) return;`
abbrev pub is_ignored : Socket → Bool → Bool
is_ignored socket expected = socket == null_socket || not expected

module _ (qt : Qt) {D : Type 0} where
  -- Server::handleConnectClient
  unfoldable pub handle_connect_client : Core D → Socket → Packet → Core D
  unfolding contains_session is_type
  handle_connect_client w socket packet =
      if is_ignored socket (is_type connect_client packet)
      then w
      else if contains_session packet.sender w.clients
      then w
      else send_success qt
          (record w {
            clients =
                insert_connection packet.sender (new_connection packet.sender socket) w.clients;
          })
          packet.sender "Connected"

  abbrev logout_of : Core D → Socket → Packet → Option ClientConnection → Core D
  logout_of w socket packet none = w
  logout_of w socket packet (some c) =
      if not (matches_socket socket c)
      then w
      else if not c.is_authorized
      then send_error qt w c.session_id "Not authorized"
      else send_success qt (record w { clients = modify_connection packet.sender logout w.clients })
          c.session_id "Logout successful"

  -- Server::handleLogoutUser
  unfoldable pub handle_logout_user : Core D → Socket → Packet → Core D
  unfolding matches_socket is_type
  handle_logout_user w socket packet =
      if is_ignored socket (is_type logout_user packet)
      then w
      else logout_of w socket packet (find_connection packet.sender w.clients)

module _ (qt : Qt) {D : Type 0} (storage : Storage D) where
  abbrev created : Core D → QUuid → Bool × D → Core D
  created w session (done, db) =
      let w' = record w { db = db } in
      if done
      then send_success qt w' session "Registration successful"
      else send_error qt w' session "Registration failed"

  -- Behind the payload, with trimmed fields; `fresh` is the UUID that model::User makes.
  unfoldable pub register_with : Core D → QUuid → QUuid → Option RegisterInfo → Core D
  unfolding new_user
  register_with w session fresh none = send_error qt w session "Invalid register payload"
  register_with w session fresh (some info) =
      let username = qt.trimmed info.username in
      let display_name = qt.trimmed info.display_name in
      let email = qt.trimmed info.email in
      if not (is_valid_username username)
      then send_error qt w session
          "Username must be 2-20 characters and contain only lowercase latin letters, numbers, and underscores"
      else if str_eq display_name ""
      then send_error qt w session "Display name must not be empty"
      else if has_value (storage.get_user_by_username w.db username)
      then send_error qt w session "Username already exists"
      else created w session
          (storage.create_user w.db (new_user fresh username display_name info.password_hash email))

  abbrev register_of :
      Core D → Socket → QUuid → Option QByteArray → Option ClientConnection → Core D
  register_of w socket fresh payload none = w
  register_of w socket fresh none (some c) = w
  register_of w socket fresh (some bytes) (some c) =
      if not (matches_socket socket c)
      then w
      else register_with w c.session_id fresh (deserialize_register qt bytes)

  -- Server::handleRegisterUser
  unfoldable pub handle_register_user : Core D → Socket → QUuid → Packet → Core D
  unfolding register_with matches_socket is_type
  handle_register_user w socket fresh packet =
      if is_ignored socket (is_type register_user packet)
      then w
      else register_of w socket fresh packet.payload (find_connection packet.sender w.clients)

  -- Behind the authentication, for the user that the database found.
  unfoldable pub login_with : Core D → QUuid → ClientConnection → Option User → Core D
  login_with w key c none = send_error qt w c.session_id "Invalid login or password"
  login_with w key c (some user) =
      if is_logged_in_elsewhere c.session_id user.id w.clients
      then send_error qt w c.session_id "User is already logged in from another device"
      else send_success qt
          (record w { clients = modify_connection key (authorize user.id) w.clients }) c.session_id
          "Login successful"

  abbrev authenticate : Core D → QUuid → ClientConnection → Option LoginInfo → Core D
  authenticate w key c none = send_error qt w c.session_id "Invalid login payload"
  authenticate w key c (some info) = login_with w key c (storage.authenticate_user w.db info)

  abbrev login_of : Core D → Socket → QUuid → Option QByteArray → Option ClientConnection → Core D
  login_of w socket key payload none = w
  login_of w socket key none (some c) = w
  login_of w socket key (some bytes) (some c) =
      if not (matches_socket socket c) then w else authenticate w key c (deserialize_login qt bytes)

  -- Server::handleLoginUser
  unfoldable pub handle_login_user : Core D → Socket → Packet → Core D
  unfolding login_with matches_socket is_type
  handle_login_user w socket packet =
      if is_ignored socket (is_type login_user packet)
      then w
      else login_of w socket packet.sender packet.payload (find_connection packet.sender w.clients)
