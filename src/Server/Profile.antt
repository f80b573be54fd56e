-- ===== src/Server/Profile.antt =====
-- server/src/Server.cpp: handleGetUserProfile, handleUpdateUserProfile, handleGetUserInfo.
pub mod Update
use qt_chat_app.Prelude.{
  Bool, true, false, not, ◌||◌, ◌&&◌, Option, none, some, ◌==◌, if◌then◌else◌, has_value, str_eq,
}
use qt_chat_app.Qt.{Qt, QUuid, QString, QByteArray, is_null}
use qt_chat_app.Model.{User}
use qt_chat_app.Shared.Packet.{
  Packet, is_type, get_user_profile, update_user_profile, get_user_info,
}
use qt_chat_app.Shared.Payload.Profile.{
  ProfileInfo, PublicUserInfo, ProfileUpdateInfo, deserialize_update,
}
use qt_chat_app.Shared.Payload.Request.{
  UserIdentifierType, uuid, username, UserInfoRequest, deserialize_request,
}
use qt_chat_app.Shared.Username.{is_valid_username, normalize_username}
use qt_chat_app.Server.Session.{Socket, ClientConnection, matches_socket, find_connection}
use qt_chat_app.Server.Storage.{Storage}
use qt_chat_app.Server.Core.{
  Core, send_error, send_success, send_user_profile_data, send_public_user_info_data,
}
use qt_chat_app.Server.Auth.{is_ignored}

-- `matchesSocket(socket) && isAuthorized() && userId().has_value()`, with the user
unfoldable pub user_on : Socket → ClientConnection → Option QUuid
unfolding matches_socket
user_on socket c = if matches_socket socket c && c.is_authorized then c.user_id else none

-- What a text of the update becomes: nothing to check, a refusal, or the value to store.
pub data Checked : Type 0 where
  fine : Option QString → Checked
  refused : QString → Checked

abbrev pub bad_username : QString
bad_username =
    "Username must be 2-20 characters and contain only lowercase latin letters, numbers, and underscores"

abbrev pub check_username : Qt → Option QString → Checked
check_username qt none = fine none
check_username qt (some s) =
    let name = qt.trimmed s in
    if not (is_valid_username name) then refused bad_username else fine (some name)

abbrev pub check_display_name : Qt → Option QString → Checked
check_display_name qt none = fine none
check_display_name qt (some s) =
    let name = qt.trimmed s in
    if str_eq name "" then refused "Display name must not be empty" else fine (some name)

abbrev pub check_email : Qt → Option QString → Checked
check_email qt none = fine none
check_email qt (some s) =
    let email = qt.trimmed s in
    if str_eq email "" then refused "Email must not be empty" else fine (some email)

abbrev pub check_password_hash : Option QString → Checked
check_password_hash none = fine none
check_password_hash (some s) =
    if str_eq s "" then refused "Password hash must not be empty" else fine (some s)

-- A user other than `self` has the name or the address.
abbrev pub is_taken : QUuid → Option User → Bool
is_taken self none = false
is_taken self (some user) = not (user.id == self)

abbrev pub find_by : (QString → Option User) → Option QString → Option User
find_by find none = none
find_by find (some s) = find s

pub data UpdateCheck : Type 0 where
  valid : ProfileUpdateInfo → UpdateCheck
  invalid : QString → UpdateCheck

abbrev pub and_then : Checked → (Option QString → UpdateCheck) → UpdateCheck
and_then (refused message) k = invalid message
and_then (fine s) k = k s

-- The checks of handleUpdateUserProfile on the payload itself, in their order.
unfoldable pub check_update : Qt → ProfileUpdateInfo → UpdateCheck
unfolding is_valid_username
check_update qt i = and_then (check_username qt i.username) λ name.
    and_then (check_display_name qt i.display_name) λ display_name.
      and_then (check_email qt i.email) λ email.
        and_then (check_password_hash i.password_hash) λ password_hash. valid (record {
          username = name;
          display_name = display_name;
          email = email;
          password_hash = password_hash;
        })

module _ (qt : Qt) {D : Type 0} (storage : Storage D) where
  abbrev reply_profile : Core D → QUuid → Option ProfileInfo → Core D
  reply_profile w session none = send_error qt w session "User not found"
  reply_profile w session (some info) = send_user_profile_data qt w session info

  abbrev profile_for : Core D → QUuid → Option QUuid → Core D
  profile_for w session none = send_error qt w session "Not authorized"
  profile_for w session (some user) =
      reply_profile w session (storage.get_profile_info_by_user_id w.db user)

  abbrev profile_of : Core D → Socket → Option ClientConnection → Core D
  profile_of w socket none = w
  profile_of w socket (some c) = profile_for w c.session_id (user_on socket c)

  -- Server::handleGetUserProfile
  unfoldable pub handle_get_user_profile : Core D → Socket → Packet → Core D
  unfolding user_on is_type
  handle_get_user_profile w socket packet =
      if is_ignored socket (is_type get_user_profile packet)
      then w
      else profile_of w socket (find_connection packet.sender w.clients)

  -- Behind the update: the profile is read anew and sent.
  abbrev reply_updated : Core D → QUuid → Option ProfileInfo → Core D
  reply_updated w session none = send_error qt w session "Failed to read updated profile"
  reply_updated w session (some info) =
      send_user_profile_data qt (send_success qt w session "Profile updated successfully") session
        info

  abbrev pub updated : Core D → QUuid → QUuid → Option User × D → Core D
  updated w session user (none, db) =
      send_error qt (record w { db = db }) session "Failed to update profile"
  updated w session user (some u, db) =
      reply_updated (record w { db = db }) session (storage.get_profile_info_by_user_id db user)

  -- The checks against the database, and the update.
  unfoldable pub store_update : Core D → QUuid → QUuid → UpdateCheck → Core D
  store_update w session user (invalid message) = send_error qt w session message
  store_update w session user (valid info) =
      if is_taken user (find_by (storage.get_user_by_username w.db) info.username)
      then send_error qt w session "Username already exists"
      else if is_taken user (find_by (storage.get_user_by_email w.db) info.email)
      then send_error qt w session "Email already exists"
      else updated w session user (storage.update_user_profile w.db user info)

  abbrev update_parsed : Core D → QUuid → QUuid → Option ProfileUpdateInfo → Core D
  update_parsed w session user none = send_error qt w session "Invalid profile update payload"
  update_parsed w session user (some info) = store_update w session user (check_update qt info)

  abbrev update_for : Core D → QUuid → Option QByteArray → Option QUuid → Core D
  update_for w session payload none = send_error qt w session "Not authorized"
  update_for w session none (some user) =
      send_error qt w session "Profile update payload is missing"
  update_for w session (some bytes) (some user) =
      update_parsed w session user (deserialize_update qt bytes)

  abbrev update_of : Core D → Socket → Option QByteArray → Option ClientConnection → Core D
  update_of w socket payload none = w
  update_of w socket payload (some c) = update_for w c.session_id payload (user_on socket c)

  -- Server::handleUpdateUserProfile
  unfoldable pub handle_update_user_profile : Core D → Socket → Packet → Core D
  unfolding user_on check_update store_update is_type
  handle_update_user_profile w socket packet =
      if is_ignored socket (is_type update_user_profile packet)
      then w
      else update_of w socket packet.payload (find_connection packet.sender w.clients)

  abbrev reply_info : Core D → QUuid → Option PublicUserInfo → Core D
  reply_info w session none = send_error qt w session "User not found"
  reply_info w session (some info) = send_public_user_info_data qt w session info

  -- The switch of handleGetUserInfo.
  unfoldable pub look_up : Core D → QUuid → UserIdentifierType → UserInfoRequest → Core D
  look_up w session uuid r =
      if is_null r.user_id
      then send_error qt w session "Invalid user id"
      else reply_info w session (storage.get_public_user_info_by_user_id w.db r.user_id)
  look_up w session username r =
      let name = normalize_username qt r.username in
      if not (is_valid_username name)
      then send_error qt w session "Invalid username"
      else reply_info w session (storage.get_public_user_info_by_username w.db name)

  abbrev info_parsed : Core D → QUuid → Option UserInfoRequest → Core D
  info_parsed w session none = send_error qt w session "Invalid user info request payload"
  info_parsed w session (some r) = look_up w session r.identifier_type r

  abbrev info_for : Core D → QUuid → Option QByteArray → Core D
  info_for w session none = send_error qt w session "User info request payload is missing"
  info_for w session (some bytes) = info_parsed w session (deserialize_request qt bytes)

  abbrev info_of : Core D → Socket → Option QByteArray → Option ClientConnection → Core D
  info_of w socket payload none = w
  info_of w socket payload (some c) =
      if not (matches_socket socket c) || not c.is_authorized
      then send_error qt w c.session_id "Not authorized"
      else info_for w c.session_id payload

  -- Server::handleGetUserInfo
  unfoldable pub handle_get_user_info : Core D → Socket → Packet → Core D
  unfolding look_up matches_socket is_type
  handle_get_user_info w socket packet =
      if is_ignored socket (is_type get_user_info packet)
      then w
      else info_of w socket packet.payload (find_connection packet.sender w.clients)
