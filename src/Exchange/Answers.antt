-- ===== src/Exchange/Answers.antt =====
-- server/src/Server.cpp: how the server answers a login and a request for the profile.
use qt_chat_app.Prelude.{◌≡◌, refl, ◌∙◌, true, false, some, [], ◌∷◌, ◌++◌, arith, is_empty, ◌==◌}
use qt_chat_app.Prelude.{==_iff}
use qt_chat_app.Qt.{Qt, QtLaws, QUuid, IsUuid}
use qt_chat_app.Model.{User}
use qt_chat_app.Shared.Packet.{Packet, is_type}
use qt_chat_app.Shared.Packet.RoundTrip.{IsPacket}
use qt_chat_app.Shared.Stream.{encapsulate}
use qt_chat_app.Shared.Stream.RoundTrip.{parse_stream-encapsulate_one}
use qt_chat_app.Shared.Payload.Account.{
  LoginInfo, serialize_login, deserialize_login-serialize_login,
}
use qt_chat_app.Shared.Payload.Profile.{ProfileInfo}
use qt_chat_app.Shared.PacketFactory.{
  login_user_packet, get_user_profile_packet, operation_success_packet, user_profile_data_packet,
}
use qt_chat_app.Server.Session.{
  Socket, ClientConnection, matches_socket, find_connection, modify_connection, authorize, writes,
  is_logged_in_elsewhere,
}
use qt_chat_app.Server.Session.Table.{find-modify_connection}
use qt_chat_app.Server.Storage.{Storage}
use qt_chat_app.Server.Core.{Core, send_packet, send_success, send_user_profile_data}
use qt_chat_app.Server.Auth.{handle_login_user, login_with}
use qt_chat_app.Server.Profile.{handle_get_user_profile, user_on}
use qt_chat_app.Server.Reading.{Server, Fresh, buffer_of, dispatch, handle_packet, read_bytes}
use qt_chat_app.Server.Reading.Chunks.{buffer-set_buffer_self}
use qt_chat_app.Server.Sessions.{IsValid}
use qt_chat_app.Client.RequestManager.Replies.{kept}
use qt_chat_app.Exchange.{core-read_bytes}
use qt_chat_app.Exchange.Heard.{accepted}

not_null : (s : Socket) (c : ClientConnection) → matches_socket s c ≡ true → s == 0 ≡ false
unfolding matches_socket
not_null s c here = ground arith

module _ (qt : Qt) {D : Type 0} (storage : Storage D) where
  -- A packet for the session of a socket is written to that socket.
  send_packet-found :
      (w : Core D) (k : QUuid) (c : ClientConnection) (s : Socket) (p : Packet)
      → find_connection k w.clients ≡ some c
      → matches_socket s c ≡ true
      → send_packet qt w k p ≡ record w { written = w.written ++ (s, encapsulate qt p) ∷ [] }
  unfolding send_packet matches_socket writes
  send_packet-found w k c s p found here = ground arith

  -- What login_with does for a user who is not logged in on another session.
  login_with-accepted :
      (w : Core D) (s : Socket) (k : QUuid) (c : ClientConnection) (user : User)
      → IsValid w.clients
      → find_connection k w.clients ≡ some c
      → matches_socket s c ≡ true
      → is_logged_in_elsewhere k user.id w.clients ≡ false
      → login_with qt storage w k c (some user) ≡ record w {
        clients = modify_connection k (authorize user.id) w.clients;
        written =
            w.written
            ++ (s, encapsulate qt (operation_success_packet qt w.uuid k accepted.text)) ∷ [];
      }
  unfolding login_with send_success authorize matches_socket
  login_with-accepted w s k c user v found here elsewhere =
      let w' = record w { clients = modify_connection k (authorize user.id) w.clients } in
      let same : k == k ≡ true = (==_iff k k).1 refl in
      let found' : find_connection k w'.clients ≡ some (authorize user.id c) =
        find-modify_connection k k (authorize user.id) w.clients ∙ rw (same, found) refl in
      rw (v.keyed k c found, elsewhere)
        (send_packet-found w' k (authorize user.id c) s
          (operation_success_packet qt w.uuid k accepted.text) found' here)

  -- The login of a user whom the database authenticates, on the session of the socket.
  handle_login_user-accepted :
      (w : Core D) (s : Socket) (k : QUuid) (receiver : QUuid) (c : ClientConnection) (user : User)
      → (info : LoginInfo) → QtLaws qt
      → IsValid w.clients
      → find_connection k w.clients ≡ some c
      → matches_socket s c ≡ true
      → storage.authenticate_user w.db info ≡ some user
      → is_logged_in_elsewhere k user.id w.clients ≡ false
      → handle_login_user qt storage w s (login_user_packet qt k receiver info) ≡ record w {
        clients = modify_connection k (authorize user.id) w.clients;
        written =
            w.written
            ++ (s, encapsulate qt (operation_success_packet qt w.uuid k accepted.text)) ∷ [];
      }
  unfolding handle_login_user login_with login_user_packet is_type
  handle_login_user-accepted w s k receiver c user info laws v found here known elsewhere =
      rw (not_null s c here, found, here, deserialize_login-serialize_login qt laws info, known)
        (login_with-accepted w s k c user v found here elsewhere)

  -- The request for the profile, on the session of the socket, which a user is authorized on.
  handle_get_user_profile-found :
      (w : Core D) (s : Socket) (k receiver user : QUuid) (c : ClientConnection)
      → (profile : ProfileInfo) → find_connection k w.clients ≡ some c
      → c.session_id ≡ k
      → matches_socket s c ≡ true
      → c.is_authorized ≡ true
      → c.user_id ≡ some user
      → storage.get_profile_info_by_user_id w.db user ≡ some profile
      → handle_get_user_profile qt storage w s (get_user_profile_packet qt k receiver) ≡ record w {
        written =
            w.written ++ (s, encapsulate qt (user_profile_data_packet qt w.uuid k profile)) ∷ [];
      }
  unfolding handle_get_user_profile get_user_profile_packet is_type user_on send_user_profile_data
  handle_get_user_profile-found w s k receiver user c profile found keyed here authorized of known =
      rw (not_null s c here, found, here, authorized, of, known, keyed)
        (send_packet-found w k c s (user_profile_data_packet qt w.uuid k profile) found here)

module _ (qt : Qt) (laws : QtLaws qt) {D : Type 0} (storage : Storage D) (fresh : Core D → Fresh)
    (s : Socket) where
  -- A whole packet's bytes leave a socket's empty buffer empty.
  buffer-read_bytes :
      (server : Server D) (p : Packet)
      → IsPacket p
      → buffer_of s server.socket_buffers ≡ []
      → buffer_of s (read_bytes qt storage fresh server s (encapsulate qt p)).socket_buffers ≡ []
  unfolding read_bytes
  buffer-read_bytes server p v e =
      rw (e, parse_stream-encapsulate_one qt p laws v)
        (buffer-set_buffer_self s [] server.socket_buffers)

  -- The server's side of a login.
  pub read_bytes-login :
      (server : Server D) (k receiver : QUuid) (c : ClientConnection) (user : User)
      → (info : LoginInfo) → IsUuid k
      → IsUuid receiver
      → IsValid server.core.clients
      → buffer_of s server.socket_buffers ≡ []
      → find_connection k server.core.clients ≡ some c
      → matches_socket s c ≡ true
      → storage.authenticate_user server.core.db info ≡ some user
      → is_logged_in_elsewhere k user.id server.core.clients ≡ false
      → let server' =
          read_bytes qt storage fresh server s
            (encapsulate qt (login_user_packet qt k receiver info)) in
        (server'.core ≡ record (server.core) {
          clients = modify_connection k (authorize user.id) server.core.clients;
          written =
              server.core.written
              ++ (s, encapsulate qt (operation_success_packet qt server.core.uuid k accepted.text))
                ∷ [];
        })
        × (buffer_of s server'.socket_buffers ≡ [])
  unfolding handle_packet dispatch login_user_packet
  read_bytes-login server k receiver c user info h r v e found here known elsewhere =
      let p = login_user_packet qt k receiver info in
      let small : IsPacket p = record { type = tt; sender = h; receiver = r } in
      let not_empty : is_empty (serialize_login qt info) ≡ false =
        unfold serialize_login in laws.json_not_empty _ in
      (
        core-read_bytes qt laws storage fresh server s p small e
            ∙ rw (kept (serialize_login qt info) not_empty) (
                handle_login_user-accepted qt storage server.core s k receiver c user info laws v
                  found here known elsewhere),
        buffer-read_bytes server p small e,
      )

  -- The server's side of the request for the profile.
  pub read_bytes-profile :
      (server : Server D) (k receiver user : QUuid) (c : ClientConnection) (profile : ProfileInfo)
      → IsUuid k
      → IsUuid receiver
      → buffer_of s server.socket_buffers ≡ []
      → find_connection k server.core.clients ≡ some c
      → c.session_id ≡ k
      → matches_socket s c ≡ true
      → c.is_authorized ≡ true
      → c.user_id ≡ some user
      → storage.get_profile_info_by_user_id server.core.db user ≡ some profile
      → (read_bytes qt storage fresh server s
          (encapsulate qt (get_user_profile_packet qt k receiver))).core
        ≡ record (server.core) {
          written =
              server.core.written
              ++ (s, encapsulate qt (user_profile_data_packet qt server.core.uuid k profile)) ∷ [];
        }
  unfolding handle_packet dispatch get_user_profile_packet
  read_bytes-profile server k receiver user c profile h r e found keyed here authorized of known =
      core-read_bytes qt laws storage fresh server s (get_user_profile_packet qt k receiver)
        (record { type = tt; sender = h; receiver = r }) e
      ∙ handle_get_user_profile-found qt storage server.core s k receiver user c profile found keyed
          here authorized of known
