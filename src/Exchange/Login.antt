-- ===== src/Exchange/Login.antt =====
-- A login on its way: client/src/AccountManager asks, client/src/RequestManager sends, the handlers
-- of server/src/Server answer, and the client reads the answers.
use qt_chat_app.Prelude.{
  ◌≡◌, refl, ap, ◌∙◌, true, false, some, [], ◌∷◌, ◌++◌, append_assoc, str_eq, ◌==◌,
}
use qt_chat_app.Prelude.{==_iff}
use qt_chat_app.Qt.{Qt, QtLaws, QUuid, QString, QByteArray, IsUuid}
use qt_chat_app.Model.{User}
use qt_chat_app.Shared.Stream.{encapsulate}
use qt_chat_app.Shared.Username.{normalize_username}
use qt_chat_app.Shared.Payload.Account.{LoginInfo}
use qt_chat_app.Shared.Payload.Profile.{ProfileInfo}
use qt_chat_app.Shared.PacketFactory.{
  login_user_packet, get_user_profile_packet, operation_success_packet, user_profile_data_packet,
}
use qt_chat_app.Server.Session.{
  Socket, ClientConnection, matches_socket, find_connection, modify_connection, authorize,
  is_logged_in_elsewhere,
}
use qt_chat_app.Server.Session.Table.{find-modify_connection}
use qt_chat_app.Server.Storage.{Storage}
use qt_chat_app.Server.Core.{Core}
use qt_chat_app.Server.Reading.{Server, Fresh, buffer_of, read_bytes}
use qt_chat_app.Server.Sessions.{IsValid}
use qt_chat_app.Client.Hasher.{Hashing, sha256}
use qt_chat_app.Client.AccountManager.{
  AccountManager, login, user_id, on_operation_result_received, on_current_user_profile_received,
}
use qt_chat_app.Client.AccountManager.Logins.{login-logged_in}
use qt_chat_app.Client.RequestManager.{
  RequestManager, operation_result_received, current_user_profile_received, process_bytes,
}
use qt_chat_app.Exchange.Heard.{accepted, process_bytes-served}
use qt_chat_app.Exchange.Answers.{read_bytes-login, read_bytes-profile}

-- What AccountManager::login sends: the normalized name and the hash of the password.
abbrev pub asked_login : Qt → Hashing → QString → QString → LoginInfo
asked_login qt h name password = record {
  login = normalize_username qt name;
  password_hash = sha256 qt h password;
}

-- The bytes of RequestManager::loginUser and RequestManager::getCurrentUserProfile.
abbrev pub login_bytes : Qt → RequestManager → LoginInfo → QByteArray
login_bytes qt m info = encapsulate qt (login_user_packet qt m.session_id m.server_id info)

abbrev pub profile_bytes : Qt → RequestManager → QByteArray
profile_bytes qt m = encapsulate qt (get_user_profile_packet qt m.session_id m.server_id)

-- The server can log the client in: its session stands in the table with the socket, the database
-- knows the user and has the user's profile, and the user is on no other session.
abbrev pub CanLogin :
    {D : Type 0}
    → Storage D
    → Core D
    → Socket
    → RequestManager
    → LoginInfo
    → ClientConnection
    → User
    → ProfileInfo
    → Type 0
CanLogin storage w s m info c user profile =
    (find_connection m.session_id w.clients ≡ some c)
    × (matches_socket s c ≡ true)
    × (storage.authenticate_user w.db info ≡ some user)
    × (is_logged_in_elsewhere m.session_id user.id w.clients ≡ false)
    × (storage.get_profile_info_by_user_id w.db user.id ≡ some profile)

-- All ids that travel have 128 bits.
abbrev pub AreUuids : {D : Type 0} → Core D → RequestManager → ProfileInfo → Type 0
AreUuids w m profile =
    IsUuid m.session_id × IsUuid m.server_id × IsUuid w.uuid × IsUuid profile.user_id

module _ (qt : Qt) (laws : QtLaws qt) {D : Type 0} (storage : Storage D) (fresh : Core D → Fresh)
    (s : Socket) where
  -- The server's side of a login and of the request for the profile that follows it, which may
  -- name the server by any id.
  read_bytes-served :
      (server : Server D) (m : RequestManager) (receiver : QUuid) (info : LoginInfo)
      (c : ClientConnection) (user : User) (profile : ProfileInfo)
      → IsValid server.core.clients
      → AreUuids server.core m profile
      → IsUuid receiver
      → buffer_of s server.socket_buffers ≡ []
      → CanLogin storage server.core s m info c user profile
      → let server' = read_bytes qt storage fresh server s (login_bytes qt m info) in
        (read_bytes qt storage fresh server' s
          (encapsulate qt (get_user_profile_packet qt m.session_id receiver))).core
        ≡ record (server.core) {
          clients = modify_connection m.session_id (authorize user.id) server.core.clients;
          written =
              server.core.written
              ++ (
                s,
                encapsulate qt
                    (operation_success_packet qt server.core.uuid m.session_id accepted.text),
              )
                ∷ (
                  s,
                  encapsulate qt
                      (user_profile_data_packet qt server.core.uuid m.session_id profile),
                )
                ∷ [];
        }
  unfolding authorize matches_socket
  read_bytes-served server m receiver info c user profile v (session, named, uuid, id) small b
        (found, here, known, elsewhere, has_profile) =
      let k = m.session_id in
      let same : k == k ≡ true = (==_iff k k).1 refl in
      let found' : find_connection k (modify_connection k (authorize user.id) server.core.clients)
          ≡ some (authorize user.id c) =
        find-modify_connection k k (authorize user.id) server.core.clients
        ∙ rw (same, found) refl in
      let (core', buffer') =
        read_bytes-login qt laws storage fresh s server k m.server_id c user info session named v b
          found here known elsewhere in
      let server' = read_bytes qt storage fresh server s (login_bytes qt m info) in
      read_bytes-profile qt laws storage fresh s server' k receiver user.id (authorize user.id c)
        profile session small buffer'
        (ap (λ (w : Core D). find_connection k w.clients) core' ∙ found') (v.keyed k c found) here
        refl refl
        (ap (λ (w : Core D). storage.get_profile_info_by_user_id w.db user.id) core' ∙ has_profile)
      ∙ rw (core', append_assoc) refl

  -- A login that the server can grant, asked for with a name and a password that are not empty
  -- while nothing is pending: the server reads the client's request, the client the answer, the
  -- server the request for the profile, and the client that answer. Then the session is
  -- authorized for the user, exactly the two answers were written, both to the client's socket,
  -- and the client emitted exactly the signals of a successful result and of the user's profile;
  -- with these the account manager is logged in as the profile's user and is not busy. The
  -- sessions are valid, both sides' buffers are empty, ids have 128 bits, and Qt's functions
  -- satisfy their laws.
  pub login-served :
      (h : Hashing) (server : Server D) (m : RequestManager) (a : AccountManager)
      (name password : QString) (c : ClientConnection) (user : User) (profile : ProfileInfo)
      → IsValid server.core.clients
      → AreUuids server.core m profile
      → buffer_of s server.socket_buffers ≡ []
      → m.incoming_buffer ≡ []
      → CanLogin storage server.core s m (asked_login qt h name password) c user profile
      → a.busy ≡ false
      → str_eq (normalize_username qt name) "" ≡ false
      → str_eq password "" ≡ false
      → let server' =
          read_bytes qt storage fresh server s
            (login_bytes qt m (asked_login qt h name password)) in
        let first =
          encapsulate qt
            (operation_success_packet qt server.core.uuid m.session_id accepted.text) in
        let m' = process_bytes qt m first in
        let server'' = read_bytes qt storage fresh server' s (profile_bytes qt m') in
        let second =
          encapsulate qt (user_profile_data_packet qt server.core.uuid m.session_id profile) in
        let a' =
          on_current_user_profile_received
            (on_operation_result_received (login qt h true a name password) accepted)
            profile in
        (find_connection m.session_id server''.core.clients ≡ some (authorize user.id c))
        × (server''.core.written ≡ server.core.written ++ (s, first) ∷ (s, second) ∷ [])
        × ((process_bytes qt m' second).emitted
            ≡ m.emitted
              ++ operation_result_received accepted ∷ current_user_profile_received profile ∷ [])
        × (a'.logged_in ≡ true)
        × (a'.busy ≡ false)
        × (user_id a' ≡ some profile.user_id)
  unfolding user_id
  login-served h server m a name password c user profile v (session, receiver, uuid, id) b empty can
        idle named secret =
      let info = asked_login qt h name password in
      let k = m.session_id in
      let same : k == k ≡ true = (==_iff k k).1 refl in
      let (session_kept, small, heard) =
        process_bytes-served qt laws m server.core.uuid profile session receiver uuid id empty in
      let m' =
        process_bytes qt m
          (encapsulate qt (operation_success_packet qt server.core.uuid k accepted.text)) in
      let server' = read_bytes qt storage fresh server s (login_bytes qt m info) in
      let served =
        ap
          (λ (j : QUuid).
            (read_bytes qt storage fresh server' s
              (encapsulate qt (get_user_profile_packet qt j m'.server_id))).core)
          session_kept
        ∙ read_bytes-served server m m'.server_id info c user profile v
            (session, receiver, uuid, id) small b can in
      let ends = login-logged_in qt h a name password accepted profile idle named secret refl in
      (
        ap (λ (w : Core D). find_connection k w.clients) served
            ∙ find-modify_connection k k (authorize user.id) server.core.clients
            ∙ rw (same, can.0) refl,
        ap (λ (w : Core D). w.written) served,
        heard,
        ap (λ (b : AccountManager). b.logged_in) ends,
        ap (λ (b : AccountManager). b.busy) ends,
        ap user_id ends,
      )
