-- ===== src/Server/Reading/Access.antt =====
-- server/src/Server.cpp: which packets can change the database.
use qt_chat_app.Prelude.{
  ℕ, ◌≡◌, ◌⊎◌, refl, ◌∙◌, true, some, List, [], ◌∷◌, arith, Bool-cases, inl, inr, Option-cases,
}
use qt_chat_app.Qt.{Qt, QUuid}
use qt_chat_app.Shared.Packet.{
  Packet, PacketType, connect_client, register_user, login_user, logout_user, get_user_profile,
  update_user_profile, get_user_info, get_chats, search_chats, create_chat,
}
use qt_chat_app.Shared.Payload.ChatText.{Message}
use qt_chat_app.Server.Session.{Socket, ClientConnection, Sessions, find_connection, matches_socket}
use qt_chat_app.Server.Storage.{Storage}
use qt_chat_app.Server.Core.{Core, send_packet}
use qt_chat_app.Server.Auth.{
  handle_connect_client, handle_register_user, handle_login_user, handle_logout_user,
}
use qt_chat_app.Server.Profile.{
  handle_get_user_profile, handle_update_user_profile, handle_get_user_info, user_on,
}
use qt_chat_app.Server.Chats.{handle_get_chats, handle_search_chats, handle_create_chat}
use qt_chat_app.Server.Routing.{route, handle_authorized_packet}
use qt_chat_app.Server.Core.Kept.{
  db-send_error, db-send_success, db-send_user_profile_data, db-send_public_user_info_data,
  db-send_chat_list_data,
}
use qt_chat_app.Server.Reading.{Fresh, dispatch, handle_packet}

ruleset sends = (
  arith, db-send_error, db-send_success, db-send_user_profile_data, db-send_public_user_info_data,
  db-send_chat_list_data,
)

module _ (qt : Qt) {D : Type 0} (w : Core D) (s : Socket) (p : Packet) where
  db-handle_connect_client : (handle_connect_client qt w s p).db ≡ w.db
  unfolding handle_connect_client
  db-handle_connect_client = grind sends

  db-handle_logout_user : (handle_logout_user qt w s p).db ≡ w.db
  unfolding handle_logout_user
  db-handle_logout_user = grind sends

module _ (qt : Qt) {D : Type 0} (session : QUuid) (members : List QUuid) (m : Message) where
  db-route : (cs : Sessions) (w : Core D) → (route qt w session members m cs).db ≡ w.db
  unfolding route send_packet
  db-route [] w = refl
  db-route ((k, c) ∷ cs) w = db-route cs _ ∙ ground arith

module _ (qt : Qt) {D : Type 0} (storage : Storage D) (w : Core D) (s : Socket) (p : Packet) where
  db-handle_login_user : (handle_login_user qt storage w s p).db ≡ w.db
  unfolding handle_login_user
  db-handle_login_user = grind sends

  db-handle_get_user_profile : (handle_get_user_profile qt storage w s p).db ≡ w.db
  unfolding handle_get_user_profile
  db-handle_get_user_profile = grind sends

  db-handle_get_user_info : (handle_get_user_info qt storage w s p).db ≡ w.db
  unfolding handle_get_user_info
  db-handle_get_user_info = grind sends

  db-handle_get_chats : (handle_get_chats qt storage w s p).db ≡ w.db
  unfolding handle_get_chats
  db-handle_get_chats = grind sends

  db-handle_search_chats : (handle_search_chats qt storage w s p).db ≡ w.db
  unfolding handle_search_chats
  db-handle_search_chats = grind sends

  db-handle_authorized_packet : (handle_authorized_packet qt storage w p).db ≡ w.db
  unfolding handle_authorized_packet
  db-handle_authorized_packet = grind (sends, db-route)

-- The packet is a registration on its session's own socket, or a profile update or a new chat on an
-- authorized session's own socket.
abbrev pub MayWrite : {D : Type 0} → Core D → Socket → Packet → Type 0
MayWrite w s p =
    (c : ClientConnection) × (find_connection p.sender w.clients ≡ some c)
    × (matches_socket s c ≡ true)
    × ((p.type ≡ register_user)
        ⊎ (((p.type ≡ update_user_profile) ⊎ (p.type ≡ create_chat)) × (c.is_authorized ≡ true)))

module _ (qt : Qt) {D : Type 0} (storage : Storage D) where
  register_cases :
      (w : Core D) (s : Socket) (fresh : QUuid) (p : Packet)
      → ((handle_register_user qt storage w s fresh p).db ≡ w.db)
        ⊎ ((c : ClientConnection) × (find_connection p.sender w.clients ≡ some c)
            × (matches_socket s c ≡ true))
  unfolding handle_register_user
  register_cases w s fresh p = elim (Option-cases (find_connection p.sender w.clients)) [
    | inl n ↦ inl (ground arith)
    | inr (c, e) ↦ elim (Bool-cases (matches_socket s c)) [
      | inl y ↦ inr (c, e, y)
      | inr f ↦ inl (ground arith)
    ]
  ]

  user_on-authorized :
      (s : Socket) (c : ClientConnection) (user : QUuid)
      → user_on s c ≡ some user
      → (matches_socket s c ≡ true) × (c.is_authorized ≡ true)
  unfolding user_on
  user_on-authorized s c user h = ground arith

  update_cases :
      (w : Core D) (s : Socket) (p : Packet)
      → ((handle_update_user_profile qt storage w s p).db ≡ w.db)
        ⊎ ((c : ClientConnection) × (user : QUuid) × (find_connection p.sender w.clients ≡ some c)
            × (user_on s c ≡ some user))
  unfolding handle_update_user_profile
  update_cases w s p = elim (Option-cases (find_connection p.sender w.clients)) [
    | inl n ↦ inl (ground arith)
    | inr (c, e) ↦ elim (Option-cases (user_on s c)) [
      | inl n ↦ inl (grind (arith, db-send_error))
      | inr (user, u) ↦ inr (c, user, e, u)
    ]
  ]

  create_cases :
      (w : Core D) (s : Socket) (fresh : QUuid) (now : ℕ) (p : Packet)
      → ((handle_create_chat qt storage w s fresh now p).db ≡ w.db)
        ⊎ ((c : ClientConnection) × (user : QUuid) × (find_connection p.sender w.clients ≡ some c)
            × (user_on s c ≡ some user))
  unfolding handle_create_chat
  create_cases w s fresh now p = elim (Option-cases (find_connection p.sender w.clients)) [
    | inl n ↦ inl (ground arith)
    | inr (c, e) ↦ elim (Option-cases (user_on s c)) [
      | inl n ↦ inl (grind (arith, db-send_error))
      | inr (user, u) ↦ inr (c, user, e, u)
    ]
  ]

  -- A packet leaves the database as it is, unless it came in on the socket of the session that
  -- it names, and it is a registration, or a profile update or a new chat while that session is
  -- authorized.
  pub handle_packet-MayWrite :
      (f : Fresh) (s : Socket) (w : Core D) (p : Packet)
      → ((handle_packet qt storage f s w p).db ≡ w.db) ⊎ MayWrite w s p
  unfolding handle_packet
  handle_packet-MayWrite f s w p = by_type p.type refl
    where
      by_type :
          (t : PacketType)
          → p.type ≡ t
          → ((dispatch qt storage f s w p t).db ≡ w.db) ⊎ MayWrite w s p
      by_type connect_client e = inl (db-handle_connect_client qt w s p)
      by_type register_user e = elim (register_cases w s f.uuid p) [
        | inl same ↦ inl same
        | inr (c, found, m) ↦ inr (c, found, m, inl e)
      ]
      by_type login_user e = inl (db-handle_login_user qt storage w s p)
      by_type logout_user e = inl (db-handle_logout_user qt w s p)
      by_type get_user_profile e = inl (db-handle_get_user_profile qt storage w s p)
      by_type update_user_profile e = elim (update_cases w s p) [
        | inl same ↦ inl same
        | inr (c, user, found, u) ↦
            let (m, a) = user_on-authorized s c user u in inr (c, found, m, inr (inl e, a))
      ]
      by_type get_user_info e = inl (db-handle_get_user_info qt storage w s p)
      by_type get_chats e = inl (db-handle_get_chats qt storage w s p)
      by_type search_chats e = inl (db-handle_search_chats qt storage w s p)
      by_type create_chat e = elim (create_cases w s f.uuid f.now p) [
        | inl same ↦ inl same
        | inr (c, user, found, u) ↦
            let (m, a) = user_on-authorized s c user u in inr (c, found, m, inr (inr e, a))
      ]
      by_type _ e = inl (db-handle_authorized_packet qt storage w s p)
