-- ===== src/Server/Sessions/Packets.antt =====
-- server/src/Server.cpp: each packet keeps the invariant of m_clients.
use qt_chat_app.Prelude.{
  ◌≡◌, ◌⊎◌, sym, subst, false, none, some, List, [], ◌∷◌, arith, Bool-cases, inl, inr, Option-cases,
}
use qt_chat_app.Qt.{Qt, QUuid}
use qt_chat_app.Shared.Packet.{
  Packet, PacketType, connect_client, register_user, login_user, logout_user, get_user_profile,
  update_user_profile, get_user_info, get_chats, search_chats, create_chat,
}
use qt_chat_app.Server.Session.{
  Socket, ClientConnection, Sessions, find_connection, modify_connection, insert_connection, logout,
  authorize, is_logged_in_elsewhere, new_connection,
}
use qt_chat_app.Server.Storage.{Storage}
use qt_chat_app.Server.Core.{Core}
use qt_chat_app.Server.Auth.{handle_connect_client, handle_login_user, handle_logout_user}
use qt_chat_app.Server.Reading.{Fresh, dispatch, handle_packet, handle_packets}
use qt_chat_app.Shared.Payload.Account.{deserialize_login}
use qt_chat_app.Server.Sessions.{IsValid}
use qt_chat_app.Server.Sessions.Unchanged.{
  clients-send_error, clients-send_success, clients-handle_register_user,
  clients-handle_get_user_profile, clients-handle_update_user_profile, clients-handle_get_user_info,
  clients-handle_get_chats, clients-handle_search_chats, clients-handle_create_chat,
  clients-handle_authorized_packet,
}
use qt_chat_app.Server.Sessions.Kept.{insert_connection-IsValid, logout-IsValid, authorize-IsValid}

-- The sessions are as they were, or as one operation on them leaves them.
abbrev Connected : Sessions → Packet → Socket → Sessions → Type 0
Connected cs p s cs' =
    (find_connection p.sender cs ≡ none)
    × (cs' ≡ insert_connection p.sender (new_connection p.sender s) cs)

abbrev LoggedIn : Sessions → Packet → Sessions → Type 0
LoggedIn cs p cs' =
    (user : QUuid) × (here : ClientConnection) × (find_connection p.sender cs ≡ some here)
    × (is_logged_in_elsewhere here.session_id user cs ≡ false)
    × (cs' ≡ modify_connection p.sender (authorize user) cs)

module _ (qt : Qt) {D : Type 0} (w : Core D) (s : Socket) (p : Packet) where
  connect_cases :
      ((handle_connect_client qt w s p).clients ≡ w.clients)
      ⊎ Connected w.clients p s (handle_connect_client qt w s p).clients
  unfolding handle_connect_client
  connect_cases = ground (
    arith,
    clients-send_success qt
        (record w { clients = insert_connection p.sender (new_connection p.sender s) w.clients })
        p.sender "Connected",
  )

  logout_cases :
      ((handle_logout_user qt w s p).clients ≡ w.clients)
      ⊎ ((handle_logout_user qt w s p).clients ≡ modify_connection p.sender logout w.clients)
  unfolding handle_logout_user
  logout_cases = grind (arith, clients-send_error, clients-send_success)

  handle_connect_client-IsValid :
      IsValid w.clients → IsValid (handle_connect_client qt w s p).clients
  handle_connect_client-IsValid v = elim connect_cases [
    | inl e ↦ subst IsValid (sym e) v
    | inr (new, e) ↦ subst IsValid (sym e) (insert_connection-IsValid w.clients v p.sender s new)
  ]

  handle_logout_user-IsValid : IsValid w.clients → IsValid (handle_logout_user qt w s p).clients
  handle_logout_user-IsValid v = elim logout_cases [
    | inl e ↦ subst IsValid (sym e) v
    | inr e ↦ subst IsValid (sym e) (logout-IsValid w.clients v p.sender)
  ]

module _ (qt : Qt) {D : Type 0} (storage : Storage D) (w : Core D) (s : Socket) (p : Packet) where
  login_cases :
      ((handle_login_user qt storage w s p).clients ≡ w.clients)
      ⊎ LoggedIn w.clients p (handle_login_user qt storage w s p).clients
  unfolding handle_login_user
  login_cases = elim (Option-cases (find_connection p.sender w.clients)) [
    | inl n ↦ inl (ground arith)
    | inr (here, e) ↦ elim (Option-cases p.payload) [
      | inl n ↦ inl (ground arith)
      | inr (bytes, b) ↦ elim (Option-cases (deserialize_login qt bytes)) [
        | inl n ↦ inl (grind (arith, clients-send_error))
        | inr (info, i) ↦ elim (Option-cases (storage.authenticate_user w.db info)) [
          | inl n ↦ inl (grind (arith, clients-send_error))
          | inr (user, u) ↦
              elim (Bool-cases (is_logged_in_elsewhere here.session_id user.id w.clients)) [
                | inl y ↦ inl (grind (arith, clients-send_error))
                | inr no_other ↦
                    let moved : ((handle_login_user qt storage w s p).clients ≡ w.clients)
                        ⊎ ((handle_login_user qt storage w s p).clients
                            ≡ modify_connection p.sender (authorize user.id) w.clients) =
                      grind (arith, clients-send_error, clients-send_success) in
                    elim moved [
                      | inl same ↦ inl same
                      | inr new ↦ inr (user.id, here, e, no_other, new)
                    ]
              ]
        ]
      ]
    ]
  ]

  handle_login_user-IsValid :
      IsValid w.clients → IsValid (handle_login_user qt storage w s p).clients
  handle_login_user-IsValid v = elim login_cases [
    | inl e ↦ subst IsValid (sym e) v
    | inr (user, here, found, no_other, e) ↦
        subst IsValid (sym e) (authorize-IsValid w.clients v p.sender user here found no_other)
  ]

module _ (qt : Qt) {D : Type 0} (storage : Storage D) where
  -- Whatever packet comes in, on whatever socket, the sessions stay valid.
  pub handle_packet-IsValid :
      (f : Fresh) (s : Socket) (w : Core D) (p : Packet)
      → IsValid w.clients
      → IsValid (handle_packet qt storage f s w p).clients
  unfolding handle_packet
  handle_packet-IsValid f s w p v = by_type p.type
    where
      by_type : (t : PacketType) → IsValid (dispatch qt storage f s w p t).clients
      by_type connect_client = handle_connect_client-IsValid qt w s p v
      by_type register_user =
          subst IsValid (sym (clients-handle_register_user qt storage w s f.uuid p)) v
      by_type login_user = handle_login_user-IsValid qt storage w s p v
      by_type logout_user = handle_logout_user-IsValid qt w s p v
      by_type get_user_profile =
          subst IsValid (sym (clients-handle_get_user_profile qt storage w s p)) v
      by_type update_user_profile =
          subst IsValid (sym (clients-handle_update_user_profile qt storage w s p)) v
      by_type get_user_info = subst IsValid (sym (clients-handle_get_user_info qt storage w s p)) v
      by_type get_chats = subst IsValid (sym (clients-handle_get_chats qt storage w s p)) v
      by_type search_chats = subst IsValid (sym (clients-handle_search_chats qt storage w s p)) v
      by_type create_chat =
          subst IsValid (sym (clients-handle_create_chat qt storage w s f.uuid f.now p)) v
      by_type _ = subst IsValid (sym (clients-handle_authorized_packet qt storage w p)) v

  pub handle_packets-IsValid :
      (fresh : Core D → Fresh) (s : Socket) (ps : List Packet) (w : Core D)
      → IsValid w.clients
      → IsValid (handle_packets qt storage fresh s w ps).clients
  unfolding handle_packets
  handle_packets-IsValid fresh s [] w v = v
  handle_packets-IsValid fresh s (p ∷ ps) w v =
      handle_packets-IsValid fresh s ps (handle_packet qt storage (fresh w) s w p)
        (handle_packet-IsValid (fresh w) s w p v)
