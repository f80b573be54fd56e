-- ===== src/Server/Reading/Answers.antt =====
-- server/src/Server.cpp: to which sockets the handlers of requests write.
use qt_chat_app.Prelude.{
  ◌≡◌, ◌≢◌, refl, false, Option, none, some, ◌==◌, arith, inl, inr, Option-cases,
}
use qt_chat_app.Prelude.{==_iff}
use qt_chat_app.Qt.{Qt, QUuid, QString}
use qt_chat_app.Shared.Packet.{
  Packet, PacketType, connect_client, register_user, login_user, logout_user, get_user_profile,
  update_user_profile, get_user_info, get_chats, search_chats, create_chat, chat_message, is_type,
}
use qt_chat_app.Server.Session.{
  Socket, ClientConnection, find_connection, modify_connection, insert_connection, new_connection,
  authorize, logout,
}
use qt_chat_app.Server.Session.Table.{find-insert_connection, find-modify_connection}
use qt_chat_app.Server.Storage.{Storage}
use qt_chat_app.Server.Core.{Core, send_success}
use qt_chat_app.Server.Auth.{
  handle_connect_client, handle_login_user, handle_logout_user, login_with,
}
use qt_chat_app.Server.Sessions.{IsValid}
use qt_chat_app.Server.Reading.{Fresh, dispatch, handle_packet}
use qt_chat_app.Server.Reading.Written.{
  written_to, is_on, written_to-send_error, written_to-send_success,
  written_to-handle_register_user, written_to-handle_get_user_profile,
  written_to-handle_update_user_profile, written_to-handle_get_user_info,
  written_to-handle_get_chats, written_to-handle_search_chats, written_to-handle_authorized_packet,
}

module _ (qt : Qt) {D : Type 0} (storage : Storage D) (t : Socket) (w : Core D) (s : Socket)
    (p : Packet) (v : IsValid w.clients)
    (e : is_on t (find_connection p.sender w.clients) ≡ false) where
  -- The session as a logout or a login leaves it has the socket that it had.
  is_on-modify_connection :
      (f : ClientConnection → ClientConnection)
      → ((c : ClientConnection) → (f c).socket ≡ c.socket)
      → is_on t (find_connection p.sender (modify_connection p.sender f w.clients)) ≡ false
  is_on-modify_connection f same =
      rw (find-modify_connection p.sender p.sender f w.clients, (==_iff p.sender p.sender).1 refl)
        (elim (Option-cases (find_connection p.sender w.clients)) [
          | inl n ↦ rw n refl
          | inr (c, found) ↦ rw (found, same c) (rw found at e)
        ])

  is_on-insert_connection :
      s == t ≡ false
      → is_on t (
          find_connection p.sender
            (insert_connection p.sender (new_connection p.sender s) w.clients))
        ≡ false
  unfolding new_connection
  is_on-insert_connection other =
      rw
        (
          find-insert_connection p.sender p.sender (new_connection p.sender s) w.clients,
          (==_iff p.sender p.sender).1 refl,
        )
        other

  written_to-handle_connect_client :
      s == t ≡ false
      → written_to t (handle_connect_client qt w s p).written ≡ written_to t w.written
  unfolding handle_connect_client
  written_to-handle_connect_client other =
      let added = record w {
        clients = insert_connection p.sender (new_connection p.sender s) w.clients;
      } in
      grind (
        arith,
        written_to-send_success qt t added p.sender (is_on-insert_connection other) "Connected",
      )

  is_on-logout :
      is_on t (find_connection p.sender (modify_connection p.sender logout w.clients)) ≡ false
  unfolding logout
  is_on-logout = is_on-modify_connection logout (λ c. refl)

  is_on-authorize :
      (user : QUuid)
      → is_on t (find_connection p.sender (modify_connection p.sender (authorize user) w.clients))
        ≡ false
  unfolding authorize
  is_on-authorize user = is_on-modify_connection (authorize user) (λ c. refl)

  written_to-handle_logout_user :
      written_to t (handle_logout_user qt w s p).written ≡ written_to t w.written
  unfolding handle_logout_user
  written_to-handle_logout_user =
      let left = record w { clients = modify_connection p.sender logout w.clients } in
      grind (
        arith,
        written_to-send_error,
        v.keyed p.sender,
        written_to-send_success qt t left p.sender is_on-logout "Logout successful",
      )

  written_to-entered :
      (user : QUuid) (m : QString)
      → written_to t
          (send_success qt
            (record w { clients = modify_connection p.sender (authorize user) w.clients })
            p.sender
            m).written
        ≡ written_to t w.written
  written_to-entered user m =
      written_to-send_success qt t
        (record w { clients = modify_connection p.sender (authorize user) w.clients }) p.sender
        (is_on-authorize user) m

  written_to-handle_login_user :
      written_to t (handle_login_user qt storage w s p).written ≡ written_to t w.written
  unfolding handle_login_user login_with
  written_to-handle_login_user =
      grind (arith, written_to-send_error, v.keyed p.sender, written_to-entered)

not_on :
    (t : Socket) (o : Option ClientConnection)
    → ((c : ClientConnection) → o ≡ some c → c.socket ≢ t)
    → is_on t o ≡ false
not_on t none h = refl
not_on t (some c) h = ground (arith, h c refl)

module _ (qt : Qt) {D : Type 0} (storage : Storage D) where
  -- A packet other than a message and a new chat makes the server write nothing to a socket that
  -- is neither the one on which the packet came in nor that of the session that the packet
  -- names; the sessions are valid.
  pub handle_packet-written_to :
      (f : Fresh) (s t : Socket) (w : Core D) (p : Packet)
      → IsValid w.clients
      → is_type chat_message p ≡ false
      → is_type create_chat p ≡ false
      → s ≢ t
      → ((c : ClientConnection) → find_connection p.sender w.clients ≡ some c → c.socket ≢ t)
      → written_to t (handle_packet qt storage f s w p).written ≡ written_to t w.written
  unfolding handle_packet dispatch is_type
  handle_packet-written_to f s t w p v no_message no_chat other elsewhere = by_type p.type refl
    where
      e : is_on t (find_connection p.sender w.clients) ≡ false
      e = not_on t (find_connection p.sender w.clients) elsewhere

      keyed :
          (c : ClientConnection)
          → find_connection p.sender w.clients ≡ some c
          → c.session_id ≡ p.sender
      keyed = v.keyed p.sender

      by_type :
          (type : PacketType)
          → p.type ≡ type
          → written_to t (dispatch qt storage f s w p type).written ≡ written_to t w.written
      by_type connect_client h =
          written_to-handle_connect_client qt storage t w s p v e (ground arith)
      by_type register_user h = written_to-handle_register_user qt storage t w s p keyed e f.uuid
      by_type login_user h = written_to-handle_login_user qt storage t w s p v e
      by_type logout_user h = written_to-handle_logout_user qt storage t w s p v e
      by_type get_user_profile h = written_to-handle_get_user_profile qt storage t w s p keyed e
      by_type update_user_profile h =
          written_to-handle_update_user_profile qt storage t w s p keyed e
      by_type get_user_info h = written_to-handle_get_user_info qt storage t w s p keyed e
      by_type get_chats h = written_to-handle_get_chats qt storage t w s p keyed e
      by_type search_chats h = written_to-handle_search_chats qt storage t w s p keyed e
      by_type create_chat h = absurd (ground arith)
      by_type _ h = written_to-handle_authorized_packet qt storage t w s p keyed e no_message
