-- ===== src/Server/Reading/Written.antt =====
-- server/src/Server.cpp: what the functions that send, and the handlers that change no session, write
-- to one socket.
use qt_chat_app.Prelude.{
  ◌≡◌, Bool, false, Option, none, some, List, [], ◌∷◌, ◌++◌, ◌==◌, append-nil, if◌then◌else◌, arith,
}
use qt_chat_app.Qt.{Qt, QUuid, QString, QByteArray}
use qt_chat_app.Shared.Payload.Profile.{ProfileInfo, PublicUserInfo}
use qt_chat_app.Shared.Payload.ChatList.{ChatInfo}
use qt_chat_app.Server.Session.{Socket, ClientConnection, find_connection, writes}
use qt_chat_app.Server.Storage.{Storage}
use qt_chat_app.Server.Core.{
  Core, send_packet, send_error, send_success, send_user_profile_data, send_public_user_info_data,
  send_chat_list_data,
}
use qt_chat_app.Server.Auth.{handle_register_user}
use qt_chat_app.Server.Profile.{
  handle_get_user_profile, handle_update_user_profile, handle_get_user_info,
}
use qt_chat_app.Server.Chats.{handle_get_chats, handle_search_chats}
use qt_chat_app.Server.Routing.{handle_authorized_packet}
use qt_chat_app.Shared.Packet.{Packet, is_type, chat_message}
use qt_chat_app.Server.Sessions.Unchanged.{clients-send_success}

-- What was written to one socket, in order.
unfoldable pub written_to : Socket → List (Socket × QByteArray) → List QByteArray
written_to t [] = []
written_to t ((s, bytes) ∷ ws) = if s == t then bytes ∷ written_to t ws else written_to t ws

-- The connection has the socket.
abbrev pub is_on : Socket → Option ClientConnection → Bool
is_on t none = false
is_on t (some c) = c.socket == t

written_to-append :
    (t s : Socket) (bytes : QByteArray) (ws : List (Socket × QByteArray))
    → s == t ≡ false
    → written_to t (ws ++ (s, bytes) ∷ []) ≡ written_to t ws
unfolding written_to
written_to-append t s bytes [] e = ground arith
written_to-append t s bytes ((u, b) ∷ ws) e = ground (arith, written_to-append t s bytes ws e)

module _ (qt : Qt) {D : Type 0} (t : Socket) (w : Core D) (k : QUuid) where
  written_to-send_packet :
      (p : Packet)
      → is_on t (find_connection k w.clients) ≡ false
      → written_to t (send_packet qt w k p).written ≡ written_to t w.written
  unfolding send_packet writes
  written_to-send_packet p e = grind (arith, written_to-append, append-nil)

  module _ (e : is_on t (find_connection k w.clients) ≡ false) where
    pub written_to-send_error :
        (m : QString) → written_to t (send_error qt w k m).written ≡ written_to t w.written
    unfolding send_error
    written_to-send_error m = written_to-send_packet _ e

    pub written_to-send_success :
        (m : QString) → written_to t (send_success qt w k m).written ≡ written_to t w.written
    unfolding send_success
    written_to-send_success m = written_to-send_packet _ e

    written_to-send_user_profile_data :
        (info : ProfileInfo)
        → written_to t (send_user_profile_data qt w k info).written ≡ written_to t w.written
    unfolding send_user_profile_data
    written_to-send_user_profile_data info = written_to-send_packet _ e

    written_to-send_public_user_info_data :
        (info : PublicUserInfo)
        → written_to t (send_public_user_info_data qt w k info).written ≡ written_to t w.written
    unfolding send_public_user_info_data
    written_to-send_public_user_info_data info = written_to-send_packet _ e

    written_to-send_chat_list_data :
        (info : List ChatInfo)
        → written_to t (send_chat_list_data qt w k info).written ≡ written_to t w.written
    unfolding send_chat_list_data
    written_to-send_chat_list_data info = written_to-send_packet _ e

ruleset sends = (
  arith, written_to-send_error, written_to-send_success, written_to-send_user_profile_data,
  written_to-send_public_user_info_data, written_to-send_chat_list_data, clients-send_success,
)

module _ (qt : Qt) {D : Type 0} (storage : Storage D) (t : Socket) (w : Core D) (s : Socket)
    (p : Packet)
    (keyed : (c : ClientConnection)
      → find_connection p.sender w.clients ≡ some c
      → c.session_id ≡ p.sender)
    (e : is_on t (find_connection p.sender w.clients) ≡ false) where
  pub written_to-handle_register_user :
      (fresh : QUuid)
      → written_to t (handle_register_user qt storage w s fresh p).written ≡ written_to t w.written
  unfolding handle_register_user
  written_to-handle_register_user fresh = grind sends

  pub written_to-handle_get_user_profile :
      written_to t (handle_get_user_profile qt storage w s p).written ≡ written_to t w.written
  unfolding handle_get_user_profile
  written_to-handle_get_user_profile = grind sends

  pub written_to-handle_update_user_profile :
      written_to t (handle_update_user_profile qt storage w s p).written ≡ written_to t w.written
  unfolding handle_update_user_profile
  written_to-handle_update_user_profile = grind sends

  pub written_to-handle_get_user_info :
      written_to t (handle_get_user_info qt storage w s p).written ≡ written_to t w.written
  unfolding handle_get_user_info
  written_to-handle_get_user_info = grind sends

  pub written_to-handle_get_chats :
      written_to t (handle_get_chats qt storage w s p).written ≡ written_to t w.written
  unfolding handle_get_chats
  written_to-handle_get_chats = grind sends

  pub written_to-handle_search_chats :
      written_to t (handle_search_chats qt storage w s p).written ≡ written_to t w.written
  unfolding handle_search_chats
  written_to-handle_search_chats = grind sends

  -- A message is excluded: its type is the only one for which the handler routes.
  pub written_to-handle_authorized_packet :
      is_type chat_message p ≡ false
      → written_to t (handle_authorized_packet qt storage w p).written ≡ written_to t w.written
  unfolding handle_authorized_packet
  written_to-handle_authorized_packet other = grind sends
