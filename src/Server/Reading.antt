-- ===== src/Server/Reading.antt =====
-- server/src/Server.cpp: start, stop, onNewConnection, onServerRead, onClientDisconnected.
pub mod Chunks
pub mod Disconnect
pub mod Access
pub mod Written
pub mod Answers
pub mod Messages
use qt_chat_app.Prelude.{
  ℕ, Bool, true, false, Option, none, some, List, [], ◌∷◌, ◌++◌, ◌==◌, if◌then◌else◌,
}
use qt_chat_app.Qt.{Qt, QUuid, QByteArray}
use qt_chat_app.Shared.Packet.{
  Packet, PacketType, connect_client, register_user, login_user, logout_user, get_user_profile,
  update_user_profile, get_user_info, get_chats, search_chats, create_chat,
}
use qt_chat_app.Shared.Stream.{parse_stream}
use qt_chat_app.Server.Session.{Socket, null_socket, erase_socket}
use qt_chat_app.Server.Storage.{Storage}
use qt_chat_app.Server.Core.{Core}
use qt_chat_app.Server.Auth.{
  handle_connect_client, handle_register_user, handle_login_user, handle_logout_user,
}
use qt_chat_app.Server.Profile.{
  handle_get_user_profile, handle_update_user_profile, handle_get_user_info,
}
use qt_chat_app.Server.Chats.{handle_get_chats, handle_search_chats, handle_create_chat}
use qt_chat_app.Server.Routing.{handle_authorized_packet}

-- m_socketBuffers
abbrev pub Buffers : Type 0
Buffers = List (Socket × QByteArray)

-- m_socketBuffers[socket], which makes an empty buffer where there is none
unfoldable pub buffer_of : Socket → Buffers → QByteArray
buffer_of s [] = []
buffer_of s ((t, b) ∷ bs) = if t == s then b else buffer_of s bs

-- m_socketBuffers.insert(socket, bytes)
unfoldable pub set_buffer : Socket → QByteArray → Buffers → Buffers
set_buffer s b [] = (s, b) ∷ []
set_buffer s b ((t, c) ∷ bs) = if t == s then (t, b) ∷ bs else (t, c) ∷ set_buffer s b bs

-- m_socketBuffers.remove(socket)
unfoldable pub remove_buffer : Socket → Buffers → Buffers
remove_buffer s [] = []
remove_buffer s ((t, c) ∷ bs) = if t == s then bs else (t, c) ∷ remove_buffer s bs

-- The Server: what the handlers see, m_socketBuffers and m_isRunning.
pub record Server (D : Type 0) : Type 0 where
  pub core : Core D
  pub socket_buffers : Buffers
  pub is_running : Bool

-- What Qt gives while a packet is handled: the UUID that QUuid::createUuid makes and the time.
pub record Fresh : Type 0 where
  pub uuid : QUuid
  pub now : ℕ

module _ {D : Type 0} where
  -- Server::start, with what QTcpServer::listen returned
  unfoldable pub start : Bool → Server D → Server D × Bool
  start listening server =
      if listening then (record server { is_running = true }, true) else (server, false)

  -- Server::onNewConnection
  unfoldable pub on_new_connection : Server D → Socket → Server D
  on_new_connection server socket =
      if socket == null_socket
      then server
      else record server { socket_buffers = set_buffer socket [] server.socket_buffers }

  -- Server::onClientDisconnected
  unfoldable pub on_client_disconnected : Server D → Socket → Server D
  on_client_disconnected server socket = if socket == null_socket then server else record server {
    core = record (server.core) { clients = erase_socket socket server.core.clients };
    socket_buffers = remove_buffer socket server.socket_buffers;
  }

module _ (qt : Qt) {D : Type 0} (storage : Storage D) where
  -- The switch of onServerRead. `fresh` gives what Qt gives while the packet is handled.
  unfoldable pub dispatch : Fresh → Socket → Core D → Packet → PacketType → Core D
  dispatch f s w p connect_client = handle_connect_client qt w s p
  dispatch f s w p register_user = handle_register_user qt storage w s f.uuid p
  dispatch f s w p login_user = handle_login_user qt storage w s p
  dispatch f s w p logout_user = handle_logout_user qt w s p
  dispatch f s w p get_user_profile = handle_get_user_profile qt storage w s p
  dispatch f s w p update_user_profile = handle_update_user_profile qt storage w s p
  dispatch f s w p get_user_info = handle_get_user_info qt storage w s p
  dispatch f s w p get_chats = handle_get_chats qt storage w s p
  dispatch f s w p search_chats = handle_search_chats qt storage w s p
  dispatch f s w p create_chat = handle_create_chat qt storage w s f.uuid f.now p
  dispatch f s w p _ = handle_authorized_packet qt storage w p

  unfoldable pub handle_packet : Fresh → Socket → Core D → Packet → Core D
  unfolding dispatch
  handle_packet f s w p = dispatch f s w p p.type

  -- The loop over the packets that were read. The state holds what is fresh for the next packet
  -- as a function of what was written so far.
  unfoldable pub handle_packets : (Core D → Fresh) → Socket → Core D → List Packet → Core D
  handle_packets fresh s w [] = w
  handle_packets fresh s w (p ∷ ps) = handle_packets fresh s (handle_packet (fresh w) s w p) ps

  -- One round of the loop of onServerRead, on what readAll returned.
  unfoldable pub read_bytes : (Core D → Fresh) → Server D → Socket → QByteArray → Server D
  read_bytes fresh server socket bytes =
      let (packets, left) = parse_stream qt (buffer_of socket server.socket_buffers ++ bytes) in
      record server {
        core = handle_packets fresh socket server.core packets;
        socket_buffers = set_buffer socket left server.socket_buffers;
      }

  -- Server::onServerRead, with what readAll returned in each round
  unfoldable pub on_server_read : (Core D → Fresh) → Server D → Socket → List QByteArray → Server D
  unfolding read_bytes
  on_server_read fresh server socket [] = server
  on_server_read fresh server socket (bytes ∷ rest) =
      if socket == null_socket
      then server
      else on_server_read fresh (read_bytes fresh server socket bytes) socket rest
