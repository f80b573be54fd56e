-- ===== src/Server/Reading/Disconnect.antt =====
-- server/src/Server.cpp: handleConnectClient and onClientDisconnected, and the sessions of a socket.
use qt_chat_app.Prelude.{ℕ, ◌+◌, ◌-◌, ◌≡◌, ◌≢◌, refl, none, [], ◌∷◌, arith, if◌then◌else◌}
use qt_chat_app.Qt.{Qt, QUuid}
use qt_chat_app.Shared.Packet.{Packet, is_type, connect_client}
use qt_chat_app.Server.Session.{
  Socket, null_socket, Sessions, matches_socket, find_connection, erase_socket, insert_connection,
  new_connection, contains_session,
}
use qt_chat_app.Server.Core.{Core}
use qt_chat_app.Server.Auth.{handle_connect_client}
use qt_chat_app.Server.Reading.{Server, on_client_disconnected}
use qt_chat_app.Server.Sessions.Unchanged.{clients-send_success}

-- How many sessions stand on the socket.
unfoldable pub sessions_on : Socket → Sessions → ℕ
unfolding matches_socket
sessions_on s [] = 0
sessions_on s ((k, c) ∷ cs) = (if matches_socket s c then 1 else 0) + sessions_on s cs

sessions_on-erase_socket :
    (s : Socket) (cs : Sessions) → sessions_on s (erase_socket s cs) ≡ sessions_on s cs - 1
unfolding sessions_on erase_socket
sessions_on-erase_socket s [] = refl
sessions_on-erase_socket s ((k, c) ∷ cs) = ground (arith, sessions_on-erase_socket s cs)

sessions_on-insert_connection :
    (s : Socket) (k : QUuid) (cs : Sessions)
    → s ≢ null_socket
    → find_connection k cs ≡ none
    → sessions_on s (insert_connection k (new_connection k s) cs) ≡ sessions_on s cs + 1
unfolding sessions_on insert_connection find_connection new_connection
sessions_on-insert_connection s k [] h e = ground arith
sessions_on-insert_connection s k ((j, d) ∷ cs) h e =
    ground (arith, sessions_on-insert_connection s k cs h)

-- A disconnection of a socket that is not null takes one session from it: none is left if there
-- was one, and all but one are left if there were more.
pub sessions_on-on_client_disconnected :
    {D : Type 0} (server : Server D) (s : Socket)
    → s ≢ null_socket
    → sessions_on s (on_client_disconnected server s).core.clients
      ≡ sessions_on s server.core.clients - 1
unfolding on_client_disconnected
sessions_on-on_client_disconnected server s h =
    ground (arith, sessions_on-erase_socket s server.core.clients)

-- A CONNECT_CLIENT packet with a session id that is not in the table adds one session to its
-- socket, which is not null, whether or not the socket has a session already.
pub sessions_on-handle_connect_client :
    (qt : Qt) {D : Type 0} (w : Core D) (s : Socket) (p : Packet)
    → s ≢ null_socket
    → p.type ≡ connect_client
    → find_connection p.sender w.clients ≡ none
    → sessions_on s (handle_connect_client qt w s p).clients ≡ sessions_on s w.clients + 1
unfolding handle_connect_client contains_session is_type
sessions_on-handle_connect_client qt w s p h t e =
    rw (t, e)
      (ground (
        arith,
        clients-send_success qt
            (record w {
              clients = insert_connection p.sender (new_connection p.sender s) w.clients;
            })
            p.sender "Connected",
        sessions_on-insert_connection s p.sender w.clients h e,
      ))
