-- ===== src/Client/Connection.antt =====
-- client/src/Client (.h, .cpp): the connection of the client and its status.
--
-- What the program calls on its QTcpSocket is a list of values. The state of the socket and the
-- text of an error are arguments.
use qt_chat_app.Prelude.{
  ℕ, Bool, true, false, Option, none, some, List, [], ◌∷◌, ◌++◌, if◌then◌else◌, ltb, is_empty,
  str_eq,
}
use qt_chat_app.Qt.{Qt, QString, QByteArray}
use qt_chat_app.Qt.JsonValue.{ℤ, pos, negsuc}
use qt_chat_app.Client.RequestManager.{RequestManager, request_connection, process_bytes}

pub data SocketCall : Type 0 where
  connect_to_host : QString → ℕ → SocketCall
  disconnect_from_host : SocketCall
  write : QByteArray → SocketCall

-- m_connected, m_statusText, the calls on m_socket, and how often connectionStatusChanged was
-- emitted with which state.
pub record ClientState : Type 0 where
  pub connected : Bool
  pub status_text : QString
  pub calls : List SocketCall
  pub announced : List Bool

-- Client::setStatusText
abbrev pub set_status_text : QString → ClientState → ClientState
set_status_text s c = record c { status_text = s }

-- Client::setConnectionStatus, with the signal that it emits
abbrev pub set_connection_status : Bool → ClientState → ClientState
set_connection_status connected c = record c {
  connected = connected;
  announced = c.announced ++ (connected ∷ []);
}

-- `port <= 0 || port > 65535`, and the port otherwise
abbrev pub port_of : ℤ → Option ℕ
port_of (pos n) = if ltb 0 n then (if ltb 65535 n then none else some n) else none
port_of (negsuc n) = none

-- Client::disconnect
unfoldable pub disconnect : ClientState → ClientState
disconnect c = record (set_status_text "Disconnecting..." c) {
  calls = c.calls ++ (disconnect_from_host ∷ []);
}

-- Client::connectTo, with whether the socket is in the state UnconnectedState
unfoldable pub connect_to : Bool → QString → ℤ → ClientState → ClientState
unfolding disconnect
connect_to unconnected host port c =
    if str_eq host "" then set_status_text "Invalid host or port" c else elim (port_of port) [
      | none ↦ set_status_text "Invalid host or port" c
      | some n ↦
          let c' = if unconnected then c else disconnect c in
          record c' {
            status_text = "Connecting...";
            calls = c'.calls ++ (connect_to_host host n ∷ []);
          }
    ]

-- Client::onConnected, with RequestManager
unfoldable pub on_connected : Qt → RequestManager → ClientState → RequestManager × ClientState
unfolding request_connection
on_connected qt m c =
    (request_connection qt m, set_connection_status true (set_status_text "Connected" c))

-- Client::onDisconnected
unfoldable pub on_disconnected : ClientState → ClientState
on_disconnected c = set_connection_status false (set_status_text "Disconnected" c)

-- Client::onErrorOccurred, with the socket's text and whether it is in the state ConnectedState
unfoldable pub on_error_occurred : QString → Bool → ClientState → ClientState
on_error_occurred text socket_connected c =
    if socket_connected
    then set_status_text text c
    else set_connection_status false (set_status_text text c)

-- Client::onReadyRead, with the bytes that readAll gave
unfoldable pub on_ready_read : Qt → QByteArray → RequestManager → RequestManager
unfolding process_bytes
on_ready_read qt bytes m = if is_empty bytes then m else process_bytes qt m bytes

-- Client::writeBytes, which sendBytes queues
unfoldable pub write_bytes : QByteArray → ClientState → ClientState
write_bytes bytes c = record c { calls = c.calls ++ (write bytes ∷ []) }
