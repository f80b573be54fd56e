-- ===== src/Server/Session.antt =====
-- server/src/ClientConnection (.h, .cpp), and m_clients of server/src/Server with findConnection.
--
-- A QTcpSocket* is a number, 0 for the null pointer. The QHash is a list of keys and values; a
-- QHash promises no order of iteration, and the list's order stands for the one that it has.
pub mod Table
use qt_chat_app.Prelude.{
  ℕ, Bool, true, false, not, ◌&&◌, ◌||◌, Option, none, some, List, [], ◌∷◌, ◌==◌, if◌then◌else◌,
  has_value,
}
use qt_chat_app.Qt.{Qt, QUuid, QByteArray}
use qt_chat_app.Shared.Packet.{Packet}
use qt_chat_app.Shared.Stream.{encapsulate}

abbrev pub Socket : Type 0
Socket = ℕ

abbrev pub null_socket : Socket
null_socket = 0

pub record ClientConnection : Type 0 where
  pub session_id : QUuid
  pub socket : Socket
  pub user_id : Option QUuid
  pub is_authorized : Bool

-- ClientConnection(sessionId, socket)
unfoldable pub new_connection : QUuid → Socket → ClientConnection
new_connection session_id socket = record {
  session_id = session_id;
  socket = socket;
  user_id = none;
  is_authorized = false;
}

-- ClientConnection::authorize
unfoldable pub authorize : QUuid → ClientConnection → ClientConnection
authorize user_id c = record c { is_authorized = true; user_id = some user_id }

-- ClientConnection::logout
unfoldable pub logout : ClientConnection → ClientConnection
logout c = record c { is_authorized = false; user_id = none }

-- ClientConnection::matchesSocket
unfoldable pub matches_socket : Socket → ClientConnection → Bool
matches_socket socket c = not (socket == null_socket) && socket == c.socket

-- ClientConnection::sendPacket: the bytes that are handed to QTcpSocket::write, and the socket.
-- What write returns is only logged.
unfoldable pub writes : Qt → ClientConnection → Packet → List (Socket × QByteArray)
writes qt c p = if c.socket == null_socket then [] else (c.socket, encapsulate qt p) ∷ []

abbrev pub Sessions : Type 0
Sessions = List (QUuid × ClientConnection)

-- m_clients.find(sessionId), findConnection(sessionId)
unfoldable pub find_connection : QUuid → Sessions → Option ClientConnection
find_connection k [] = none
find_connection k ((j, c) ∷ cs) = if j == k then some c else find_connection k cs

-- m_clients.contains
unfoldable pub contains_session : QUuid → Sessions → Bool
contains_session k cs = has_value (find_connection k cs)

-- m_clients.insert of a key that is not in the table
unfoldable pub insert_connection : QUuid → ClientConnection → Sessions → Sessions
insert_connection k c [] = (k, c) ∷ []
insert_connection k c ((j, d) ∷ cs) =
    if j == k then (j, c) ∷ cs else (j, d) ∷ insert_connection k c cs

-- A call of a mutating method through the reference that findConnection returned.
unfoldable pub modify_connection :
    QUuid → (ClientConnection → ClientConnection) → Sessions → Sessions
modify_connection k f [] = []
modify_connection k f ((j, c) ∷ cs) =
    if j == k then (j, f c) ∷ cs else (j, c) ∷ modify_connection k f cs

-- findConnection(clientSocket): the first connection of the socket
unfoldable pub find_connection_of_socket : Socket → Sessions → Option ClientConnection
unfolding matches_socket
find_connection_of_socket socket [] = none
find_connection_of_socket socket ((k, c) ∷ cs) =
    if matches_socket socket c then some c else find_connection_of_socket socket cs

-- The loop of onClientDisconnected, which erases the first connection of the socket and stops. The
-- logout before it changes the erased entry alone.
unfoldable pub erase_socket : Socket → Sessions → Sessions
unfolding matches_socket
erase_socket socket [] = []
erase_socket socket ((k, c) ∷ cs) =
    if matches_socket socket c then cs else (k, c) ∷ erase_socket socket cs

-- `isAuthorized() && userId().has_value()`, with the user
unfoldable pub authorized_user : ClientConnection → Option QUuid
authorized_user c = if c.is_authorized then c.user_id else none

abbrev pub is_user : QUuid → Option QUuid → Bool
is_user user none = false
is_user user (some u) = u == user

-- The loop of handleLoginUser over m_clients: another session has the user logged in.
unfoldable pub is_logged_in_elsewhere : QUuid → QUuid → Sessions → Bool
unfolding authorized_user
is_logged_in_elsewhere session user [] = false
is_logged_in_elsewhere session user ((k, c) ∷ cs) =
    is_user user (authorized_user c) && not (c.session_id == session)
    || is_logged_in_elsewhere session user cs
