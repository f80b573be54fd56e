-- ===== src/Server/Sessions.antt =====
-- server/src/Server.cpp: the invariant of m_clients.
pub mod Unchanged
pub mod Kept
pub mod Packets
pub mod Reach
pub mod Login
use qt_chat_app.Prelude.{◌≡◌, Option, some, has_value}
use qt_chat_app.Qt.{QUuid}
use qt_chat_app.Server.Session.{ClientConnection, Sessions, find_connection, authorized_user}
use qt_chat_app.Server.Session.Table.{Distinct}

-- Keys are distinct, each connection stands under its session id, a connection is authorized
-- exactly if it has a user, and no user is logged in on two sessions.
pub record IsValid (cs : Sessions) : Type 0 where
  pub distinct : Distinct cs
  pub keyed : (k : QUuid) (c : ClientConnection) → find_connection k cs ≡ some c → c.session_id ≡ k
  pub coherent :
      (k : QUuid) (c : ClientConnection)
      → find_connection k cs ≡ some c
      → has_value c.user_id ≡ c.is_authorized
  pub unique :
      (j k : QUuid) (c d : ClientConnection) (u : QUuid)
      → find_connection j cs ≡ some c
      → find_connection k cs ≡ some d
      → authorized_user c ≡ some u
      → authorized_user d ≡ some u
      → j ≡ k
