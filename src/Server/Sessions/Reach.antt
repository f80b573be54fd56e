-- ===== src/Server/Sessions/Reach.antt =====
-- server/src/Server.cpp: the invariant of m_clients after any events.
use qt_chat_app.Prelude.{◌≡◌, sym, subst, [], Bool-cases, inl, inr, ◌==◌}
use qt_chat_app.Qt.{Qt, QByteArray}
use qt_chat_app.Server.Session.{Socket, null_socket, find_connection}
use qt_chat_app.Server.Storage.{Storage}
use qt_chat_app.Server.Core.{Core}
use qt_chat_app.Server.Reading.{
  Server, Fresh, read_bytes, on_new_connection, on_client_disconnected,
}
use qt_chat_app.Server.Sessions.{IsValid}
use qt_chat_app.Server.Sessions.Packets.{handle_packets-IsValid}
use qt_chat_app.Server.Sessions.Kept.{erase_socket-IsValid}

pub empty-IsValid : IsValid []
unfolding find_connection
empty-IsValid = record {
  distinct = tt;
  keyed = λ k c e. cc;
  coherent = λ k c e. cc;
  unique = λ j k c d u p q a b. cc;
}

module _ (qt : Qt) {D : Type 0} (storage : Storage D) where
  -- What can happen to a running server.
  pub data Step : Server D → Server D → Type 0 where
    connected : (server : Server D) (s : Socket) → Step server (on_new_connection server s)
    received :
        (server : Server D) (fresh : Core D → Fresh) (s : Socket) (bytes : QByteArray)
        → Step server (read_bytes qt storage fresh server s bytes)
    disconnected : (server : Server D) (s : Socket) → Step server (on_client_disconnected server s)

  pub data Reach (start : Server D) : Server D → Type 0 where
    here : Reach start start
    next : {a b : Server D} → Reach start a → Step a b → Reach start b

  Step-IsValid : {a b : Server D} → Step a b → IsValid a.core.clients → IsValid b.core.clients
  unfolding on_new_connection read_bytes on_client_disconnected
  Step-IsValid (connected server s) v = elim (Bool-cases (s == null_socket)) [
    | inl n ↦ rw n v
    | inr c ↦ rw c v
  ]
  Step-IsValid (received server fresh s bytes) v =
      handle_packets-IsValid qt storage fresh s _ server.core v
  Step-IsValid (disconnected server s) v = elim (Bool-cases (s == null_socket)) [
    | inl n ↦ rw n v
    | inr c ↦ rw c (erase_socket-IsValid server.core.clients v s)
  ]

  -- From a server without sessions, any sequence of connections, received bytes and
  -- disconnections leads to sessions that are valid: session ids are distinct, each connection
  -- stands under its session id, a connection is authorized exactly if it has a user, and no
  -- user is logged in on two sessions.
  pub Reach-IsValid :
      (start server : Server D)
      → start.core.clients ≡ []
      → Reach start server
      → IsValid server.core.clients
  Reach-IsValid start server e here = subst IsValid (sym e) empty-IsValid
  Reach-IsValid start server e (next r step) = Step-IsValid step (Reach-IsValid start _ e r)
