-- ===== src/Server/Session/Table.antt =====
-- server/src/Server.cpp: m_clients as a table of keys and connections.
use qt_chat_app.Prelude.{◌≡◌, refl, Option, none, some, [], ◌∷◌, ◌==◌, if◌then◌else◌, arith}
use qt_chat_app.Qt.{QUuid}
use qt_chat_app.Server.Session.{
  Socket, ClientConnection, Sessions, find_connection, insert_connection, modify_connection,
  erase_socket,
}

abbrev pub mapped :
    (ClientConnection → ClientConnection) → Option ClientConnection → Option ClientConnection
mapped f none = none
mapped f (some c) = some (f c)

pub find-insert_connection :
    (k j : QUuid) (c : ClientConnection) (cs : Sessions)
    → find_connection k (insert_connection j c cs)
      ≡ (if j == k then some c else find_connection k cs)
unfolding find_connection insert_connection
find-insert_connection k j c [] = refl
find-insert_connection k j c ((i, d) ∷ cs) = ground (arith, find-insert_connection k j c cs)

pub find-modify_connection :
    (k j : QUuid) (f : ClientConnection → ClientConnection) (cs : Sessions)
    → find_connection k (modify_connection j f cs)
      ≡ (if j == k then mapped f (find_connection k cs) else find_connection k cs)
unfolding find_connection modify_connection
find-modify_connection k j f [] = ground arith
find-modify_connection k j f ((i, d) ∷ cs) = ground (arith, find-modify_connection k j f cs)

-- Every key stands in the table once.
abbrev pub Distinct : Sessions → Type 0
Distinct [] = Unit
Distinct ((k, c) ∷ cs) = (find_connection k cs ≡ none) × Distinct cs

pub insert_connection-Distinct :
    (j : QUuid) (c : ClientConnection) (cs : Sessions)
    → Distinct cs
    → Distinct (insert_connection j c cs)
unfolding insert_connection find_connection
insert_connection-Distinct j c [] v = (refl, tt)
insert_connection-Distinct j c ((i, d) ∷ cs) v =
    ground (arith, find-insert_connection i j c cs, insert_connection-Distinct j c cs v.1)

pub modify_connection-Distinct :
    (j : QUuid) (f : ClientConnection → ClientConnection) (cs : Sessions)
    → Distinct cs
    → Distinct (modify_connection j f cs)
unfolding modify_connection
modify_connection-Distinct j f [] v = tt
modify_connection-Distinct j f ((i, d) ∷ cs) v =
    ground (arith, find-modify_connection i j f cs, modify_connection-Distinct j f cs v.1)

-- What the table without the socket's connection holds, it held before.
pub find-erase_socket :
    (s : Socket) (k : QUuid) (c : ClientConnection) (cs : Sessions)
    → Distinct cs
    → find_connection k (erase_socket s cs) ≡ some c
    → find_connection k cs ≡ some c
unfolding find_connection erase_socket
find-erase_socket s k c [] v e = e
find-erase_socket s k c ((i, d) ∷ cs) v e = ground (arith, find-erase_socket s k c cs v.1)

find-erase_socket-none :
    (s : Socket) (k : QUuid) (cs : Sessions)
    → find_connection k cs ≡ none
    → find_connection k (erase_socket s cs) ≡ none
unfolding find_connection erase_socket
find-erase_socket-none s k [] e = refl
find-erase_socket-none s k ((i, d) ∷ cs) e = ground (arith, find-erase_socket-none s k cs)

pub erase_socket-Distinct :
    (s : Socket) (cs : Sessions) → Distinct cs → Distinct (erase_socket s cs)
unfolding erase_socket
erase_socket-Distinct s [] v = tt
erase_socket-Distinct s ((i, d) ∷ cs) v =
    ground (arith, find-erase_socket-none s i cs v.0, erase_socket-Distinct s cs v.1)
