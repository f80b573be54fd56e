-- ===== src/Server/Sessions/Kept.antt =====
-- server/src/Server.cpp: each operation on m_clients keeps its invariant.
use qt_chat_app.Prelude.{
  ◌≡◌, false, none, some, [], ◌∷◌, arith, if◌then◌else◌, inl, inr, ◌==◌, Option-cases,
}
use qt_chat_app.Qt.{QUuid}
use qt_chat_app.Server.Session.{
  Socket, ClientConnection, Sessions, find_connection, insert_connection, modify_connection,
  new_connection, authorize, logout, erase_socket, authorized_user, is_logged_in_elsewhere,
}
use qt_chat_app.Server.Session.Table.{
  find-insert_connection, find-modify_connection, insert_connection-Distinct,
  modify_connection-Distinct, find-erase_socket, erase_socket-Distinct,
}
use qt_chat_app.Server.Sessions.{IsValid}

-- What the loop of handleLoginUser finds out.
pub logged_in_here :
    (session user j : QUuid) (d : ClientConnection) (cs : Sessions)
    → is_logged_in_elsewhere session user cs ≡ false
    → find_connection j cs ≡ some d
    → authorized_user d ≡ some user
    → d.session_id ≡ session
unfolding is_logged_in_elsewhere find_connection
logged_in_here session user j d [] h e a = cc
logged_in_here session user j d ((k, c) ∷ cs) h e a =
    ground (arith, logged_in_here session user j d cs)

modified :
    (k : QUuid) (f : ClientConnection → ClientConnection) (j : QUuid) (c : ClientConnection)
    (cs : Sessions)
    → find_connection j (modify_connection k f cs) ≡ some c
    → (b : ClientConnection) × (find_connection j cs ≡ some b) × (c ≡ (if k == j then f b else b))
modified k f j c cs e = elim (Option-cases (find_connection j cs)) [
  | inl n ↦ absurd (ground (arith, find-modify_connection j k f cs))
  | inr (b, found) ↦ (b, found, ground (arith, find-modify_connection j k f cs))
]

module _ (cs : Sessions) (v : IsValid cs) where
  pub insert_connection-IsValid :
      (k : QUuid) (s : Socket)
      → find_connection k cs ≡ none
      → IsValid (insert_connection k (new_connection k s) cs)
  unfolding new_connection authorized_user
  insert_connection-IsValid k s h = record {
    distinct = insert_connection-Distinct k _ cs v.distinct;
    keyed =
        λ j c e. ground (arith, find-insert_connection j k (new_connection k s) cs, v.keyed j c);
    coherent =
        λ j c e. ground (arith, find-insert_connection j k (new_connection k s) cs, v.coherent j c);
    unique = λ i j c d u p q a b. ground (
      arith,
      find-insert_connection i k (new_connection k s) cs,
      find-insert_connection j k (new_connection k s) cs,
      v.unique i j c d u,
    );
  }

  pub logout-IsValid : (k : QUuid) → IsValid (modify_connection k logout cs)
  unfolding logout authorized_user
  logout-IsValid k = record {
    distinct = modify_connection-Distinct k logout cs v.distinct;
    keyed = λ j c e.
        let (b, found, became) = modified k logout j c cs e in ground (arith, v.keyed j b found);
    coherent = λ j c e.
        let (b, found, became) = modified k logout j c cs e in ground (arith, v.coherent j b found);
    unique = λ i j c d u p q a b.
        let (c', found, became) = modified k logout i c cs p in
        let (d', found', became') = modified k logout j d cs q in
        ground (arith, v.unique i j c' d' u found found');
  }

  -- A login that the loop of handleLoginUser lets through.
  pub authorize-IsValid :
      (k user : QUuid) (here : ClientConnection)
      → find_connection k cs ≡ some here
      → is_logged_in_elsewhere here.session_id user cs ≡ false
      → IsValid (modify_connection k (authorize user) cs)
  unfolding authorize authorized_user
  authorize-IsValid k user here h fresh = record {
    distinct = modify_connection-Distinct k (authorize user) cs v.distinct;
    keyed = λ j c e.
        let (b, found, became) = modified k (authorize user) j c cs e in
        ground (arith, v.keyed j b found);
    coherent = λ j c e.
        let (b, found, became) = modified k (authorize user) j c cs e in
        ground (arith, v.coherent j b found);
    unique = λ i j c d u p q a b.
        let (c', found, became) = modified k (authorize user) i c cs p in
        let (d', found', became') = modified k (authorize user) j d cs q in
        ground (
          arith,
          v.unique i j c' d' u found found',
          logged_in_here here.session_id user i c' cs fresh found,
          logged_in_here here.session_id user j d' cs fresh found',
          v.keyed i c' found,
          v.keyed j d' found',
          v.keyed k here h,
        );
  }

  pub erase_socket-IsValid : (s : Socket) → IsValid (erase_socket s cs)
  erase_socket-IsValid s = record {
    distinct = erase_socket-Distinct s cs v.distinct;
    keyed = λ j c e. v.keyed j c (find-erase_socket s j c cs v.distinct e);
    coherent = λ j c e. v.coherent j c (find-erase_socket s j c cs v.distinct e);
    unique = λ i j c d u p q a b.
        v.unique i j c d u (find-erase_socket s i c cs v.distinct p)
          (find-erase_socket s j d cs v.distinct q) a b;
  }
