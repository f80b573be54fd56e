-- ===== src/Server/Routing/Deliveries.antt =====
-- server/src/Server.cpp: who receives a chat message.
use qt_chat_app.Prelude.{
  All, All-append, ◌≡◌, ◌≢◌, refl, ap, ◌∙◌, true, none, some, List, [], ◌∷◌, ◌++◌, ◌==◌,
  if◌then◌else◌, arith, Bool-cases, inl, inr, append-nil, append_assoc, Option-cases,
}
use qt_chat_app.Qt.{Qt, QUuid, QByteArray}
use qt_chat_app.Shared.Payload.ChatText.{Message}
use qt_chat_app.Shared.PacketFactory.{chat_message_packet}
use qt_chat_app.Shared.Stream.{encapsulate}
use qt_chat_app.Server.Session.{
  Socket, null_socket, ClientConnection, Sessions, find_connection, writes, authorized_user,
}
use qt_chat_app.Server.Session.Table.{Distinct}
use qt_chat_app.Server.Core.{Core, send_packet, contains_uuid}
use qt_chat_app.Server.Routing.{is_recipient, route}

-- The connections of `cs` are those that the table holds under their keys.
abbrev AllFound : Sessions → Sessions → Type 0
AllFound table [] = Unit
AllFound table ((k, c) ∷ cs) = (find_connection k table ≡ some c) × AllFound table cs

AllFound-cons :
    (j : QUuid) (d : ClientConnection) (table cs : Sessions)
    → find_connection j table ≡ none
    → AllFound table cs
    → AllFound ((j, d) ∷ table) cs
unfolding find_connection
AllFound-cons j d table [] h v = tt
AllFound-cons j d table ((k, c) ∷ cs) h v = ground (arith, AllFound-cons j d table cs h v.1)

Distinct-AllFound : (cs : Sessions) → Distinct cs → AllFound cs cs
Distinct-AllFound [] v = tt
Distinct-AllFound ((k, c) ∷ cs) v =
    (unfold find_connection in ground arith, AllFound-cons k c cs cs v.0 (Distinct-AllFound cs v.1))

-- What is written: a packet for each recipient, to its socket, in the order of the table.
unfoldable pub deliveries :
    Qt → QUuid → QUuid → List QUuid → Message → Sessions → List (Socket × QByteArray)
deliveries qt uuid session members message [] = []
deliveries qt uuid session members message ((k, c) ∷ cs) =
    (if is_recipient members session k c
      then writes qt c (chat_message_packet qt uuid k message)
      else [])
    ++ deliveries qt uuid session members message cs

module _ (qt : Qt) {D : Type 0} (session : QUuid) (members : List QUuid) (message : Message) where
  route-deliveries :
      (cs : Sessions) (w : Core D)
      → AllFound w.clients cs
      → route qt w session members message cs
        ≡ record w { written = w.written ++ deliveries qt w.uuid session members message cs }
  unfolding route deliveries send_packet
  route-deliveries [] w v = rw append-nil
  route-deliveries ((k, c) ∷ cs) w v = elim (Bool-cases (is_recipient members session k c)) [
    | inl y ↦
        rw (y, v.0)
          (route-deliveries cs
              (record w {
                written = w.written ++ writes qt c (chat_message_packet qt w.uuid k message);
              })
              v.1
            ∙ ap (λ (out : List (Socket × QByteArray)). record w { written = out })
                (append_assoc w.written _ _))
    | inr n ↦ rw n (route-deliveries cs w v.1)
  ]

  -- Routing writes to the recipients, once each.
  pub route-clients :
      (w : Core D)
      → Distinct w.clients
      → route qt w session members message w.clients
        ≡ record w { written = w.written ++ deliveries qt w.uuid session members message w.clients }
  route-clients w v = route-deliveries w.clients w (Distinct-AllFound w.clients v)

-- The write is the message's packet for a session other than the sender's, on which a member of
-- the chat is logged in.
abbrev pub IsDelivery :
    Qt → QUuid → QUuid → List QUuid → Message → Sessions → Socket × QByteArray → Type 0
IsDelivery qt uuid session members message cs (s, bytes) =
    (k : QUuid) × (c : ClientConnection) × (u : QUuid) × (find_connection k cs ≡ some c)
    × (authorized_user c ≡ some u)
    × (contains_uuid u members ≡ true)
    × (k ≢ session)
    × (s ≡ c.socket)
    × (bytes ≡ encapsulate qt (chat_message_packet qt uuid k message))

module _ (qt : Qt) (uuid session : QUuid) (members : List QUuid) (message : Message) where
  writes-IsDelivery :
      (table : Sessions) (k u : QUuid) (c : ClientConnection)
      → find_connection k table ≡ some c
      → authorized_user c ≡ some u
      → is_recipient members session k c ≡ true
      → All
          (IsDelivery qt uuid session members message table)
          (writes qt c (chat_message_packet qt uuid k message))
  unfolding writes is_recipient
  writes-IsDelivery table k u c e a h = elim (Bool-cases (c.socket == null_socket)) [
    | inl z ↦ rw z tt
    | inr n ↦ rw n ((k, c, u, e, a, ground arith, ground arith, refl, refl), tt)
  ]

  deliveries-AllFound :
      (table cs : Sessions)
      → AllFound table cs
      → All
          (IsDelivery qt uuid session members message table)
          (deliveries qt uuid session members message cs)
  unfolding deliveries
  deliveries-AllFound table [] v = tt
  deliveries-AllFound table ((k, c) ∷ cs) v = elim (Bool-cases (is_recipient members session k c)) [
    | inr n ↦ rw n (deliveries-AllFound table cs v.1)
    | inl y ↦ elim (Option-cases (authorized_user c)) [
      | inl none_in ↦ absurd (unfold is_recipient in ground arith)
      | inr (u, a) ↦ rw y (
          All-append (IsDelivery qt uuid session members message table) _ _
            (writes-IsDelivery table k u c v.0 a y) (deliveries-AllFound table cs v.1))
    ]
  ]

  -- If session ids are distinct, each entry of `deliveries` is the message's packet for a
  -- session other than the sender's, on which a member of the chat is logged in, and goes to
  -- that session's socket.
  pub deliveries-IsDelivery :
      (cs : Sessions)
      → Distinct cs
      → All
          (IsDelivery qt uuid session members message cs)
          (deliveries qt uuid session members message cs)
  deliveries-IsDelivery cs v = deliveries-AllFound cs cs (Distinct-AllFound cs v)
