-- ===== src/Exchange.antt =====
-- A message on its way: from client/src/RequestManager of the one who sends it through
-- server/src/Server to the RequestManager of each one who receives it.
pub mod Heard
pub mod Answers
pub mod Login
use qt_chat_app.Prelude.{◌≡◌, refl, ap, ◌∙◌, true, false, some, List, [], ◌∷◌, ◌++◌, All, All-map}
use qt_chat_app.Qt.{Qt, QtLaws, QUuid, QByteArray, IsUuid, is_null}
use qt_chat_app.Shared.Packet.{Packet}
use qt_chat_app.Shared.Packet.RoundTrip.{IsPacket}
use qt_chat_app.Shared.Stream.{encapsulate}
use qt_chat_app.Shared.Stream.RoundTrip.{as_read, parse_stream-encapsulate_one}
use qt_chat_app.Shared.Payload.ChatText.{
  Message, IsMessage, serialize_message, deserialize_message, deserialize_message-serialize_message,
}
use qt_chat_app.Shared.PacketFactory.{chat_message_packet}
use qt_chat_app.Server.Session.{Socket, ClientConnection, Sessions, find_connection}
use qt_chat_app.Server.Session.Table.{Distinct}
use qt_chat_app.Server.Storage.{Storage}
use qt_chat_app.Server.Core.{Core}
use qt_chat_app.Server.Routing.Deliveries.{deliveries, IsDelivery, deliveries-IsDelivery}
use qt_chat_app.Server.Routing.Refusals.{may_send, normalized}
use qt_chat_app.Server.Reading.{Server, Fresh, buffer_of, handle_packet, handle_packets, read_bytes}
use qt_chat_app.Server.Reading.Messages.{handle_packet-deliveries}
use qt_chat_app.Client.RequestManager.{RequestManager, chat_message_received, process_bytes}
use qt_chat_app.Client.RequestManager.Replies.{
  chat_message_packet-IsPacket, process_bytes-chat_message, as_read-chat_message_packet,
}

-- A client with an empty buffer that is given the bytes of the write emits the message.
abbrev pub Emits : Qt → Message → Socket × QByteArray → Type 0
Emits qt message (s, bytes) =
    (m : RequestManager)
    → m.incoming_buffer ≡ []
    → (process_bytes qt m bytes).emitted ≡ m.emitted ++ chat_message_received message ∷ []

module _ (qt : Qt) (laws : QtLaws qt) {D : Type 0} (storage : Storage D) where
  -- The bytes of a packet, for a server with nothing in the socket's buffer.
  pub core-read_bytes :
      (fresh : Core D → Fresh) (server : Server D) (s : Socket) (p : Packet)
      → IsPacket p
      → buffer_of s server.socket_buffers ≡ []
      → (read_bytes qt storage fresh server s (encapsulate qt p)).core
        ≡ handle_packet qt storage (fresh server.core) s server.core (as_read p)
  unfolding read_bytes handle_packets
  core-read_bytes fresh server s p v e = rw (e, parse_stream-encapsulate_one qt p laws v)

  -- The bytes that a client sends for a message make the server write it to the recipients that
  -- `deliveries` lists, and change nothing else, if the client's session is authorized for a
  -- user who may send it. The message's ids, the session's, which is not null, and the server's
  -- have 128 bits, the message's type is an int, nothing waits in the socket's buffer, session
  -- ids are distinct, and Qt's functions satisfy their laws.
  pub read_bytes-chat_message :
      (fresh : Core D → Fresh) (server : Server D) (s : Socket) (m : RequestManager)
      (c : ClientConnection) (user : QUuid) (message : Message)
      → IsUuid m.session_id
      → IsUuid m.server_id
      → IsMessage message
      → buffer_of s server.socket_buffers ≡ []
      → Distinct server.core.clients
      → is_null m.session_id ≡ false
      → find_connection m.session_id server.core.clients ≡ some c
      → c.is_authorized ≡ true
      → c.user_id ≡ some user
      → may_send qt storage server.core.db message user ≡ true
      → (read_bytes qt storage fresh server s
          (encapsulate qt (chat_message_packet qt m.session_id m.server_id message))).core
        ≡ record (server.core) {
          written =
              server.core.written
              ++ deliveries qt server.core.uuid c.session_id
                  (storage.get_user_ids_by_chat_id server.core.db message.target_chat_id)
                  (normalized qt storage message user)
                  server.core.clients;
        }
  read_bytes-chat_message fresh server s m c user message h k v b d n f a u ok =
      core-read_bytes fresh server s (chat_message_packet qt m.session_id m.server_id message)
        (chat_message_packet-IsPacket qt m.session_id m.server_id message h k) b
      ∙ rw (as_read-chat_message_packet qt m.session_id m.server_id message laws) handled
    where
      read_back : deserialize_message qt (serialize_message qt message) ≡ message
      read_back = deserialize_message-serialize_message qt laws message v

      handled :
          handle_packet qt storage
            (fresh server.core)
            s
            server.core
            (chat_message_packet qt m.session_id m.server_id message)
          ≡ record (server.core) {
            written =
                server.core.written
                ++ deliveries qt server.core.uuid c.session_id
                    (storage.get_user_ids_by_chat_id server.core.db message.target_chat_id)
                    (normalized qt storage message user)
                    server.core.clients;
          }
      handled =
          unfold chat_message_packet in
          rw read_back at (
            handle_packet-deliveries qt storage (fresh server.core) s server.core
              (chat_message_packet qt m.session_id m.server_id message) c user
              (serialize_message qt message) d refl n f a u refl (rw read_back ok))

module _ (qt : Qt) (laws : QtLaws qt) where
  -- Each client with an empty buffer that is given the bytes that the server writes for a
  -- message emits chatMessageReceived for that very message, and no other signal. The message's
  -- ids, the server's and the sessions' have 128 bits, its type is an int, session ids are
  -- distinct, and Qt's functions satisfy their laws.
  pub deliveries-emitted :
      (uuid session : QUuid) (members : List QUuid) (message : Message) (cs : Sessions)
      → Distinct cs
      → IsUuid uuid
      → ((k : QUuid) (c : ClientConnection) → find_connection k cs ≡ some c → IsUuid k)
      → IsMessage message
      → All (Emits qt message) (deliveries qt uuid session members message cs)
  deliveries-emitted uuid session members message cs d h ids v =
      All-map (IsDelivery qt uuid session members message cs) (Emits qt message) emits _
        (deliveries-IsDelivery qt uuid session members message cs d)
    where
      emits :
          (w : Socket × QByteArray)
          → IsDelivery qt uuid session members message cs w
          → Emits qt message w
      emits (s, bytes) (k, c, u, found, _, _, _, _, e) m empty =
          ap (λ (b : QByteArray). (process_bytes qt m b).emitted) e
          ∙ process_bytes-chat_message qt m uuid k message laws h (ids k c found) v empty
