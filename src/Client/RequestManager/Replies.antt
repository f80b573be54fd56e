-- ===== src/Client/RequestManager/Replies.antt =====
-- client/src/RequestManager.cpp: what the client makes of the bytes that the server writes.
use qt_chat_app.Prelude.{
  ◌≡◌, refl, sym, ap, ◌∙◌, false, some, List, [], ◌∷◌, ◌++◌, append_assoc, is_empty, arith,
}
use qt_chat_app.Qt.{Qt, QtLaws, QUuid, QByteArray, IsUuid}
use qt_chat_app.Shared.Packet.{Packet}
use qt_chat_app.Shared.Packet.RoundTrip.{IsPacket, drop_empty}
use qt_chat_app.Shared.Stream.{parse_stream, encapsulate}
use qt_chat_app.Shared.Stream.Chunks.{parse_stream-append}
use qt_chat_app.Shared.Stream.RoundTrip.{as_read, parse_stream-encapsulate_one}
use qt_chat_app.Shared.Payload.ChatText.{
  Message, IsMessage, serialize_message, deserialize_message-serialize_message,
}
use qt_chat_app.Shared.PacketFactory.{chat_message_packet}
use qt_chat_app.Client.RequestManager.{
  RequestManager, chat_message_received, signals_of, process_packet, process_packets, process_bytes,
  update_server_id,
}

module _ (qt : Qt) where
  process_packets-append :
      (m : RequestManager) (ps qs : List Packet)
      → process_packets qt m (ps ++ qs) ≡ process_packets qt (process_packets qt m ps) qs
  unfolding process_packets
  process_packets-append m [] qs = refl
  process_packets-append m (p ∷ ps) qs = process_packets-append (process_packet qt m p) ps qs

  -- The buffer is not looked at while packets are processed.
  process_packet-buffer :
      (m : RequestManager) (b : QByteArray) (p : Packet)
      → process_packet qt (record m { incoming_buffer = b }) p
        ≡ record (process_packet qt m p) { incoming_buffer = b }
  unfolding process_packet update_server_id
  process_packet-buffer m b p = ground arith

  process_packets-buffer :
      (m : RequestManager) (b : QByteArray) (ps : List Packet)
      → process_packets qt (record m { incoming_buffer = b }) ps
        ≡ record (process_packets qt m ps) { incoming_buffer = b }
  unfolding process_packets
  process_packets-buffer m b [] = refl
  process_packets-buffer m b (p ∷ ps) =
      ap (λ (n : RequestManager). process_packets qt n ps) (process_packet-buffer m b p)
      ∙ process_packets-buffer (process_packet qt m p) b ps

  -- What processBytes does, with the buffer put last.
  process_bytes-parts :
      (m : RequestManager) (xs : QByteArray)
      → process_bytes qt m xs
        ≡ record (process_packets qt m (parse_stream qt (m.incoming_buffer ++ xs)).0) {
          incoming_buffer = (parse_stream qt (m.incoming_buffer ++ xs)).1;
        }
  unfolding process_bytes
  process_bytes-parts m xs =
      process_packets-buffer m (parse_stream qt (m.incoming_buffer ++ xs)).1
        (parse_stream qt (m.incoming_buffer ++ xs)).0

  -- Bytes that come in in two pieces leave RequestManager (its buffer, the server id and the
  -- signals) as they do in one piece.
  pub process_bytes-append :
      (m : RequestManager) (xs ys : QByteArray)
      → process_bytes qt m (xs ++ ys) ≡ process_bytes qt (process_bytes qt m xs) ys
  process_bytes-append m xs ys =
      let read = parse_stream qt (m.incoming_buffer ++ xs) in
      rw (
        process_bytes-parts m (xs ++ ys),
        process_bytes-parts m xs,
        process_bytes-parts,
        process_packets-buffer (process_packets qt m read.0) read.1,
        ← append_assoc,
        parse_stream-append,
        process_packets-append,
      )

  -- A whole packet's bytes, for a client with nothing in its buffer.
  pub process_bytes-encapsulate :
      (m : RequestManager) (p : Packet)
      → QtLaws qt
      → IsPacket p
      → m.incoming_buffer ≡ []
      → process_bytes qt m (encapsulate qt p) ≡ process_packet qt m (as_read p)
  process_bytes-encapsulate m p laws v e =
      process_bytes-parts m (encapsulate qt p)
      ∙ rw (e, parse_stream-encapsulate_one qt p laws v)
          (unfold process_packets in
            sym (process_packet-buffer (record m { incoming_buffer = [] }) [] (as_read p)))

-- The packet that carries a message, as its reader sees it.
pub chat_message_packet-IsPacket :
    (qt : Qt) (server session : QUuid) (message : Message)
    → IsUuid server
    → IsUuid session
    → IsPacket (chat_message_packet qt server session message)
unfolding chat_message_packet
chat_message_packet-IsPacket qt server session message h k = record {
  type = tt;
  sender = h;
  receiver = k;
}

pub kept : (bytes : QByteArray) → is_empty bytes ≡ false → drop_empty (some bytes) ≡ some bytes
kept [] h = cc
kept (b ∷ bytes) h = refl

pub as_read-chat_message_packet :
    (qt : Qt) (server session : QUuid) (message : Message)
    → QtLaws qt
    → as_read (chat_message_packet qt server session message)
      ≡ chat_message_packet qt server session message
unfolding chat_message_packet serialize_message
as_read-chat_message_packet qt server session message laws =
    rw (kept (serialize_message qt message) (laws.json_not_empty _))

-- A client with an empty buffer that is given the bytes of a chat message packet emits
-- chatMessageReceived for the message, and no other signal. The packet's and the message's ids
-- have 128 bits, the message's type is an int, and Qt's functions satisfy their laws.
pub process_bytes-chat_message :
    (qt : Qt) (m : RequestManager) (server session : QUuid) (message : Message)
    → QtLaws qt
    → IsUuid server
    → IsUuid session
    → IsMessage message
    → m.incoming_buffer ≡ []
    → (process_bytes qt m (encapsulate qt (chat_message_packet qt server session message))).emitted
      ≡ m.emitted ++ chat_message_received message ∷ []
process_bytes-chat_message qt m server session message laws h k v e =
    let p = chat_message_packet qt server session message in
    let not_empty : is_empty (serialize_message qt message) ≡ false =
      unfold serialize_message in laws.json_not_empty _ in
    ap (λ (n : RequestManager). n.emitted)
      (process_bytes-encapsulate qt m p laws
        (chat_message_packet-IsPacket qt server session message h k) e)
    ∙ (unfold process_packet signals_of chat_message_packet in
        rw (
          kept (serialize_message qt message) not_empty,
          deserialize_message-serialize_message qt laws message v,
        ))
