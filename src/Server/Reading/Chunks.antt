-- ===== src/Server/Reading/Chunks.antt =====
-- server/src/Server.cpp: onServerRead on bytes that come in pieces.
use qt_chat_app.Prelude.{◌≡◌, refl, List, [], ◌∷◌, ◌++◌, arith, if◌then◌else◌, ◌==◌, append_assoc}
use qt_chat_app.Qt.{Qt, QByteArray}
use qt_chat_app.Shared.Packet.{Packet}
use qt_chat_app.Shared.Stream.Chunks.{parse_stream-append}
use qt_chat_app.Server.Session.{Socket}
use qt_chat_app.Server.Storage.{Storage}
use qt_chat_app.Server.Core.{Core}
use qt_chat_app.Server.Reading.{
  Server, Fresh, Buffers, buffer_of, set_buffer, handle_packet, handle_packets, read_bytes,
}

pub buffer-set_buffer_self :
    (s : Socket) (b : QByteArray) (bs : Buffers) → buffer_of s (set_buffer s b bs) ≡ b
unfolding buffer_of set_buffer
buffer-set_buffer_self s b [] = ground arith
buffer-set_buffer_self s b ((t, c) ∷ bs) = ground (arith, buffer-set_buffer_self s b bs)

pub buffer-set_buffer :
    (s t : Socket) (b : QByteArray) (bs : Buffers)
    → buffer_of t (set_buffer s b bs) ≡ (if s == t then b else buffer_of t bs)
unfolding buffer_of set_buffer
buffer-set_buffer s t b [] = refl
buffer-set_buffer s t b ((u, c) ∷ bs) = ground (arith, buffer-set_buffer s t b bs)

set_buffer-set_buffer :
    (s : Socket) (b c : QByteArray) (bs : Buffers)
    → set_buffer s c (set_buffer s b bs) ≡ set_buffer s c bs
unfolding set_buffer
set_buffer-set_buffer s b c [] = ground arith
set_buffer-set_buffer s b c ((t, d) ∷ bs) = ground (arith, set_buffer-set_buffer s b c bs)

module _ (qt : Qt) {D : Type 0} (storage : Storage D) (fresh : Core D → Fresh) (s : Socket) where
  handle_packets-append :
      (ps qs : List Packet) (w : Core D)
      → handle_packets qt storage fresh s w (ps ++ qs)
        ≡ handle_packets qt storage fresh s (handle_packets qt storage fresh s w ps) qs
  unfolding handle_packets
  handle_packets-append [] qs w = refl
  handle_packets-append (p ∷ ps) qs w =
      handle_packets-append ps qs (handle_packet qt storage (fresh w) s w p)

  -- Bytes that come in on a socket in two pieces leave the server (the sessions, the database,
  -- the replies that were written, and the rest that waits in the socket's buffer) as they do in
  -- one piece.
  pub read_bytes-append :
      (server : Server D) (xs ys : QByteArray)
      → read_bytes qt storage fresh server s (xs ++ ys)
        ≡ read_bytes qt storage fresh (read_bytes qt storage fresh server s xs) s ys
  unfolding read_bytes
  read_bytes-append server xs ys = rw (
    ← append_assoc,
    parse_stream-append,
    buffer-set_buffer_self,
    set_buffer-set_buffer,
    handle_packets-append,
  )
