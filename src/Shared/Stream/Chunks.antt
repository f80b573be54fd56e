-- ===== src/Shared/Stream/Chunks.antt =====
-- shared/src/util.cpp: parseStream on a stream that comes in pieces.
use qt_chat_app.Prelude.{
  ℕ, ◌≡◌, refl, sym, ap, ◌∙◌, false, List, [], ◌∷◌, ◌++◌, append_assoc, append-nil, Bool-cases, inl,
  inr,
}
use qt_chat_app.Qt.{Qt, QByteArray}
use qt_chat_app.Shared.Packet.{Packet}
use qt_chat_app.Shared.Stream.{parse_stream}
use qt_chat_app.Shared.Stream.Decode.{
  Inside, frame_start, is_end, advance, frame_packets, emit, decode, parse_stream-decode,
}

-- `pending` are the bytes of an unfinished frame that bring the scanner to `s`.
abbrev IsPending : Qt → Inside → QByteArray → Type 0
IsPending qt s pending =
    (ys : QByteArray) → decode qt frame_start [] (pending ++ ys) ≡ decode qt s pending ys

decode-more :
    (qt : Qt) (s : Inside) (pending ys : QByteArray) (byte : ℕ)
    → is_end s byte ≡ false
    → decode qt s pending (byte ∷ ys) ≡ decode qt (advance s byte) (pending ++ byte ∷ []) ys
unfolding decode
decode-more qt s pending ys byte h = rw h

advance-IsPending :
    (qt : Qt) (s : Inside) (pending : QByteArray) (byte : ℕ)
    → is_end s byte ≡ false
    → IsPending qt s pending
    → IsPending qt (advance s byte) (pending ++ byte ∷ [])
advance-IsPending qt s pending byte h v ys =
    ap (decode qt frame_start []) (append_assoc pending (byte ∷ []) ys)
    ∙ v (byte ∷ ys)
    ∙ decode-more qt s pending ys byte h

-- What `ys` adds behind the bytes that are left over.
abbrev pub resume : Qt → List Packet × QByteArray → QByteArray → List Packet × QByteArray
resume qt (ms, left) ys = emit ms (decode qt frame_start [] (left ++ ys))

resume-emit :
    (qt : Qt) (ms : List Packet) (r : List Packet × QByteArray) (ys : QByteArray)
    → resume qt (emit ms r) ys ≡ emit ms (resume qt r ys)
resume-emit qt ms (ns, left) ys = rw append_assoc

decode-append :
    (qt : Qt) (s : Inside) (pending xs ys : QByteArray)
    → IsPending qt s pending
    → decode qt s pending (xs ++ ys) ≡ resume qt (decode qt s pending xs) ys
unfolding decode
decode-append qt s pending [] ys v = sym (v ys)
decode-append qt s pending (byte ∷ xs) ys v = elim (Bool-cases (is_end s byte)) [
  | inl ended ↦ rw ended (
      ap (emit (frame_packets qt s.buffer)) (decode-append qt frame_start [] xs ys (λ zs. refl))
      ∙ sym (resume-emit qt (frame_packets qt s.buffer) (decode qt frame_start [] xs) ys))
  | inr more ↦ rw more (
      decode-append qt (advance s byte) (pending ++ byte ∷ []) xs ys
        (advance-IsPending qt s pending byte more v))
]

-- One call on `xs ++ ys` finds the packets of a call on `xs` and those of a second call on what
-- the first left with `ys` behind it, in that order, and leaves what the second leaves.
pub parse_stream-append :
    (qt : Qt) (xs ys : QByteArray)
    → let (ms, left) = parse_stream qt xs in
      parse_stream qt (xs ++ ys)
      ≡ (ms ++ (parse_stream qt (left ++ ys)).0, (parse_stream qt (left ++ ys)).1)
parse_stream-append qt xs ys =
    simp parse_stream-decode (decode-append qt frame_start [] xs ys (λ zs. refl))

-- The receiving ends append what arrives to a buffer and call parseStream on it:
-- RequestManager::processBytes, and Server::onServerRead for the buffer of a socket.
unfoldable pub receive : Qt → QByteArray → List QByteArray → List Packet × QByteArray
receive qt buffer [] = ([], buffer)
receive qt buffer (chunk ∷ chunks) =
    let (ms, left) = parse_stream qt (buffer ++ chunk) in emit ms (receive qt left chunks)

abbrev pub concat : List QByteArray → QByteArray
concat [] = []
concat (chunk ∷ chunks) = chunk ++ concat chunks

receive-decode :
    (qt : Qt) (xs : QByteArray) (chunks : List QByteArray)
    → emit (parse_stream qt xs).0 (receive qt (parse_stream qt xs).1 chunks)
      ≡ parse_stream qt (xs ++ concat chunks)
unfolding receive
receive-decode qt xs [] = rw (append-nil (parse_stream qt xs).0, append-nil xs)
receive-decode qt xs (chunk ∷ chunks) =
    rw (parse_stream-append qt xs chunk, append_assoc, append_assoc) at
      (receive-decode qt (xs ++ chunk) chunks)

-- However the bytes of a stream are cut into pieces, a receiver that keeps what parseStream
-- leaves and appends the next piece finds the packets, and keeps the unfinished rest, of one
-- call on the whole stream.
pub receive-concat :
    (qt : Qt) (chunks : List QByteArray) → receive qt [] chunks ≡ parse_stream qt (concat chunks)
unfolding parse_stream
receive-concat qt chunks = receive-decode qt [] chunks
