-- ===== src/Shared/Stream/RoundTrip.antt =====
-- shared/src/util.cpp: encapsulate and parseStream.
use qt_chat_app.Prelude.{
  All, ℕ, ◌≡◌, refl, ap, ap₂, ◌∙◌, false, List, [], ◌∷◌, ◌++◌, append_assoc, append-nil, arith,
  Bool-cases, inl, inr, ◌==◌, map, ==_iff,
}
use qt_chat_app.Qt.{Qt, QtLaws, QByteArray}
use qt_chat_app.Shared.Packet.{Packet, serialize, deserialize}
use qt_chat_app.Shared.Packet.RoundTrip.{IsPacket, drop_empty, deserialize-serialize}
use qt_chat_app.Shared.Stream.{
  delimiter, escape, escaped_delimiter, escaped_escape, unescape, parse_stream, escape_bytes,
  encapsulate,
}
use qt_chat_app.Shared.Stream.Chunks.{receive, concat, receive-concat}
use qt_chat_app.Shared.Stream.Decode.{Inside, advance, emit, decode, parse_stream-decode}

abbrev at_buffer : QByteArray → Inside
at_buffer b = record { buffer = b; escaped = false }

module _ (qt : Qt) (buffer pending ys : QByteArray) where
  decode-escaped :
      (byte : ℕ)
      → decode qt (at_buffer buffer) pending (escape ∷ byte ∷ ys)
        ≡ decode qt (at_buffer (buffer ++ unescape byte)) (pending ++ escape ∷ byte ∷ []) ys
  unfolding decode advance
  decode-escaped byte =
      ap (λ p. decode qt (at_buffer (buffer ++ unescape byte)) p ys)
        (append_assoc pending (escape ∷ []) (byte ∷ []))

  decode-plain :
      (byte : ℕ)
      → (byte == delimiter) ≡ false
      → (byte == escape) ≡ false
      → decode qt (at_buffer buffer) pending (byte ∷ ys)
        ≡ decode qt (at_buffer (buffer ++ byte ∷ [])) (pending ++ byte ∷ []) ys
  unfolding decode advance
  decode-plain byte n m = ground arith

-- The scanner reads the escaped form of `xs` as `xs`.
decode-escape_bytes :
    (qt : Qt) (buffer pending xs ys : QByteArray)
    → decode qt (at_buffer buffer) pending (escape_bytes xs ++ ys)
      ≡ decode qt (at_buffer (buffer ++ xs)) (pending ++ escape_bytes xs) ys
unfolding escape_bytes unescape
decode-escape_bytes qt buffer pending [] ys = rw (append-nil buffer, append-nil pending)
decode-escape_bytes qt buffer pending (x ∷ xs) ys = elim (Bool-cases (x == delimiter)) [
  | inl d ↦ rw ((==_iff x delimiter).0 d) (
      decode-escaped qt buffer pending (escape_bytes xs ++ ys) escaped_delimiter
      ∙ decode-escape_bytes qt (buffer ++ delimiter ∷ [])
          (pending ++ escape ∷ escaped_delimiter ∷ []) xs ys
      ∙ regroup (delimiter ∷ []) (escape ∷ escaped_delimiter ∷ []))
  | inr n ↦ elim (Bool-cases (x == escape)) [
    | inl e ↦ rw ((==_iff x escape).0 e) (
        decode-escaped qt buffer pending (escape_bytes xs ++ ys) escaped_escape
        ∙ decode-escape_bytes qt (buffer ++ escape ∷ []) (pending ++ escape ∷ escaped_escape ∷ [])
            xs ys
        ∙ regroup (escape ∷ []) (escape ∷ escaped_escape ∷ []))
    | inr m ↦
        rw (n, m)
          (decode-plain qt buffer pending (escape_bytes xs ++ ys) x n m
            ∙ decode-escape_bytes qt (buffer ++ x ∷ []) (pending ++ x ∷ []) xs ys
            ∙ regroup (x ∷ []) (x ∷ []))
  ]
]
  where
    regroup :
        (us ws : QByteArray)
        → decode qt (at_buffer ((buffer ++ us) ++ xs)) ((pending ++ ws) ++ escape_bytes xs) ys
          ≡ decode qt (at_buffer (buffer ++ (us ++ xs))) (pending ++ (ws ++ escape_bytes xs)) ys
    regroup us ws =
        ap₂ {C = List Packet × QByteArray} (λ b p. decode qt (at_buffer b) p ys)
          (append_assoc buffer us xs) (append_assoc pending ws (escape_bytes xs))

-- In front of any bytes, an encapsulated packet is found as the packet that its serialized bytes
-- stand for, and the rest of the bytes gives what it gives alone.
pub parse_stream-encapsulate :
    (qt : Qt) (p : Packet) (rest : QByteArray)
    → parse_stream qt (encapsulate qt p ++ rest)
      ≡ emit (deserialize qt (serialize qt p) ∷ []) (parse_stream qt rest)
unfolding encapsulate decode serialize
parse_stream-encapsulate qt p rest = simp (parse_stream-decode, append_assoc, decode-escape_bytes)

-- The packet that a reader of `serialize p` sees: an empty payload is not told from a missing one.
abbrev pub as_read : Packet → Packet
as_read p = record p { payload = drop_empty p.payload }

abbrev pub encapsulate_all : Qt → List Packet → QByteArray
encapsulate_all qt [] = []
encapsulate_all qt (p ∷ ps) = encapsulate qt p ++ encapsulate_all qt ps

parse_stream-nil : (qt : Qt) → parse_stream qt [] ≡ ([], [])
unfolding parse_stream
parse_stream-nil qt = refl

pub parse_stream-encapsulate_all :
    (qt : Qt) (ps : List Packet)
    → QtLaws qt
    → All IsPacket ps
    → parse_stream qt (encapsulate_all qt ps) ≡ (map as_read ps, [])
parse_stream-encapsulate_all qt [] laws v = parse_stream-nil qt
parse_stream-encapsulate_all qt (p ∷ ps) laws v = rw (
  parse_stream-encapsulate,
  deserialize-serialize qt p laws v.0,
  parse_stream-encapsulate_all qt ps laws v.1,
)

pub parse_stream-encapsulate_one :
    (qt : Qt) (p : Packet)
    → QtLaws qt
    → IsPacket p
    → parse_stream qt (encapsulate qt p) ≡ (as_read p ∷ [], [])
parse_stream-encapsulate_one qt p laws v =
    rw append-nil at (parse_stream-encapsulate_all qt (p ∷ []) laws (v, tt))

-- Packets of 128-bit UUIDs and of types that a byte can carry, sent one after another over a
-- connection that cuts their bytes into any pieces, arrive as they were sent and in that order,
-- each with an empty payload read as none, and nothing is left over. Qt's functions satisfy
-- their laws.
pub receive-encapsulate_all :
    (qt : Qt) (ps : List Packet) (chunks : List QByteArray)
    → QtLaws qt
    → All IsPacket ps
    → concat chunks ≡ encapsulate_all qt ps
    → receive qt [] chunks ≡ (map as_read ps, [])
receive-encapsulate_all qt ps chunks laws v e =
    receive-concat qt chunks ∙ ap (parse_stream qt) e ∙ parse_stream-encapsulate_all qt ps laws v
