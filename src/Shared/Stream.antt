-- ===== src/Shared/Stream.antt =====
-- shared/src/util.h and shared/src/util.cpp: packets on a byte stream. A packet is its serialized
-- bytes with DELIMITER and ESCAPE escaped, and a DELIMITER behind them. The index and the count of
-- consumed bytes are natural numbers: a buffer of 2^31 bytes or more is not modelled.
pub mod Decode
pub mod Chunks
pub mod RoundTrip
use qt_chat_app.Prelude.{
  ℕ, suc, ◌+◌, Bool, true, false, List, [], ◌∷◌, ◌++◌, ltb, ◌==◌, if◌then◌else◌, drop, is_empty,
}
use qt_chat_app.Qt.{Qt, QByteArray}
use qt_chat_app.Shared.Packet.{Packet, serialize, deserialize}

abbrev pub delimiter : ℕ
delimiter = 0xF0

abbrev pub escape : ℕ
escape = 0xF1

abbrev pub escaped_delimiter : ℕ
escaped_delimiter = 0x00

abbrev pub escaped_escape : ℕ
escaped_escape = 0x01

-- The locals of parseStream.
pub record Scan : Type 0 where
  pub messages : List Packet
  pub buffer : QByteArray
  pub escaped : Bool
  pub consumed : ℕ

abbrev pub scan_start : Scan
scan_start = record { messages = []; buffer = []; escaped = false; consumed = 0 }

-- What the byte behind an ESCAPE stands for.
unfoldable pub unescape : ℕ → QByteArray
unescape byte =
    if byte == escaped_delimiter
    then delimiter ∷ []
    else if byte == escaped_escape
    then escape ∷ []
    else escape ∷ byte ∷ []

-- One round of the loop, at index `i`.
unfoldable pub scan_byte : Qt → Scan → ℕ → ℕ → Scan
unfolding unescape
scan_byte qt s i byte =
    if s.escaped
    then record s { buffer = s.buffer ++ unescape byte; escaped = false }
    else if byte == escape
    then record s { escaped = true }
    else if byte == delimiter
    then record {
      messages =
          if is_empty s.buffer then s.messages else s.messages ++ deserialize qt s.buffer ∷ [];
      buffer = [];
      escaped = s.escaped;
      consumed = i + 1;
    }
    else record s { buffer = s.buffer ++ byte ∷ [] }

-- The loop, over the bytes from index `i` on.
unfoldable pub scan_loop : Qt → Scan → ℕ → QByteArray → Scan
scan_loop qt s i [] = s
scan_loop qt s i (byte ∷ rest) = scan_loop qt (scan_byte qt s i byte) (i + 1) rest

-- parseStream returns the messages and the new value of `bytes`, its argument by reference.
unfoldable pub parse_stream : Qt → QByteArray → List Packet × QByteArray
unfolding scan_loop scan_byte
parse_stream qt bytes =
    let s = scan_loop qt scan_start 0 bytes in
    (s.messages, if ltb 0 s.consumed then drop s.consumed bytes else bytes)

-- parse
unfoldable pub parse : Qt → QByteArray → List Packet
unfolding parse_stream
parse qt bytes = (parse_stream qt bytes).0

-- The loop of encapsulate.
unfoldable pub escape_bytes : QByteArray → QByteArray
escape_bytes [] = []
escape_bytes (byte ∷ rest) =
    (if byte == delimiter
      then escape ∷ escaped_delimiter ∷ []
      else if byte == escape
      then escape ∷ escaped_escape ∷ []
      else byte ∷ [])
    ++ escape_bytes rest

-- encapsulate
unfoldable pub encapsulate : Qt → Packet → QByteArray
encapsulate qt p = escape_bytes (serialize qt p) ++ delimiter ∷ []
