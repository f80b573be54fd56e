-- ===== src/Shared/Stream/Decode.antt =====
-- shared/src/util.cpp: parseStream without its index and its count of consumed bytes. `decode` keeps
-- the bytes since the last delimiter in `pending`, which is what parseStream leaves in its argument.
use qt_chat_app.Prelude.{
  ℕ, zero, suc, ap₂, ◌+◌, ◌≡◌, refl, sym, ◌∙◌, Bool, true, false, List, [], ◌∷◌, ◌++◌, ltb, ◌==◌,
  if◌then◌else◌, drop, is_empty, append_assoc, append-nil, arith, length, length-append,
  drop-append, Bool-cases, inl, inr,
}
use qt_chat_app.Qt.{Qt, QByteArray}
use qt_chat_app.Shared.Packet.{Packet, deserialize}
use qt_chat_app.Shared.Stream.{
  delimiter, escape, unescape, Scan, scan_start, scan_byte, scan_loop, parse_stream,
}

-- Where the scanner stands inside a frame.
pub record Inside : Type 0 where
  pub buffer : QByteArray
  pub escaped : Bool

abbrev pub frame_start : Inside
frame_start = record { buffer = []; escaped = false }

abbrev pub is_end : Inside → ℕ → Bool
is_end s byte = if s.escaped then false else byte == delimiter

unfoldable pub advance : Inside → ℕ → Inside
advance s byte =
    if s.escaped
    then record { buffer = s.buffer ++ unescape byte; escaped = false }
    else if byte == escape
    then record s { escaped = true }
    else record s { buffer = s.buffer ++ byte ∷ [] }

abbrev pub frame_packets : Qt → QByteArray → List Packet
frame_packets qt buffer = if is_empty buffer then [] else deserialize qt buffer ∷ []

abbrev pub emit : List Packet → List Packet × QByteArray → List Packet × QByteArray
emit ms (ns, left) = (ms ++ ns, left)

unfoldable pub decode : Qt → Inside → QByteArray → QByteArray → List Packet × QByteArray
decode qt s pending [] = ([], pending)
decode qt s pending (byte ∷ rest) =
    let ended = emit (frame_packets qt s.buffer) (decode qt frame_start [] rest) in
    let more = decode qt (advance s byte) (pending ++ byte ∷ []) rest in
    if is_end s byte then ended else more

abbrev scan_at : List Packet → Inside → ℕ → Scan
scan_at ms s c = record { messages = ms; buffer = s.buffer; escaped = s.escaped; consumed = c }

scan_end :
    (qt : Qt) (ms : List Packet) (s : Inside) (c i byte : ℕ)
    → is_end s byte ≡ true
    → scan_byte qt (scan_at ms s c) i byte
      ≡ scan_at (ms ++ frame_packets qt s.buffer) frame_start (i + 1)
unfolding scan_byte
scan_end qt ms s c i byte h = ground (arith, append-nil ms)

scan_more :
    (qt : Qt) (ms : List Packet) (s : Inside) (c i byte : ℕ)
    → is_end s byte ≡ false
    → scan_byte qt (scan_at ms s c) i byte ≡ scan_at ms (advance s byte) c
unfolding scan_byte advance
scan_more qt ms s c i byte h = ground arith

-- What the loop of parseStream ends with, in terms of `decode`.
record Decodes (ms : List Packet) (full : QByteArray) (r : List Packet × QByteArray) (t : Scan)
    : Type 0 where
  messages : t.messages ≡ ms ++ r.0
  left : drop t.consumed full ≡ r.1

Decodes-emit :
    (ms ns : List Packet) (full : QByteArray) {r : List Packet × QByteArray} {t : Scan}
    → Decodes (ms ++ ns) full r t
    → Decodes ms full (emit ns r) t
Decodes-emit ms ns full d = record { messages = d.messages ∙ append_assoc ms ns _; left = d.left }

module _ (qt : Qt) (full : QByteArray) where
  scan_loop-Decodes :
      (ms : List Packet) (s : Inside) (c i : ℕ) (pre pending rest : QByteArray)
      → length pre ≡ c
      → c + length pending ≡ i
      → pre ++ (pending ++ rest) ≡ full
      → Decodes ms full (decode qt s pending rest) (scan_loop qt (scan_at ms s c) i rest)
  unfolding decode scan_loop
  scan_loop-Decodes ms s c i pre pending [] hc hi e = record {
    messages = sym (append-nil ms);
    left = rw (← e, append-nil pending) (drop-append c pre pending hc);
  }
  scan_loop-Decodes ms s c i pre pending (byte ∷ rest) hc hi e = elim (Bool-cases (is_end s byte)) [
    | inl ended ↦
        rw (ended, scan_end qt ms s c i byte ended)
          (Decodes-emit ms (frame_packets qt s.buffer) full (
            scan_loop-Decodes (ms ++ frame_packets qt s.buffer) frame_start (i + 1) (i + 1)
              (pre ++ (pending ++ byte ∷ [])) [] rest
              (omega (
                arith,
                length-append pre (pending ++ byte ∷ []),
                length-append pending (byte ∷ []),
              ))
              (omega arith) (rw (append_assoc, append_assoc) e)))
    | inr more ↦
        rw (more, scan_more qt ms s c i byte more)
          (scan_loop-Decodes ms (advance s byte) c (i + 1) pre (pending ++ byte ∷ []) rest hc
            (omega (arith, length-append pending (byte ∷ []))) (rw append_assoc e))
  ]

left_over : (c : ℕ) (bytes : QByteArray) → (if ltb 0 c then drop c bytes else bytes) ≡ drop c bytes
left_over zero bytes = refl
left_over (suc c) bytes = ground arith

-- parseStream, which scans an indexed buffer with an escape flag and cuts off what it consumed,
-- computes what `decode`, a transducer that reads the bytes once and keeps the unfinished frame,
-- computes from the start of a frame.
pub parse_stream-decode :
    (qt : Qt) (bytes : QByteArray) → parse_stream qt bytes ≡ decode qt frame_start [] bytes
unfolding parse_stream
parse_stream-decode qt bytes =
    let t = scan_loop qt scan_start 0 bytes in
    let d = scan_loop-Decodes qt bytes [] frame_start 0 0 [] [] bytes refl refl refl in
    ap₂ {C = List Packet × QByteArray} (λ ms left. (ms, left)) d.messages
      (left_over t.consumed bytes ∙ d.left)
