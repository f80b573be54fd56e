-- ===== src/Tests/Wire.antt =====
-- The theorems on packets, streams and names at concrete inputs.
use qt_chat_app.Prelude.{◌≡◌, ◌↔◌, refl, some, List, [], ◌∷◌, map, arith, true}
use qt_chat_app.Qt.{QByteArray, QString}
use qt_chat_app.Shared.Packet.{Packet, logout_user, chat_message, serialize, deserialize}
use qt_chat_app.Shared.Packet.RoundTrip.{IsPacket, drop_empty, deserialize-serialize}
use qt_chat_app.Shared.Stream.{parse_stream, encapsulate}
use qt_chat_app.Shared.Stream.Decode.{decode, frame_start, parse_stream-decode}
use qt_chat_app.Shared.Stream.Chunks.{receive, concat, receive-concat}
use qt_chat_app.Shared.Stream.RoundTrip.{as_read, receive-encapsulate_all}
use qt_chat_app.Shared.Username.{is_valid_username}
use qt_chat_app.Shared.Username.Valid.{IsUsername, Body, is_valid_username_iff}
use qt_chat_app.Tests.SampleQt.{sample_qt, sample_laws}

-- A message whose payload holds the delimiter and the escape byte.
abbrev note : Packet
note = record { type = chat_message; sender = 101; receiver = 1; payload = some (0 ∷ 5 ∷ 27 ∷ []) }

abbrev goodbye : Packet
goodbye = record { type = logout_user; sender = 102; receiver = 1; payload = some [] }

note-IsPacket : IsPacket note
note-IsPacket = record { type = tt; sender = omega arith; receiver = omega arith }

goodbye-IsPacket : IsPacket goodbye
goodbye-IsPacket = record { type = tt; sender = omega arith; receiver = omega arith }

deserialize-serialize_example :
    deserialize sample_qt (serialize sample_qt note)
    ≡ record note { payload = drop_empty note.payload }
deserialize-serialize_example = deserialize-serialize sample_qt note sample_laws note-IsPacket

parse_stream-decode_example :
    parse_stream sample_qt (1 ∷ 2 ∷ 0 ∷ 3 ∷ [])
    ≡ decode sample_qt frame_start [] (1 ∷ 2 ∷ 0 ∷ 3 ∷ [])
parse_stream-decode_example = parse_stream-decode sample_qt (1 ∷ 2 ∷ 0 ∷ 3 ∷ [])

receive-concat_example :
    receive sample_qt [] ((1 ∷ 2 ∷ []) ∷ (0 ∷ []) ∷ [])
    ≡ parse_stream sample_qt (concat ((1 ∷ 2 ∷ []) ∷ (0 ∷ []) ∷ []))
receive-concat_example = receive-concat sample_qt ((1 ∷ 2 ∷ []) ∷ (0 ∷ []) ∷ [])

-- The bytes of both packets, in two pieces.
abbrev pieces : List QByteArray
pieces = encapsulate sample_qt note ∷ encapsulate sample_qt goodbye ∷ []

receive-encapsulate_all_example :
    receive sample_qt [] pieces ≡ (map as_read (note ∷ goodbye ∷ []), [])
receive-encapsulate_all_example =
    receive-encapsulate_all sample_qt (note ∷ goodbye ∷ []) pieces sample_laws
      (note-IsPacket, (goodbye-IsPacket, tt)) refl

is_valid_username_iff_example :
    (is_valid_username "ann_7" ≡ true) ↔ ((name : QString) × IsUsername name × Body name "ann_7")
is_valid_username_iff_example = is_valid_username_iff "ann_7"
