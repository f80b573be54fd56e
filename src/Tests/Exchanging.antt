-- ===== src/Tests/Exchanging.antt =====
-- The theorems on messages between clients at the sample server.
use qt_chat_app.Prelude.{take, drop, ◌≡◌, refl, All, some, [], ◌∷◌, ◌++◌, arith}
use qt_chat_app.Qt.{QUuid, QByteArray, IsUuid}
use qt_chat_app.Shared.Stream.{encapsulate}
use qt_chat_app.Shared.Payload.ChatText.{Message, IsMessage, text}
use qt_chat_app.Shared.PacketFactory.{chat_message_packet}
use qt_chat_app.Server.Session.{ClientConnection, Sessions, find_connection}
use qt_chat_app.Server.Session.Table.{Distinct}
use qt_chat_app.Server.Core.{contains_uuid}
use qt_chat_app.Server.Routing.Deliveries.{deliveries}
use qt_chat_app.Server.Routing.Refusals.{may_send, normalized}
use qt_chat_app.Server.Reading.{buffer_of, read_bytes}
use qt_chat_app.Client.RequestManager.{RequestManager, process_bytes}
use qt_chat_app.Client.RequestManager.Replies.{process_bytes-append}
use qt_chat_app.Exchange.{Emits, read_bytes-chat_message, deliveries-emitted}
use qt_chat_app.Tests.SampleQt.{sample_qt, sample_laws}
use qt_chat_app.Tests.SampleServer.{
  sample_storage, session_of, sample_sessions, sample_server, sample_fresh,
}

abbrev greeting : Message
greeting = record { sender_user_id = 7; target_chat_id = 5; type = text; content = "hi" }

greeting-IsMessage : IsMessage greeting
greeting-IsMessage = record { sender = omega arith; chat = omega arith; type = tt }

-- The client of session 101.
abbrev client : RequestManager
client = record { incoming_buffer = []; session_id = 101; server_id = 1; emitted = []; sent = [] }

abbrev greeting_bytes : QByteArray
greeting_bytes = encapsulate sample_qt (chat_message_packet sample_qt 1 101 greeting)

sessions-Distinct : Distinct sample_sessions
unfolding find_connection
sessions-Distinct = (refl, (refl, (refl, (refl, tt))))

read_bytes-chat_message_example :
    (read_bytes sample_qt sample_storage sample_fresh sample_server 1
      (encapsulate sample_qt (chat_message_packet sample_qt 101 1 greeting))).core
    ≡ record (sample_server.core) {
      written =
          sample_server.core.written
          ++ deliveries sample_qt 1 101
              (sample_storage.get_user_ids_by_chat_id sample_server.core.db 5)
              (normalized sample_qt sample_storage greeting 7)
              sample_sessions;
    }
unfolding find_connection may_send contains_uuid buffer_of
read_bytes-chat_message_example =
    read_bytes-chat_message sample_qt sample_laws sample_storage sample_fresh sample_server 1 client
      (session_of 101 1 (some 7)) 7 greeting (omega arith) (omega arith) greeting-IsMessage refl
      sessions-Distinct refl refl refl refl refl

-- User 8 alone, on session 102.
abbrev bobs_session : Sessions
bobs_session = (102, session_of 102 2 (some 8)) ∷ []

bobs_session-IsUuid :
    (k : QUuid) (c : ClientConnection) → find_connection k bobs_session ≡ some c → IsUuid k
unfolding find_connection
bobs_session-IsUuid k c e = ground arith

bobs_session-Distinct : Distinct bobs_session
unfolding find_connection
bobs_session-Distinct = (refl, tt)

deliveries-emitted_example :
    All (Emits sample_qt greeting) (deliveries sample_qt 1 101 (7 ∷ 8 ∷ []) greeting bobs_session)
deliveries-emitted_example =
    deliveries-emitted sample_qt sample_laws 1 101 (7 ∷ 8 ∷ []) greeting bobs_session
      bobs_session-Distinct (omega arith) bobs_session-IsUuid greeting-IsMessage

-- The bytes of the greeting, in two pieces.
process_bytes-append_example :
    process_bytes sample_qt client (take 9 greeting_bytes ++ drop 9 greeting_bytes)
    ≡ process_bytes sample_qt
        (process_bytes sample_qt client (take 9 greeting_bytes))
        (drop 9 greeting_bytes)
process_bytes-append_example =
    process_bytes-append sample_qt client (take 9 greeting_bytes) (drop 9 greeting_bytes)
