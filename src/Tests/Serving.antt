-- ===== src/Tests/Serving.antt =====
-- The theorems on the server at the sample server.
use qt_chat_app.Prelude.{
  ◌-◌, ◌≡◌, ◌⊎◌, refl, All, ◌||◌, ◌&&◌, none, some, [], ◌∷◌, ◌++◌, ◌==◌, arith, if◌then◌else◌,
}
use qt_chat_app.Qt.{QUuid, QByteArray}
use qt_chat_app.Shared.Packet.{
  Packet, chat_message, connect_client, update_user_profile, packet, packet_with,
}
use qt_chat_app.Shared.Stream.{encapsulate}
use qt_chat_app.Shared.Payload.Profile.{serialize_update}
use qt_chat_app.Shared.Payload.ChatText.{
  Message, IsMessage, text, serialize_message, deserialize_message,
  deserialize_message-serialize_message,
}
use qt_chat_app.Server.Session.{find_connection}
use qt_chat_app.Server.Session.Table.{Distinct}
use qt_chat_app.Server.Core.{send_error, contains_uuid}
use qt_chat_app.Server.Profile.{handle_update_user_profile}
use qt_chat_app.Server.Profile.Update.{Stored, handle_update_user_profile-Stored}
use qt_chat_app.Server.Chats.{collect_members}
use qt_chat_app.Server.Chats.Members.{Nodup, is_accepted, collect_members-from_creator}
use qt_chat_app.Server.Routing.{message_parsed}
use qt_chat_app.Server.Routing.Deliveries.{deliveries, IsDelivery, deliveries-IsDelivery}
use qt_chat_app.Server.Routing.Refusals.{may_send, normalized, refusal, message_parsed_lem}
use qt_chat_app.Server.Reading.{
  handle_packet, read_bytes, on_new_connection, on_client_disconnected,
}
use qt_chat_app.Server.Reading.Access.{MayWrite, handle_packet-MayWrite}
use qt_chat_app.Server.Reading.Chunks.{read_bytes-append}
use qt_chat_app.Server.Reading.Disconnect.{sessions_on, sessions_on-on_client_disconnected}
use qt_chat_app.Server.Reading.Messages.{handle_packet-deliveries}
use qt_chat_app.Server.Sessions.{IsValid}
use qt_chat_app.Server.Sessions.Reach.{Reach, here, next, connected, received, Reach-IsValid}
use qt_chat_app.Tests.SampleQt.{sample_qt, sample_laws}
use qt_chat_app.Tests.SampleServer.{
  sample_storage, session_of, sample_sessions, sample_core, sample_server, idle_server,
  sample_fresh,
}

abbrev hello : Message
hello = record { sender_user_id = 7; target_chat_id = 5; type = text; content = "hi" }

abbrev hello_packet : Packet
hello_packet = packet_with chat_message 101 1 (serialize_message sample_qt hello)

-- The message as it is read from the packet.
abbrev hello_read : Message
hello_read = deserialize_message sample_qt (serialize_message sample_qt hello)

hello-IsMessage : IsMessage hello
hello-IsMessage = record { sender = omega arith; chat = omega arith; type = tt }

sample_sessions-Distinct : Distinct sample_sessions
unfolding find_connection
sample_sessions-Distinct = (refl, (refl, (refl, (refl, tt))))

-- The packet comes in on the socket of user 9.
handle_packet-deliveries_example :
    handle_packet sample_qt sample_storage (sample_fresh sample_core) 3 sample_core hello_packet
    ≡ record sample_core {
      written =
          sample_core.written
          ++ deliveries sample_qt sample_core.uuid 101
              (sample_storage.get_user_ids_by_chat_id sample_core.db hello_read.target_chat_id)
              (normalized sample_qt sample_storage hello_read 7)
              sample_core.clients;
    }
unfolding find_connection may_send contains_uuid
handle_packet-deliveries_example =
    handle_packet-deliveries sample_qt sample_storage (sample_fresh sample_core) 3 sample_core
      hello_packet (session_of 101 1 (some 7)) 7 (serialize_message sample_qt hello)
      sample_sessions-Distinct refl refl refl refl refl refl
      (rw (deserialize_message-serialize_message sample_qt sample_laws hello hello-IsMessage) refl)

message_parsed_lem_example :
    message_parsed sample_qt sample_storage sample_core (session_of 101 1 (some 7)) hello ≡ (
      if may_send sample_qt sample_storage sample_core.db hello 7
      then record sample_core {
        written =
            sample_core.written
            ++ deliveries sample_qt sample_core.uuid 101
                (sample_storage.get_user_ids_by_chat_id sample_core.db hello.target_chat_id)
                (normalized sample_qt sample_storage hello 7)
                sample_core.clients;
      }
      else send_error sample_qt sample_core 101
          (refusal sample_qt sample_storage sample_core.db hello 7))
message_parsed_lem_example =
    message_parsed_lem sample_qt sample_storage sample_core (session_of 101 1 (some 7)) hello 7
      sample_sessions-Distinct refl

deliveries-IsDelivery_example :
    All
      (IsDelivery sample_qt 1 101 (7 ∷ 8 ∷ []) hello sample_sessions)
      (deliveries sample_qt 1 101 (7 ∷ 8 ∷ []) hello sample_sessions)
deliveries-IsDelivery_example =
    deliveries-IsDelivery sample_qt 1 101 (7 ∷ 8 ∷ []) hello sample_sessions
      sample_sessions-Distinct

handle_packet-MayWrite_example :
    ((handle_packet sample_qt sample_storage
        (sample_fresh sample_core)
        3
        sample_core
        hello_packet).db
      ≡ sample_core.db)
    ⊎ MayWrite sample_core 3 hello_packet
handle_packet-MayWrite_example =
    handle_packet-MayWrite sample_qt sample_storage (sample_fresh sample_core) 3 sample_core
      hello_packet

-- User 7 asks for a new name on its own socket.
abbrev rename : Packet
rename = packet_with update_user_profile 101 1 (
    serialize_update sample_qt
      (record { username = some "anna"; display_name = none; email = none; password_hash = none }))

handle_update_user_profile-Stored_example :
    ((handle_update_user_profile sample_qt sample_storage sample_core 1 rename).db ≡ sample_core.db)
    ⊎ Stored sample_qt sample_storage sample_core 1 rename
        (handle_update_user_profile sample_qt sample_storage sample_core 1 rename).db
handle_update_user_profile-Stored_example =
    handle_update_user_profile-Stored sample_qt sample_storage sample_core 1 rename

read_bytes-append_example :
    read_bytes sample_qt sample_storage sample_fresh sample_server 1
      (encapsulate sample_qt hello_packet ++ 4 ∷ [])
    ≡ read_bytes sample_qt sample_storage sample_fresh
        (read_bytes sample_qt sample_storage sample_fresh sample_server 1
          (encapsulate sample_qt hello_packet))
        1
        (4 ∷ [])
read_bytes-append_example =
    read_bytes-append sample_qt sample_storage sample_fresh 1 sample_server
      (encapsulate sample_qt hello_packet) (4 ∷ [])

sessions_on-on_client_disconnected_example :
    sessions_on 2 (on_client_disconnected sample_server 2).core.clients
    ≡ sessions_on 2 sample_server.core.clients - 1
sessions_on-on_client_disconnected_example =
    sessions_on-on_client_disconnected sample_server 2 (λ e. omega arith)

-- Session 101 connects on socket 1 of an idle server.
abbrev greeting : QByteArray
greeting = encapsulate sample_qt (packet connect_client 101 1)

greeted :
    Reach sample_qt sample_storage idle_server (
      read_bytes sample_qt sample_storage sample_fresh (on_new_connection idle_server 1) 1 greeting)
greeted =
    next (next here (connected idle_server 1))
      (received (on_new_connection idle_server 1) sample_fresh 1 greeting)

Reach-IsValid_example :
    IsValid
      (read_bytes sample_qt sample_storage sample_fresh
        (on_new_connection idle_server 1)
        1
        greeting).core.clients
Reach-IsValid_example =
    Reach-IsValid sample_qt sample_storage idle_server
      (read_bytes sample_qt sample_storage sample_fresh (on_new_connection idle_server 1) 1
        greeting)
      refl greeted

collect_members-from_creator_example :
    Nodup (collect_members sample_qt sample_storage 0 7 (7 ∷ []) (8 ∷ 8 ∷ 0 ∷ 7 ∷ 77 ∷ []))
    × ((x : QUuid)
        → contains_uuid x
            (collect_members sample_qt sample_storage 0 7 (7 ∷ []) (8 ∷ 8 ∷ 0 ∷ 7 ∷ 77 ∷ []))
          ≡ 7 == x
            || (contains_uuid x (8 ∷ 8 ∷ 0 ∷ 7 ∷ 77 ∷ [])
                && is_accepted sample_qt sample_storage 0 7 x))
collect_members-from_creator_example =
    collect_members-from_creator sample_qt sample_storage 0 7 (8 ∷ 8 ∷ 0 ∷ 7 ∷ 77 ∷ [])

-- Session 105 connects on the socket of session 102.
