-- ===== src/Tests/Logins.antt =====
-- The theorem on duplicate logins at a server with two sessions, on one of which a user is logged in.
use qt_chat_app.Prelude.{ℕ, ◌≡◌, ◌≢◌, refl, some, [], arith}
use qt_chat_app.Shared.Packet.{Packet, packet, is_type, get_chats}
use qt_chat_app.Server.Session.{
  Sessions, ClientConnection, new_connection, authorize, find_connection, insert_connection,
  modify_connection, authorized_user, is_logged_in_elsewhere,
}
use qt_chat_app.Server.Core.{Core, send_error}
use qt_chat_app.Server.Auth.{login_with}
use qt_chat_app.Server.Reading.{handle_packet}
use qt_chat_app.Server.Reading.Answers.{handle_packet-written_to}
use qt_chat_app.Server.Reading.Written.{written_to}
use qt_chat_app.Server.Sessions.{IsValid}
use qt_chat_app.Server.Sessions.Kept.{insert_connection-IsValid, authorize-IsValid}
use qt_chat_app.Server.Sessions.Reach.{empty-IsValid}
use qt_chat_app.Server.Sessions.Login.{login_with-duplicate}
use qt_chat_app.Tests.SampleQt.{sample_qt}
use qt_chat_app.Tests.SampleServer.{user_named, sample_storage}

abbrev one_session : Sessions
one_session = insert_connection 101 (new_connection 101 1) []

abbrev two_sessions : Sessions
two_sessions = insert_connection 102 (new_connection 102 2) one_session

abbrev logged_in : Sessions
logged_in = modify_connection 101 (authorize 7) two_sessions

logged_in-IsValid : IsValid logged_in
unfolding find_connection insert_connection is_logged_in_elsewhere authorized_user new_connection
logged_in-IsValid =
    authorize-IsValid two_sessions
      (insert_connection-IsValid one_session (insert_connection-IsValid [] empty-IsValid 101 1 refl)
        102 2 refl)
      101 7 (new_connection 101 1) refl refl

abbrev logged_in_core : Core ℕ
logged_in_core = record { uuid = 1; clients = logged_in; db = 0; written = [] }

login_with-duplicate_example :
    login_with sample_qt sample_storage logged_in_core 102
      (new_connection 102 2)
      (some (user_named 7 "ann"))
    ≡ send_error sample_qt logged_in_core
        (new_connection 102 2).session_id
        "User is already logged in from another device"
unfolding find_connection insert_connection modify_connection authorized_user new_connection
    authorize
login_with-duplicate_example =
    login_with-duplicate sample_qt sample_storage logged_in_core 101 102 (new_connection 102 2)
      (authorize 7 (new_connection 101 1)) (user_named 7 "ann") logged_in-IsValid refl refl refl
      (λ e. omega arith)

-- A request for the chats of session 101, on its socket.
abbrev asked_chats : Packet
asked_chats = packet get_chats 101 1

elsewhere_lem : (c : ClientConnection) → find_connection 101 logged_in ≡ some c → c.socket ≢ 2
unfolding find_connection insert_connection modify_connection new_connection authorize
elsewhere_lem c e = ground arith

handle_packet-written_to_example :
    written_to 2
      (handle_packet sample_qt sample_storage
        (record { uuid = 50; now = 60 })
        1
        logged_in_core
        asked_chats).written
    ≡ written_to 2 []
unfolding is_type
handle_packet-written_to_example =
    handle_packet-written_to sample_qt sample_storage (record { uuid = 50; now = 60 }) 1 2
      logged_in_core asked_chats logged_in-IsValid refl refl (λ e. omega arith) elsewhere_lem
