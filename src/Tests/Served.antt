-- ===== src/Tests/Served.antt =====
-- The theorem on a login between client and server: ann logs in on the only session of a server.
use qt_chat_app.Prelude.{
  ℕ, ◌≡◌, refl, true, false, none, some, [], ◌∷◌, ◌++◌, ◌==◌, if◌then◌else◌, arith,
}
use qt_chat_app.Qt.{QByteArray}
use qt_chat_app.Shared.Stream.{encapsulate}
use qt_chat_app.Shared.Username.{normalize_username}
use qt_chat_app.Shared.PacketFactory.{operation_success_packet, user_profile_data_packet}
use qt_chat_app.Server.Session.{
  Sessions, new_connection, authorize, find_connection, insert_connection, matches_socket,
  is_logged_in_elsewhere, authorized_user,
}
use qt_chat_app.Server.Storage.{Storage}
use qt_chat_app.Server.Reading.{Server, buffer_of, read_bytes}
use qt_chat_app.Server.Sessions.{IsValid}
use qt_chat_app.Server.Sessions.Kept.{insert_connection-IsValid}
use qt_chat_app.Server.Sessions.Reach.{empty-IsValid}
use qt_chat_app.Client.AccountManager.{
  AccountManager, new_account_manager, login, user_id, on_operation_result_received,
  on_current_user_profile_received,
}
use qt_chat_app.Client.RequestManager.{
  RequestManager, operation_result_received, current_user_profile_received, process_bytes,
}
use qt_chat_app.Exchange.Heard.{accepted}
use qt_chat_app.Exchange.Login.{asked_login, login_bytes, profile_bytes, login-served}
use qt_chat_app.Tests.SampleQt.{sample_qt, sample_laws}
use qt_chat_app.Tests.SampleServer.{user_named, sample_storage, sample_fresh}
use qt_chat_app.Tests.LoggingIn.{sample_hashing, anns_profile}

abbrev profile_storage : Storage ℕ
profile_storage = record sample_storage {
  get_profile_info_by_user_id = λ db u. if u == 7 then some anns_profile else none;
}

abbrev only_session : Sessions
only_session = insert_connection 104 (new_connection 104 4) []

only_session-IsValid : IsValid only_session
unfolding find_connection
only_session-IsValid = insert_connection-IsValid [] empty-IsValid 104 4 refl

abbrev waiting_server : Server ℕ
waiting_server = record {
  core = record { uuid = 1; clients = only_session; db = 0; written = [] };
  socket_buffers = [];
  is_running = true;
}

abbrev anns_client : RequestManager
anns_client = record {
  incoming_buffer = [];
  session_id = 104;
  server_id = 0;
  emitted = [];
  sent = [];
}

-- The server after the login.
abbrev answered : Server ℕ
answered =
    read_bytes sample_qt profile_storage sample_fresh waiting_server 4
      (login_bytes sample_qt anns_client (asked_login sample_qt sample_hashing "@ann" "secret"))

abbrev first_answer : QByteArray
first_answer = encapsulate sample_qt (operation_success_packet sample_qt 1 104 accepted.text)

abbrev second_answer : QByteArray
second_answer = encapsulate sample_qt (user_profile_data_packet sample_qt 1 104 anns_profile)

abbrev told : RequestManager
told = process_bytes sample_qt anns_client first_answer

abbrev both_answered : Server ℕ
both_answered =
    read_bytes sample_qt profile_storage sample_fresh answered 4 (profile_bytes sample_qt told)

abbrev anns_account : AccountManager
anns_account =
    on_current_user_profile_received
      (on_operation_result_received
        (login sample_qt sample_hashing true new_account_manager "@ann" "secret") accepted)
      anns_profile

login-served_example :
    (find_connection 104 both_answered.core.clients ≡ some (authorize 7 (new_connection 104 4)))
    × (both_answered.core.written ≡ [] ++ (4, first_answer) ∷ (4, second_answer) ∷ [])
    × ((process_bytes sample_qt told second_answer).emitted
        ≡ []
          ++ operation_result_received accepted ∷ current_user_profile_received anns_profile ∷ [])
    × (anns_account.logged_in ≡ true)
    × (anns_account.busy ≡ false)
    × (user_id anns_account ≡ some 7)
unfolding find_connection insert_connection new_connection matches_socket is_logged_in_elsewhere
    authorized_user buffer_of normalize_username
login-served_example =
    login-served sample_qt sample_laws profile_storage sample_fresh 4 sample_hashing waiting_server
      anns_client new_account_manager "@ann" "secret" (new_connection 104 4) (user_named 7 "ann")
      anns_profile only_session-IsValid (omega arith, omega arith, omega arith, omega arith) refl
      refl (refl, refl, refl, refl, refl) refl refl refl
