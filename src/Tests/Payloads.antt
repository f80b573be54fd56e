-- ===== src/Tests/Payloads.antt =====
-- The theorems on payloads at concrete inputs.
use qt_chat_app.Prelude.{◌≡◌, none, some, [], ◌∷◌, arith, if◌then◌else◌}
use qt_chat_app.Shared.Payload.Account.{
  LoginInfo, RegisterInfo, serialize_login, deserialize_login, serialize_register,
  deserialize_register,
}
use qt_chat_app.Shared.Payload.Profile.{
  ProfileInfo, PublicUserInfo, ProfileUpdateInfo, is_empty_update, serialize_profile,
  deserialize_profile, serialize_public_user, deserialize_public_user, serialize_update,
  deserialize_update,
}
use qt_chat_app.Shared.Payload.Request.{
  request_by_id, by_id, serialize_request, deserialize_request,
}
use qt_chat_app.Shared.Payload.ChatList.{ChatInfo, IsChat, serialize_chats, deserialize_chats}
use qt_chat_app.Shared.Payload.ChatRequest.{without_null, serialize_create, deserialize_create}
use qt_chat_app.Shared.Payload.ChatText.{
  Message, IsMessage, text, serialize_message, deserialize_message,
}
use qt_chat_app.Shared.Payload.Result.{
  OperationResult, success, serialize_result, deserialize_result,
}
use qt_chat_app.Shared.Payload.RoundTrips.{payload_round_trips}
use qt_chat_app.Tests.SampleQt.{sample_qt, sample_laws}

abbrev login : LoginInfo
login = record { login = "ann"; password_hash = "h" }

abbrev registration : RegisterInfo
registration = record { username = "ann"; display_name = "Ann"; email = "a"; password_hash = "h" }

abbrev profile : ProfileInfo
profile = record { user_id = 7; username = "ann"; display_name = "Ann"; email = "a" }

abbrev public_user : PublicUserInfo
public_user = record { user_id = 7; username = "ann"; display_name = "Ann" }

abbrev update : ProfileUpdateInfo
update = record {
  username = some "ann";
  display_name = none;
  email = some "a";
  password_hash = none;
}

abbrev chat : ChatInfo
chat = record {
  id = 5;
  type = "direct";
  created_by = 7;
  created_at = 60250;
  member_ids = 7 ∷ 8 ∷ [];
}

abbrev message : Message
message = record { sender_user_id = 7; target_chat_id = 5; type = text; content = "hi" }

abbrev outcome : OperationResult
outcome = record { type = success; text = "Connected" }

chat-IsChat : IsChat chat
chat-IsChat = record {
  id = omega arith;
  created_by = omega arith;
  created_at = omega arith;
  members = ((omega arith, λ e. omega arith), ((omega arith, λ e. omega arith), tt));
}

message-IsMessage : IsMessage message
message-IsMessage = record { sender = omega arith; chat = omega arith; type = tt }

payload_round_trips_example :
    (deserialize_login sample_qt (serialize_login sample_qt login) ≡ some login)
    × (deserialize_register sample_qt (serialize_register sample_qt registration)
        ≡ some registration)
    × (deserialize_update sample_qt (serialize_update sample_qt update)
        ≡ (if is_empty_update update then none else some update))
    × (deserialize_profile sample_qt (serialize_profile sample_qt profile) ≡ some profile)
    × (deserialize_public_user sample_qt (serialize_public_user sample_qt public_user)
        ≡ some public_user)
    × (deserialize_request sample_qt (serialize_request sample_qt (request_by_id 7))
        ≡ some (request_by_id 7))
    × (deserialize_create sample_qt (serialize_create sample_qt (7 ∷ 0 ∷ 8 ∷ []))
        ≡ some (without_null (7 ∷ 0 ∷ 8 ∷ [])))
    × (deserialize_result sample_qt (serialize_result sample_qt outcome) ≡ outcome)
    × (deserialize_message sample_qt (serialize_message sample_qt message) ≡ message)
    × (deserialize_chats sample_qt (serialize_chats sample_qt (chat ∷ []))
        ≡ some (record chat { created_at = 60000 } ∷ []))
payload_round_trips_example =
    payload_round_trips sample_qt sample_laws login registration update profile public_user
      (request_by_id 7) (7 ∷ 0 ∷ 8 ∷ []) outcome message (chat ∷ []) (omega arith) (omega arith)
      (by_id 7 (omega arith)) (omega arith, (omega arith, (omega arith, tt))) tt message-IsMessage
      (chat-IsChat, tt)
