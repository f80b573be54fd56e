-- ===== src/Tests/Chatting.antt =====
-- The client's chats at concrete inputs.
use qt_chat_app.Prelude.{◌≡◌, refl, Bool, true, false, Option, none, some, [], ◌∷◌, ◌==◌}
use qt_chat_app.Qt.{QUuid, QString}
use qt_chat_app.Shared.Payload.ChatList.{ChatInfo}
use qt_chat_app.Shared.Payload.Profile.{ProfileInfo}
use qt_chat_app.Shared.Username.{normalize_username, is_valid_username}
use qt_chat_app.Client.Hash.{lookup}
use qt_chat_app.Client.UserResolver.{UserResolver}
use qt_chat_app.Client.RequestManager.{RequestManager, send_chat_message}
use qt_chat_app.Client.ChatMessage.{ChatMessage, is_sent}
use qt_chat_app.Client.Chat.{Chat, find_chat_message, submit_message}
use qt_chat_app.Client.Chat.Sender.{process_message}
use qt_chat_app.Client.Chat.Sending.{text_to, submit_message-process_message}
use qt_chat_app.Client.ChatManager.{
  ChatManager, new_chat_manager, add_chat, select_chat, is_listed, on_chat_list_received,
}
use qt_chat_app.Client.ChatManager.Valid.{IsValid, has_chat}
use qt_chat_app.Client.ChatManager.Received.{on_chat_list_received-is_listed}
use qt_chat_app.Client.ChatManager.Reach.{
  ManagerReach, start, next, added, selected, ManagerReach-IsValid,
}
use qt_chat_app.Client.ChatCreator.{new_chat_creator, add_user, create_chat, has_member}
use qt_chat_app.Client.ChatCreator.Pending.{add_user-unconnected}
use qt_chat_app.Tests.SampleQt.{sample_qt}

abbrev no_users : UserResolver
no_users = record {
  cache = [];
  username_cache = [];
  pending_requests = [];
  pending_username_requests = [];
}

abbrev empty_chat : QUuid → Chat
empty_chat id = record {
  id = id;
  other_members = (8, tt) ∷ [];
  message_storage = [];
  message_list = [];
  submitted = [];
}

abbrev manager : RequestManager
manager = record { incoming_buffer = []; session_id = 101; server_id = 1; emitted = []; sent = [] }

-- A client with the chats 5 and 6, the second of which is selected.
abbrev two_chats : ChatManager
two_chats = select_chat 6 (add_chat (empty_chat 6) (add_chat (empty_chat 5) new_chat_manager))

two_chats-Reach : ManagerReach two_chats
two_chats-Reach =
    next (next (next start (added _ (empty_chat 5))) (added _ (empty_chat 6))) (selected _ 6)

ManagerReach-IsValid_example : IsValid two_chats
ManagerReach-IsValid_example = ManagerReach-IsValid two_chats-Reach

abbrev listed_chat : ChatInfo
listed_chat = record {
  id = 5;
  type = "direct";
  created_by = 7;
  created_at = 60;
  member_ids = 7 ∷ 8 ∷ [];
}

on_chat_list_received-is_listed_example :
    let m' = (on_chat_list_received true (some 7) (listed_chat ∷ []) no_users two_chats).value in
    IsValid m' × ((j : QUuid) → has_chat j m' ≡ is_listed j (listed_chat ∷ []))
on_chat_list_received-is_listed_example =
    on_chat_list_received-is_listed true (some 7) (listed_chat ∷ []) no_users two_chats
      (ManagerReach-IsValid two_chats-Reach)

submit_message-process_message_example :
    let submitted =
      (submit_message sample_qt false "Ann" (some 7) 30 "hi" no_users (empty_chat 5)).value in
    let (manager', c') = process_message sample_qt true (some 7) 60 manager submitted in
    (manager' ≡ send_chat_message sample_qt manager (text_to (some 7) 5 "hi"))
    × (c'.message_list ≡ 30 ∷ [])
    × (c'.submitted ≡ [])
    × ((m : ChatMessage) × (find_chat_message 30 c' ≡ some m)
        × (is_sent m ≡ true)
        × (m.content ≡ "hi"))
    × ((j : QUuid) → 30 == j ≡ false → find_chat_message j c' ≡ find_chat_message j (empty_chat 5))
submit_message-process_message_example =
    submit_message-process_message sample_qt false "Ann" (some 7) (some 7) 30 "hi" no_users manager
      60 (empty_chat 5) refl refl

add_user-unconnected_example :
    let a = add_user sample_qt false none "bob" no_users new_chat_creator in
    (a.requests ≡ [])
    × (a.resolver ≡ no_users)
    × (a.value.pending_username ≡ some "bob")
    × ((connected : Bool) (profile' : Option ProfileInfo) (other : QString) (r' : UserResolver)
        → add_user sample_qt connected profile' other r' a.value
          ≡ record { value = a.value; resolver = r'; requests = [] })
    × ((m : ChatManager) → create_chat m a.value ≡ a.value)
unfolding normalize_username is_valid_username has_member lookup
add_user-unconnected_example =
    add_user-unconnected sample_qt none "bob" no_users new_chat_creator refl refl refl refl refl
