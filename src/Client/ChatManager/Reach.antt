-- ===== src/Client/ChatManager/Reach.antt =====
-- client/src/ChatManager.cpp: the chats after any calls and signals.
use qt_chat_app.Prelude.{refl, Bool, true, false, Option, List, [], ◌∷◌}
use qt_chat_app.Qt.{QUuid}
use qt_chat_app.Shared.Payload.ChatList.{ChatInfo}
use qt_chat_app.Client.Hash.{lookup}
use qt_chat_app.Client.UserResolver.{UserResolver}
use qt_chat_app.Client.Chat.{Chat}
use qt_chat_app.Client.ChatManager.{
  ChatManager, new_chat_manager, select_chat, unselect_chat, add_chat, remove_chat,
  on_chat_list_received, clear_chat_list, on_logged_in_changed,
}
use qt_chat_app.Client.ChatManager.Valid.{
  IsValid, select_chat-IsValid, add_chat-IsValid, remove_chat-IsValid,
}
use qt_chat_app.Client.ChatManager.Received.{on_chat_list_received-is_listed}

-- A call or a signal.
pub data ManagerStep : ChatManager → ChatManager → Type 0 where
  selected : (m : ChatManager) (id : QUuid) → ManagerStep m (select_chat id m)
  deselected : (m : ChatManager) → ManagerStep m (unselect_chat m)
  added : (m : ChatManager) (c : Chat) → ManagerStep m (add_chat c m)
  removed : (m : ChatManager) (id : QUuid) → ManagerStep m (remove_chat id m)
  logged : (m : ChatManager) (logged_in : Bool) → ManagerStep m (on_logged_in_changed logged_in m).0
  received :
      (m : ChatManager) (connected : Bool) (user : Option QUuid) (infos : List ChatInfo)
      → (r : UserResolver) → ManagerStep m (on_chat_list_received connected user infos r m).value

pub data ManagerReach : ChatManager → Type 0 where
  start : ManagerReach new_chat_manager
  next : {a b : ChatManager} → ManagerReach a → ManagerStep a b → ManagerReach b

clear_chat_list-IsValid :
    (ids : List QUuid) (m : ChatManager) → IsValid m → IsValid (clear_chat_list ids m)
unfolding clear_chat_list
clear_chat_list-IsValid [] m v = v
clear_chat_list-IsValid (id ∷ ids) m v =
    clear_chat_list-IsValid ids (remove_chat id m) (remove_chat-IsValid id m v)

ManagerStep-IsValid : {a b : ChatManager} → ManagerStep a b → IsValid a → IsValid b
unfolding unselect_chat on_logged_in_changed
ManagerStep-IsValid (selected m id) v = select_chat-IsValid id m v
ManagerStep-IsValid (deselected m) v = record { listed = v.listed; selected = λ j e. cc }
ManagerStep-IsValid (added m c) v = add_chat-IsValid c m v
ManagerStep-IsValid (removed m id) v = remove_chat-IsValid id m v
ManagerStep-IsValid (logged m true) v = v
ManagerStep-IsValid (logged m false) v = clear_chat_list-IsValid m.chat_list m v
ManagerStep-IsValid (received m connected user infos r) v =
    (on_chat_list_received-is_listed connected user infos r m v).0

-- Whatever calls and signals follow on the start of ChatManager, a chat stands in the list
-- exactly if it is in the table, and a selected chat is in the table.
pub ManagerReach-IsValid : {m : ChatManager} → ManagerReach m → IsValid m
unfolding lookup
ManagerReach-IsValid start = record { listed = λ j. refl; selected = λ j e. cc }
ManagerReach-IsValid (next reached step) = ManagerStep-IsValid step (ManagerReach-IsValid reached)
