-- ===== src/Client/ChatManager.antt =====
-- client/src/ChatManager (.h, .cpp): the chats of the client.
--
-- A pointer to a chat is the chat's id: the storage holds the objects, the list shows the pointers,
-- and addChat admits no second chat of an id. The signals only refresh the user interface.
pub mod Valid
pub mod Received
pub mod Reach
use qt_chat_app.Prelude.{
  ℕ, Bool, true, false, not, ◌&&◌, ◌||◌, Option, none, some, List, [], ◌∷◌, ◌++◌, if◌then◌else◌,
  has_value, ◌==◌,
}
use qt_chat_app.Qt.{QUuid, QString, is_null}
use qt_chat_app.Shared.Payload.ChatList.{ChatInfo}
use qt_chat_app.Shared.Payload.Request.{UserInfoRequest}
use qt_chat_app.Client.Hash.{lookup, insert, remove, uuid_key}
use qt_chat_app.Client.UserResolver.{UserResolver}
use qt_chat_app.Client.ChatMessage.{Made}
use qt_chat_app.Client.Chat.{Chat, UuidSet, remove_all, resolve_all, make_chat}

pub record ChatManager : Type 0 where
  pub chat_storage : List (QUuid × Chat)
  pub chat_list : List QUuid
  pub selected_chat : Option QUuid

-- ChatManager::ChatManager
abbrev pub new_chat_manager : ChatManager
new_chat_manager = record { chat_storage = []; chat_list = []; selected_chat = none }

-- ChatManager::selectChat
unfoldable pub select_chat : QUuid → ChatManager → ChatManager
unfolding lookup
select_chat id m =
    if has_value (lookup uuid_key id m.chat_storage)
    then record m { selected_chat = some id }
    else m

-- ChatManager::unselectChat
unfoldable pub unselect_chat : ChatManager → ChatManager
unselect_chat m = record m { selected_chat = none }

-- ChatManager::addChat
unfoldable pub add_chat : Chat → ChatManager → ChatManager
unfolding lookup insert
add_chat c m = if has_value (lookup uuid_key c.id m.chat_storage) then m else record m {
  chat_storage = insert uuid_key c.id c m.chat_storage;
  chat_list = m.chat_list ++ (c.id ∷ []);
}

-- `wasSelected ? nullptr : m_selectedChat`
abbrev pub unselected : QUuid → Option QUuid → Option QUuid
unselected id none = none
unselected id (some j) = if j == id then none else some j

-- ChatManager::removeChat
unfoldable pub remove_chat : QUuid → ChatManager → ChatManager
unfolding lookup remove remove_all
remove_chat id m =
    if has_value (lookup uuid_key id m.chat_storage)
    then record {
      chat_storage = remove uuid_key id m.chat_storage;
      chat_list = remove_all id m.chat_list;
      selected_chat = unselected id m.selected_chat;
    }
    else m

-- a QSet that the ids of a list were inserted into
unfoldable pub set_of : List QUuid → UuidSet
unfolding insert
set_of [] = []
set_of (u ∷ us) = insert uuid_key u tt (set_of us)

abbrev pub without : Option QUuid → UuidSet → UuidSet
without none s = s
without (some user) s = remove uuid_key user s

-- The members of a chat but the present user, with AccountManager::userId.
unfoldable pub members_of : Option QUuid → ChatInfo → UuidSet
unfolding set_of remove
members_of user info = without user (set_of info.member_ids)

-- every element of the one set is in the other
unfoldable pub is_subset : UuidSet → UuidSet → Bool
unfolding lookup
is_subset [] t = true
is_subset ((u, x) ∷ s) t = has_value (lookup uuid_key u t) && is_subset s t

-- operator== of QSet
abbrev pub is_same_set : UuidSet → UuidSet → Bool
is_same_set s t = is_subset s t && is_subset t s

-- Chat::setOtherMembers
unfoldable pub set_other_members : Bool → UserResolver → UuidSet → Chat → Made Chat
unfolding is_subset resolve_all
set_other_members connected r members c =
    if is_same_set c.other_members members
    then record { value = c; resolver = r; requests = [] }
    else let (r', requests) = resolve_all connected r members in
      record { value = record c { other_members = members }; resolver = r'; requests = requests }

-- The body of onChatListReceived's first loop.
unfoldable pub receive_chat :
    Bool → Option QUuid → ChatInfo → UserResolver → ChatManager → Made ChatManager
unfolding lookup insert members_of set_other_members make_chat add_chat
receive_chat connected user info r m = elim (lookup uuid_key info.id m.chat_storage) [
  | some existing ↦
      let c = set_other_members connected r (members_of user info) existing in
      record {
        value = record m { chat_storage = insert uuid_key info.id c.value m.chat_storage };
        resolver = c.resolver;
        requests = c.requests;
      }
  | none ↦
      let c = make_chat connected r info.id (members_of user info) in
      record { value = add_chat c.value m; resolver = c.resolver; requests = c.requests }
]

-- onChatListReceived's first loop
unfoldable pub receive_chats :
    Bool → Option QUuid → List ChatInfo → UserResolver → ChatManager → Made ChatManager
unfolding receive_chat
receive_chats connected user [] r m = record { value = m; resolver = r; requests = [] }
receive_chats connected user (info ∷ infos) r m =
    let c = receive_chat connected user info r m in
    let rest = receive_chats connected user infos c.resolver c.value in
    record { value = rest.value; resolver = rest.resolver; requests = c.requests ++ rest.requests }

-- receivedChatIds.contains
unfoldable pub is_listed : QUuid → List ChatInfo → Bool
is_listed id [] = false
is_listed id (info ∷ infos) = info.id == id || is_listed id infos

-- onChatListReceived's second loop, over a copy of the list
unfoldable pub remove_unlisted : List ChatInfo → List QUuid → ChatManager → ChatManager
unfolding is_listed remove_chat
remove_unlisted infos [] m = m
remove_unlisted infos (id ∷ ids) m =
    if is_listed id infos
    then remove_unlisted infos ids m
    else remove_unlisted infos ids (remove_chat id m)

abbrev reselect : Option QUuid → ChatManager → ChatManager
reselect none m = m
reselect (some id) m = if is_null id then m else select_chat id m

-- ChatManager::onChatListReceived
unfoldable pub on_chat_list_received :
    Bool → Option QUuid → List ChatInfo → UserResolver → ChatManager → Made ChatManager
unfolding receive_chats remove_unlisted select_chat
on_chat_list_received connected user infos r m =
    let c = receive_chats connected user infos r m in
    record {
      value = reselect m.selected_chat (remove_unlisted infos c.value.chat_list c.value);
      resolver = c.resolver;
      requests = c.requests;
    }

-- ChatManager::clearChatList, over a copy of the list
unfoldable pub clear_chat_list : List QUuid → ChatManager → ChatManager
unfolding remove_chat
clear_chat_list [] m = m
clear_chat_list (id ∷ ids) m = clear_chat_list ids (remove_chat id m)

-- ChatManager::onLoggedInChanged: the manager, and whether the list of chats is asked for
unfoldable pub on_logged_in_changed : Bool → ChatManager → ChatManager × Bool
unfolding clear_chat_list
on_logged_in_changed logged_in m =
    if logged_in then (m, true) else (clear_chat_list m.chat_list m, false)
