-- ===== src/Client/ChatCreator.antt =====
-- client/src/ChatCreator (.h, .cpp): the choice of members for a new chat.
--
-- The signals only refresh the user interface. `created` holds the calls of
-- RequestManager::createChat, in order.
pub mod Pending
use qt_chat_app.Prelude.{
  ℕ, Bool, true, false, not, ◌&&◌, ◌||◌, Option, none, some, List, [], ◌∷◌, ◌++◌, map,
  if◌then◌else◌, has_value, is_empty, ◌==◌, str_eq,
}
use qt_chat_app.Qt.{Qt, QUuid, QString, is_null}
use qt_chat_app.Shared.Payload.ChatList.{ChatInfo}
use qt_chat_app.Shared.Payload.Profile.{ProfileInfo, PublicUserInfo}
use qt_chat_app.Shared.Payload.Request.{UserInfoRequest}
use qt_chat_app.Shared.Payload.Result.{OperationResult}
use qt_chat_app.Shared.Username.{normalize_username, is_valid_username}
use qt_chat_app.Client.Hash.{lookup, insert, uuid_key}
use qt_chat_app.Client.UserResolver.{UserResolver, resolve_username, is_error}
use qt_chat_app.Client.AccountManager.{user_of}
use qt_chat_app.Client.ChatMessage.{Made}
use qt_chat_app.Client.Chat.{Chat, UuidSet, make_chat}
use qt_chat_app.Client.ChatManager.{
  ChatManager, is_subset, is_same_set, members_of, add_chat, select_chat,
}
use Prim.Native.String.{◌++◌ as str_append}

pub record ChatCreator : Type 0 where
  pub members : List PublicUserInfo
  pub member_ids : UuidSet
  pub pending_username : Option QString
  pub status_text : QString
  pub creating : Bool
  pub created : List (List QUuid)

-- ChatCreator::ChatCreator
abbrev pub new_chat_creator : ChatCreator
new_chat_creator = record {
  members = [];
  member_ids = [];
  pending_username = none;
  status_text = "";
  creating = false;
  created = [];
}

-- ChatCreator::setStatusText
abbrev pub with_status : QString → ChatCreator → ChatCreator
with_status s c = record c { status_text = s }

-- ChatCreator::canCreateChat
abbrev pub can_create_chat : ChatCreator → Bool
can_create_chat c =
    not (is_empty c.member_ids) && not (has_value c.pending_username) && not c.creating

-- A QVariantMap of ChatCreator::members.
pub record MemberRow : Type 0 where
  pub display_name : QString
  pub user_id : QString
  pub username : QString

abbrev member_row : Qt → PublicUserInfo → MemberRow
member_row qt info = record {
  display_name = info.display_name;
  user_id = qt.uuid_to_string info.user_id;
  username = str_append "@" info.username;
}

abbrev pending_rows : Option QString → List MemberRow
pending_rows none = []
pending_rows (some name) =
    record { display_name = "Loading..."; user_id = "Loading..."; username = str_append "@" name }
    ∷ []

-- ChatCreator::members
unfoldable pub member_rows : Qt → ChatCreator → List MemberRow
member_rows qt c = map (member_row qt) c.members ++ pending_rows c.pending_username

-- ChatCreator::addResolvedUser
unfoldable pub add_resolved_user : PublicUserInfo → ChatCreator → ChatCreator
unfolding lookup insert
add_resolved_user info c =
    if is_null info.user_id || has_value (lookup uuid_key info.user_id c.member_ids)
    then c
    else record c {
      members = c.members ++ (info ∷ []);
      member_ids = insert uuid_key info.user_id tt c.member_ids;
      status_text = str_append "successfully added " info.display_name;
    }

-- ChatCreator::clearPendingUser
abbrev pub clear_pending_user : ChatCreator → ChatCreator
clear_pending_user c = record c { pending_username = none }

-- a member has the username
unfoldable pub has_member : QString → List PublicUserInfo → Bool
has_member name [] = false
has_member name (info ∷ infos) = str_eq info.username name || has_member name infos

abbrev pub is_own_name : QString → Option ProfileInfo → Bool
is_own_name name none = false
is_own_name name (some profile) = str_eq name profile.username

abbrev keep : UserResolver → ChatCreator → Made ChatCreator
keep r c = record { value = c; resolver = r; requests = [] }

abbrev add_or_wait : QString → ChatCreator → Option PublicUserInfo → ChatCreator
unfolding add_resolved_user
add_or_wait name c (some info) = add_resolved_user info c
add_or_wait name c none = record c { pending_username = some name; status_text = "Loading..." }

-- ChatCreator::addUser, with AccountManager::userProfile
unfoldable pub add_user :
    Qt → Bool → Option ProfileInfo → QString → UserResolver → ChatCreator → Made ChatCreator
unfolding resolve_username add_resolved_user has_member
add_user qt connected profile text r c =
    let name = normalize_username qt text in
    if has_value c.pending_username
    then keep r c
    else if not (is_valid_username name)
    then keep r (with_status "invalid username" c)
    else if is_own_name name profile
    then keep r (with_status "Invalid username" c)
    else if has_member name c.members
    then keep r (with_status "User already added" c)
    else let found = resolve_username qt connected r name in
      record {
        value = add_or_wait name c found.info;
        resolver = found.state;
        requests = found.requests;
      }

-- a chat of ChatManager has those members
unfoldable pub has_chat_of : UuidSet → List (QUuid × Chat) → Bool
unfolding is_subset
has_chat_of ids [] = false
has_chat_of ids ((id, chat) ∷ chats) = is_same_set chat.other_members ids || has_chat_of ids chats

-- QSet::values
unfoldable pub values : UuidSet → List QUuid
values [] = []
values ((u, x) ∷ s) = u ∷ values s

-- ChatCreator::createChat
unfoldable pub create_chat : ChatManager → ChatCreator → ChatCreator
unfolding has_chat_of values
create_chat manager c =
    if not (can_create_chat c)
    then c
    else if has_chat_of c.member_ids manager.chat_storage
    then with_status "This chat already exists" c
    else record c {
      creating = true;
      status_text = "Creating chat...";
      created = c.created ++ (values c.member_ids ∷ []);
    }

-- ChatCreator::reset
unfoldable pub reset : ChatCreator → ChatCreator
reset c = record c {
  members = [];
  member_ids = [];
  pending_username = none;
  status_text = "";
  creating = false;
}

-- ChatCreator::onUserResolved
unfoldable pub on_user_resolved : PublicUserInfo → ChatCreator → ChatCreator
unfolding add_resolved_user
on_user_resolved info c = elim c.pending_username [
  | none ↦ c
  | some name ↦
      if str_eq info.username name then add_resolved_user info (clear_pending_user c) else c
]

-- ChatCreator::onOperationResultReceived
unfoldable pub on_operation_result_received : OperationResult → ChatCreator → ChatCreator
on_operation_result_received result c =
    if has_value c.pending_username && is_error result.type
    then with_status "invalid username" (clear_pending_user c)
    else if c.creating && is_error result.type
    then record c { creating = false; status_text = result.text }
    else c

-- What ChatCreator and ChatManager are after a chat's data came in.
pub record Chosen : Type 0 where
  pub creator : ChatCreator
  pub manager : ChatManager

-- ChatCreator::onChatInfoReceived, with AccountManager's profile
unfoldable pub on_chat_info_received :
    Bool → Option ProfileInfo → ChatInfo → UserResolver → ChatManager → ChatCreator → Made Chosen
unfolding members_of make_chat add_chat select_chat reset
on_chat_info_received connected profile info r manager c =
    let chat = make_chat connected r info.id (members_of (user_of profile) info) in
    if c.creating
    then record {
      value = record {
        creator = reset c;
        manager = select_chat info.id (add_chat chat.value manager);
      };
      resolver = chat.resolver;
      requests = chat.requests;
    }
    else record { value = record { creator = c; manager = manager }; resolver = r; requests = [] }
