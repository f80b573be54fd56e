-- ===== src/Client/Chat.antt =====
-- client/src/Chat (.h, .cpp): a chat of the client.
--
-- A pointer to a message is the message's id: the storage holds the objects, the list shows the
-- pointers. Two messages never share an id, since QUuid::createUuid makes each. `submitted` holds
-- the messages of messageSubmitted that wait for the sender's thread.
pub mod Label
pub mod Sender
pub mod Sending
use qt_chat_app.Prelude.{
  ℕ, Bool, true, false, not, ◌&&◌, ◌||◌, Option, none, some, List, [], ◌∷◌, ◌++◌, if◌then◌else◌,
  has_value, is_empty, ◌==◌, str_eq,
}
use qt_chat_app.Qt.{Qt, QUuid, QString, null_uuid, is_null}
use qt_chat_app.Shared.Payload.Profile.{PublicUserInfo}
use qt_chat_app.Shared.Payload.Request.{UserInfoRequest}
use qt_chat_app.Shared.Payload.ChatText.{Message, MessageType}
use qt_chat_app.Client.Hash.{lookup, insert, remove, uuid_key}
use qt_chat_app.Client.UserResolver.{UserResolver, resolve_user}
use qt_chat_app.Client.RequestManager.{RequestManager, send_chat_message}
use qt_chat_app.Client.ChatMessage.{
  ChatMessage, Made, Status, delivered, read, new_message, mark_as_sent, mark_as_received,
  set_status, on_sender_resolved,
}
use Prim.Native.String.{◌++◌ as str_append}

-- QSet<QUuid>
abbrev pub UuidSet : Type 0
UuidSet = List (QUuid × Unit {0})

pub record Chat : Type 0 where
  pub id : QUuid
  pub other_members : UuidSet
  pub message_storage : List (QUuid × ChatMessage)
  pub message_list : List QUuid
  pub submitted : List QUuid

-- `userId().value_or(QUuid())`
abbrev pub or_null_id : Option QUuid → QUuid
or_null_id none = null_uuid
or_null_id (some user) = user

-- `for (const QUuid& userId : m_otherMembers) UserResolver::instance().resolveUser(userId);`
unfoldable pub resolve_all : Bool → UserResolver → UuidSet → UserResolver × List UserInfoRequest
unfolding resolve_user
resolve_all connected r [] = (r, [])
resolve_all connected r ((user, u) ∷ users) =
    let found = resolve_user connected r user in
    let (r', requests) = resolve_all connected found.state users in (r', found.requests ++ requests)

-- Chat::Chat
unfoldable pub make_chat : Bool → UserResolver → QUuid → UuidSet → Made Chat
unfolding resolve_all
make_chat connected r id other_members =
    let (r', requests) = resolve_all connected r other_members in
    record {
      value = record {
        id = id;
        other_members = other_members;
        message_storage = [];
        message_list = [];
        submitted = [];
      };
      resolver = r';
      requests = requests;
    }

-- Chat::addChatMessage
unfoldable pub add_chat_message : ChatMessage → Chat → Chat
unfolding insert
add_chat_message m c = record c {
  message_storage = insert uuid_key m.id m c.message_storage;
  message_list = c.message_list ++ (m.id ∷ []);
}

-- QVariantList::removeAll
unfoldable pub remove_all : QUuid → List QUuid → List QUuid
remove_all id [] = []
remove_all id (j ∷ ids) = if j == id then remove_all id ids else j ∷ remove_all id ids

-- Chat::deleteChatMessage
unfoldable pub delete_chat_message : ChatMessage → Chat → Chat
unfolding remove remove_all
delete_chat_message m c = record c {
  message_storage = remove uuid_key m.id c.message_storage;
  message_list = remove_all m.id c.message_list;
}

-- Chat::findChatMessage(const QUuid&)
unfoldable pub find_chat_message : QUuid → Chat → Option ChatMessage
unfolding lookup
find_chat_message id c = lookup uuid_key id c.message_storage

-- Chat::findChatMessage, with a predicate
unfoldable pub find_message_by : (ChatMessage → Bool) → Chat → List QUuid → Option ChatMessage
unfolding find_chat_message
find_message_by test c [] = none
find_message_by test c (id ∷ ids) =
    let rest = find_message_by test c ids in
    elim (find_chat_message id c) [ none ↦ rest | some m ↦ if test m then some m else rest ]

-- A call of the message under an id, when there is one.
unfoldable pub change_message : QUuid → (ChatMessage → ChatMessage) → Chat → Chat
unfolding find_chat_message insert
change_message id change c = elim (find_chat_message id c) [
  | none ↦ c
  | some m ↦ record c { message_storage = insert uuid_key id (change m) c.message_storage }
]

-- Chat::submitMessage, with AccountManager's user id and profileDisplayName, and the UUID of the
-- new message
unfoldable pub submit_message :
    Qt → Bool → QString → Option QUuid → QUuid → QString → UserResolver → Chat → Made Chat
unfolding new_message add_chat_message
submit_message qt connected own_name user fresh content r c =
    if str_eq (qt.trimmed content) ""
    then record { value = c; resolver = r; requests = [] }
    else let sender = or_null_id user in
      let m = new_message connected own_name r fresh true content sender in
      let c' = add_chat_message m.value c in
      record {
        value = record c' { submitted = c'.submitted ++ (fresh ∷ []) };
        resolver = m.resolver;
        requests = m.requests;
      }

-- Chat::onMessageSent, onMessageDelivered, onMessageRead and onMessageReceived
unfoldable pub on_message_sent : ℕ → QUuid → Chat → Chat
unfolding change_message mark_as_sent
on_message_sent now id c = change_message id (mark_as_sent now) c

unfoldable pub on_message_delivered : QUuid → Chat → Chat
unfolding change_message
on_message_delivered id c = change_message id (set_status delivered) c

unfoldable pub on_message_read : QUuid → Chat → Chat
unfolding change_message
on_message_read id c = change_message id (set_status read) c

unfoldable pub on_message_received : ℕ → QUuid → Chat → Chat
unfolding change_message mark_as_received
on_message_received now id c = change_message id (mark_as_received now) c

-- Chat::onMessageDeleted
unfoldable pub on_message_deleted : QUuid → Chat → Chat
unfolding find_chat_message delete_chat_message
on_message_deleted id c = elim (find_chat_message id c) [
  | none ↦ c
  | some m ↦ delete_chat_message m c
]

-- Chat::onNewMessage, with the UUID of the new message and the present time
unfoldable pub on_new_message :
    Bool → QString → QUuid → ℕ → Message → UserResolver → Chat → Made Chat
unfolding new_message add_chat_message on_message_received
on_new_message connected own_name fresh now packet r c =
    if not (packet.target_chat_id == c.id)
    then record { value = c; resolver = r; requests = [] }
    else elim packet.type [
      | MessageType.text ↦
          let m =
            new_message connected own_name r fresh false packet.content packet.sender_user_id in
          record {
            value = on_message_received now fresh (add_chat_message m.value c);
            resolver = m.resolver;
            requests = m.requests;
          }
      | _ ↦ record { value = c; resolver = r; requests = [] }
    ]
