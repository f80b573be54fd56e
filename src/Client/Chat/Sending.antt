-- ===== src/Client/Chat/Sending.antt =====
-- client/src/Chat.cpp and client/src/MessageSender.cpp: a message from its submission to its
-- mark as sent.
use qt_chat_app.Prelude.{
  ℕ, ◌≡◌, refl, ap, ◌∙◌, Bool, true, false, Option, none, some, List, [], ◌∷◌, ◌++◌, ◌==◌, str_eq,
  arith,
}
use qt_chat_app.Qt.{Qt, QUuid, QString}
use qt_chat_app.Shared.Payload.ChatText.{Message, MessageType}
use qt_chat_app.Client.Hash.{uuid_key, lookup-insert, lookup-insert_other}
use qt_chat_app.Client.UserResolver.{UserResolver}
use qt_chat_app.Client.RequestManager.{RequestManager, send_chat_message}
use qt_chat_app.Client.ChatMessage.{
  ChatMessage, loading, new_message, resolve_sender, mark_as_sent, is_sent, int_of_status,
}
use qt_chat_app.Client.Chat.{
  Chat, or_null_id, add_chat_message, find_chat_message, change_message, submit_message,
  on_message_sent,
}
use qt_chat_app.Client.Chat.Sender.{process_message}

-- The packet's message.
abbrev pub text_to : Option QUuid → QUuid → QString → Message
text_to user chat content = record {
  sender_user_id = or_null_id user;
  target_chat_id = chat;
  type = MessageType.text;
  content = content;
}

find-add_chat_message :
    (m : ChatMessage) (c : Chat) → find_chat_message m.id (add_chat_message m c) ≡ some m
unfolding find_chat_message add_chat_message
find-add_chat_message m c = lookup-insert uuid_key m.id m c.message_storage

find-add_chat_message_other :
    (m : ChatMessage) (c : Chat) (j : QUuid)
    → m.id == j ≡ false
    → find_chat_message j (add_chat_message m c) ≡ find_chat_message j c
unfolding find_chat_message add_chat_message
find-add_chat_message_other m c j h = lookup-insert_other uuid_key j m.id m c.message_storage h

-- The call of a message that is there.
change_message-found :
    (id : QUuid) (change : ChatMessage → ChatMessage) (c : Chat) (m : ChatMessage)
    → find_chat_message id c ≡ some m
    → (find_chat_message id (change_message id change c) ≡ some (change m))
      × ((change_message id change c).message_list ≡ c.message_list)
      × ((change_message id change c).submitted ≡ c.submitted)
      × ((j : QUuid)
          → id == j ≡ false
          → find_chat_message j (change_message id change c) ≡ find_chat_message j c)
unfolding change_message find_chat_message
change_message-found id change c m found =
    rw (change_message, found)
      (
        lookup-insert uuid_key id (change m) c.message_storage,
        refl,
        refl,
        λ j h. lookup-insert_other uuid_key j id (change m) c.message_storage h,
      )

-- The message that submitMessage makes.
abbrev own_message : QString → Option QUuid → QUuid → QString → ChatMessage
own_message own_name user id content = record {
  id = id;
  is_own = true;
  content = content;
  sender_user_id = or_null_id user;
  sender = own_name;
  time_sent = none;
  time_received = none;
  status = loading;
  is_waiting = false;
}

submit_message-value :
    (qt : Qt) (connected : Bool) (own_name : QString) (user : Option QUuid) (fresh : QUuid)
    → (content : QString) (r : UserResolver) (c : Chat) → str_eq (qt.trimmed content) "" ≡ false
    → (submit_message qt connected own_name user fresh content r c).value
      ≡ record (add_chat_message (own_message own_name user fresh content) c) {
        submitted = c.submitted ++ (fresh ∷ []);
      }
unfolding submit_message new_message resolve_sender add_chat_message
submit_message-value qt connected own_name user fresh content r c filled = rw filled refl

-- What processMessage does for the first message that waits, on a connection.
process_message-found :
    (qt : Qt) (user : Option QUuid) (now : ℕ) (manager : RequestManager) (c : Chat) (id : QUuid)
    → (ids : List QUuid) (m : ChatMessage) → c.submitted ≡ id ∷ ids
    → find_chat_message id c ≡ some m
    → process_message qt true user now manager c ≡ (
      send_chat_message qt manager (text_to user c.id m.content),
      on_message_sent now id (record c { submitted = ids }),
    )
unfolding process_message
process_message-found qt user now manager c id ids m waiting found = ground arith

-- A text that is not blank, submitted to a chat in which no other message waits, is sent to the
-- server by the sender's thread once there is a connection, as a text for the chat; the chat's
-- list then has one more message at its end, of that content and marked as sent, and the
-- messages under other ids are as they were.
pub submit_message-process_message :
    (qt : Qt) (connected : Bool) (own_name : QString) (user sender : Option QUuid) (fresh : QUuid)
    → (content : QString) (r : UserResolver) (manager : RequestManager) (now : ℕ) (c : Chat)
    → str_eq (qt.trimmed content) "" ≡ false
    → c.submitted ≡ []
    → let submitted = (submit_message qt connected own_name user fresh content r c).value in
      let (manager', c') = process_message qt true sender now manager submitted in
      (manager' ≡ send_chat_message qt manager (text_to sender c.id content))
      × (c'.message_list ≡ c.message_list ++ (fresh ∷ []))
      × (c'.submitted ≡ [])
      × ((m : ChatMessage) × (find_chat_message fresh c' ≡ some m)
          × (is_sent m ≡ true)
          × (m.content ≡ content))
      × ((j : QUuid) → fresh == j ≡ false → find_chat_message j c' ≡ find_chat_message j c)
unfolding on_message_sent is_sent mark_as_sent int_of_status add_chat_message find_chat_message
submit_message-process_message qt connected own_name user sender fresh content r manager now c
      filled none_waits =
    let m = own_message own_name user fresh content in
    let added = record (add_chat_message m c) { submitted = fresh ∷ [] } in
    let e : (submit_message qt connected own_name user fresh content r c).value ≡ added =
      submit_message-value qt connected own_name user fresh content r c filled
      ∙ ap (λ ids. record (add_chat_message m c) { submitted = ids ++ (fresh ∷ []) }) none_waits in
    let found : find_chat_message fresh added ≡ some m = find-add_chat_message m c in
    let (marked, list, waiting, others) =
      change_message-found fresh (mark_as_sent now) (record added { submitted = [] }) m found in
    rw (e, process_message-found qt sender now manager added fresh [] m refl found)
      (
        refl,
        list,
        waiting,
        (mark_as_sent now m, marked, refl, refl),
        λ j h. others j h ∙ find-add_chat_message_other m c j h,
      )
