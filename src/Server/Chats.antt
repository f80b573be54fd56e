-- ===== src/Server/Chats.antt =====
-- server/src/Server.cpp: handleGetChats, handleSearchChats, handleCreateChat.
pub mod Members
use qt_chat_app.Prelude.{
  ℕ, Bool, true, false, not, ◌||◌, Option, none, some, List, [], ◌∷◌, ◌++◌, ◌==◌, ltb, length,
  has_value, if◌then◌else◌,
}
use qt_chat_app.Qt.{Qt, QUuid, QString, QByteArray, is_null}
use qt_chat_app.Model.{Chat, ChatType, direct, group, new_chat, ChatMember}
use qt_chat_app.Shared.Packet.{Packet, is_type, get_chats, search_chats, create_chat}
use qt_chat_app.Shared.Payload.ChatRequest.{deserialize_create}
use qt_chat_app.Server.Session.{Socket, ClientConnection, matches_socket, find_connection}
use qt_chat_app.Server.Storage.{Storage}
use qt_chat_app.Server.Core.{
  Core, send_error, send_success, send_chat_list_data, send_chat_info_data, make_chat_info,
  make_chats_info, contains_uuid, send_updated_chat_lists,
}
use qt_chat_app.Server.Auth.{is_ignored}
use qt_chat_app.Server.Profile.{user_on}

-- QSet::insert; the list's order stands for the set's.
unfoldable pub insert_uuid : QUuid → List QUuid → List QUuid
unfolding contains_uuid
insert_uuid u us = if contains_uuid u us then us else us ++ u ∷ []

module _ (qt : Qt) {D : Type 0} (storage : Storage D) where
  abbrev list_for : Core D → QUuid → Option QUuid → Core D
  list_for w session none = send_error qt w session "Not authorized"
  list_for w session (some user) =
      send_chat_list_data qt w session
        (make_chats_info storage w.db (storage.get_chats_by_user_id w.db user))

  abbrev list_of : Core D → Socket → Option ClientConnection → Core D
  list_of w socket none = w
  list_of w socket (some c) = list_for w c.session_id (user_on socket c)

  -- Server::handleGetChats
  unfoldable pub handle_get_chats : Core D → Socket → Packet → Core D
  unfolding user_on is_type
  handle_get_chats w socket packet =
      if is_ignored socket (is_type get_chats packet)
      then w
      else list_of w socket (find_connection packet.sender w.clients)

  abbrev search_for : Core D → QUuid → Option QByteArray → Core D
  search_for w session none = send_error qt w session "Chat search payload is missing"
  search_for w session (some bytes) =
      send_chat_list_data qt w session
        (make_chats_info storage w.db (storage.search_chats w.db (qt.trimmed (qt.from_utf8 bytes))))

  abbrev search_of : Core D → Socket → Option QByteArray → Option ClientConnection → Core D
  search_of w socket payload none = w
  search_of w socket payload (some c) =
      if not (matches_socket socket c) || not c.is_authorized
      then send_error qt w c.session_id "Not authorized"
      else search_for w c.session_id payload

  -- Server::handleSearchChats
  unfoldable pub handle_search_chats : Core D → Socket → Packet → Core D
  unfolding matches_socket is_type
  handle_search_chats w socket packet =
      if is_ignored socket (is_type search_chats packet)
      then w
      else search_of w socket packet.payload (find_connection packet.sender w.clients)

  -- The loop of handleCreateChat over the requested members.
  unfoldable pub collect_members : D → QUuid → List QUuid → List QUuid → List QUuid
  unfolding insert_uuid
  collect_members db creator members [] = members
  collect_members db creator members (u ∷ us) =
      collect_members db creator
        (if is_null u || u == creator
          then members
          else if not (has_value (storage.get_user_by_id db u))
          then members
          else insert_uuid u members)
        us

  -- The loop over createChatMember, which stops at the first failure.
  unfoldable pub add_members : D → QUuid → List QUuid → Bool × D
  add_members db chat_id [] = (true, db)
  add_members db chat_id (u ∷ us) =
      let (done, db') = storage.create_chat_member db (record { chat_id = chat_id; user_id = u }) in
      let rest = add_members db' chat_id us in if done then rest else (false, db')

  abbrev members_added : Core D → QUuid → Chat → List QUuid → Bool × D → Core D
  members_added w session chat members (false, db) =
      send_error qt (record w { db = (storage.delete_chat db chat.id).1 }) session
        "Failed to add chat member"
  members_added w session chat members (true, db) =
      send_updated_chat_lists qt storage
        (send_chat_info_data qt
          (send_success qt (record w { db = db }) session "Chat created successfully") session
          (make_chat_info storage db chat))
        members

  abbrev chat_stored : Core D → QUuid → Chat → List QUuid → Bool × D → Core D
  chat_stored w session chat members (false, db) =
      send_error qt (record w { db = db }) session "Failed to create chat"
  chat_stored w session chat members (true, db) =
      members_added w session chat members (add_members db chat.id members)

  -- Two members make a direct chat, more make a group.
  abbrev pub chat_type_for : List QUuid → ChatType
  chat_type_for members = if ltb 2 (length members) then group else direct

  -- Behind the payload; `fresh` and `now` are the UUID and the time that model::Chat takes.
  unfoldable pub create_with : Core D → QUuid → QUuid → ℕ → QUuid → List QUuid → Core D
  unfolding new_chat add_members make_chat_info
  create_with w session fresh now creator members =
      if ltb (length members) 2
      then send_error qt w session "Chat must have at least one valid member"
      else let chat = new_chat fresh now (chat_type_for members) creator in
        chat_stored w session chat members (storage.create_chat w.db chat)

  abbrev create_parsed : Core D → QUuid → QUuid → ℕ → QUuid → Option (List QUuid) → Core D
  create_parsed w session fresh now creator none =
      send_error qt w session "Invalid chat create payload"
  create_parsed w session fresh now creator (some requested) =
      create_with w session fresh now creator
        (collect_members w.db creator (creator ∷ []) requested)

  abbrev create_for : Core D → QUuid → QUuid → ℕ → Option QByteArray → Option QUuid → Core D
  create_for w session fresh now payload none = send_error qt w session "Not authorized"
  create_for w session fresh now none (some creator) =
      send_error qt w session "Chat create payload is missing"
  create_for w session fresh now (some bytes) (some creator) =
      create_parsed w session fresh now creator (deserialize_create qt bytes)

  abbrev create_of :
      Core D → Socket → QUuid → ℕ → Option QByteArray → Option ClientConnection → Core D
  create_of w socket fresh now payload none = w
  create_of w socket fresh now payload (some c) =
      create_for w c.session_id fresh now payload (user_on socket c)

  -- Server::handleCreateChat
  unfoldable pub handle_create_chat : Core D → Socket → QUuid → ℕ → Packet → Core D
  unfolding user_on collect_members create_with is_type
  handle_create_chat w socket fresh now packet =
      if is_ignored socket (is_type create_chat packet)
      then w
      else create_of w socket fresh now packet.payload (find_connection packet.sender w.clients)
