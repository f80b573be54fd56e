-- ===== src/Server/Core.antt =====
-- server/src/Server.cpp: the state that the handlers share, and the functions that send.
pub mod Kept
use qt_chat_app.Prelude.{
  ℕ, Bool, true, false, Option, none, some, List, [], ◌∷◌, ◌++◌, ◌==◌, if◌then◌else◌, ◌||◌,
}
use qt_chat_app.Qt.{Qt, QUuid, QString, QByteArray}
use qt_chat_app.Model.{Chat, chat_type_to_string}
use qt_chat_app.Shared.Packet.{Packet}
use qt_chat_app.Shared.Payload.Profile.{ProfileInfo, PublicUserInfo}
use qt_chat_app.Shared.Payload.ChatList.{ChatInfo}
use qt_chat_app.Shared.PacketFactory.{
  operation_error_packet, operation_success_packet, user_profile_data_packet,
  public_user_info_data_packet, chat_list_data_packet, chat_info_data_packet,
}
use qt_chat_app.Server.Session.{
  Socket, ClientConnection, Sessions, find_connection, writes, authorized_user,
}
use qt_chat_app.Server.Storage.{Storage}

-- m_uuid, m_clients, the state of Database::instance(), and all that was written to the sockets,
-- in order. The handlers below touch nothing else of the Server.
pub record Core (D : Type 0) : Type 0 where
  pub uuid : QUuid
  pub clients : Sessions
  pub db : D
  pub written : List (Socket × QByteArray)

module _ (qt : Qt) {D : Type 0} where
  abbrev write_to : Core D → Packet → Option ClientConnection → Core D
  write_to w p none = w
  write_to w p (some c) = record w { written = w.written ++ writes qt c p }

  -- Server::sendPacket
  unfoldable pub send_packet : Core D → QUuid → Packet → Core D
  send_packet w receiver p = write_to w p (find_connection receiver w.clients)

  -- Server::sendError
  unfoldable pub send_error : Core D → QUuid → QString → Core D
  send_error w receiver message =
      send_packet w receiver (operation_error_packet qt w.uuid receiver message)

  -- Server::sendSuccess
  unfoldable pub send_success : Core D → QUuid → QString → Core D
  send_success w receiver message =
      send_packet w receiver (operation_success_packet qt w.uuid receiver message)

  -- Server::sendUserProfileData
  unfoldable pub send_user_profile_data : Core D → QUuid → ProfileInfo → Core D
  send_user_profile_data w receiver info =
      send_packet w receiver (user_profile_data_packet qt w.uuid receiver info)

  -- Server::sendPublicUserInfoData
  unfoldable pub send_public_user_info_data : Core D → QUuid → PublicUserInfo → Core D
  send_public_user_info_data w receiver info =
      send_packet w receiver (public_user_info_data_packet qt w.uuid receiver info)

  -- Server::sendChatListData
  unfoldable pub send_chat_list_data : Core D → QUuid → List ChatInfo → Core D
  send_chat_list_data w receiver info =
      send_packet w receiver (chat_list_data_packet qt w.uuid receiver info)

  -- Server::sendChatInfoData
  unfoldable pub send_chat_info_data : Core D → QUuid → ChatInfo → Core D
  send_chat_info_data w receiver info =
      send_packet w receiver (chat_info_data_packet qt w.uuid receiver info)

-- QSet::contains and QList::contains
unfoldable pub contains_uuid : QUuid → List QUuid → Bool
contains_uuid u [] = false
contains_uuid u (v ∷ vs) = v == u || contains_uuid u vs

-- makeChatInfo
unfoldable pub make_chat_info : {D : Type 0} → Storage D → D → Chat → ChatInfo
make_chat_info storage db chat = record {
  id = chat.id;
  type = chat_type_to_string chat.type;
  created_by = chat.created_by;
  created_at = chat.created_at;
  member_ids = storage.get_user_ids_by_chat_id db chat.id;
}

-- makeChatsInfo
unfoldable pub make_chats_info : {D : Type 0} → Storage D → D → List Chat → List ChatInfo
make_chats_info storage db [] = []
make_chats_info storage db (chat ∷ chats) =
    make_chat_info storage db chat ∷ make_chats_info storage db chats

module _ (qt : Qt) {D : Type 0} (storage : Storage D) where
  abbrev update_list : Core D → ClientConnection → List QUuid → Option QUuid → Core D
  update_list w c members none = w
  update_list w c members (some user) =
      if contains_uuid user members
      then send_chat_list_data qt w c.session_id
          (make_chats_info storage w.db (storage.get_chats_by_user_id w.db user))
      else w

  -- The loop of sendUpdatedChatLists over the connections.
  unfoldable pub send_lists : Core D → List QUuid → Sessions → Core D
  unfolding authorized_user
  send_lists w members [] = w
  send_lists w members ((k, c) ∷ cs) =
      send_lists (update_list w c members (authorized_user c)) members cs

  -- Server::sendUpdatedChatLists
  unfoldable pub send_updated_chat_lists : Core D → List QUuid → Core D
  unfolding send_lists
  send_updated_chat_lists w members = send_lists w members w.clients
