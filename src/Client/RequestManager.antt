-- ===== src/Client/RequestManager.antt =====
-- client/src/RequestManager (.h, .cpp): the replies that come in, and the requests that go out.
--
-- The signals that are emitted are values; what is connected to them is not part of this module.
pub mod Replies
use qt_chat_app.Prelude.{
  ℕ, Bool, Option, none, some, List, [], ◌∷◌, ◌++◌, ◌||◌, ◌==◌, if◌then◌else◌,
}
use qt_chat_app.Qt.{Qt, QUuid, QString, QByteArray, null_uuid, is_null}
use qt_chat_app.Shared.Packet.{
  Packet, PacketType, packet, packet_with, invalid, chat_message, operation_result,
  user_profile_data, public_user_info_data, chat_list_data, chat_info_data, server_command,
  logout_user,
}
use qt_chat_app.Shared.Stream.{parse_stream, encapsulate}
use qt_chat_app.Shared.Payload.Account.{LoginInfo, RegisterInfo}
use qt_chat_app.Shared.Payload.Profile.{
  ProfileInfo, PublicUserInfo, ProfileUpdateInfo, deserialize_profile, deserialize_public_user,
}
use qt_chat_app.Shared.Payload.Request.{UserInfoRequest, request_by_id, request_by_name}
use qt_chat_app.Shared.Payload.ChatList.{ChatInfo, deserialize_chat, deserialize_chats}
use qt_chat_app.Shared.Payload.ChatText.{Message, MessageType, text, media, deserialize_message}
use qt_chat_app.Shared.Payload.Result.{OperationResult, deserialize_result}
use qt_chat_app.Shared.PacketFactory.{
  connect_client_packet, chat_message_packet, login_user_packet, register_user_packet,
  get_user_profile_packet, update_user_profile_packet, get_user_info_packet, get_chats_packet,
  search_chats_packet, create_chat_packet,
}
use qt_chat_app.Shared.Username.{remove_at_sign}

pub data Signal : Type 0 where
  invalid_packet_received : Packet → Signal
  unsupported_packet_received : Packet → Signal
  chat_message_received : Message → Signal
  operation_result_received : OperationResult → Signal
  current_user_profile_received : ProfileInfo → Signal
  public_user_info_received : PublicUserInfo → Signal
  chat_list_received : List ChatInfo → Signal
  chat_info_received : ChatInfo → Signal

-- m_incomingBuffer, the session id and the server id of Client::instance(), the signals that were
-- emitted, and the bytes that Client::sendBytes was given, in order.
pub record RequestManager : Type 0 where
  pub incoming_buffer : QByteArray
  pub session_id : QUuid
  pub server_id : QUuid
  pub emitted : List Signal
  pub sent : List QByteArray

-- Client::updateServerId
unfoldable pub update_server_id : RequestManager → QUuid → RequestManager
update_server_id m id = if is_null id || m.server_id == id then m else record m { server_id = id }

-- `if (!data.has_value()) break;` and a reader that may refuse, with the signal for what it read
abbrev pub read_with :
    {A : Type 0} → (QByteArray → Option A) → (A → Signal) → Option QByteArray → List Signal
read_with read signal none = []
read_with read signal (some bytes) = elim (read bytes) [ none ↦ [] | some a ↦ signal a ∷ [] ]

-- The switch of processPacket.
unfoldable pub signals_of : Qt → Packet → PacketType → List Signal
signals_of qt p invalid = invalid_packet_received p ∷ []
signals_of qt p chat_message =
    read_with (λ bytes. some (deserialize_message qt bytes)) chat_message_received p.payload
signals_of qt p operation_result =
    read_with (λ bytes. some (deserialize_result qt bytes)) operation_result_received p.payload
signals_of qt p user_profile_data =
    read_with (deserialize_profile qt) current_user_profile_received p.payload
signals_of qt p public_user_info_data =
    read_with (deserialize_public_user qt) public_user_info_received p.payload
signals_of qt p chat_list_data = read_with (deserialize_chats qt) chat_list_received p.payload
signals_of qt p chat_info_data = read_with (deserialize_chat qt) chat_info_received p.payload
signals_of qt p _ = unsupported_packet_received p ∷ []

-- RequestManager::processPacket
unfoldable pub process_packet : Qt → RequestManager → Packet → RequestManager
unfolding update_server_id signals_of
process_packet qt m p = record (update_server_id m p.sender) {
  emitted = m.emitted ++ signals_of qt p p.type;
}

-- The loop of processBytes.
unfoldable pub process_packets : Qt → RequestManager → List Packet → RequestManager
unfolding process_packet
process_packets qt m [] = m
process_packets qt m (p ∷ ps) = process_packets qt (process_packet qt m p) ps

-- RequestManager::processBytes
unfoldable pub process_bytes : Qt → RequestManager → QByteArray → RequestManager
unfolding process_packets
process_bytes qt m bytes =
    let (packets, left) = parse_stream qt (m.incoming_buffer ++ bytes) in
    process_packets qt (record m { incoming_buffer = left }) packets

module _ (qt : Qt) (m : RequestManager) where
  -- RequestManager::sendPacket
  unfoldable pub send_bytes_of : Packet → RequestManager
  send_bytes_of p = record m { sent = m.sent ++ encapsulate qt p ∷ [] }

  -- RequestManager::connectClient
  unfoldable pub request_connection : RequestManager
  unfolding send_bytes_of
  request_connection = send_bytes_of (connect_client_packet qt m.session_id m.server_id)

  -- RequestManager::sendServerCommand
  unfoldable pub send_server_command : RequestManager
  unfolding send_bytes_of
  send_server_command = send_bytes_of (packet server_command m.session_id m.server_id)

  unfoldable pub send_server_command_with : QByteArray → RequestManager
  unfolding send_bytes_of
  send_server_command_with bytes =
      send_bytes_of (packet_with server_command m.session_id m.server_id bytes)

  -- RequestManager::sendChatMessage
  unfoldable pub send_chat_message : Message → RequestManager
  unfolding send_bytes_of
  send_chat_message message =
      send_bytes_of (chat_message_packet qt m.session_id m.server_id message)

  abbrev pub user_or_null : Option QUuid → QUuid
  user_or_null none = null_uuid
  user_or_null (some user) = user

  -- RequestManager::sendTextChatMessage, with AccountManager::instance().userId()
  unfoldable pub send_text_chat_message : Option QUuid → QUuid → QString → RequestManager
  unfolding send_chat_message
  send_text_chat_message user chat content = send_chat_message (record {
    sender_user_id = user_or_null user;
    target_chat_id = chat;
    type = text;
    content = content;
  })

  -- RequestManager::sendMediaChatMessage
  unfoldable pub send_media_chat_message : Option QUuid → QUuid → QString → RequestManager
  unfolding send_chat_message
  send_media_chat_message user chat content = send_chat_message (record {
    sender_user_id = user_or_null user;
    target_chat_id = chat;
    type = media;
    content = content;
  })

  -- RequestManager::loginUser
  unfoldable pub request_login : QString → QString → RequestManager
  unfolding send_bytes_of
  request_login login password_hash = send_bytes_of (
      login_user_packet qt m.session_id m.server_id
        (record { login = login; password_hash = password_hash }))

  -- RequestManager::registerUser
  unfoldable pub request_registration : QString → QString → QString → QString → RequestManager
  unfolding send_bytes_of
  request_registration username display_name email password_hash = send_bytes_of (
      register_user_packet qt m.session_id m.server_id (record {
        username = username;
        display_name = display_name;
        email = email;
        password_hash = password_hash;
      }))

  -- RequestManager::logoutCurrentUser
  unfoldable pub request_logout : RequestManager
  unfolding send_bytes_of
  request_logout = send_bytes_of (packet logout_user m.session_id m.server_id)

  -- RequestManager::getCurrentUserProfile
  unfoldable pub request_profile : RequestManager
  unfolding send_bytes_of
  request_profile = send_bytes_of (get_user_profile_packet qt m.session_id m.server_id)

  -- RequestManager::updateCurrentUserProfile
  unfoldable pub request_update : ProfileUpdateInfo → RequestManager
  unfolding send_bytes_of
  request_update info = send_bytes_of (update_user_profile_packet qt m.session_id m.server_id info)

  -- RequestManager::getUserInfo
  unfoldable pub request_user_info : UserInfoRequest → RequestManager
  unfolding send_bytes_of
  request_user_info request =
      send_bytes_of (get_user_info_packet qt m.session_id m.server_id request)

  unfoldable pub request_user_by_id : QUuid → RequestManager
  unfolding request_user_info
  request_user_by_id user = request_user_info (request_by_id user)

  unfoldable pub request_user_by_name : QString → RequestManager
  unfolding request_user_info remove_at_sign
  request_user_by_name name = request_user_info (request_by_name (remove_at_sign (qt.trimmed name)))

  -- RequestManager::getCurrentUserChats
  unfoldable pub request_chats : RequestManager
  unfolding send_bytes_of
  request_chats = send_bytes_of (get_chats_packet qt m.session_id m.server_id)

  -- RequestManager::searchChats
  unfoldable pub request_search : QString → RequestManager
  unfolding send_bytes_of
  request_search query = send_bytes_of (search_chats_packet qt m.session_id m.server_id query)

  -- RequestManager::createChat
  unfoldable pub request_chat : List QUuid → RequestManager
  unfolding send_bytes_of
  request_chat members = send_bytes_of (create_chat_packet qt m.session_id m.server_id members)
