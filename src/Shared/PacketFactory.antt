-- ===== src/Shared/PacketFactory.antt =====
-- shared/src/PacketFactory.h and shared/src/PacketFactory.cpp: a packet for each request and reply.
use qt_chat_app.Prelude.{List}
use qt_chat_app.Qt.{Qt, QUuid, QString}
use qt_chat_app.Shared.Packet.{
  Packet, packet, packet_with, connect_client, chat_message, register_user, login_user,
  get_user_profile, update_user_profile, user_profile_data, get_user_info, public_user_info_data,
  operation_result, get_chats, chat_list_data, search_chats, create_chat, chat_info_data,
}
use qt_chat_app.Shared.Payload.Account.{
  LoginInfo, RegisterInfo, serialize_login, serialize_register,
}
use qt_chat_app.Shared.Payload.Profile.{
  ProfileInfo, PublicUserInfo, ProfileUpdateInfo, serialize_profile, serialize_public_user,
  serialize_update,
}
use qt_chat_app.Shared.Payload.Request.{
  UserInfoRequest, request_by_id, request_by_name, serialize_request,
}
use qt_chat_app.Shared.Payload.ChatList.{ChatInfo, serialize_chat, serialize_chats}
use qt_chat_app.Shared.Payload.ChatRequest.{serialize_create}
use qt_chat_app.Shared.Payload.ChatText.{Message, text, media, serialize_message}
use qt_chat_app.Shared.Payload.Result.{success, error, serialize_result}

module _ (qt : Qt) (sender receiver : QUuid) where
  unfoldable pub connect_client_packet : Packet
  connect_client_packet = packet connect_client sender receiver

  unfoldable pub chat_message_packet : Message → Packet
  chat_message_packet m = packet_with chat_message sender receiver (serialize_message qt m)

  unfoldable pub text_chat_message_packet : QUuid → QUuid → QString → Packet
  unfolding chat_message_packet
  text_chat_message_packet user chat content =
      chat_message_packet
        (record { sender_user_id = user; target_chat_id = chat; type = text; content = content })

  unfoldable pub media_chat_message_packet : QUuid → QUuid → QString → Packet
  unfolding chat_message_packet
  media_chat_message_packet user chat content =
      chat_message_packet
        (record { sender_user_id = user; target_chat_id = chat; type = media; content = content })

  unfoldable pub register_user_packet : RegisterInfo → Packet
  register_user_packet info = packet_with register_user sender receiver (serialize_register qt info)

  unfoldable pub login_user_packet : LoginInfo → Packet
  login_user_packet info = packet_with login_user sender receiver (serialize_login qt info)

  unfoldable pub get_user_profile_packet : Packet
  get_user_profile_packet = packet get_user_profile sender receiver

  unfoldable pub update_user_profile_packet : ProfileUpdateInfo → Packet
  update_user_profile_packet info =
      packet_with update_user_profile sender receiver (serialize_update qt info)

  unfoldable pub user_profile_data_packet : ProfileInfo → Packet
  user_profile_data_packet info =
      packet_with user_profile_data sender receiver (serialize_profile qt info)

  unfoldable pub get_user_info_packet : UserInfoRequest → Packet
  get_user_info_packet request =
      packet_with get_user_info sender receiver (serialize_request qt request)

  unfoldable pub get_user_info_by_id_packet : QUuid → Packet
  unfolding get_user_info_packet
  get_user_info_by_id_packet user = get_user_info_packet (request_by_id user)

  unfoldable pub get_user_info_by_name_packet : QString → Packet
  unfolding get_user_info_packet
  get_user_info_by_name_packet username = get_user_info_packet (request_by_name username)

  unfoldable pub public_user_info_data_packet : PublicUserInfo → Packet
  public_user_info_data_packet info =
      packet_with public_user_info_data sender receiver (serialize_public_user qt info)

  unfoldable pub operation_success_packet : QString → Packet
  operation_success_packet message =
      packet_with operation_result sender receiver
        (serialize_result qt (record { type = success; text = message }))

  unfoldable pub operation_error_packet : QString → Packet
  operation_error_packet message =
      packet_with operation_result sender receiver
        (serialize_result qt (record { type = error; text = message }))

  unfoldable pub get_chats_packet : Packet
  get_chats_packet = packet get_chats sender receiver

  unfoldable pub chat_list_data_packet : List ChatInfo → Packet
  chat_list_data_packet chats =
      packet_with chat_list_data sender receiver (serialize_chats qt chats)

  unfoldable pub search_chats_packet : QString → Packet
  search_chats_packet query = packet_with search_chats sender receiver (qt.to_utf8 query)

  unfoldable pub create_chat_packet : List QUuid → Packet
  create_chat_packet member_ids =
      packet_with create_chat sender receiver (serialize_create qt member_ids)

  unfoldable pub chat_info_data_packet : ChatInfo → Packet
  chat_info_data_packet info = packet_with chat_info_data sender receiver (serialize_chat qt info)
