-- ===== src/Server/Routing.antt =====
-- server/src/Server.cpp: handleAuthorizedPacket and handleChatMessage.
pub mod Deliveries
pub mod Refusals
use qt_chat_app.Prelude.{
  Bool, true, false, not, ◌||◌, Option, none, some, List, [], ◌∷◌, ◌==◌, if◌then◌else◌, is_empty,
}
use qt_chat_app.Qt.{Qt, QUuid, QString, QByteArray, is_null}
use qt_chat_app.Shared.Packet.{Packet, is_type, chat_message}
use qt_chat_app.Shared.Payload.ChatText.{Message, deserialize_message}
use qt_chat_app.Shared.PacketFactory.{chat_message_packet}
use qt_chat_app.Server.Session.{ClientConnection, Sessions, find_connection, authorized_user}
use qt_chat_app.Server.Storage.{Storage}
use qt_chat_app.Server.Core.{Core, send_packet, send_error, contains_uuid}

-- A target of the routing loop: an authorized member's session, and not the sender's.
abbrev pub is_member : List QUuid → Option QUuid → Bool
is_member members none = false
is_member members (some user) = contains_uuid user members

unfoldable pub is_recipient : List QUuid → QUuid → QUuid → ClientConnection → Bool
unfolding authorized_user contains_uuid
is_recipient members session key c =
    if is_member members (authorized_user c) then not (key == session) else false

module _ (qt : Qt) {D : Type 0} where
  -- The loop of handleChatMessage over the connections.
  unfoldable pub route : Core D → QUuid → List QUuid → Message → Sessions → Core D
  unfolding is_recipient send_packet
  route w session members message [] = w
  route w session members message ((key, c) ∷ cs) =
      route
        (if is_recipient members session key c
          then send_packet qt w key (chat_message_packet qt w.uuid key message)
          else w)
        session members message cs

module _ (qt : Qt) {D : Type 0} (storage : Storage D) where
  -- A message with no sender is its session's user's.
  abbrev pub sender_of : Message → QUuid → QUuid
  sender_of message user = if is_null message.sender_user_id then user else message.sender_user_id

  -- Behind the checks on the chat id and on the session's user.
  unfoldable pub route_from : Core D → QUuid → Message → QUuid → List QUuid → Core D
  unfolding contains_uuid
  route_from w session message user members =
      if is_empty members
      then send_error qt w session "Chat not found"
      else let sender = sender_of message user in
        if not (sender == user)
        then send_error qt w session "Invalid sender user id"
        else if not (contains_uuid user members)
        then send_error qt w session "You are not a member of this chat"
        else route qt w session members (record message { sender_user_id = sender }) w.clients

  abbrev message_from : Core D → QUuid → Message → Option QUuid → Core D
  message_from w session message none = send_error qt w session "Not authorized"
  message_from w session message (some user) =
      route_from w session message user
        (storage.get_user_ids_by_chat_id w.db message.target_chat_id)

  unfoldable pub message_parsed : Core D → ClientConnection → Message → Core D
  unfolding route_from
  message_parsed w c message =
      if is_null message.target_chat_id
      then send_error qt w c.session_id "Invalid chat id"
      else message_from w c.session_id message c.user_id

  -- Server::handleChatMessage
  unfoldable pub handle_chat_message : Core D → ClientConnection → Option QByteArray → Core D
  unfolding message_parsed
  handle_chat_message w c none = send_error qt w c.session_id "Message payload is missing"
  handle_chat_message w c (some bytes) = message_parsed w c (deserialize_message qt bytes)

  abbrev authorized_packet : Core D → Packet → Option ClientConnection → Core D
  authorized_packet w packet none = w
  authorized_packet w packet (some c) =
      if not c.is_authorized
      then send_error qt w packet.sender "Not authorized"
      else if is_type chat_message packet
      then handle_chat_message w c packet.payload
      else w

  -- Server::handleAuthorizedPacket, which is not given the socket. A SERVER_COMMAND and a packet of
  -- any other type are only logged.
  unfoldable pub handle_authorized_packet : Core D → Packet → Core D
  unfolding handle_chat_message is_type
  handle_authorized_packet w packet =
      if is_null packet.sender
      then w
      else authorized_packet w packet (find_connection packet.sender w.clients)
