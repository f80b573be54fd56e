-- ===== src/Server/Routing/Refusals.antt =====
-- server/src/Server.cpp: when handleChatMessage routes a message, and when it refuses it.
use qt_chat_app.Prelude.{
  ◌≡◌, refl, Bool, true, false, not, ◌&&◌, ◌||◌, some, List, [], ◌∷◌, ◌++◌, ◌==◌, if◌then◌else◌,
  arith, is_empty,
}
use qt_chat_app.Qt.{Qt, QUuid, is_null, QString}
use qt_chat_app.Shared.Payload.ChatText.{Message}
use qt_chat_app.Server.Session.{ClientConnection}
use qt_chat_app.Server.Session.Table.{Distinct}
use qt_chat_app.Server.Storage.{Storage}
use qt_chat_app.Server.Core.{Core, send_error, contains_uuid}
use qt_chat_app.Server.Routing.{message_parsed}
use qt_chat_app.Server.Routing.Deliveries.{deliveries, route-clients}

module _ (qt : Qt) {D : Type 0} (storage : Storage D) where
  -- The session's user may send the message: it names a chat that the user is a member of, and no
  -- other user as its sender.
  unfoldable pub may_send : D → Message → QUuid → Bool
  may_send db m user =
      not (is_null m.target_chat_id)
      && ((m.sender_user_id == user || is_null m.sender_user_id)
          && contains_uuid user (storage.get_user_ids_by_chat_id db m.target_chat_id))

  -- The message as the recipients get it.
  unfoldable pub normalized : Message → QUuid → Message
  normalized m user = record m { sender_user_id = user }

  -- Why it may not.
  unfoldable pub refusal : D → Message → QUuid → QString
  refusal db m user =
      if is_null m.target_chat_id
      then "Invalid chat id"
      else if is_empty (storage.get_user_ids_by_chat_id db m.target_chat_id)
      then "Chat not found"
      else if not (m.sender_user_id == user || is_null m.sender_user_id)
      then "Invalid sender user id"
      else "You are not a member of this chat"

  allowed_has_members :
      (user : QUuid) (members : List QUuid)
      → contains_uuid user members ≡ true
      → is_empty members ≡ false
  unfolding contains_uuid
  allowed_has_members user [] h = cc
  allowed_has_members user (u ∷ us) h = refl

  -- A message on a session with a user is written to the recipients that `deliveries` lists,
  -- with the user as its sender, exactly if the user may send it: it names a chat that the user
  -- is a member of, and its sender is the user or null. Otherwise the first of the refusals that
  -- applies is sent to the session, and nothing else changes. Session ids are distinct.
  pub message_parsed_lem :
      (w : Core D) (c : ClientConnection) (m : Message) (user : QUuid)
      → Distinct w.clients
      → c.user_id ≡ some user
      → message_parsed qt storage w c m ≡ (
          if may_send w.db m user
          then record w {
            written =
                w.written
                ++ deliveries qt w.uuid c.session_id
                    (storage.get_user_ids_by_chat_id w.db m.target_chat_id)
                    (normalized m user)
                    w.clients;
          }
          else send_error qt w c.session_id (refusal w.db m user))
  unfolding may_send normalized refusal message_parsed
  message_parsed_lem w c m user v e =
      let members = storage.get_user_ids_by_chat_id w.db m.target_chat_id in
      ground (
        arith,
        allowed_has_members user members,
        route-clients qt c.session_id members (normalized m user) w v,
      )
