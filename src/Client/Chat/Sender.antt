-- ===== src/Client/Chat/Sender.antt =====
-- client/src/MessageSender.cpp: the thread that sends the messages of a chat.
--
-- What the sender emits is delivered at once. A message that was deleted while it waited is skipped.
use qt_chat_app.Prelude.{ℕ, Bool, not, Option, none, some, [], ◌∷◌, if◌then◌else◌}
use qt_chat_app.Qt.{Qt, QUuid}
use qt_chat_app.Shared.Payload.ChatText.{MessageType}
use qt_chat_app.Client.RequestManager.{RequestManager, send_chat_message}
use qt_chat_app.Client.Chat.{Chat, or_null_id, find_chat_message, on_message_sent}

-- MessageSender::processMessage for the first message that waits, once the client is connected:
-- the loop in front of it waits for that.
unfoldable pub process_message :
    Qt → Bool → Option QUuid → ℕ → RequestManager → Chat → RequestManager × Chat
unfolding send_chat_message on_message_sent find_chat_message
process_message qt connected user now m c = elim c.submitted [
  | [] ↦ (m, c)
  | id ∷ ids ↦ if not connected then (m, c) else elim (find_chat_message id c) [
    | none ↦ (m, record c { submitted = ids })
    | some message ↦
        let sender = or_null_id user in
        (
          send_chat_message qt m (record {
            sender_user_id = sender;
            target_chat_id = c.id;
            type = MessageType.text;
            content = message.content;
          }),
          on_message_sent now id (record c { submitted = ids }),
        )
  ]
]
