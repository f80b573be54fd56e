-- ===== src/Server/Reading/Messages.antt =====
-- server/src/Server.cpp: a chat message, from the packet that came in to the packets that go out.
use qt_chat_app.Prelude.{◌≡◌, true, false, some, ◌++◌, arith}
use qt_chat_app.Qt.{Qt, QUuid, QByteArray, is_null}
use qt_chat_app.Shared.Packet.{Packet, is_type, chat_message}
use qt_chat_app.Shared.Payload.ChatText.{deserialize_message}
use qt_chat_app.Server.Session.{Socket, ClientConnection, find_connection}
use qt_chat_app.Server.Session.Table.{Distinct}
use qt_chat_app.Server.Storage.{Storage}
use qt_chat_app.Server.Core.{Core}
use qt_chat_app.Server.Routing.{handle_chat_message, handle_authorized_packet}
use qt_chat_app.Server.Routing.Deliveries.{deliveries}
use qt_chat_app.Server.Routing.Refusals.{may_send, normalized, message_parsed_lem}
use qt_chat_app.Server.Reading.{Fresh, dispatch, handle_packet}

module _ (qt : Qt) {D : Type 0} (storage : Storage D) where
  -- A CHAT_MESSAGE packet with a payload, whose sender is not the null UUID and names a session
  -- that is authorized and has a user, is written to exactly the recipients that `deliveries`
  -- lists, with that user as the message's sender, if the user may send the message; session ids
  -- are distinct. Nothing else changes, and the socket on which the packet came in does not
  -- matter.
  pub handle_packet-deliveries :
      (f : Fresh) (s : Socket) (w : Core D) (p : Packet) (c : ClientConnection) (user : QUuid)
      (bytes : QByteArray)
      → Distinct w.clients
      → p.type ≡ chat_message
      → is_null p.sender ≡ false
      → find_connection p.sender w.clients ≡ some c
      → c.is_authorized ≡ true
      → c.user_id ≡ some user
      → p.payload ≡ some bytes
      → may_send qt storage w.db (deserialize_message qt bytes) user ≡ true
      → handle_packet qt storage f s w p ≡ record w {
        written =
            w.written
            ++ deliveries qt w.uuid c.session_id
                (storage.get_user_ids_by_chat_id w.db (deserialize_message qt bytes).target_chat_id)
                (normalized qt storage (deserialize_message qt bytes) user)
                w.clients;
      }
  unfolding handle_packet dispatch handle_authorized_packet handle_chat_message is_type
  handle_packet-deliveries f s w p c user bytes v t n e a u b ok =
      rw (t, e, b)
        (ground (arith, message_parsed_lem qt storage w c (deserialize_message qt bytes) user v u))
