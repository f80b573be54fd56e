-- ===== src/Shared/Payload/ChatText.antt =====
-- shared/src/Message (.h, .cpp): a chat message, in JSON, or in the older form of a type byte and a
-- text.
use qt_chat_app.Prelude.{
  ◌<◌, ◌^◌, ℕ, zero, suc, arith, ◌-◌, ◌≡◌, ◌≤◌, some, ◌&&◌, if◌then◌else◌, refl, [], ◌∷◌, ltb,
}
use qt_chat_app.Qt.{Qt, QtLaws, QUuid, QString, QByteArray, IsUuid, null_uuid}
use qt_chat_app.Qt.JsonValue.{
  IsJson, ℤ, pos, negsuc, object, Fields, str, num, end, set, contains, string_at, int_at,
}

-- `unlisted n` is a value of the enum's underlying type that names no enumerator.
pub data MessageType : Type 0 where
  text media : MessageType
  unlisted : ℤ → MessageType

pub record Message : Type 0 where
  pub sender_user_id : QUuid
  pub target_chat_id : QUuid
  pub type : MessageType
  pub content : QString

-- static_cast<MessageType>(int)
unfoldable pub message_type_of_int : ℤ → MessageType
message_type_of_int (pos zero) = text
message_type_of_int (pos (suc zero)) = media
message_type_of_int n = unlisted n

-- static_cast<int>(MessageType)
unfoldable pub int_of_message_type : MessageType → ℤ
int_of_message_type text = pos 0
int_of_message_type media = pos 1
int_of_message_type (unlisted n) = n

-- The int that a char, which is signed, converts to.
abbrev pub int_of_char : ℕ → ℤ
int_of_char b = if ltb b 128 then pos b else negsuc (255 - b)

abbrev message_fields : Qt → Message → Fields
message_fields qt m = set "content" (str m.content) (
    set "type" (num (int_of_message_type m.type)) (
      set "targetChat" (str (qt.uuid_to_string m.target_chat_id))
        (set "user" (str (qt.uuid_to_string m.sender_user_id)) end)))

unfoldable pub serialize_message : Qt → Message → QByteArray
unfolding set int_of_message_type
serialize_message qt m = qt.to_json (object (message_fields qt m))

-- The older form, which has neither a sender nor a chat.
unfoldable pub read_plain : Qt → QByteArray → Message
unfolding message_type_of_int
read_plain qt [] = record {
  sender_user_id = null_uuid;
  target_chat_id = null_uuid;
  type = text;
  content = "";
}
read_plain qt (b ∷ bytes) = record {
  sender_user_id = null_uuid;
  target_chat_id = null_uuid;
  type = message_type_of_int (int_of_char b);
  content = qt.from_utf8 bytes;
}

-- The object's form, under the keys of now or of before; `plain` is what the older form gives.
unfoldable pub read_message : Qt → Message → Fields → Message
unfolding contains string_at int_at message_type_of_int
read_message qt plain obj =
    let user_key = if contains "user" obj then "user" else "senderUserId" in
    let chat_key = if contains "targetChat" obj then "targetChat" else "targetChatId" in
    if contains user_key obj
      && (contains chat_key obj && (contains "type" obj && contains "content" obj))
    then record {
      sender_user_id = qt.uuid_of_string (string_at user_key obj);
      target_chat_id = qt.uuid_of_string (string_at chat_key obj);
      type = message_type_of_int (int_at "type" obj);
      content = string_at "content" obj;
    }
    else plain

-- Message::deserialize
unfoldable pub deserialize_message : Qt → QByteArray → Message
unfolding read_message read_plain
deserialize_message qt bytes = elim (qt.from_json bytes) [
  | some (object obj) ↦ read_message qt (read_plain qt bytes) obj
  | _ ↦ read_plain qt bytes
]

-- An enumerator, or an int that names none.
abbrev pub IsMessageType : MessageType → Type 0
IsMessageType (unlisted (pos n)) = (2 ≤ n) × (n < 2 ^ 31)
IsMessageType (unlisted (negsuc n)) = n < 2 ^ 31
IsMessageType _ = Unit

pub record IsMessage (m : Message) : Type 0 where
  pub sender : IsUuid m.sender_user_id
  pub chat : IsUuid m.target_chat_id
  pub type : IsMessageType m.type

int_of_message_type-IsJson :
    (t : MessageType) → IsMessageType t → IsJson (num (int_of_message_type t))
unfolding int_of_message_type
int_of_message_type-IsJson text h = omega arith
int_of_message_type-IsJson media h = omega arith
int_of_message_type-IsJson (unlisted (negsuc n)) h = h
int_of_message_type-IsJson (unlisted (pos n)) h = h.1

message_type_round_trip :
    (t : MessageType) → IsMessageType t → message_type_of_int (int_of_message_type t) ≡ t
unfolding message_type_of_int int_of_message_type
message_type_round_trip text h = refl
message_type_round_trip media h = refl
message_type_round_trip (unlisted (negsuc n)) h = refl
message_type_round_trip (unlisted (pos zero)) h = absurd (omega arith)
message_type_round_trip (unlisted (pos (suc zero))) h = absurd (omega arith)
message_type_round_trip (unlisted (pos (suc (suc n)))) h = refl

module _ (qt : Qt) (laws : QtLaws qt) where
  -- A message of 128-bit UUIDs, and of a type that is an int, is read back as it was written.
  -- Qt's functions satisfy their laws.
  pub deserialize_message-serialize_message :
      (m : Message) → IsMessage m → deserialize_message qt (serialize_message qt m) ≡ m
  unfolding deserialize_message serialize_message
  deserialize_message-serialize_message m v = rw (
    laws.json_round_trip (object (message_fields qt m)) (
      refl,
      (tt, (refl, (tt, (refl, (int_of_message_type-IsJson m.type v.type, (refl, (tt, tt))))))),
    ),
    deserialize_message,
    laws.uuid_string_round_trip m.sender_user_id v.sender,
    laws.uuid_string_round_trip m.target_chat_id v.chat,
    message_type_round_trip m.type v.type,
  )
