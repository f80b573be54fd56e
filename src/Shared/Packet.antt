-- ===== src/Shared/Packet.antt =====
-- shared/src/Packet.h and shared/src/Packet.cpp: the packet, its serialized form and its reader.
pub mod RoundTrip
use qt_chat_app.Prelude.{
  ℕ, zero, suc, ◌+◌, ◌*◌, Bool, Option, none, some, List, [], ◌∷◌, ◌++◌, ltb, ◌==◌, if◌then◌else◌,
  length, take, drop, get_or, is_empty,
}
use qt_chat_app.Qt.{Qt, QUuid, QByteArray, null_uuid}

-- `other n` is a value of the enum's underlying type that names no enumerator. Here n is a byte,
-- the `char` that was cast.
pub data PacketType : Type 0 where
  invalid : PacketType
  operation_result : PacketType
  chat_message : PacketType
  server_command : PacketType
  connect_client : PacketType
  register_user : PacketType
  login_user : PacketType
  logout_user : PacketType
  get_user_profile : PacketType
  update_user_profile : PacketType
  user_profile_data : PacketType
  get_user_info : PacketType
  public_user_info_data : PacketType
  get_chats : PacketType
  chat_list_data : PacketType
  search_chats : PacketType
  create_chat : PacketType
  chat_info_data : PacketType
  other : ℕ → PacketType

pub record Packet : Type 0 where
  pub type : PacketType
  pub sender : QUuid
  pub receiver : QUuid
  pub payload : Option QByteArray

-- The enumerators, in the order of their values.
abbrev pub packet_types : List PacketType
packet_types =
    invalid ∷ operation_result ∷ chat_message ∷ server_command ∷ connect_client ∷ register_user
    ∷ login_user ∷ logout_user ∷ get_user_profile ∷ update_user_profile ∷ user_profile_data
    ∷ get_user_info ∷ public_user_info_data ∷ get_chats ∷ chat_list_data ∷ search_chats
    ∷ create_chat ∷ chat_info_data ∷ []

-- static_cast<PacketType>(char)
unfoldable pub type_of_byte : ℕ → PacketType
type_of_byte b = get_or packet_types b (other b)

-- static_cast<char>(PacketType)
unfoldable pub byte_of_type : PacketType → ℕ
byte_of_type invalid = 0
byte_of_type operation_result = 1
byte_of_type chat_message = 2
byte_of_type server_command = 3
byte_of_type connect_client = 4
byte_of_type register_user = 5
byte_of_type login_user = 6
byte_of_type logout_user = 7
byte_of_type get_user_profile = 8
byte_of_type update_user_profile = 9
byte_of_type user_profile_data = 10
byte_of_type get_user_info = 11
byte_of_type public_user_info_data = 12
byte_of_type get_chats = 13
byte_of_type chat_list_data = 14
byte_of_type search_chats = 15
byte_of_type create_chat = 16
byte_of_type chat_info_data = 17
byte_of_type (other b) = b

-- packet.type() == type, a comparison of the enum's underlying values
unfoldable pub is_type : PacketType → Packet → Bool
unfolding byte_of_type
is_type t p = byte_of_type p.type == byte_of_type t

abbrev pub packet_type_size : ℕ
packet_type_size = 1

abbrev pub uuid_size : ℕ
uuid_size = 16

abbrev pub packet_header_size : ℕ
packet_header_size = packet_type_size + uuid_size * 2

-- Packet(type, sender, receiver) and Packet(type, sender, receiver, data)
abbrev pub packet : PacketType → QUuid → QUuid → Packet
packet t s r = record { type = t; sender = s; receiver = r; payload = none }

abbrev pub packet_with : PacketType → QUuid → QUuid → QByteArray → Packet
packet_with t s r d = record { type = t; sender = s; receiver = r; payload = some d }

-- m_data.value(), or nothing to append
abbrev pub payload_bytes : Option QByteArray → QByteArray
payload_bytes none = []
payload_bytes (some d) = d

-- Packet::serialize
unfoldable pub serialize : Qt → Packet → QByteArray
serialize qt p =
    byte_of_type p.type
    ∷ (qt.to_rfc4122 p.sender ++ (qt.to_rfc4122 p.receiver ++ payload_bytes p.payload))

-- Packet::deserialize
unfoldable pub deserialize : Qt → QByteArray → Packet
unfolding type_of_byte
deserialize qt bytes =
    if ltb (length bytes) packet_header_size
    then packet invalid null_uuid null_uuid
    else let type = type_of_byte (get_or bytes 0 0) in
      let sender = qt.from_rfc4122 (take uuid_size (drop packet_type_size bytes)) in
      let receiver = qt.from_rfc4122 (take uuid_size (drop (packet_type_size + uuid_size) bytes)) in
      let rest = drop packet_header_size bytes in
      if is_empty rest then packet type sender receiver else packet_with type sender receiver rest
