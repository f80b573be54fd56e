-- ===== src/Shared/Packet/RoundTrip.antt =====
-- shared/src/Packet.cpp: reading back what Packet::serialize wrote.
use qt_chat_app.Prelude.{
  ℕ, ◌≡◌, refl, Option, none, some, [], ◌∷◌, ◌++◌, arith, length, drop, is_empty, length-append,
  false, take-append, drop-append, get_or_above, append_assoc, ltb, if◌then◌else◌, ◌≤◌,
}
use qt_chat_app.Qt.{Qt, QtLaws, QByteArray, IsUuid}
use qt_chat_app.Shared.Packet.{
  Packet, PacketType, type_of_byte, byte_of_type, packet, packet_with, serialize, deserialize,
  payload_bytes, invalid, other, packet_types,
}

-- A packet type that a byte on the wire stands for: an enumerator, or a byte above the last one.
abbrev pub IsPacketType : PacketType → Type 0
IsPacketType (other b) = 18 ≤ b
IsPacketType _ = Unit

pub record IsPacket (p : Packet) : Type 0 where
  pub type : IsPacketType p.type
  pub sender : IsUuid p.sender
  pub receiver : IsUuid p.receiver

-- An empty payload is not told from a missing one.
abbrev pub drop_empty : Option QByteArray → Option QByteArray
drop_empty (some []) = none
drop_empty d = d

pub type_of_byte-byte_of_type :
    (t : PacketType) → IsPacketType t → type_of_byte (byte_of_type t) ≡ t
unfolding type_of_byte byte_of_type
type_of_byte-byte_of_type invalid h = refl
type_of_byte-byte_of_type (other b) h = get_or_above packet_types b (other b) h
type_of_byte-byte_of_type t h = refl

read_payload :
    (p : Packet) (o : Option QByteArray)
    → (if is_empty (payload_bytes o)
        then record p { payload = none }
        else record p { payload = some (payload_bytes o) })
      ≡ record p { payload = drop_empty o }
read_payload p none = refl
read_payload p (some []) = refl
read_payload p (some (x ∷ xs)) = refl

module _ (qt : Qt) where
  -- The header of a well-sized message, field by field.
  deserialize-parts :
      (b : ℕ) (s r d : QByteArray)
      → length s ≡ 16
      → length r ≡ 16
      → deserialize qt (b ∷ (s ++ (r ++ d))) ≡ (
          if is_empty d
          then packet (type_of_byte b) (qt.from_rfc4122 s) (qt.from_rfc4122 r)
          else packet_with (type_of_byte b) (qt.from_rfc4122 s) (qt.from_rfc4122 r) d)
  unfolding deserialize
  deserialize-parts b s r d hs hr = rw (
    long_enough,
    take-append 16 s (r ++ d) hs,
    drop-append 16 s (r ++ d) hs,
    take-append 16 r d hr,
    rest,
  )
    where
      long_enough : ltb (length (b ∷ (s ++ (r ++ d)))) 33 ≡ false
      long_enough = ground (arith, length-append s (r ++ d), length-append r d)

      both : length (s ++ r) ≡ 32
      both = omega (arith, length-append s r)

      rest : drop 32 (s ++ (r ++ d)) ≡ d
      rest = rw (← append_assoc) (drop-append 32 (s ++ r) d both)

  -- Reading a serialized packet of 128-bit UUIDs and of a type that a byte can carry gives the
  -- packet back, except that an empty payload is read as none. Qt's functions satisfy their
  -- laws.
  pub deserialize-serialize :
      (p : Packet)
      → QtLaws qt
      → IsPacket p
      → deserialize qt (serialize qt p) ≡ record p { payload = drop_empty p.payload }
  unfolding serialize
  deserialize-serialize p laws v =
      rw
        (
          deserialize-parts,
          laws.length-to_rfc4122 p.sender,
          laws.length-to_rfc4122 p.receiver,
          laws.rfc4122_round_trip p.sender v.sender,
          laws.rfc4122_round_trip p.receiver v.receiver,
          type_of_byte-byte_of_type p.type v.type,
        )
        (read_payload p p.payload)
