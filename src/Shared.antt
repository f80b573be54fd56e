-- ===== src/Shared.antt =====
-- shared/src: the packets and their framing, the payloads, and the username rules.
pub mod Packet
pub mod Stream
pub mod Payload
pub mod Username
pub mod PacketFactory
