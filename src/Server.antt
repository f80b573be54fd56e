-- ===== src/Server.antt =====
-- server/src: the sessions of the connected clients, and the handlers of their packets.
pub mod Session
pub mod Storage
pub mod Core
pub mod Auth
pub mod Profile
pub mod Chats
pub mod Routing
pub mod Reading
pub mod Sessions
