-- ===== src/Client.antt =====
-- client/src: the parts of the client that keep state without a user interface.
pub mod Hash
pub mod Hasher
pub mod AccountManager
pub mod UserResolver
pub mod RequestManager
pub mod ChatMessage
pub mod Chat
pub mod ChatManager
pub mod ChatCreator
pub mod Connection
