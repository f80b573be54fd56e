-- ===== src/Database.antt =====
-- server/src/Database.cpp: the database of the server, over a database engine.
pub mod Sql
pub mod Users
pub mod Contents
pub mod Chats
pub mod Usernames
pub mod Messages
pub mod Stats
pub mod Profile
pub mod Migrations
pub mod Laws
pub mod Created
pub mod Handlers
