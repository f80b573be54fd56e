-- ===== src/Tests.antt =====
-- Runs of the model at concrete inputs, over a concrete stand-in for Qt.
pub mod Digits
pub mod JsonCodec
pub mod Spelled
pub mod SampleQt
pub mod Tables
mod Storing
pub mod SampleServer
pub mod Wire
pub mod Payloads
pub mod Serving
pub mod Logins
pub mod Resolving
pub mod Exchanging
pub mod LoggingIn
mod Chatting
mod Served
