-- ===== src/Shared/Payload.antt =====
-- shared/src/dto, shared/src/Message.cpp and shared/src/OperationResult.cpp: the payloads.
pub mod Account
pub mod Profile
pub mod Request
pub mod ChatList
pub mod ChatRequest
pub mod ChatText
pub mod Result
pub mod RoundTrips
