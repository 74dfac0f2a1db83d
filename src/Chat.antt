-- ===== src/Chat.antt =====
-- app/services/chat_service.py: from an inbound message to the reply that is sent.
pub mod Service
pub mod Send
pub mod Idempotency
pub mod Generate
pub mod Handlers
pub mod Tolerance
pub mod Reservation
