-- ===== src/Chat/Reservation.antt =====
-- The reservation of the answer to one inbound message (`_send_once` of app/services/chat_service.py).
pub mod Views
pub mod Replies
pub mod Own
pub mod Tables
