-- ===== src/Pubsub.antt =====
-- src/services/pubsub: messages and their delivery.
pub mod Messages
pub mod Delivery
