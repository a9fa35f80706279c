-- ===== src/Broadcast.antt =====
-- src/broadcast: delivery of events to webhooks, and the queue in front of it.
pub mod Webhook
pub mod Queue
pub mod WebSocket
