-- ===== src/Queues.antt =====
-- src/discode/queues/relay.py: from the outbox to the streams of Redis.
pub mod Relay
pub mod Delivered
