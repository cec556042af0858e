-- ===== src/Input.antt =====
-- src/discode/bot/sagas/input.py: the bot takes a message into a session.
pub mod Saga
pub mod Quota
