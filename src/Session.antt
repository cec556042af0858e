-- ===== src/Session.antt =====
-- src/discode/bot/session_service.py: the transactions of the bot that change a session.
pub mod Scope
pub mod Sagas
pub mod Expected
pub mod Outcomes
pub mod Moves
pub mod Binding
pub mod Members
pub mod Invited
