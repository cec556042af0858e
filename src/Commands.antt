-- ===== src/Commands.antt =====
-- The commands of a user on sessions, and messages in their threads: src/discode/bot/main.py, with
-- the resolution of a session in src/discode/bot/session_service.py.
pub mod Target
pub mod Handlers
pub mod Rights
