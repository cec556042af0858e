-- ===== src/Guild.antt =====
-- What the bot keeps for a guild: src/discode/bot/setup_service.py, src/discode/bot/policies,
-- src/discode/bot/session_config_service.py and src/discode/bot/start_validation.py.
pub mod Auth
pub mod Maps
pub mod Channels
pub mod Refined
pub mod Aliases
pub mod Workspaces
pub mod Config
pub mod Secrets
