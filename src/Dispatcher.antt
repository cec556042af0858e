-- ===== src/Dispatcher.antt =====
-- src/discode/dispatcher: what is posted to Discord.
pub mod Message
pub mod Chunks
pub mod Plain
pub mod Claim
pub mod Handlers
pub mod Accounts
pub mod Claimed
pub mod Gated
pub mod Posted
pub mod Repeats
pub mod Consumer
pub mod Settled
pub mod Limiter
pub mod Rate
