-- ===== src/Control.antt =====
-- src/discode/runner/control_api.py: the runner's HTTP interface, through which replies reach
-- Discord.
pub mod Access
pub mod Chunks
pub mod Claims
pub mod Leases
pub mod Exclusive
pub mod Sending
pub mod Reply
pub mod Replay
pub mod Posted
pub mod Chunkwise
pub mod Idempotent
