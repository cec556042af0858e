-- ===== src/Janitor.antt =====
-- src/discode/janitor: the sweeps. Each is one transaction; a limit is in seconds.
pub mod Timeouts
pub mod Moves
pub mod StopSweep
pub mod Stuck
pub mod Spared
pub mod Hosts
pub mod Drift
pub mod DriftSweep
pub mod Retention
