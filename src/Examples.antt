-- ===== src/Examples.antt =====
-- Concrete runs: each theorem applied where its hypotheses hold.
mod Fixtures
mod Turns
mod Sagas
mod Jobs
mod Sweeps
mod Histories
mod Streams
mod Deliveries
mod Replies
mod Guilds
mod Asked
