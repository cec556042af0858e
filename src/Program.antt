-- ===== src/Program.antt =====
-- The whole program over one database: the modelled transactions of bot, runner and janitor, in any
-- order, around the jobs of the runners.
pub mod Operations
pub mod Evolution
pub mod Turns
pub mod History
pub mod Unregistered
pub mod Uncounted
