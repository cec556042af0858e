-- ===== src/Create.antt =====
-- src/discode/bot/sagas/create.py and src/discode/db/accessors/supersede.py: a new session.
pub mod Saga
pub mod Limit
pub mod Supersede
pub mod Released
