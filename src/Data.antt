-- ===== src/Data.antt =====
-- The shared Postgres database: the row types of db/models, the envelopes of specs/redis_envelopes,
-- and the database as one record of tables.
mod Rows
mod Envelopes
mod Statements
mod Slots
pub use Rows.*
pub use Envelopes.*
pub use Statements.*
unfoldable pub use Slots.*
