-- ===== src/Runner.antt =====
-- src/discode/runner: the jobs of the stream `runner:jobs:{host}`.
pub mod Create
pub mod Expected
pub mod Created
pub mod CreateMoves
pub mod Resume
pub mod ResumeMoves
pub mod Recover
pub mod RecoverMoves
pub mod Dispatch
pub mod Dispatched
pub mod Budget
