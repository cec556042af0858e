-- ===== src/Turn.antt =====
-- src/discode/runner/saga_input.py: the turns of a session, from a queued message to its delivered
-- reply.
pub mod Job
pub mod Queue
pub mod Effects
pub mod System
pub mod Once
pub mod OncePhase
pub mod AtMostOnce
pub mod Fencing
pub mod Order
pub mod Progress
pub mod Whole
