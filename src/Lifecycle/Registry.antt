-- ===== src/Lifecycle/Registry.antt =====
-- src/discode/specs/state_machine.py: the registry of session state transitions.
use discode.Base.{Bool, false, true}
use discode.Data.{Status}

-- `to in STATE_TRANSITIONS[from]`
abbrev pub registered : Status → Status → Bool
registered Status.creating Status.running = true
registered Status.creating Status.failed = true
registered Status.running Status.idle = true
registered Status.running Status.stopping = true
registered Status.running Status.failed = true
registered Status.running Status.orphaned = true
registered Status.idle Status.running = true
registered Status.idle Status.archived = true
registered Status.idle Status.stopping = true
registered Status.idle Status.orphaned = true
registered Status.archived Status.resuming = true
registered Status.resuming Status.running = true
registered Status.resuming Status.orphaned = true
registered Status.resuming Status.failed = true
registered Status.stopping Status.stopped = true
registered Status.stopping Status.failed = true
registered Status.stopping Status.orphaned = true
registered _ _ = false
