-- ===== src/Janitor/Stuck.antt =====
-- What the watchdogs of src/discode/janitor/timeouts.py leave behind.
use discode.Base.{ℕ, ◌+◌, ◌<◌, ◌≡◌}
use discode.Data.{Session, Status, Time}

-- not in the status since a time that is more than `limit` seconds ago
abbrev pub IsCleared : Status → (Session → Time) → Time → ℕ → Session → Type 0
IsCleared status since now limit s = ¬ ((s.status ≡ status) × (since s + limit < now))
