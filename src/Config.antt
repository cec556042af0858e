-- ===== src/Config.antt =====
-- src/discode/config.py: the settings that the modelled code reads, and
-- src/discode/security/execution_policy.py.
use discode.Base.{Bool, false, not, true, ℕ, ◌&&◌}

pub data Isolation : Type 0 where
  trusted_host other_mode : Isolation

pub record Settings : Type 0 where
  pub emergency_stop : Bool
  pub session_isolation_mode : Isolation
  pub max_active_sessions_per_user : ℕ
  pub max_input_messages_per_session_per_min : ℕ
  pub max_input_bytes_per_message : ℕ
  pub max_input_bytes_per_session_per_min : ℕ

-- `ensure_outbound_allowed` raises unless this holds
abbrev pub outbound_allowed : Settings → Bool
outbound_allowed c = not c.emergency_stop

abbrev is_trusted : Isolation → Bool
is_trusted Isolation.trusted_host = true
is_trusted _ = false

-- `ensure_execution_allowed` raises unless this holds
abbrev pub execution_allowed : Settings → Bool
execution_allowed c = outbound_allowed c && is_trusted c.session_isolation_mode
