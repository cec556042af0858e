-- ===== src/Data/Rows.antt =====
-- The rows of src/discode/db/models/{session,input_turn,event,idempotency,allowed_root,runner_host,
-- tool_definition}.py and the values of their enumerated text columns. An identifier (UUID, Discord
-- id, host id, key, opaque token) is only compared and tested for emptiness: a number, 0 the empty
-- text. A time is a number of seconds; a text or a path is the list of its code points.
use discode.Base.{Bool, List, Option, false, true, ℕ}

abbrev pub Ident : Type 0
Ident = ℕ

abbrev pub Text : Type 0
Text = List ℕ

abbrev pub Time : Type 0
Time = ℕ

-- sessions.status
pub data Status : Type 0 where
  creating running idle archived resuming stopping stopped failed orphaned : Status

-- The texts that the program writes into sessions.status_reason.
pub data Reason : Type 0 where
  creation_timeout resume_stuck idle_archive_timeout stop_unconfirmed runner_lost cwd_invalid
        tool_unavailable thread_bind_failed thread_bind_repair_exhausted :
      Reason
  superseded : Ident → Reason

pub record Session : Type 0 where
  pub id : Ident
  pub guild_id : Option Ident
  pub owner_id : Option Ident
  pub tool : Ident
  pub name : Ident
  pub cwd : Text
  pub cwd_realpath : Text
  pub parent_channel_id : Option Ident
  pub thread_id : Option Ident
  pub host_id : Option Ident
  pub hook_secret_hash : Ident
  pub hook_secret_ciphertext : Option Ident
  pub tool_resume_token : Option Ident
  pub status : Status
  pub lifecycle_version : ℕ
  pub lifecycle_changed_at : Time
  pub status_reason : Option Reason
  pub created_at : Time
  pub running_at : Option Time
  pub recovery_checked_at : Option Time
  pub last_activity_at : Time
  pub stopped_at : Option Time
  pub archived_at : Option Time
  pub discord_thread_archived_at : Option Time
  pub thread_archive_requested_at : Option Time
  pub repair_attempts : ℕ

pub data Role : Type 0 where
  owner operator viewer : Role

pub record SessionMember : Type 0 where
  pub session_id : Ident
  pub user_id : Ident
  pub role : Option Role

-- input_turns.status
pub data TurnStatus : Type 0 where
  queued executing completed delivered uncertain delivery_failed aborted : TurnStatus

pub record InputTurn : Type 0 where
  pub sequence : ℕ
  pub idempotency_key : Ident
  pub session_id : Ident
  pub lifecycle_version : ℕ
  pub status : TurnStatus
  pub result_text : Option Text
  pub resume_token : Option Ident
  pub created_at : Time
  pub updated_at : Time

-- The audit event types that the program writes, of specs/audit_events.py.
pub data EventType : Type 0 where
  create_requested input_accepted create_running create_failed stop_requested archive_requested
        resume_requested restart_requested invite_requested :
      EventType

-- `bytes` is the payload entry of an accepted input, 0 for other events.
pub record Event : Type 0 where
  pub type : EventType
  pub guild_id : Option Ident
  pub session_id : Ident
  pub actor_id : Option Ident
  pub bytes : ℕ
  pub created_at : Time

-- idempotency_keys.envelope_type
pub data EnvelopeType : Type 0 where
  system_notice notice_post notice_archive archive_thread reply_chunk : EnvelopeType

-- idempotency_keys.idempotency_key: the key of an envelope, with "#post" or "#archive" behind it, or
-- session, key and number of a chunk of a reply.
pub data KeyText : Type 0 where
  plain post archive : Ident → KeyText
  chunk : Ident → Ident → ℕ → KeyText

-- idempotency_keys.outcome
pub data KeyOutcome : Type 0 where
  done pending : KeyOutcome
  message : Ident → KeyOutcome

pub record Slot : Type 0 where
  pub envelope_type : EnvelopeType
  pub key : KeyText

-- `slot` is the primary key; `expires_at` is none for 'infinity'
pub record IdempotencyKey : Type 0 where
  pub slot : Slot
  pub owning_session : Option Ident
  pub expires_at : Option Time
  pub outcome : Option KeyOutcome
  pub claim_expires_at : Option Time
  pub claim_owner : Option Ident

pub record AllowedRoot : Type 0 where
  pub guild_id : Ident
  pub runner_host_id : Ident
  pub user_id : Ident
  pub realpath : Text

pub data HostStatus : Type 0 where
  online offline : HostStatus

pub record RunnerHost : Type 0 where
  pub id : Ident
  pub status : HostStatus
  pub last_heartbeat_at : Time

pub data TokenSource : Type 0 where
  no_token stdout_regex stderr_regex json_field sentinel caller_uuid : TokenSource

pub record ToolDefinition : Type 0 where
  pub name : Ident
  pub enabled : Bool
  pub resume_token_source : TokenSource
  pub model_flag : Option Ident
  pub api_key_env : Option Ident
  pub base_url_env : Option Ident

abbrev pub is_creating : Status → Bool
is_creating Status.creating = true
is_creating _ = false

abbrev pub is_archived : Status → Bool
is_archived Status.archived = true
is_archived _ = false

abbrev pub is_resuming : Status → Bool
is_resuming Status.resuming = true
is_resuming _ = false

abbrev pub is_stopping : Status → Bool
is_stopping Status.stopping = true
is_stopping _ = false

-- `status IN ('running','idle')`: the session takes input
abbrev pub is_ready : Status → Bool
is_ready Status.running = true
is_ready Status.idle = true
is_ready _ = false

-- `status IN ('creating','resuming','running','idle')`
abbrev pub is_live : Status → Bool
is_live Status.creating = true
is_live Status.resuming = true
is_live Status.running = true
is_live Status.idle = true
is_live _ = false

-- `status IN ('running','idle','resuming')`
abbrev pub is_attached : Status → Bool
is_attached Status.running = true
is_attached Status.idle = true
is_attached Status.resuming = true
is_attached _ = false

-- `status IN ('running','idle','stopped')`
abbrev pub is_settled : Status → Bool
is_settled Status.running = true
is_settled Status.idle = true
is_settled Status.stopped = true
is_settled _ = false
