-- ===== src/Data/Envelopes.antt =====
-- The envelopes of src/discode/specs/redis_envelopes.py as the program builds them, and the rows of
-- the outbox. `get` on an absent JSON field is an optional field here.
use discode.Base.{Bool, Option, ℕ}
use discode.Data.Rows.{Ident, Reason, Text, Time}

pub record CreateSession : Type 0 where
  pub idempotency_key : Ident
  pub session_id : Ident
  pub guild_id : Ident
  pub owner_id : Ident
  pub tool : Ident
  pub cwd_realpath : Text
  pub thread_id : Ident
  pub hook_secret_ciphertext : Ident
  pub model : Option Ident
  pub resume_token : Option Ident

pub record SendInput : Type 0 where
  pub idempotency_key : Ident
  pub session_id : Ident
  pub guild_id : Ident
  pub thread_id : Ident
  pub host_id : Ident
  pub text : Text
  pub lifecycle_version : Option ℕ

-- stop, resume and restart jobs; `guild_id` and `host_id` are missing in the janitor's stop jobs
pub record LifecycleJob : Type 0 where
  pub idempotency_key : Ident
  pub session_id : Ident
  pub guild_id : Option Ident
  pub host_id : Option Ident
  pub thread_id : Option Ident
  pub lifecycle_version : Option ℕ

-- the machine fields and texts of a notice
pub data Message : Type 0 where
  session_ready resume_timed_out resume_failed resume_cwd_denied host_lost : Message
  create_failed : Reason → Message

pub record SystemNotice : Type 0 where
  pub idempotency_key : Ident
  pub session_id : Ident
  pub guild_id : Option Ident
  pub thread_id : Ident
  pub message : Message

pub record TerminalNotice : Type 0 where
  pub idempotency_key : Ident
  pub session_id : Ident
  pub guild_id : Option Ident
  pub thread_id : Ident
  pub message : Message
  pub then_archive : Bool

pub record ArchiveThread : Type 0 where
  pub idempotency_key : Ident
  pub session_id : Ident
  pub guild_id : Option Ident
  pub thread_id : Ident

pub data Envelope : Type 0 where
  create_session : CreateSession → Envelope
  send_input : SendInput → Envelope
  stop_session : LifecycleJob → Envelope
  resume_session : LifecycleJob → Envelope
  restart_session : LifecycleJob → Envelope
  system_notice : SystemNotice → Envelope
  terminal_notice : TerminalNotice → Envelope
  archive_thread : ArchiveThread → Envelope

pub data Producer : Type 0 where
  bot runner janitor : Producer

-- `runner:jobs:{host}` (the text of NULL where the host is), `input:jobs:{host}`,
-- `discord:outbound`
pub data StreamKey : Type 0 where
  runner_jobs : Option Ident → StreamKey
  input_jobs : Ident → StreamKey
  discord_outbound : StreamKey

pub record RedisOutbox : Type 0 where
  pub id : ℕ
  pub producer : Producer
  pub stream_key : StreamKey
  pub payload : Envelope
  pub created_at : Time
  pub published_at : Option Time
  pub attempts : ℕ
  -- in milliseconds
  pub next_attempt_at : ℕ
  pub error : Option Ident
