-- ===== src/Examples/Fixtures.antt =====
-- A small database, with one running session, one archived one, and their turns.
use discode.Base.{[], false, none, some, true, ◌+◌, ◌∷◌}
use discode.Data.{
  AllowedRoot, Call, CreateSession, Database, HostStatus, InputTurn, RunnerHost, SendInput, Session,
  Status, TokenSource, ToolDefinition, TurnStatus,
}
use discode.Config.{Isolation, Settings}
use discode.Text.{codes}
use discode.Create.Saga.{Request}
use discode.Turn.Job.{Executed, Outside, Posted}
use discode.Runner.Create.{World}

abbrev pub cfg : Settings
cfg = record {
  emergency_stop = false;
  session_isolation_mode = Isolation.trusted_host;
  max_active_sessions_per_user = 3;
  max_input_messages_per_session_per_min = 5;
  max_input_bytes_per_message = 100;
  max_input_bytes_per_session_per_min = 200;
}

abbrev pub call : Call
call = record { now = 1000; uuid = λ n. n + 900 }

abbrev pub alice : Session
alice = record {
  id = 1;
  guild_id = some 7;
  owner_id = some 5;
  tool = 3;
  name = 4;
  cwd = codes "/w/a";
  cwd_realpath = codes "/w/a";
  parent_channel_id = some 8;
  thread_id = some 9;
  host_id = some 6;
  hook_secret_hash = 11;
  hook_secret_ciphertext = none;
  tool_resume_token = none;
  status = Status.running;
  lifecycle_version = 2;
  lifecycle_changed_at = 10;
  status_reason = none;
  created_at = 10;
  running_at = some 12;
  recovery_checked_at = none;
  last_activity_at = 20;
  stopped_at = none;
  archived_at = none;
  discord_thread_archived_at = none;
  thread_archive_requested_at = none;
  repair_attempts = 0;
}

abbrev pub archived : Session
archived = record alice { id = 2; status = Status.archived; archived_at = some 30 }

abbrev pub fresh : Session
fresh = record alice { id = 3; status = Status.creating; host_id = none }

abbrev pub turn : InputTurn
turn = record {
  sequence = 1;
  idempotency_key = 50;
  session_id = 1;
  lifecycle_version = 2;
  status = TurnStatus.queued;
  result_text = none;
  resume_token = none;
  created_at = 20;
  updated_at = 20;
}

abbrev pub tool : ToolDefinition
tool = record {
  name = 3;
  enabled = true;
  resume_token_source = TokenSource.caller_uuid;
  model_flag = some 21;
  api_key_env = some 22;
  base_url_env = none;
}

abbrev pub host : RunnerHost
host = record { id = 6; status = HostStatus.online; last_heartbeat_at = 990 }

abbrev pub root : AllowedRoot
root = record { guild_id = 7; runner_host_id = 6; user_id = 0; realpath = codes "/w" }

abbrev pub db : Database
db = record {
  guilds = 7 ∷ [];
  users = 5 ∷ [];
  sessions = alice ∷ archived ∷ fresh ∷ [];
  session_members = [];
  input_turns = turn ∷ [];
  next_sequence = 2;
  next_outbox_id = 1;
  redis_outbox = [];
  events = [];
  idempotency_keys = [];
  allowed_roots = root ∷ [];
  runner_hosts = host ∷ [];
  tool_definitions = tool ∷ [];
}

abbrev pub input_message : SendInput
input_message = record {
  idempotency_key = 50;
  session_id = 1;
  guild_id = 7;
  thread_id = 9;
  host_id = 6;
  text = codes "hi";
  lifecycle_version = some 2;
}

abbrev pub answers : Outside
answers = record {
  now = 1001;
  realpath = λ path. path;
  executed = Executed.replied (codes "ok") (some 77);
  posted = Posted.accepted;
}

abbrev pub world : World
world = record { call = call; realpath = λ path. path; between = λ n d. d }

abbrev pub request : Request
request = record {
  guild_id = 7;
  owner_id = 5;
  tool = 3;
  name = 4;
  cwd = codes "/w/a";
  cwd_realpath = codes "/w/a";
  parent_channel_id = 8;
  runner_host_id = 6;
  thread_id = 9;
  model = none;
  resume_token = none;
  hook_secret_hash = 11;
  hook_secret_ciphertext = 12;
}

abbrev pub new_job : CreateSession
new_job = record {
  idempotency_key = 60;
  session_id = 3;
  guild_id = 7;
  owner_id = 5;
  tool = 3;
  cwd_realpath = codes "/w/a";
  thread_id = 9;
  hook_secret_ciphertext = 12;
  model = none;
  resume_token = none;
}
