-- ===== src/Create/Saga.antt =====
-- src/discode/bot/sagas/create.py: `run_create_saga`, one transaction under the owner's advisory
-- lock. The hook secret's hash and ciphertext come from hashlib and Fernet: they are arguments.
use discode.Text.{text_eq}
use discode.Base.{
  Bool, List, Option, [], coalesce, false, find, if◌then◌else◌, leb, ltb, none, not, rowcount, some,
  true, update_where, ℕ, ◌&&◌, ◌++◌, ◌==◌, ◌=?◌, ◌∷◌,
}
use discode.Data.{
  Call, CreateSession, Database, Envelope, EventType, Ident, Producer, Reason, Role, Session,
  SessionMember, Status, StreamKey, Text, TokenSource, ToolDefinition, audit, has_id, is_archived,
  write_outbox,
}
use discode.Config.{Settings}
use discode.Session.Members.{add_new}

-- what the bot asks for
pub record Request : Type 0 where
  pub guild_id : Ident
  pub owner_id : Ident
  pub tool : Ident
  pub name : Ident
  pub cwd : Text
  pub cwd_realpath : Text
  pub parent_channel_id : Ident
  pub runner_host_id : Ident
  pub thread_id : Ident
  pub model : Option Ident
  pub resume_token : Option Ident
  pub hook_secret_hash : Ident
  pub hook_secret_ciphertext : Ident

-- the ValueErrors of the saga, and its result with `resumed_from_session_id`
pub data Created : Type 0 where
  created : Ident → Option Ident → Created
  unknown_tool no_identity session_limit : Created

-- `status NOT IN ('archived','stopped','failed','orphaned')`
abbrev pub is_active : Status → Bool
is_active Status.archived = false
is_active Status.stopped = false
is_active Status.failed = false
is_active Status.orphaned = false
is_active _ = true

abbrev pub is_active_of : Ident → Ident → Session → Bool
is_active_of guild owner s = s.guild_id =? guild && s.owner_id =? owner && is_active s.status

abbrev pub active_session_count : Database → Ident → Ident → ℕ
active_session_count db guild owner = rowcount (is_active_of guild owner) db.sessions

-- `COALESCE(status_reason, '') NOT LIKE 'superseded%'`
abbrev pub is_superseded : Option Reason → Bool
is_superseded (some (Reason.superseded sid)) = true
is_superseded _ = false

-- an archived session that a request with the same name, tool and workspace resumes
abbrev pub is_predecessor : Request → Session → Bool
is_predecessor q s =
    s.name == q.name
    && s.guild_id =? q.guild_id
    && s.owner_id =? q.owner_id
    && s.tool == q.tool
    && text_eq s.cwd_realpath q.cwd_realpath
    && is_archived s.status
    && not (is_superseded s.status_reason)

abbrev later : Session → Option Session → Session
later s none = s
later s (some r) = if ltb s.created_at r.created_at then r else s

-- `ORDER BY created_at DESC LIMIT 1`
unfoldable pub latest : (Session → Bool) → List Session → Option Session
latest p [] = none
latest p (s ∷ l) = let rest = latest p l in if p s then some (later s rest) else rest

abbrev pub supersede : Ident → Session → Session
supersede successor s = record s { status_reason = some (Reason.superseded successor) }

-- the predecessor is tagged with its successor
abbrev pub tag_predecessor : Option Session → Ident → List Session → List Session
tag_predecessor none successor l = l
tag_predecessor (some r) successor l = update_where (has_id r.id) (supersede successor) l

abbrev pub token_of : Option Session → Option Ident
token_of none = none
token_of (some r) = r.tool_resume_token

abbrev pub id_of : Option Session → Option Ident
id_of none = none
id_of (some r) = some r.id

-- `thread_id or None`
abbrev pub nullable : Ident → Option Ident
nullable x = if x == 0 then none else some x

abbrev pub new_session : Call → Request → Session
new_session c q = record {
  id = c.uuid 0;
  guild_id = some q.guild_id;
  owner_id = some q.owner_id;
  tool = q.tool;
  name = q.name;
  cwd = q.cwd;
  cwd_realpath = q.cwd_realpath;
  parent_channel_id = some q.parent_channel_id;
  thread_id = nullable q.thread_id;
  host_id = some q.runner_host_id;
  hook_secret_hash = q.hook_secret_hash;
  hook_secret_ciphertext = none;
  tool_resume_token = none;
  status = Status.creating;
  lifecycle_version = 0;
  lifecycle_changed_at = c.now;
  status_reason = none;
  created_at = c.now;
  running_at = none;
  recovery_checked_at = none;
  last_activity_at = c.now;
  stopped_at = none;
  archived_at = none;
  discord_thread_archived_at = none;
  thread_archive_requested_at = none;
  repair_attempts = 0;
}

abbrev pub create_job : Call → Request → Option Ident → CreateSession
create_job c q token = record {
  idempotency_key = c.uuid 1;
  session_id = c.uuid 0;
  guild_id = q.guild_id;
  owner_id = q.owner_id;
  tool = q.tool;
  cwd_realpath = q.cwd_realpath;
  thread_id = q.thread_id;
  hook_secret_ciphertext = q.hook_secret_ciphertext;
  model = q.model;
  resume_token = token;
}

abbrev pub owner_row : Ident → Ident → SessionMember
owner_row sid user = record { session_id = sid; user_id = user; role = some Role.owner }

-- the writes, given the predecessor
abbrev pub insert_session : Call → Request → Option Session → Database → Database
insert_session c q predecessor db =
    let tables = record db {
      guilds = add_new q.guild_id db.guilds;
      users = add_new q.owner_id db.users;
      sessions = tag_predecessor predecessor (c.uuid 0) db.sessions ++ new_session c q ∷ [];
      session_members = db.session_members ++ owner_row (c.uuid 0) q.owner_id ∷ [];
    } in
    write_outbox c.now Producer.bot (StreamKey.runner_jobs (some q.runner_host_id))
      (Envelope.create_session (create_job c q (coalesce q.resume_token (token_of predecessor))))
      (audit c.now EventType.create_requested (some q.guild_id) (c.uuid 0) (some q.owner_id) tables)

abbrev is_sentinel : TokenSource → Bool
is_sentinel TokenSource.sentinel = true
is_sentinel _ = false

abbrev pub get_tool : Ident → Database → Option ToolDefinition
get_tool name db = find (λ d. d.name == name) db.tool_definitions

unfoldable pub run_create_saga : Settings → Call → Request → Database → Database × Created
run_create_saga cfg c q db = elim (get_tool q.tool db) [
  | none ↦ (db, Created.unknown_tool)
  | some definition ↦
      let predecessor = latest (is_predecessor q) db.sessions in
      if not definition.enabled
      then (db, Created.unknown_tool)
      else if is_sentinel definition.resume_token_source
      then (db, Created.no_identity)
      else if leb cfg.max_active_sessions_per_user (active_session_count db q.guild_id q.owner_id)
      then (db, Created.session_limit)
      else (insert_session c q predecessor db, Created.created (c.uuid 0) (id_of predecessor))
]
