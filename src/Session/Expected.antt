-- ===== src/Session/Expected.antt =====
-- What the sagas of src/discode/bot/session_service.py are to make of a session, and the jobs that
-- they are to queue.
use discode.Base.{
  Bool, List, Option, [], if◌then◌else◌, none, or_text, some, suc, ℕ, ◌&&◌, ◌++◌, ◌+◌, ◌==◌, ◌=?◌,
  ◌∷◌,
}
use discode.Data.{
  Call, Database, Envelope, Event, EventType, Ident, LifecycleJob, Producer, RedisOutbox, Session,
  Status, StreamKey, get_session, is_archived, is_live, is_settled, outbox_row,
}
use discode.Session.Sagas.{Restarted}

-- a session in another status, under the next lifecycle version
abbrev pub next_version : Status → Call → Session → Session
next_version status c s = record s {
  status = status;
  lifecycle_changed_at = c.now;
  lifecycle_version = s.lifecycle_version + 1;
}

abbrev pub stopped_next : Call → Session → Session
stopped_next c s = next_version Status.stopping c s

abbrev pub archived_next : Call → Session → Session
archived_next c s = record (next_version Status.archived c s) { archived_at = some c.now }

abbrev pub resumed_next : Call → Session → Session
resumed_next c s = record (next_version Status.resuming c s) {
  archived_at = none;
  last_activity_at = c.now;
}

abbrev pub restarted_next : Call → Session → Session
restarted_next c s = record (next_version Status.resuming c s) {
  tool_resume_token = none;
  stopped_at = none;
  last_activity_at = c.now;
}

-- the job for the runner, with the lifecycle version that the session gets
abbrev pub next_job : Call → Session → Ident → Option Ident → Option Ident → LifecycleJob
next_job c s guild host thread = record {
  idempotency_key = c.uuid 1;
  session_id = s.id;
  guild_id = some guild;
  host_id = host;
  thread_id = thread;
  lifecycle_version = some (suc s.lifecycle_version);
}

-- the host that the caller names, or else the one of the row
abbrev pub host_of : Option Ident → Session → Ident
host_of none s = or_text s.host_id 0
host_of (some h) s = if h == 0 then or_text s.host_id 0 else h

-- the job of a stop that goes through, for the host that the caller or else the row names
abbrev pub stop_rows : Call → Ident → Ident → Option Ident → Database → List RedisOutbox
stop_rows c sid guild host db = elim (get_session sid db) [
  | none ↦ []
  | some s ↦
      if s.guild_id =? guild && is_live s.status
      then outbox_row db.next_outbox_id c.now Producer.bot
          (StreamKey.runner_jobs (some (host_of host s)))
          (Envelope.stop_session (next_job c s guild (some (host_of host s)) none))
        ∷ []
      else []
]

-- the two jobs of an archive that goes through: the runner drops the session, and the dispatcher
-- archives its thread
abbrev pub runner_row : Call → Session → Ident → Database → RedisOutbox
runner_row c s guild db =
    outbox_row db.next_outbox_id c.now Producer.bot (StreamKey.runner_jobs s.host_id)
      (Envelope.stop_session (next_job c s guild s.host_id none))

abbrev pub thread_row : Call → Session → Ident → Database → RedisOutbox
thread_row c s guild db =
    outbox_row (suc db.next_outbox_id) c.now Producer.bot StreamKey.discord_outbound (
      Envelope.archive_thread (record {
        idempotency_key = c.uuid 2;
        session_id = s.id;
        guild_id = some guild;
        thread_id = or_text s.thread_id 0;
      }))

abbrev pub archive_rows : Call → Ident → Ident → Database → List RedisOutbox
archive_rows c sid guild db = elim (get_session sid db) [
  | none ↦ []
  | some s ↦
      if s.guild_id =? guild && is_settled s.status
      then if or_text s.thread_id 0 == 0
        then runner_row c s guild db ∷ []
        else runner_row c s guild db ∷ thread_row c s guild db ∷ []
      else []
]

-- the job of a resume that goes through
abbrev pub resume_rows : Call → Ident → Ident → Ident → Database → List RedisOutbox
resume_rows c sid guild host db = elim (get_session sid db) [
  | none ↦ []
  | some s ↦
      let target = host_of (some host) s in
      if s.guild_id =? guild && is_archived s.status
      then outbox_row db.next_outbox_id c.now Producer.bot (StreamKey.runner_jobs (some target)) (
          Envelope.resume_session (next_job c s guild (some target) (some (or_text s.thread_id 0))))
        ∷ []
      else []
]

-- the job of a restart that goes through
abbrev pub restart_rows : Call → Ident → Ident → Database → List RedisOutbox
restart_rows c sid guild db = elim (get_session sid db) [
  | none ↦ []
  | some s ↦
      if s.guild_id =? guild && is_settled s.status
      then outbox_row db.next_outbox_id c.now Producer.bot (StreamKey.runner_jobs s.host_id)
          (Envelope.restart_session (next_job c s guild s.host_id (some (or_text s.thread_id 0))))
        ∷ []
      else []
]

-- the answer of a restart: a session outside the guild is not found, one that cannot be restarted
-- is refused
abbrev pub restart_answer : Ident → Ident → Database → Restarted
restart_answer sid guild db = elim (get_session sid db) [
  | none ↦ Restarted.session_not_found
  | some s ↦
      if s.guild_id =? guild
      then if is_settled s.status then Restarted.restarted sid else Restarted.not_restartable
      else Restarted.session_not_found
]

-- the audit event of a request
abbrev pub asked_event : Call → EventType → Ident → Ident → Option Ident → Event
asked_event c type guild sid actor = record {
  type = type;
  guild_id = some guild;
  session_id = sid;
  actor_id = actor;
  bytes = 0;
  created_at = c.now;
}

-- The database of a request: it differs in sessions, in the outbox by `n` rows and in one event, or
-- it is the same.
abbrev pub outcome_of : Bool → Event → ℕ → Database → Database → Database
outcome_of ok e n after db =
    if ok
    then record db {
      sessions = after.sessions;
      redis_outbox = after.redis_outbox;
      next_outbox_id = db.next_outbox_id + n;
      events = db.events ++ e ∷ [];
    }
    else db
