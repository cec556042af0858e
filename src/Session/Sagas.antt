-- ===== src/Session/Sagas.antt =====
-- src/discode/bot/session_service.py: stop, archive, resume and restart. Each is one transaction.
-- SQLAlchemy refreshes the loaded row after the UPDATE, so the envelope carries the new version.
use discode.Base.{
  Bool, Option, false, if◌then◌else◌, none, or_text, rowcount, some, true, ◌&&◌, ◌+◌, ◌==◌, ◌=?◌,
}
use discode.Session.Scope.{scoped}
use discode.Data.{
  Call, Database, Envelope, EventType, Ident, LifecycleJob, Producer, Session, Status, StreamKey,
  audit, get_session, is_archived, is_live, is_settled, update_sessions, write_outbox,
}

abbrev pub begin_stop : Call → Session → Session
begin_stop c s = record s {
  status = Status.stopping;
  lifecycle_changed_at = c.now;
  lifecycle_version = s.lifecycle_version + 1;
}

abbrev pub begin_archive : Call → Session → Session
begin_archive c s = record s {
  status = Status.archived;
  archived_at = some c.now;
  lifecycle_changed_at = c.now;
  lifecycle_version = s.lifecycle_version + 1;
}

abbrev pub begin_resume : Call → Session → Session
begin_resume c s = record s {
  status = Status.resuming;
  archived_at = none;
  last_activity_at = c.now;
  lifecycle_changed_at = c.now;
  lifecycle_version = s.lifecycle_version + 1;
}

abbrev pub begin_restart : Call → Session → Session
begin_restart c s = record s {
  tool_resume_token = none;
  status = Status.resuming;
  stopped_at = none;
  last_activity_at = c.now;
  lifecycle_changed_at = c.now;
  lifecycle_version = s.lifecycle_version + 1;
}

-- The job that the runner gets; `s` is the row before the UPDATE.
abbrev pub lifecycle_job : Call → Session → Ident → Option Ident → Option Ident → LifecycleJob
lifecycle_job c s guild host thread = record {
  idempotency_key = c.uuid 1;
  session_id = s.id;
  guild_id = some guild;
  host_id = host;
  thread_id = thread;
  lifecycle_version = some (s.lifecycle_version + 1);
}

-- `host_id or sess.host_id or ""`
abbrev pub target_host : Option Ident → Session → Ident
target_host host s = or_text host (or_text s.host_id 0)

unfoldable pub run_stop_saga :
    Call → Ident → Ident → Ident → Option Ident → Database → Database × Bool
run_stop_saga c sid guild requested_by host db = elim (get_session sid db) [
  | none ↦ (db, false)
  | some s ↦
      let target = target_host host s in
      let job = lifecycle_job c s guild (some target) none in
      if s.guild_id =? guild && is_live s.status
      then if rowcount (scoped sid guild is_live) db.sessions == 0 then (db, false) else (
        write_outbox c.now Producer.bot (StreamKey.runner_jobs (some target))
            (Envelope.stop_session job)
            (audit c.now EventType.stop_requested (some guild) sid (some requested_by)
              (update_sessions (scoped sid guild is_live) (begin_stop c) db)),
        true,
      )
      else (db, false)
]

-- the notice that asks the dispatcher to archive the Discord thread, if there is one
abbrev pub request_thread_archive : Call → Session → Ident → Database → Database
request_thread_archive c s guild db =
    if or_text s.thread_id 0 == 0
    then db
    else write_outbox c.now Producer.bot StreamKey.discord_outbound
        (Envelope.archive_thread (record {
          idempotency_key = c.uuid 2;
          session_id = s.id;
          guild_id = some guild;
          thread_id = or_text s.thread_id 0;
        }))
        db

unfoldable pub run_archive_saga : Call → Ident → Ident → Database → Database × Bool
run_archive_saga c sid guild db = elim (get_session sid db) [
  | none ↦ (db, false)
  | some s ↦
      if s.guild_id =? guild
      then if rowcount (scoped sid guild is_settled) db.sessions == 0 then (db, false) else (
        request_thread_archive c s guild (
            write_outbox c.now Producer.bot (StreamKey.runner_jobs s.host_id)
              (Envelope.stop_session (lifecycle_job c s guild s.host_id none))
              (audit c.now EventType.archive_requested (some guild) sid none
                (update_sessions (scoped sid guild is_settled) (begin_archive c) db))),
        true,
      )
      else (db, false)
]

unfoldable pub run_resume_saga : Call → Ident → Ident → Ident → Database → Database × Bool
run_resume_saga c sid guild host db = elim (get_session sid db) [
  | none ↦ (db, false)
  | some s ↦
      let target = target_host (some host) s in
      let job = lifecycle_job c s guild (some target) (some (or_text s.thread_id 0)) in
      if s.guild_id =? guild && is_archived s.status
      then if rowcount (scoped sid guild is_archived) db.sessions == 0 then (db, false) else (
        write_outbox c.now Producer.bot (StreamKey.runner_jobs (some target))
            (Envelope.resume_session job)
            (audit c.now EventType.resume_requested (some guild) sid none
              (update_sessions (scoped sid guild is_archived) (begin_resume c) db)),
        true,
      )
      else (db, false)
]

-- the two ValueErrors of `run_restart_saga`; `restarted` is its normal return
pub data Restarted : Type 0 where
  restarted : Ident → Restarted
  session_not_found not_restartable : Restarted

unfoldable pub run_restart_saga : Call → Ident → Ident → Ident → Database → Database × Restarted
run_restart_saga c sid guild requested_by db = elim (get_session sid db) [
  | none ↦ (db, Restarted.session_not_found)
  | some s ↦
      let job = lifecycle_job c s guild s.host_id (some (or_text s.thread_id 0)) in
      if s.guild_id =? guild
      then if rowcount (scoped sid guild is_settled) db.sessions == 0
        then (db, Restarted.not_restartable)
        else (
          write_outbox c.now Producer.bot (StreamKey.runner_jobs s.host_id)
              (Envelope.restart_session job)
              (audit c.now EventType.restart_requested (some guild) sid (some requested_by)
                (update_sessions (scoped sid guild is_settled) (begin_restart c) db)),
          Restarted.restarted sid,
        )
      else (db, Restarted.session_not_found)
]
