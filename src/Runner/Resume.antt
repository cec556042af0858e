-- ===== src/Runner/Resume.antt =====
-- src/discode/runner/resume_runner.py: `run_resume_job`. The session store in memory is not
-- modelled: turns read the database.
use discode.Base.{
  Bool, Option, if◌then◌else◌, is_set, none, or_text, rowcount, some, true, ℕ, ◌&&◌, ◌==◌, ◌=?◌,
  ◌||◌,
}
use discode.Data.{
  Call, Database, Envelope, Ident, LifecycleJob, Message, Producer, Reason, Session, Status,
  StreamKey, get_session, is_resuming, update_sessions, write_outbox,
}
use discode.Paths.{Workspace, revalidate_cwd}
use discode.Runner.Create.{World, fail_session, get_adapter, mint_initial_token}

-- True, False, and the UnknownTool that `get_adapter` raises
pub data Resumed : Type 0 where
  resumed refused raised : Resumed

-- `WHERE id=:sid AND lifecycle_version=:version AND status='resuming'`
abbrev pub is_resuming_at : Ident → ℕ → Session → Bool
is_resuming_at sid version s = s.id == sid && s.lifecycle_version == version && is_resuming s.status

abbrev pub final_notice : Ident → Ident → Option Ident → Ident → Message → Envelope
final_notice ikey sid guild thread message = Envelope.terminal_notice (record {
  idempotency_key = ikey;
  session_id = sid;
  guild_id = guild;
  thread_id = thread;
  message = message;
  then_archive = true;
})

abbrev pub tell_channel : Call → Envelope → Database → Database
tell_channel c e = write_outbox c.now Producer.runner StreamKey.discord_outbound e

abbrev pub orphan_session : Reason → Session → Session
orphan_session reason s = record s { status = Status.orphaned; status_reason = some reason }

abbrev pub finish_resume : Call → Option Ident → Session → Session
finish_resume c token s = record s {
  status = Status.running;
  last_activity_at = c.now;
  tool_resume_token = token;
}

-- `guild_id or (db_guild_id or "")`
abbrev pub notice_guild : LifecycleJob → Session → Option Ident
notice_guild p s = some (or_text p.guild_id (or_text s.guild_id 0))

-- the transaction of a workspace that is no longer allowed
abbrev pub refuse_resume : Call → LifecycleJob → Session → Database → Database
refuse_resume c p s db =
    let failed =
      update_sessions (is_resuming_at p.session_id s.lifecycle_version)
        (fail_session Reason.cwd_invalid) db in
    let matched = rowcount (is_resuming_at p.session_id s.lifecycle_version) db.sessions in
    if matched == 0 || or_text s.thread_id 0 == 0
    then failed
    else tell_channel c
        (final_notice (c.uuid 0) p.session_id (notice_guild p s) (or_text s.thread_id 0)
          Message.resume_cwd_denied)
        failed

-- the transaction that sets the session running
abbrev pub complete_resume :
    Call → LifecycleJob → Session → Option Ident → Database → Database × Resumed
complete_resume c p s token db =
    if rowcount (is_resuming_at p.session_id s.lifecycle_version) db.sessions == 0
    then (db, Resumed.refused)
    else (
      update_sessions (is_resuming_at p.session_id s.lifecycle_version) (finish_resume c token) db,
      Resumed.resumed,
    )

-- the handler of an exception in that transaction, which is rolled back
abbrev pub abandon_resume : Call → LifecycleJob → Session → Database → Database
abandon_resume c p s db =
    tell_channel c
      (final_notice (c.uuid 0) p.session_id (notice_guild p s) (or_text s.thread_id 0)
        Message.resume_failed)
      (update_sessions (is_resuming_at p.session_id s.lifecycle_version)
        (orphan_session Reason.runner_lost) db)

-- the token of the row, or one that the tool mints
pub data Token : Type 0 where
  known : Option Ident → Token
  unknown_tool : Token

abbrev pub resume_token : Call → Session → Database → Token
resume_token c s db =
    if is_set s.tool_resume_token
    then Token.known s.tool_resume_token
    else elim (get_adapter s.tool db) [
      | none ↦ Token.unknown_tool
      | some d ↦ Token.known (mint_initial_token c d)
    ]

-- `commits` says whether the last transaction goes through
abbrev pub resume_session : World → Bool → LifecycleJob → Session → Database → Database × Resumed
resume_session w commits p s db = elim (resume_token w.call s (w.between 1 db)) [
  | Token.unknown_tool ↦ (w.between 1 db, Resumed.raised)
  | Token.known token ↦
      let last = w.between 2 (w.between 1 db) in
      if commits
      then complete_resume w.call p s token last
      else (abandon_resume w.call p s last, Resumed.refused)
]

abbrev pub is_job_version : Option ℕ → Session → Bool
is_job_version version s = version =? s.lifecycle_version

-- `SELECT ... WHERE id = :sid AND host_id = :hid AND status = 'resuming'`, and the version test
abbrev pub takes_resume : Ident → LifecycleJob → Session → Bool
takes_resume host p s =
    s.host_id =? host && is_resuming s.status && is_job_version p.lifecycle_version s

-- by the answer about the workspace
abbrev pub resume_checked :
    World → Bool → LifecycleJob → Session → Workspace → Database → Database × Resumed
resume_checked w commits p s (Workspace.allowed real) db = resume_session w commits p s db
resume_checked w commits p s _ db = (refuse_resume w.call p s (w.between 1 db), Resumed.refused)

unfoldable pub run_resume_job : World → Bool → Ident → LifecycleJob → Database → Database × Resumed
run_resume_job w commits host p db = elim (get_session p.session_id db) [
  | none ↦ (db, Resumed.refused)
  | some s ↦
      let guild = or_text s.guild_id (or_text p.guild_id 0) in
      if takes_resume host p s
      then resume_checked w commits p s
          (revalidate_cwd w.realpath s.cwd_realpath guild (or_text s.owner_id 0) host
            (w.between 0 db))
          (w.between 0 db)
      else (db, Resumed.refused)
]
