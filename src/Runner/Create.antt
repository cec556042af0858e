-- ===== src/Runner/Create.antt =====
-- src/discode/runner/saga_create.py: `run_create_job` and `_fail_and_notify`, as transactions with
-- what other processes do to the database between them. Building the tool's environment and the
-- in-memory session store are not modelled: turns read the database.
use discode.Base.{Bool, Option, coalesce, find, if◌then◌else◌, none, rowcount, some, ℕ, ◌&&◌, ◌==◌}
use discode.Data.{
  Call, CreateSession, Database, Envelope, EventType, Ident, Message, Producer, Reason, Session,
  Status, StreamKey, Text, TokenSource, ToolDefinition, audit, get_session, is_creating,
  update_sessions, write_outbox,
}
use discode.Config.{Settings, execution_allowed}
use discode.Paths.{Workspace, revalidate_cwd}
use discode.Create.Supersede.{release_superseded}

-- what the runner's calls get from outside: its clock and uuids, the file system, and what other
-- processes do before its next transaction
pub record World : Type 0 where
  pub call : Call
  pub realpath : Text → Text
  pub between : ℕ → Database → Database

-- the normal returns of the job, and its CreateJobError (and the policy's PermissionError)
pub data CreateJobResult : Type 0 where
  started skipped tool_missing : CreateJobResult
  rejected not_found policy_denied : CreateJobResult

-- `WHERE id = :sid AND status = 'creating'`
abbrev pub is_creating_id : Ident → Session → Bool
is_creating_id sid s = s.id == sid && is_creating s.status

abbrev pub fail_session : Reason → Session → Session
fail_session reason s = record s { status = Status.failed; status_reason = some reason }

abbrev pub notice : Ident → Ident → Option Ident → Ident → Message → Envelope
notice ikey sid guild thread message = Envelope.system_notice (record {
  idempotency_key = ikey;
  session_id = sid;
  guild_id = guild;
  thread_id = thread;
  message = message;
})

-- `_fail_and_notify`, one transaction
unfoldable pub fail_and_notify : Call → CreateSession → Reason → Database → Database
unfolding release_superseded
fail_and_notify c p reason db =
    let failed = update_sessions (is_creating_id p.session_id) (fail_session reason) db in
    let released = record failed { sessions = release_superseded p.session_id failed.sessions } in
    if rowcount (is_creating_id p.session_id) db.sessions == 0
    then db
    else write_outbox c.now Producer.runner StreamKey.discord_outbound
        (notice (c.uuid 0) p.session_id (some p.guild_id) p.thread_id
          (Message.create_failed reason))
        (audit c.now EventType.create_failed (some p.guild_id) p.session_id none released)

-- `adapter.mint_initial_token()`
abbrev pub mint_initial_token : Call → ToolDefinition → Option Ident
mint_initial_token c d = elim d.resume_token_source [
  | TokenSource.caller_uuid ↦ some (c.uuid 0)
  | _ ↦ none
]

-- `get_adapter`: the enabled tool of that name
abbrev pub get_adapter : Ident → Database → Option ToolDefinition
get_adapter name db = find (λ d. d.name == name && d.enabled) db.tool_definitions

abbrev pub set_running : Call → Ident → CreateSession → Option Ident → Session → Session
set_running c host p token s = record s {
  status = Status.running;
  host_id = some host;
  running_at = some c.now;
  hook_secret_ciphertext = some p.hook_secret_ciphertext;
  recovery_checked_at = some c.now;
  tool_resume_token = coalesce token s.tool_resume_token;
}

-- the last transaction: the session runs, if it is still in 'creating'; another match count than
-- one commits the UPDATE without a notice
unfoldable pub start_running :
    Call → Ident → CreateSession → Option Ident → Database → Database × CreateJobResult
start_running c host p token db =
    let running = update_sessions (is_creating_id p.session_id) (set_running c host p token) db in
    if rowcount (is_creating_id p.session_id) db.sessions == 1
    then (
      write_outbox c.now Producer.runner StreamKey.discord_outbound
          (notice (c.uuid 1) p.session_id (some p.guild_id) p.thread_id Message.session_ready)
          (audit c.now EventType.create_running (some p.guild_id) p.session_id none running),
      CreateJobResult.started,
    )
    else (running, CreateJobResult.skipped)

-- after the workspace was found to be allowed
abbrev pub prepare : World → Ident → CreateSession → Database → Database × CreateJobResult
prepare w host p db = elim (get_adapter p.tool db) [
  | none ↦ (
    fail_and_notify w.call p Reason.tool_unavailable (w.between 1 db),
    CreateJobResult.tool_missing,
  )
  | some d ↦
      start_running w.call host p (coalesce p.resume_token (mint_initial_token w.call d))
        (w.between 1 db)
]

unfoldable pub run_create_job :
    Settings → World → Ident → CreateSession → Database → Database × CreateJobResult
run_create_job cfg w host p db =
    let checked : Database × CreateJobResult = elim (get_session p.session_id db) [
      | none ↦ (db, CreateJobResult.not_found)
      | some s ↦
          if is_creating s.status
          then elim (revalidate_cwd w.realpath p.cwd_realpath p.guild_id p.owner_id host db) [
            | Workspace.allowed real ↦ prepare w host p (w.between 0 db)
            | _ ↦ (
              fail_and_notify w.call p Reason.cwd_invalid (w.between 0 db),
              CreateJobResult.rejected,
            )
          ]
          else (db, CreateJobResult.skipped)
    ] in
    if execution_allowed cfg then checked else (db, CreateJobResult.policy_denied)
