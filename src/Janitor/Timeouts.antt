-- ===== src/Janitor/Timeouts.antt =====
-- src/discode/janitor/timeouts.py. RETURNING lists the matched rows in table order, as updated.
use discode.Base.{
  Bool, List, [], any, coalesce, false, if◌then◌else◌, length, ltb, map, none, not, or_text,
  rowcount, select, some, suc, true, ℕ, ◌&&◌, ◌*◌, ◌+◌, ◌==◌, ◌∷◌,
}
use discode.Data.{
  Call, Database, Envelope, Ident, InputTurn, LifecycleJob, Message, Producer, Reason, Session,
  Status, StreamKey, Time, TurnStatus, has_id, is_creating, is_resuming, is_stopping,
  update_sessions, write_outbox,
}
use discode.Create.Supersede.{release_superseded}
use discode.Runner.Create.{fail_session, notice}
use discode.Runner.Resume.{final_notice, orphan_session}

-- `at < now() - interval`
abbrev pub is_older : Time → ℕ → Time → Bool
is_older now limit at = ltb (at + limit) now

abbrev pub is_running : Status → Bool
is_running Status.running = true
is_running _ = false

abbrev pub is_idle : Status → Bool
is_idle Status.idle = true
is_idle _ = false

-- `status IN ('running', 'idle', 'archived')`
abbrev pub is_at_rest : Status → Bool
is_at_rest Status.running = true
is_at_rest Status.idle = true
is_at_rest Status.archived = true
is_at_rest _ = false

-- `t.status IN ('queued', 'executing', 'completed')`
abbrev pub is_open : TurnStatus → Bool
is_open TurnStatus.queued = true
is_open TurnStatus.executing = true
is_open TurnStatus.completed = true
is_open _ = false

abbrev pub is_open_turn_of : Session → InputTurn → Bool
is_open_turn_of s t =
    t.session_id == s.id && t.lifecycle_version == s.lifecycle_version && is_open t.status

-- the EXISTS clause of the sweeps
abbrev pub has_open_turn : Database → Session → Bool
has_open_turn db s = any (is_open_turn_of s) db.input_turns

-- the loop over the returned rows; `uuid` counts the keys that it draws
abbrev pub each_row : (ℕ → Session → Database → Database) → ℕ → List Session → Database → Database
each_row body uuid [] db = db
each_row body uuid (s ∷ rows) db = each_row body (suc uuid) rows (body uuid s db)

abbrev pub returned : (Session → Bool) → (Session → Session) → Database → List Session
returned p f db = map f (select p db.sessions)

abbrev pub tell : Call → StreamKey → Envelope → Database → Database
tell c stream e = write_outbox c.now Producer.janitor stream e

abbrev pub is_creation_stuck : Time → ℕ → Session → Bool
is_creation_stuck now limit s = is_creating s.status && is_older now limit s.created_at

abbrev pub fail_creation : Call → ℕ → Session → Database → Database
fail_creation c uuid s db =
    tell c StreamKey.discord_outbound
      (notice (c.uuid uuid) s.id s.guild_id (or_text s.thread_id 0)
        (Message.create_failed Reason.creation_timeout))
      (record db { sessions = release_superseded s.id db.sessions })

unfoldable pub sweep_creating_watchdog : Call → ℕ → Database → Database × ℕ
sweep_creating_watchdog c limit db =
    let rows = returned (is_creation_stuck c.now limit) (fail_session Reason.creation_timeout) db in
    (
      each_row (fail_creation c) 0 rows (
          update_sessions (is_creation_stuck c.now limit) (fail_session Reason.creation_timeout)
            db),
      length rows,
    )

abbrev pub is_resume_stuck : Time → ℕ → Session → Bool
is_resume_stuck now limit s = is_resuming s.status && is_older now limit s.lifecycle_changed_at

-- the notice that a session is over, which archives its thread
abbrev pub tell_final : Call → Message → ℕ → Session → Database → Database
tell_final c message uuid s db =
    tell c StreamKey.discord_outbound
      (final_notice (c.uuid uuid) s.id s.guild_id (or_text s.thread_id 0) message) db

unfoldable pub sweep_resuming_watchdog : Call → ℕ → Database → Database × ℕ
sweep_resuming_watchdog c limit db =
    let rows = returned (is_resume_stuck c.now limit) (orphan_session Reason.resume_stuck) db in
    (
      each_row (tell_final c Message.resume_timed_out) 0 rows
          (update_sessions (is_resume_stuck c.now limit) (orphan_session Reason.resume_stuck) db),
      length rows,
    )

abbrev pub is_inactive : Time → ℕ → Session → Bool
is_inactive now limit s = is_older now limit s.last_activity_at

abbrev pub goes_idle : Time → ℕ → Database → Session → Bool
goes_idle now limit db s =
    is_running s.status && not (has_open_turn db s) && is_inactive now limit s

abbrev pub set_idle : Time → Session → Session
set_idle now s = record s { status = Status.idle; lifecycle_changed_at = now }

unfoldable pub sweep_idle_timeout : Call → ℕ → Database → Database × ℕ
sweep_idle_timeout c minutes db = (
  update_sessions (goes_idle c.now (60 * minutes) db) (set_idle c.now) db,
  rowcount (goes_idle c.now (60 * minutes) db) db.sessions,
)

abbrev pub is_archive_due : Time → ℕ → Database → Session → Bool
is_archive_due now limit db s =
    is_idle s.status && not (has_open_turn db s) && is_inactive now limit s

abbrev pub archive_inactive : Time → Session → Session
archive_inactive now s = record s {
  status = Status.archived;
  archived_at = some now;
  lifecycle_version = s.lifecycle_version + 1;
  lifecycle_changed_at = now;
  thread_archive_requested_at = some now;
}

abbrev pub janitor_job : Ident → Session → LifecycleJob
janitor_job ikey s = record {
  idempotency_key = ikey;
  session_id = s.id;
  guild_id = none;
  host_id = none;
  thread_id = none;
  lifecycle_version = some s.lifecycle_version;
}

-- the session has no host: `if row[...]`
abbrev pub is_hostless : Session → Bool
is_hostless s = or_text s.host_id 0 == 0

abbrev pub tell_runner : Call → Ident → Session → Database → Database
tell_runner c ikey s db =
    if is_hostless s
    then db
    else tell c (StreamKey.runner_jobs s.host_id) (Envelope.stop_session (janitor_job ikey s)) db

abbrev pub tell_archived : Call → ℕ → Session → Database → Database
tell_archived c uuid s db =
    tell c StreamKey.discord_outbound
      (Envelope.archive_thread (record {
        idempotency_key = c.uuid (2 * uuid + 1);
        session_id = s.id;
        guild_id = s.guild_id;
        thread_id = or_text s.thread_id 0;
      }))
      (tell_runner c (c.uuid (2 * uuid)) s db)

unfoldable pub sweep_archive_timeout : Call → ℕ → Database → Database × ℕ
sweep_archive_timeout c minutes db =
    let due = is_archive_due c.now (60 * minutes) db in
    let rows = returned due (archive_inactive c.now) db in
    (
      each_row (tell_archived c) 0 rows (update_sessions due (archive_inactive c.now) db),
      length rows,
    )

abbrev pub is_stop_due : Time → ℕ → Database → Session → Bool
is_stop_due now limit db s =
    is_at_rest s.status && is_inactive now limit s && not (has_open_turn db s)

abbrev pub stop_inactive : Time → Session → Session
stop_inactive now s = record s {
  status = Status.stopping;
  status_reason = some Reason.idle_archive_timeout;
  lifecycle_version = s.lifecycle_version + 1;
  lifecycle_changed_at = now;
}

abbrev pub stop_hostless : Time → Session → Session
stop_hostless now s = record s { status = Status.stopped; stopped_at = some now }

-- a session with a host gets a job; one without is stopped at once
abbrev pub stop_row : Call → ℕ → Session → Database → Database
stop_row c uuid s db =
    if is_hostless s
    then update_sessions (has_id s.id) (stop_hostless c.now) db
    else tell_runner c (c.uuid uuid) s db

unfoldable pub sweep_stop_timeout : Call → ℕ → Database → Database × ℕ
sweep_stop_timeout c hours db =
    let due = is_stop_due c.now (3600 * hours) db in
    let rows = returned due (stop_inactive c.now) db in
    (each_row (stop_row c) 0 rows (update_sessions due (stop_inactive c.now) db), length rows)

abbrev pub is_stop_stuck : Time → ℕ → Session → Bool
is_stop_stuck now limit s = is_stopping s.status && is_older now limit s.lifecycle_changed_at

abbrev pub force_stopped : Time → Session → Session
force_stopped now s = record s {
  status = Status.stopped;
  status_reason = coalesce s.status_reason (some Reason.stop_unconfirmed);
  lifecycle_version = s.lifecycle_version + 1;
  lifecycle_changed_at = now;
}

unfoldable pub sweep_stopping_watchdog : Call → ℕ → Database → Database × ℕ
sweep_stopping_watchdog c limit db = (
  update_sessions (is_stop_stuck c.now limit) (force_stopped c.now) db,
  rowcount (is_stop_stuck c.now limit) db.sessions,
)
