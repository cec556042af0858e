-- ===== src/Dispatcher/Handlers.antt =====
-- src/discode/dispatcher/main.py: `dispatch_discord_envelope` and the handlers it calls,
-- src/discode/dispatcher/handlers/{terminal_notice,archive_thread}.py. A handler makes up to two calls of the gate or of the database; `between`
-- is what other processes do to the database between them, and each call of the gate has its own
-- attempt.
use discode.Base.{Bool, false, if◌then◌else◌, none, some, true, ◌++◌, ◌==◌, ◌||◌}
use discode.Data.{
  ArchiveThread, Database, Envelope, EnvelopeType, Ident, KeyText, Message, Reason, Session, Slot,
  SystemNotice, TerminalNotice, Text, Time, get_session, has_id, is_live, update_sessions,
}
use discode.Text.{codes, is_empty}
use discode.Runner.Dispatch.{Handled}
use discode.Dispatcher.Claim.{Action, Attempt, Outbound, claim_act_finalize, send}

-- how the calls of one delivery go
pub record Course : Type 0 where
  pub now : Time
  pub first : Attempt
  pub second : Attempt
  pub between : Database → Database

abbrev pub others : (Database → Database) → Outbound → Outbound
others f w = record w { db = f w.db }

abbrev record_archive : Time → Session → Session
record_archive now s = record s {
  discord_thread_archived_at = some now;
  thread_archive_requested_at = some now;
}

-- `finalize` of an archive: `UPDATE sessions ... WHERE id = :sid`
abbrev pub finalize_archive : Time → Ident → Database → Database
finalize_archive now sid db = update_sessions (has_id sid) (record_archive now) db

abbrev pub keep_all : Database → Database
keep_all db = db

abbrev pub notice_slot : Ident → Slot
notice_slot k = record { envelope_type = EnvelopeType.notice_post; key = KeyText.post k }

abbrev pub notice_archive_slot : Ident → Slot
notice_archive_slot k = record {
  envelope_type = EnvelopeType.notice_archive;
  key = KeyText.archive k;
}

abbrev pub archive_slot : Ident → Slot
archive_slot k = record { envelope_type = EnvelopeType.archive_thread; key = KeyText.plain k }

abbrev pub system_slot : Ident → Slot
system_slot k = record { envelope_type = EnvelopeType.system_notice; key = KeyText.plain k }

-- a call that an exception of the one before keeps from running
abbrev pub then_call : Outbound × Bool → (Outbound → Outbound × Bool) → Outbound × Bool
then_call (w, true) next = next w
then_call (w, false) next = (w, false)

-- Stage 1: post
abbrev pub post_stage : Course → TerminalNotice → Text → Outbound → Outbound × Bool
post_stage c n text w =
    if is_empty text
    then (w, true)
    else claim_act_finalize c.now (notice_slot n.idempotency_key) n.session_id
        (Action.post n.thread_id text (some (KeyText.post n.idempotency_key))) keep_all c.first w

-- Stage 2: archive if requested
abbrev pub archive_stage : Course → TerminalNotice → Outbound → Outbound × Bool
archive_stage c n w =
    if n.then_archive
    then claim_act_finalize c.now (notice_archive_slot n.idempotency_key) n.session_id
        (Action.archive n.thread_id) (finalize_archive c.now n.session_id) c.second
        (others c.between w)
    else (w, true)

unfoldable pub handle_terminal_notice : Course → TerminalNotice → Text → Outbound → Outbound × Bool
handle_terminal_notice c n text w = then_call (post_stage c n text w) (archive_stage c n)

-- `status in _LIVE_STATUSES` of the session that the archive is for
abbrev pub is_live_session : Ident → Database → Bool
is_live_session sid db =
    if sid == 0
    then false
    else elim (get_session sid db) [ none ↦ false | some s ↦ is_live s.status ]

unfoldable pub handle_archive_thread : Course → ArchiveThread → Outbound → Outbound × Bool
handle_archive_thread c a w =
    if is_live_session a.session_id w.db
    then (w, true)
    else claim_act_finalize c.now (archive_slot a.idempotency_key) a.session_id
        (Action.archive a.thread_id) (finalize_archive c.now a.session_id) c.first
        (others c.between w)

-- `_CREATE_FAILURE_TEXT.get(message, message or "unknown error")`, where `reason_text` is the text
-- that a reason is sent as
abbrev pub failure_text : (Reason → Text) → Reason → Text
failure_text reason_text Reason.creation_timeout = codes "the runner did not respond in time"
failure_text reason_text Reason.cwd_invalid =
    codes "the workspace is not an allowed root on the runner"
failure_text reason_text Reason.tool_unavailable = codes "the tool is unknown or disabled"
failure_text reason_text r =
    if is_empty (reason_text r) then codes "unknown error" else reason_text r

-- `_render_notice`, and the texts that the producers of the other notices write
unfoldable pub render_notice : (Reason → Text) → Message → Text
render_notice reason_text Message.session_ready =
    codes "✅ Session ready. Send your messages in this thread."
render_notice reason_text (Message.create_failed reason) =
    codes "❌ Session could not start: " ++ failure_text reason_text reason ++ codes "."
render_notice reason_text Message.resume_timed_out = codes "Session resume timed out."
render_notice reason_text Message.resume_failed = codes "Session resume failed."
render_notice reason_text Message.resume_cwd_denied =
    codes "Session resume failed: the workspace is no longer an allowed root on the runner."
render_notice reason_text Message.host_lost = codes "Runner host lost. Session terminated."

-- a notice without a key is posted without the gate
abbrev pub post_ungated : Ident → Text → Attempt → Outbound → Outbound × Bool
post_ungated thread text Attempt.raised w = (w, false)
post_ungated thread text Attempt.lost w =
    (send (record { sent_for = none; action = Action.post thread text none }) w, false)
post_ungated thread text Attempt.replied w =
    (send (record { sent_for = none; action = Action.post thread text none }) w, true)

unfoldable pub handle_system_notice : Course → SystemNotice → Text → Outbound → Outbound × Bool
handle_system_notice c n text w =
    if n.thread_id == 0 || is_empty text
    then (w, true)
    else if n.idempotency_key == 0
    then post_ungated n.thread_id text c.first w
    else claim_act_finalize c.now (system_slot n.idempotency_key) n.session_id
        (Action.post n.thread_id text (some (KeyText.plain n.idempotency_key))) keep_all c.first w

-- the stream's entries: an envelope that parses, the retired kind, an unknown kind, and one whose
-- payload is missing or no object
pub data Fields : Type 0 where
  payload : Envelope → Fields
  output_chunk unknown_type malformed : Fields

abbrev pub with_answer : Outbound × Bool → Outbound × Handled
with_answer (w, true) = (w, Handled.handled)
with_answer (w, false) = (w, Handled.raised)

abbrev pub dispatch_payload : (Reason → Text) → Course → Envelope → Outbound → Outbound × Handled
dispatch_payload reason_text c (Envelope.system_notice n) w =
    with_answer (handle_system_notice c n (render_notice reason_text n.message) w)
dispatch_payload reason_text c (Envelope.terminal_notice n) w =
    with_answer (handle_terminal_notice c n (render_notice reason_text n.message) w)
dispatch_payload reason_text c (Envelope.archive_thread a) w =
    with_answer (handle_archive_thread c a w)
dispatch_payload reason_text c e w = (w, Handled.pending)

unfoldable pub dispatch_discord_envelope :
    (Reason → Text) → Course → Fields → Outbound → Outbound × Handled
dispatch_discord_envelope reason_text c (Fields.payload e) w = dispatch_payload reason_text c e w
dispatch_discord_envelope reason_text c Fields.output_chunk w = (w, Handled.handled)
dispatch_discord_envelope reason_text c Fields.unknown_type w = (w, Handled.pending)
dispatch_discord_envelope reason_text c Fields.malformed w = (w, Handled.raised)
