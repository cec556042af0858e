-- ===== src/Input/Saga.antt =====
-- src/discode/bot/sagas/input.py: `run_input_saga`. `clock` is the bot's own clock, which the quota
-- window is measured by; rows are stamped with the database's.
use discode.Base.{
  Bool, List, Option, [], false, if◌then◌else◌, leb, length, ltb, none, not, or_text, select, some,
  suc, true, ℕ, ◌&&◌, ◌++◌, ◌+◌, ◌==◌, ◌=?◌, ◌||◌, ◌∷◌,
}
use discode.Data.{
  Call, Database, Envelope, Event, EventType, Ident, InputTurn, Producer, SendInput, Session,
  Status, StreamKey, Text, Time, TurnStatus, add_event, get_session, has_id, is_ready,
  update_sessions, write_outbox,
}
use discode.Config.{Settings}
use discode.Text.{is_empty, strip, utf8_length}

-- the ValueErrors of the saga, and its normal return
pub data Answer : Type 0 where
  accepted : Ident → Answer
  empty_input input_too_large emergency_stop session_not_found session_not_ready input_rate_limit :
      Answer

abbrev is_input : EventType → Bool
is_input EventType.input_accepted = true
is_input _ = false

-- an input of the session accepted in the last minute
abbrev pub is_recent : Time → Ident → Event → Bool
is_recent clock sid e = e.session_id == sid && is_input e.type && leb clock (e.created_at + 60)

abbrev pub sum_bytes : List Event → ℕ
sum_bytes [] = 0
sum_bytes (e ∷ es) = e.bytes + sum_bytes es

abbrev pub length_recent : Time → Ident → Database → ℕ
length_recent clock sid db = length (select (is_recent clock sid) db.events)

abbrev pub bytes_recent : Time → Ident → Database → ℕ
bytes_recent clock sid db = sum_bytes (select (is_recent clock sid) db.events)

abbrev pub over_quota : Settings → Time → Ident → ℕ → Database → Bool
over_quota cfg clock sid bytes db =
    leb cfg.max_input_messages_per_session_per_min (length_recent clock sid db)
    || ltb cfg.max_input_bytes_per_session_per_min (bytes_recent clock sid db + bytes)

abbrev pub touch_running : Time → Session → Session
touch_running now s = record s { last_activity_at = now; status = Status.running }

abbrev pub queued_turn : Call → Session → Database → InputTurn
queued_turn c s db = record {
  sequence = db.next_sequence;
  idempotency_key = c.uuid 0;
  session_id = s.id;
  lifecycle_version = s.lifecycle_version;
  status = TurnStatus.queued;
  result_text = none;
  resume_token = none;
  created_at = c.now;
  updated_at = c.now;
}

abbrev pub input_event : Call → Session → Ident → ℕ → Event
input_event c s actor bytes = record {
  type = EventType.input_accepted;
  guild_id = s.guild_id;
  session_id = s.id;
  actor_id = some actor;
  bytes = bytes;
  created_at = c.now;
}

abbrev pub input_job : Call → Ident → Session → Ident → Text → SendInput
input_job c sid s guild text = record {
  idempotency_key = c.uuid 0;
  session_id = sid;
  guild_id = guild;
  thread_id = or_text s.thread_id 0;
  host_id = or_text s.host_id 0;
  text = text;
  lifecycle_version = some s.lifecycle_version;
}

-- the writes of an accepted input, in one transaction
abbrev pub take_input : Call → Ident → Session → Ident → Ident → Text → Database → Database
take_input c sid s guild actor text db =
    let touched = update_sessions (has_id sid) (touch_running c.now) db in
    let told = add_event (input_event c s actor (utf8_length text)) touched in
    let queued = record told {
      input_turns = db.input_turns ++ queued_turn c s db ∷ [];
      next_sequence = suc db.next_sequence;
    } in
    write_outbox c.now Producer.bot (StreamKey.input_jobs (or_text s.host_id 0))
      (Envelope.send_input (input_job c sid s guild text)) queued

unfoldable pub run_input_saga :
    Settings
    → Time
    → Call
    → Ident
    → Ident
    → Ident
    → Option Ident
    → Text
    → Database
    → Database × Answer
run_input_saga cfg clock c sid guild owner actor text db =
    let session : Database × Answer = elim (get_session sid db) [
      | none ↦ (db, Answer.session_not_found)
      | some s ↦
          if not (s.guild_id =? guild)
          then (db, Answer.session_not_found)
          else if not (is_ready s.status)
          then (db, Answer.session_not_ready)
          else if or_text s.thread_id 0 == 0 || or_text s.host_id 0 == 0
          then (db, Answer.session_not_ready)
          else if over_quota cfg clock sid (utf8_length text) db
          then (db, Answer.input_rate_limit)
          else (take_input c sid s guild (or_text actor owner) text db, Answer.accepted (c.uuid 0))
    ] in
    if is_empty (strip text)
    then (db, Answer.empty_input)
    else if ltb cfg.max_input_bytes_per_message (utf8_length text)
    then (db, Answer.input_too_large)
    else if cfg.emergency_stop
    then (db, Answer.emergency_stop)
    else session
