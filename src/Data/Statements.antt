-- ===== src/Data/Statements.antt =====
-- The database and the statements that several components share. A transaction is a function of the
-- database: its statements run in order, and an error leaves the database as it was.
use discode.Base.{Bool, List, Option, [], find, none, suc, update_where, ℕ, ◌*◌, ◌++◌, ◌==◌, ◌∷◌}
use discode.Data.Rows.{
  AllowedRoot, Event, EventType, IdempotencyKey, Ident, InputTurn, RunnerHost, Session,
  SessionMember, Time, ToolDefinition,
}
use discode.Data.Envelopes.{Envelope, Producer, RedisOutbox, StreamKey}

pub record Database : Type 0 where
  pub guilds : List Ident
  pub users : List Ident
  pub sessions : List Session
  pub session_members : List SessionMember
  pub input_turns : List InputTurn
  -- the Identity columns: the next sequence and the next outbox id
  pub next_sequence : ℕ
  pub next_outbox_id : ℕ
  pub redis_outbox : List RedisOutbox
  pub events : List Event
  pub idempotency_keys : List IdempotencyKey
  pub allowed_roots : List AllowedRoot
  pub runner_hosts : List RunnerHost
  pub tool_definitions : List ToolDefinition

-- What a call draws from outside: the database clock at its transaction, and its uuid4 values.
pub record Call : Type 0 where
  pub now : Time
  pub uuid : ℕ → Ident

abbrev pub has_id : Ident → Session → Bool
has_id sid s = s.id == sid

-- `db.get(SessionModel, sid)`; the row lock holds to the end of the transaction
abbrev pub get_session : Ident → Database → Option Session
get_session sid db = find (has_id sid) db.sessions

abbrev pub has_key : Ident → InputTurn → Bool
has_key ikey t = t.idempotency_key == ikey

abbrev pub get_turn : Ident → Database → Option InputTurn
get_turn ikey db = find (has_key ikey) db.input_turns

abbrev pub update_sessions : (Session → Bool) → (Session → Session) → Database → Database
update_sessions p f db = record db { sessions = update_where p f db.sessions }

abbrev pub update_turns : (InputTurn → Bool) → (InputTurn → InputTurn) → Database → Database
update_turns p f db = record db { input_turns = update_where p f db.input_turns }

abbrev pub outbox_row : ℕ → Time → Producer → StreamKey → Envelope → RedisOutbox
outbox_row n now producer stream payload = record {
  id = n;
  producer = producer;
  stream_key = stream;
  payload = payload;
  created_at = now;
  published_at = none;
  attempts = 0;
  next_attempt_at = 1000 * now;
  error = none;
}

-- `write_outbox`: a new row, in the caller's transaction
abbrev pub write_outbox : Time → Producer → StreamKey → Envelope → Database → Database
write_outbox now producer stream payload db = record db {
  redis_outbox = db.redis_outbox ++ outbox_row db.next_outbox_id now producer stream payload ∷ [];
  next_outbox_id = suc db.next_outbox_id;
}

-- `db.add(Event(...))`
abbrev pub add_event : Event → Database → Database
add_event e db = record db { events = db.events ++ e ∷ [] }

abbrev pub audit : Time → EventType → Option Ident → Ident → Option Ident → Database → Database
audit now type guild sid actor = add_event (record {
  type = type;
  guild_id = guild;
  session_id = sid;
  actor_id = actor;
  bytes = 0;
  created_at = now;
})
