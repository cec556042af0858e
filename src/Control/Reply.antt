-- ===== src/Control/Reply.antt =====
-- src/discode/runner/control_api.py: `post_reply`, and `build_session_lookup` of
-- src/discode/runner/main.py. The redaction of the text and the class `\w` are arguments; the rate
-- limiter only delays.
use discode.Base.{
  Bool, List, Option, [], false, find, if◌then◌else◌, none, not, or_text, some, suc, true, ℕ, ◌&&◌,
  ◌==◌, ◌=?◌, ◌∷◌,
}
use discode.Data.{Database, Ident, Session, Slot, Text, Time, is_ready}
use discode.Config.{Settings, outbound_allowed}
use discode.Dispatcher.Message.{build_message}
use discode.Dispatcher.Claim.{Action, Effect, Outbound, send}
use discode.Dispatcher.Handlers.{others}
use discode.Control.Chunks.{Claim, checkpoint, chunk_slot, claim_chunk, release}

pub record ReplyBody : Type 0 where
  pub text : Text
  pub idempotency_key : Ident
  pub lifecycle_version : Option ℕ

-- how `send_message` ends: the message, DiscordPermanentError with its status, or another exception,
-- before or after Discord has posted
pub data DiscordAnswer : Type 0 where
  message : Ident → DiscordAnswer
  permanent : ℕ → DiscordAnswer
  failed unconfirmed : DiscordAnswer

-- what the sending of one chunk meets: the clock of its claim, its uuid4, what other processes do
-- before it looks the session up again and before its checkpoint, whether the output quota allows
-- it, and Discord's answer
pub record ChunkCourse : Type 0 where
  pub now : Time
  pub owner : Ident
  pub before : Database → Database
  pub after : Database → Database
  pub quota : Bool
  pub answer : DiscordAnswer

-- an HTTPException with its status, or another exception (500)
pub data Failure : Type 0 where
  refused : ℕ → Failure
  raised : Failure

-- 200 with the message ids, or a failure
pub data Response : Type 0 where
  ok : List Ident → Response
  failed : Failure → Response

pub data SendResult : Type 0 where
  sent_as : Ident → SendResult
  stopped : Failure → SendResult

abbrev is_at_host : Ident → Ident → Session → Bool
is_at_host host sid s = s.id == sid && s.host_id =? host

-- `WHERE id = :sid AND host_id = :host`
abbrev pub session_lookup : Ident → Ident → Database → Option Session
session_lookup host sid db = find (is_at_host host sid) db.sessions

-- the session takes replies, in the version that `post_reply` began with
abbrev pub is_still : Session → Option Session → Bool
is_still info none = false
is_still info (some s) = is_ready s.status && s.lifecycle_version == info.lifecycle_version

abbrev pub post_chunk : Session → Slot → Text → Effect
post_chunk info slot content = record {
  sent_for = some slot;
  action = Action.post (or_text info.thread_id 0) content (some slot.key);
}

abbrev pub after_answer : Effect → DiscordAnswer → Outbound → Outbound × SendResult
after_answer e (DiscordAnswer.message m) w = (send e w, SendResult.sent_as m)
after_answer e (DiscordAnswer.permanent status) w = (w, SendResult.stopped (Failure.refused 410))
after_answer e DiscordAnswer.failed w = (w, SendResult.stopped Failure.raised)
after_answer e DiscordAnswer.unconfirmed w = (send e w, SendResult.stopped Failure.raised)

unfoldable pub send_chunk :
    Settings
    → Ident
    → Ident
    → Session
    → Slot
    → Text
    → ChunkCourse
    → Outbound
    → Outbound × SendResult
send_chunk cfg host sid info slot content c w =
    let seen = others c.before w in
    if not (is_still info (session_lookup host sid seen.db))
    then (seen, SendResult.stopped (Failure.refused 409))
    else if not (outbound_allowed cfg)
    then (seen, SendResult.stopped Failure.raised)
    else if not c.quota
    then (seen, SendResult.stopped (Failure.refused 429))
    else after_answer (post_chunk info slot content) c.answer seen

-- the checkpoint, if there is a message, and the release in `finally`
abbrev pub settle_chunk : ChunkCourse → Slot → Outbound × SendResult → Outbound × SendResult
settle_chunk c slot (w, SendResult.sent_as m) = (
  record w { db = release c.owner slot (checkpoint c.owner slot m (c.after w.db)) },
  SendResult.sent_as m,
)
settle_chunk c slot (w, SendResult.stopped r) =
    (record w { db = release c.owner slot w.db }, SendResult.stopped r)

abbrev pub by_claim :
    ChunkCourse
    → Slot
    → (Outbound → Outbound × SendResult)
    → Outbound
    → Database × Claim
    → Outbound × SendResult
by_claim c slot sends w (db, Claim.checkpointed m) = (record w { db = db }, SendResult.sent_as m)
by_claim c slot sends w (db, Claim.in_progress) =
    (record w { db = db }, SendResult.stopped (Failure.refused 409))
by_claim c slot sends w (db, Claim.claimed) = settle_chunk c slot (sends (record w { db = db }))

unfoldable pub send_checkpointed :
    Ident
    → Slot
    → ChunkCourse
    → (Outbound → Outbound × SendResult)
    → Outbound
    → Outbound × SendResult
send_checkpointed sid slot c sends w =
    by_claim c slot sends w (claim_chunk c.now c.owner slot sid w.db)

abbrev pub add_message : Ident → Response → Response
add_message m (Response.ok ids) = Response.ok (m ∷ ids)
add_message m (Response.failed f) = Response.failed f

-- the rest of the loop, after one chunk
abbrev pub go_on : (Outbound → Outbound × Response) → Outbound × SendResult → Outbound × Response
go_on rest (w, SendResult.stopped f) = (w, Response.failed f)
go_on rest (w, SendResult.sent_as m) = ((rest w).0, add_message m (rest w).1)

-- the loop over the chunks, from chunk `idx`
unfoldable pub post_chunks :
    Settings
    → Ident
    → Ident
    → Session
    → Ident
    → (ℕ → ChunkCourse)
    → ℕ
    → List Text
    → Outbound
    → Outbound × Response
unfolding send_checkpointed send_chunk
post_chunks cfg host sid info ikey courses idx [] w = (w, Response.ok [])
post_chunks cfg host sid info ikey courses idx (content ∷ chunks) w =
    let slot = chunk_slot sid ikey idx in
    go_on (post_chunks cfg host sid info ikey courses (suc idx) chunks) (
      send_checkpointed sid slot (courses idx)
        (send_chunk cfg host sid info slot content (courses idx)) w)

-- `build_message(redacted_text) or [""]`
abbrev pub chunks_or_empty : Option (List Text) → List Text
chunks_or_empty none = []
chunks_or_empty (some []) = [] ∷ []
chunks_or_empty (some (x ∷ xs)) = x ∷ xs

abbrev pub has_version : Option ℕ → Session → Bool
has_version none s = true
has_version (some v) s = s.lifecycle_version == v

unfoldable pub post_reply :
    Settings
    → (ℕ → Bool)
    → (Text → Text)
    → Ident
    → Ident
    → ReplyBody
    → (ℕ → ChunkCourse)
    → Outbound
    → Outbound × Response
unfolding build_message
post_reply cfg is_word redact host sid body courses w = elim (session_lookup host sid w.db) [
  | none ↦ (w, Response.failed (Failure.refused 404))
  | some info ↦
      let posted =
        post_chunks cfg host sid info body.idempotency_key courses 0
          (chunks_or_empty (build_message is_word (redact body.text))) w in
      if not (is_ready info.status)
      then (w, Response.failed (Failure.refused 404))
      else if not (has_version body.lifecycle_version info)
      then (w, Response.failed (Failure.refused 409))
      else if not (outbound_allowed cfg)
      then (w, Response.failed (Failure.refused 503))
      else posted
]
