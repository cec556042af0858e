-- ===== src/Control/Idempotent.antt =====
-- Posting a reply twice through `post_reply` (src/discode/runner/control_api.py).
use mathlib.Core.Path.{subst}
-- what the loop has done if it answers with messages
use discode.Base.{Bool, List, [], ap, arith, length, refl, some, suc, sym, true, ℕ, ◌∙◌, ◌∷◌, ◌≡◌}
use discode.Data.{Database, Ident, IsUnique, Session, Text, get_key, is_ready}
use discode.Config.{Settings, outbound_allowed}
use discode.Dispatcher.Message.{build_message}
use discode.Dispatcher.Claim.{Outbound}
use discode.Control.Chunks.{chunk_slot}
use discode.Control.Replay.{AreApart, AreRecorded, post_chunks_recorded, recorded}
use discode.Control.Chunkwise.{post_chunks_keep, send-IsUnique, send_records}
use discode.Control.Reply.{
  ChunkCourse, ReplyBody, Response, SendResult, add_message, chunks_or_empty, go_on, has_version,
  post_chunks, post_reply, send_checkpointed, send_chunk, session_lookup,
}

abbrev pub IsPosted : Ident → Ident → ℕ → List Text → Outbound × Response → Type 0
IsPosted sid ikey idx chunks r =
    (ids : List Ident)
    → r.1 ≡ Response.ok ids
    → (length ids ≡ length chunks) × AreRecorded sid ikey idx ids r.0.db

abbrev messages : Response → List Ident
messages (Response.ok ids) = ids
messages (Response.failed f) = []

go_on-IsPosted :
    (sid ikey idx : ℕ) (x : Text) (chunks : List Text) (rest : Outbound → Outbound × Response)
    (r : Outbound × SendResult)
    → ((m : Ident)
        → r.1 ≡ SendResult.sent_as m
        → recorded (chunk_slot sid ikey idx) (rest r.0).0.db ≡ some m)
    → IsPosted sid ikey (suc idx) chunks (rest r.0)
    → IsPosted sid ikey idx (x ∷ chunks) (go_on rest r)
go_on-IsPosted sid ikey idx x chunks rest (w, SendResult.stopped f) known posted ids e = cc
go_on-IsPosted sid ikey idx x chunks rest (w, SendResult.sent_as m) known posted ids e =
    added (rest w).1 ids refl e
  where
    added :
        (answer : Response) (all : List Ident)
        → (rest w).1 ≡ answer
        → add_message m answer ≡ Response.ok all
        → (length all ≡ length (x ∷ chunks)) × AreRecorded sid ikey idx all (rest w).0.db
    added (Response.failed f) all same e = cc
    added (Response.ok ids) all same e =
        let (n, h) = posted ids same in
        subst (λ l. (length l ≡ length (x ∷ chunks)) × AreRecorded sid ikey idx l (rest w).0.db)
          (ap messages e) (omega (arith, n), (known m refl, h))

nothing-IsPosted : (sid ikey idx : ℕ) (w : Outbound) → IsPosted sid ikey idx [] (w, Response.ok [])
nothing-IsPosted sid ikey idx w [] e = (refl, tt)
nothing-IsPosted sid ikey idx w (m ∷ ids) e = cc (ap messages e)

post_chunks-IsPosted :
    (cfg : Settings) (host sid : Ident) (info : Session) (ikey : Ident) (courses : ℕ → ChunkCourse)
    (idx : ℕ) (chunks : List Text) (w : Outbound)
    → AreApart sid ikey courses
    → IsUnique w.db
    → IsPosted sid ikey idx chunks (post_chunks cfg host sid info ikey courses idx chunks w)
unfolding post_chunks
post_chunks-IsPosted cfg host sid info ikey courses idx [] w apart unique =
    nothing-IsPosted sid ikey idx w
post_chunks-IsPosted cfg host sid info ikey courses idx (x ∷ chunks) w apart unique =
    let slot = chunk_slot sid ikey idx in
    let r =
      send_checkpointed sid slot (courses idx) (send_chunk cfg host sid info slot x (courses idx))
        w in
    go_on-IsPosted sid ikey idx x chunks
      (post_chunks cfg host sid info ikey courses (suc idx) chunks) r
      (λ m e.
        post_chunks_keep cfg host sid info ikey courses idx m (suc idx) chunks r.0 apart
          (omega arith) (send_records cfg host sid info x ikey idx m courses w apart unique e))
      (post_chunks-IsPosted cfg host sid info ikey courses (suc idx) chunks r.0 apart
        (send-IsUnique cfg host sid info x ikey idx courses w apart unique))

AreRecorded-elsewhere :
    (sid ikey idx : ℕ) (ids : List Ident) (db db' : Database)
    → ((j : ℕ) → get_key (chunk_slot sid ikey j) db' ≡ get_key (chunk_slot sid ikey j) db)
    → AreRecorded sid ikey idx ids db
    → AreRecorded sid ikey idx ids db'
AreRecorded-elsewhere sid ikey idx [] db db' same h = tt
AreRecorded-elsewhere sid ikey idx (m ∷ ids) db db' same (e, h) =
    (ground (arith, e, same idx), AreRecorded-elsewhere sid ikey (suc idx) ids db db' same h)

-- the session takes this reply now
abbrev pub Takes : Settings → Ident → Ident → ReplyBody → Database → Type 0
Takes cfg host sid body db =
    (info : Session) × (session_lookup host sid db ≡ some info)
    × (is_ready info.status ≡ true)
    × (has_version body.lifecycle_version info ≡ true)
    × (outbound_allowed cfg ≡ true)

post_reply_taken :
    (cfg : Settings) (is_word : ℕ → Bool) (redact : Text → Text) (host sid : Ident)
    (body : ReplyBody) (courses : ℕ → ChunkCourse) (w : Outbound)
    → Takes cfg host sid body w.db
    → (info : Session) × (post_reply cfg is_word redact host sid body courses w
        ≡ post_chunks cfg host sid info body.idempotency_key courses 0
            (chunks_or_empty (build_message is_word (redact body.text)))
            w)
unfolding post_reply
post_reply_taken cfg is_word redact host sid body courses w (info, found, ready, version, out) =
    (info, ground (arith, found, ready, version, out))

-- A reply that was answered with its messages, and is posted again, is answered with the same
-- messages; nothing is sent and the database stays as it is. The session takes the reply both
-- times, keys are unique, and other processes leave the keys of the reply alone.
pub post_reply_idempotent :
    (cfg : Settings) (is_word : ℕ → Bool) (redact : Text → Text) (host sid : Ident)
    (body : ReplyBody) (courses again : ℕ → ChunkCourse) (w v : Outbound) (ids : List Ident)
    → Takes cfg host sid body w.db
    → Takes cfg host sid body v.db
    → AreApart sid body.idempotency_key courses
    → IsUnique w.db
    → (post_reply cfg is_word redact host sid body courses w).1 ≡ Response.ok ids
    → ((j : ℕ)
        → get_key (chunk_slot sid body.idempotency_key j) v.db
          ≡ get_key
              (chunk_slot sid body.idempotency_key j)
              (post_reply cfg is_word redact host sid body courses w).0.db)
    → post_reply cfg is_word redact host sid body again v ≡ (v, Response.ok ids)
post_reply_idempotent cfg is_word redact host sid body courses again w v ids takes retakes apart
      unique e same =
    let ikey = body.idempotency_key in
    let chunks = chunks_or_empty (build_message is_word (redact body.text)) in
    let (info, first) = post_reply_taken cfg is_word redact host sid body courses w takes in
    let (info', second) = post_reply_taken cfg is_word redact host sid body again v retakes in
    let posted = post_chunks cfg host sid info ikey courses 0 chunks w in
    let (n, h) =
      post_chunks-IsPosted cfg host sid info ikey courses 0 chunks w apart unique ids
        (ap (λ r. r.1) (sym first) ∙ e) in
    second
    ∙ post_chunks_recorded cfg host sid info' ikey again 0 chunks ids v n (
        AreRecorded-elsewhere sid ikey 0 ids posted.0.db v.db
          (λ j. same j ∙ ap (λ r. get_key (chunk_slot sid ikey j) r.0.db) first) h)
