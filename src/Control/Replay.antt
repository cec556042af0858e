-- ===== src/Control/Replay.antt =====
-- A reply that `post_reply` (src/discode/runner/control_api.py) has posted, when it is posted again.
use discode.Base.{
  Bool-cases, List, Option, Option-cases, [], any_of_find, ap, arith, false, find-update_where,
  find_sound, inl, inr, length, refl, some, suc, true, ℕ, ◌==◌, ◌∙◌, ◌∷◌, ◌≡◌,
}
use discode.Data.{
  Database, IdempotencyKey, Ident, IsUnique, Session, Slot, Text, Time, get_key, has_slot, slot_eq,
  slot_eq_refl, slot_eq_sound, update_keys,
}
use discode.Config.{Settings}
use discode.Dispatcher.Claim.{Effect, Outbound}
use discode.Dispatcher.Handlers.{others}
use discode.Control.Chunks.{
  Claim, checkpoint, chunk_slot, claim_chunk, end_lease, get_outcome, is_owned, release,
  set_message, settled_message,
}
use discode.Control.Claims.{claim_chunk_step}
use discode.Control.Reply.{
  ChunkCourse, DiscordAnswer, Response, SendResult, after_answer, by_claim, post_chunk, post_chunks,
  send_checkpointed, send_chunk, settle_chunk,
}

-- the message that the key of a chunk records
abbrev pub recorded : Slot → Database → Option Ident
recorded slot db = settled_message (get_outcome slot db)

-- Other processes leave the keys of the reply as they are, and keep keys unique.
abbrev pub IsApart : Ident → Ident → (Database → Database) → Type 0
IsApart sid ikey f =
    (db : Database)
    → (IsUnique db → IsUnique (f db))
      × ((idx : ℕ)
          → get_key (chunk_slot sid ikey idx) (f db) ≡ get_key (chunk_slot sid ikey idx) db)

abbrev pub AreApart : Ident → Ident → (ℕ → ChunkCourse) → Type 0
AreApart sid ikey courses =
    (idx : ℕ) → IsApart sid ikey (courses idx).before × IsApart sid ikey (courses idx).after

-- A recorded chunk is not claimed again.
claim_recorded :
    (now : Time) (owner : Ident) (slot : Slot) (sid : Ident) (db : Database) (m : Ident)
    → recorded slot db ≡ some m
    → claim_chunk now owner slot sid db ≡ (db, Claim.checkpointed m)
unfolding claim_chunk
claim_recorded now owner slot sid db m e = elim (Option-cases (get_key slot db)) [
  | inl f ↦ ground arith
  | inr (k, f) ↦ ground (arith, any_of_find (has_slot slot) db.idempotency_keys k f)
]

send_recorded :
    (sid : Ident) (slot : Slot) (c : ChunkCourse) (sends : Outbound → Outbound × SendResult)
    (w : Outbound) (m : Ident)
    → recorded slot w.db ≡ some m
    → send_checkpointed sid slot c sends w ≡ (w, SendResult.sent_as m)
unfolding send_checkpointed
send_recorded sid slot c sends w m e = rw (claim_recorded c.now c.owner slot sid w.db m e) refl

-- the messages of the chunks from `idx` on
abbrev pub AreRecorded : Ident → Ident → ℕ → List Ident → Database → Type 0
AreRecorded sid ikey idx [] db = Unit
AreRecorded sid ikey idx (m ∷ ids) db =
    (recorded (chunk_slot sid ikey idx) db ≡ some m) × AreRecorded sid ikey (suc idx) ids db

pub post_chunks_recorded :
    (cfg : Settings) (host sid : Ident) (info : Session) (ikey : Ident) (courses : ℕ → ChunkCourse)
    (idx : ℕ) (chunks : List Text) (ids : List Ident) (w : Outbound)
    → length ids ≡ length chunks
    → AreRecorded sid ikey idx ids w.db
    → post_chunks cfg host sid info ikey courses idx chunks w ≡ (w, Response.ok ids)
unfolding post_chunks
post_chunks_recorded cfg host sid info ikey courses idx [] [] w n h = refl
post_chunks_recorded cfg host sid info ikey courses idx [] (m ∷ ids) w n h = ground arith
post_chunks_recorded cfg host sid info ikey courses idx (x ∷ chunks) [] w n h = ground arith
post_chunks_recorded cfg host sid info ikey courses idx (x ∷ chunks) (m ∷ ids) w n (e, h) =
    let slot = chunk_slot sid ikey idx in
    rw
      (
        send_recorded sid slot (courses idx) (send_chunk cfg host sid info slot x (courses idx)) w m
            e,
        post_chunks_recorded cfg host sid info ikey courses (suc idx) chunks ids w
            (omega (arith, n)) h,
      )
      refl

chunk_apart :
    (sid ikey j idx : ℕ)
    → (j == idx) ≡ false
    → slot_eq (chunk_slot sid ikey j) (chunk_slot sid ikey idx) ≡ false
unfolding slot_eq
chunk_apart sid ikey j idx e = ground (arith, e)

-- a claim leaves what is recorded
pub claim_keeps_recorded :
    (now : Time) (owner : Ident) (slot other : Slot) (sid : Ident) (db : Database) (m : Ident)
    → recorded other db ≡ some m
    → recorded other (claim_chunk now owner slot sid db).0 ≡ some m
claim_keeps_recorded now owner slot other sid db m e = elim (Option-cases (get_key other db)) [
  | inl f ↦ ground arith
  | inr (k, f) ↦ elim (claim_chunk_step now owner slot other sid db k f) [
    | inl same ↦ ground (arith, same)
    | inr (free, leased) ↦ ground (arith, free)
  ]
]

other_row :
    (owner : Ident) (slot other : Slot) (k : IdempotencyKey)
    → slot_eq other slot ≡ false
    → has_slot other k ≡ true
    → is_owned slot owner k ≡ false
other_row owner slot other k apart same = elim (Bool-cases (has_slot slot k)) [
  | inr e ↦ ground arith
  | inl e ↦ ground (
    arith,
    apart,
    slot_eq_sound other k.slot same,
    slot_eq_sound slot k.slot e,
    slot_eq_refl other,
  )
]

-- updates of the rows of another key
owned_keeps_recorded :
    (owner : Ident) (slot other : Slot) (f : IdempotencyKey → IdempotencyKey) (db : Database)
    → slot_eq other slot ≡ false
    → ((k : IdempotencyKey) → (f k).slot ≡ k.slot)
    → recorded other (update_keys (is_owned slot owner) f db) ≡ recorded other db
owned_keeps_recorded owner slot other f db apart keep = elim (Option-cases (get_key other db)) [
  | inl e ↦ ground (
    arith,
    find-update_where (has_slot other) (is_owned slot owner) f (λ k m. ap (slot_eq other) (keep k))
        db.idempotency_keys,
  )
  | inr (k, e) ↦ ground (
    arith,
    find-update_where (has_slot other) (is_owned slot owner) f (λ k m. ap (slot_eq other) (keep k))
        db.idempotency_keys,
    other_row owner slot other k apart (find_sound (has_slot other) db.idempotency_keys k e),
  )
]

-- the end of a chunk, and what it leaves on the key of another one
record_keeps :
    (sid ikey j idx m : ℕ) (c : ChunkCourse) (r : Outbound × SendResult)
    → (j == idx) ≡ false
    → IsApart sid ikey c.after
    → recorded (chunk_slot sid ikey j) r.0.db ≡ some m
    → recorded (chunk_slot sid ikey j) (settle_chunk c (chunk_slot sid ikey idx) r).0.db ≡ some m
unfolding release checkpoint
record_keeps sid ikey j idx m c (w, SendResult.sent_as id) apart after e =
    let slot = chunk_slot sid ikey idx in
    let other = chunk_slot sid ikey j in
    let differs = chunk_apart sid ikey j idx apart in
    owned_keeps_recorded c.owner slot other end_lease (checkpoint c.owner slot id (c.after w.db))
      differs (λ k. refl)
    ∙ owned_keeps_recorded c.owner slot other (set_message id) (c.after w.db) differs (λ k. refl)
    ∙ ground (arith, e, (after w.db).1 j)
record_keeps sid ikey j idx m c (w, SendResult.stopped r) apart after e =
    owned_keeps_recorded c.owner (chunk_slot sid ikey idx) (chunk_slot sid ikey j) end_lease w.db
      (chunk_apart sid ikey j idx apart) (λ k. refl)
    ∙ e

after_answer_world :
    (e : Effect) (answer : DiscordAnswer) (w : Outbound) → (after_answer e answer w).0.db ≡ w.db
after_answer_world e (DiscordAnswer.message m) w = refl
after_answer_world e (DiscordAnswer.permanent status) w = refl
after_answer_world e DiscordAnswer.failed w = refl
after_answer_world e DiscordAnswer.unconfirmed w = refl

-- the sending of a chunk changes the database only by what other processes do before it
pub send_chunk_world :
    (cfg : Settings) (host sid : Ident) (info : Session) (slot : Slot) (content : Text)
    (c : ChunkCourse) (w : Outbound)
    → (send_chunk cfg host sid info slot content c w).0.db ≡ c.before w.db
unfolding send_chunk
send_chunk_world cfg host sid info slot content c w =
    ground (arith, after_answer_world (post_chunk info slot content) c.answer (others c.before w))

pub by_claim_keeps :
    (cfg : Settings) (host sid : Ident) (info : Session) (content : Text) (ikey j idx m : ℕ)
    (c : ChunkCourse) (w : Outbound) (claim : Database × Claim)
    → (j == idx) ≡ false
    → IsApart sid ikey c.before
    → IsApart sid ikey c.after
    → recorded (chunk_slot sid ikey j) claim.0 ≡ some m
    → recorded
        (chunk_slot sid ikey j)
        (by_claim c
          (chunk_slot sid ikey idx)
          (send_chunk cfg host sid info (chunk_slot sid ikey idx) content c)
          w
          claim).0.db
      ≡ some m
by_claim_keeps cfg host sid info content ikey j idx m c w (db, Claim.checkpointed id) apart before
      after e =
    e
by_claim_keeps cfg host sid info content ikey j idx m c w (db, Claim.in_progress) apart before after
      e =
    e
by_claim_keeps cfg host sid info content ikey j idx m c w (db, Claim.claimed) apart before after e =
    let slot = chunk_slot sid ikey idx in
    let start = record w { db = db } in
    record_keeps sid ikey j idx m c (send_chunk cfg host sid info slot content c start) apart after
      (ground (arith, e, (before db).1 j, send_chunk_world cfg host sid info slot content c start))
