-- ===== src/Control/Chunkwise.antt =====
-- What the sending of one chunk of `post_reply` (src/discode/runner/control_api.py) records, and what
-- it leaves of the others.
use discode.Base.{
  Bool-cases, List, Option-cases, [], arith, inl, inr, refl, rowcount, some, suc, ℕ, ◌+◌, ◌<◌, ◌==◌,
  ◌∷◌, ◌≡◌, ◌≢◌,
}
use discode.Data.{Database, Ident, IsUnique, Session, Slot, Text, Time, insert_key}
use discode.Config.{Settings}
use discode.Dispatcher.Claim.{Outbound}
use discode.Control.Chunks.{
  Claim, checkpoint, chunk_slot, claim_chunk, claim_pending, end_lease, is_claimable, pending_row,
  release, set_message, ten_minutes,
}
use discode.Control.Claims.{claim_chunk-IsUnique, claim_chunk_leases}
use discode.Control.Sending.{owned-IsUnique}
use discode.Control.Replay.{AreApart, recorded, send_chunk_world}
use discode.Control.Posted.{by_claim_records, send_keeps}
use discode.Control.Reply.{
  ChunkCourse, Response, SendResult, by_claim, go_on, post_chunks, send_checkpointed, send_chunk,
  settle_chunk,
}

claim_pending_known :
    (now : Time) (owner : Ident) (slot : Slot) (db : Database) (id : Ident)
    → (claim_pending now owner slot db).1 ≢ Claim.checkpointed id
claim_pending_known now owner slot db id e =
    elim (Bool-cases (rowcount (is_claimable now slot) db.idempotency_keys == 0)) [
      | inl z ↦ ground (arith, e)
      | inr z ↦ ground (arith, e)
    ]

-- What a claim answers with is recorded.
claim_known :
    (now : Time) (owner : Ident) (slot : Slot) (sid : Ident) (db : Database) (id : Ident)
    → (claim_chunk now owner slot sid db).1 ≡ Claim.checkpointed id
    → recorded slot (claim_chunk now owner slot sid db).0 ≡ some id
unfolding claim_chunk
claim_known now owner slot sid db id e =
    let inserted = insert_key (pending_row slot sid) db in
    elim (Option-cases (recorded slot inserted)) [
      | inr (m, f) ↦ ground (arith, e)
      | inl f ↦ absurd (claim_pending_known now owner slot inserted id (ground (arith, e)))
    ]

settle-IsUnique :
    (c : ChunkCourse) (slot : Slot) (r : Outbound × SendResult)
    → (IsUnique r.0.db → IsUnique (c.after r.0.db))
    → IsUnique r.0.db
    → IsUnique (settle_chunk c slot r).0.db
unfolding release checkpoint
settle-IsUnique c slot (w, SendResult.sent_as m) after unique =
    owned-IsUnique c.owner slot end_lease (checkpoint c.owner slot m (c.after w.db)) (λ k. refl)
      (owned-IsUnique c.owner slot (set_message m) (c.after w.db) (λ k. refl) (after unique))
settle-IsUnique c slot (w, SendResult.stopped r) after unique =
    owned-IsUnique c.owner slot end_lease w.db (λ k. refl) unique

by_claim-IsUnique :
    (cfg : Settings) (host sid : Ident) (info : Session) (content : Text) (slot : Slot)
    (c : ChunkCourse) (w : Outbound) (claim : Database × Claim)
    → ((db : Database) → IsUnique db → IsUnique (c.before db))
    → ((db : Database) → IsUnique db → IsUnique (c.after db))
    → IsUnique claim.0
    → IsUnique (by_claim c slot (send_chunk cfg host sid info slot content c) w claim).0.db
by_claim-IsUnique cfg host sid info content slot c w (db, Claim.checkpointed id) before after
      unique =
    unique
by_claim-IsUnique cfg host sid info content slot c w (db, Claim.in_progress) before after unique =
    unique
by_claim-IsUnique cfg host sid info content slot c w (db, Claim.claimed) before after unique =
    let r = send_chunk cfg host sid info slot content c (record w { db = db }) in
    settle-IsUnique c slot r (after r.0.db) (
      rw (send_chunk_world cfg host sid info slot content c (record w { db = db }))
        (before db unique))

pub send-IsUnique :
    (cfg : Settings) (host sid : Ident) (info : Session) (content : Text) (ikey idx : Ident)
    (courses : ℕ → ChunkCourse) (w : Outbound)
    → AreApart sid ikey courses
    → IsUnique w.db
    → IsUnique
        (send_checkpointed sid
          (chunk_slot sid ikey idx)
          (courses idx)
          (send_chunk cfg host sid info (chunk_slot sid ikey idx) content (courses idx))
          w).0.db
unfolding send_checkpointed
send-IsUnique cfg host sid info content ikey idx courses w apart unique =
    let c = courses idx in
    let slot = chunk_slot sid ikey idx in
    by_claim-IsUnique cfg host sid info content slot c w (claim_chunk c.now c.owner slot sid w.db)
      (λ db. ((apart idx).0 db).0) (λ db. ((apart idx).1 db).0)
      (claim_chunk-IsUnique c.now c.owner slot sid w.db unique)

pub send_records :
    (cfg : Settings) (host sid : Ident) (info : Session) (content : Text) (ikey idx m : Ident)
    (courses : ℕ → ChunkCourse) (w : Outbound)
    → AreApart sid ikey courses
    → IsUnique w.db
    → (send_checkpointed sid
        (chunk_slot sid ikey idx)
        (courses idx)
        (send_chunk cfg host sid info (chunk_slot sid ikey idx) content (courses idx))
        w).1
      ≡ SendResult.sent_as m
    → recorded
        (chunk_slot sid ikey idx)
        (send_checkpointed sid
          (chunk_slot sid ikey idx)
          (courses idx)
          (send_chunk cfg host sid info (chunk_slot sid ikey idx) content (courses idx))
          w).0.db
      ≡ some m
unfolding send_checkpointed
send_records cfg host sid info content ikey idx m courses w apart unique e =
    let c = courses idx in
    let slot = chunk_slot sid ikey idx in
    by_claim_records cfg host sid info content ikey idx m c (c.now + ten_minutes) w
      (claim_chunk c.now c.owner slot sid w.db) (apart idx).0 (apart idx).1
      (claim_chunk_leases c.now c.owner slot sid w.db unique)
      (λ id f. claim_known c.now c.owner slot sid w.db id f) e

go_on_keeps :
    (slot : Slot) (m : Ident) (rest : Outbound → Outbound × Response) (r : Outbound × SendResult)
    → recorded slot r.0.db ≡ some m
    → ((v : Outbound) → recorded slot v.db ≡ some m → recorded slot (rest v).0.db ≡ some m)
    → recorded slot (go_on rest r).0.db ≡ some m
go_on_keeps slot m rest (w, SendResult.stopped f) e after = e
go_on_keeps slot m rest (w, SendResult.sent_as id) e after = after w e

pub post_chunks_keep :
    (cfg : Settings) (host sid : Ident) (info : Session) (ikey : Ident) (courses : ℕ → ChunkCourse)
    (j m idx : ℕ) (chunks : List Text) (w : Outbound)
    → AreApart sid ikey courses
    → j < idx
    → recorded (chunk_slot sid ikey j) w.db ≡ some m
    → recorded
        (chunk_slot sid ikey j)
        (post_chunks cfg host sid info ikey courses idx chunks w).0.db
      ≡ some m
unfolding post_chunks
post_chunks_keep cfg host sid info ikey courses j m idx [] w apart lt e = e
post_chunks_keep cfg host sid info ikey courses j m idx (x ∷ chunks) w apart lt e =
    let slot = chunk_slot sid ikey idx in
    go_on_keeps (chunk_slot sid ikey j) m
      (post_chunks cfg host sid info ikey courses (suc idx) chunks)
      (send_checkpointed sid slot (courses idx) (send_chunk cfg host sid info slot x (courses idx))
        w)
      (send_keeps cfg host sid info x ikey j idx m (courses idx) w (ground (arith, lt))
        (apart idx).0 (apart idx).1 e)
      (λ v k.
        post_chunks_keep cfg host sid info ikey courses j m (suc idx) chunks v apart
          (omega (arith, lt)) k)
