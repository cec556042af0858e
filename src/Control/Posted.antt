-- ===== src/Control/Posted.antt =====
-- What `post_reply` (src/discode/runner/control_api.py) has recorded once it answers with the
-- messages.
use discode.Base.{arith, false, find-update_where, find_sound, refl, some, ℕ, ◌==◌, ◌≡◌}
use discode.Data.{Database, IdempotencyKey, Ident, Session, Text, Time, get_key, has_slot}
use discode.Config.{Settings}
use discode.Dispatcher.Claim.{Outbound}
use discode.Control.Chunks.{
  Claim, checkpoint, chunk_slot, claim_chunk, end_lease, is_owned, release, set_message,
}
use discode.Control.Claims.{IsLeasedTo}
use discode.Control.Replay.{
  IsApart, by_claim_keeps, claim_keeps_recorded, recorded, send_chunk_world,
}
use discode.Control.Reply.{
  ChunkCourse, SendResult, by_claim, send_checkpointed, send_chunk, settle_chunk,
}

-- a chunk that is sent leaves the messages of the others
pub send_keeps :
    (cfg : Settings) (host sid : Ident) (info : Session) (content : Text) (ikey j idx m : ℕ)
    (c : ChunkCourse) (w : Outbound)
    → (j == idx) ≡ false
    → IsApart sid ikey c.before
    → IsApart sid ikey c.after
    → recorded (chunk_slot sid ikey j) w.db ≡ some m
    → recorded
        (chunk_slot sid ikey j)
        (send_checkpointed sid
          (chunk_slot sid ikey idx)
          c
          (send_chunk cfg host sid info (chunk_slot sid ikey idx) content c)
          w).0.db
      ≡ some m
unfolding send_checkpointed
send_keeps cfg host sid info content ikey j idx m c w apart before after e =
    let slot = chunk_slot sid ikey idx in
    by_claim_keeps cfg host sid info content ikey j idx m c w
      (claim_chunk c.now c.owner slot sid w.db) apart before after
      (claim_keeps_recorded c.now c.owner slot (chunk_slot sid ikey j) sid w.db m e)

-- The chunk whose sending ends with a message has it recorded.
settle_records :
    (sid ikey idx m : ℕ) (c : ChunkCourse) (until : Time) (r : Outbound × SendResult)
    (k : IdempotencyKey)
    → IsApart sid ikey c.after
    → get_key (chunk_slot sid ikey idx) r.0.db ≡ some k
    → IsLeasedTo c.owner until k
    → (settle_chunk c (chunk_slot sid ikey idx) r).1 ≡ SendResult.sent_as m
    → recorded (chunk_slot sid ikey idx) (settle_chunk c (chunk_slot sid ikey idx) r).0.db ≡ some m
unfolding release checkpoint
settle_records sid ikey idx m c until (w, SendResult.sent_as id) k after found (own, u, p) e =
    let slot = chunk_slot sid ikey idx in
    let db = c.after w.db in
    ground (
      arith,
      e,
      own,
      found,
      (after w.db).1 idx,
      find_sound (has_slot slot) w.db.idempotency_keys k found,
      find-update_where (has_slot slot) (is_owned slot c.owner) end_lease (λ x m. refl)
          (checkpoint c.owner slot id db).idempotency_keys,
      find-update_where (has_slot slot) (is_owned slot c.owner) (set_message id) (λ x m. refl)
          db.idempotency_keys,
    )
settle_records sid ikey idx m c until (w, SendResult.stopped r) k after found leased e = cc

pub by_claim_records :
    (cfg : Settings) (host sid : Ident) (info : Session) (content : Text) (ikey idx m : ℕ)
    (c : ChunkCourse) (until : Time) (w : Outbound) (claim : Database × Claim)
    → IsApart sid ikey c.before
    → IsApart sid ikey c.after
    → (claim.1 ≡ Claim.claimed
        → (k : IdempotencyKey) × (get_key (chunk_slot sid ikey idx) claim.0 ≡ some k)
          × IsLeasedTo c.owner until k)
    → ((id : Ident)
        → claim.1 ≡ Claim.checkpointed id
        → recorded (chunk_slot sid ikey idx) claim.0 ≡ some id)
    → (by_claim c
        (chunk_slot sid ikey idx)
        (send_chunk cfg host sid info (chunk_slot sid ikey idx) content c)
        w
        claim).1
      ≡ SendResult.sent_as m
    → recorded
        (chunk_slot sid ikey idx)
        (by_claim c
          (chunk_slot sid ikey idx)
          (send_chunk cfg host sid info (chunk_slot sid ikey idx) content c)
          w
          claim).0.db
      ≡ some m
by_claim_records cfg host sid info content ikey idx m c until w (db, Claim.checkpointed id) before
      after leases known e =
    ground (arith, e, known id refl)
by_claim_records cfg host sid info content ikey idx m c until w (db, Claim.in_progress) before after
      leases known e =
    cc
by_claim_records cfg host sid info content ikey idx m c until w (db, Claim.claimed) before after
      leases known e =
    let slot = chunk_slot sid ikey idx in
    let start = record w { db = db } in
    let (k, found, leased) = leases refl in
    settle_records sid ikey idx m c until (send_chunk cfg host sid info slot content c start) k
      after
      (ground
        (arith, found, (before db).1 idx, send_chunk_world cfg host sid info slot content c start))
      leased e
