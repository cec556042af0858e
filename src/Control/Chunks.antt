-- ===== src/Control/Chunks.antt =====
-- src/discode/runner/control_api.py: `_send_checkpointed`, in its transactions: the claim of a
-- chunk's key under a lease, the checkpoint of the message, and the release in `finally`.
use discode.Base.{
  Bool, Option, false, if◌then◌else◌, leb, none, rowcount, some, true, ℕ, ◌&&◌, ◌+◌, ◌==◌, ◌=?◌,
}
use discode.Data.{
  Database, EnvelopeType, IdempotencyKey, Ident, KeyOutcome, KeyText, Slot, Time, get_key, has_slot,
  insert_key, update_keys,
}

abbrev pub ten_minutes : ℕ
ten_minutes = 600

-- `f"{sid}:{nonce}"`, where the nonce of chunk 0 is the key itself
abbrev pub chunk_slot : Ident → Ident → ℕ → Slot
chunk_slot sid ikey idx = record {
  envelope_type = EnvelopeType.reply_chunk;
  key = KeyText.chunk sid ikey idx;
}

abbrev pub pending_row : Slot → Ident → IdempotencyKey
pending_row slot sid = record {
  slot = slot;
  owning_session = some sid;
  expires_at = none;
  outcome = some KeyOutcome.pending;
  claim_expires_at = none;
  claim_owner = none;
}

-- `outcome='pending'`
abbrev pub is_pending_outcome : Option KeyOutcome → Bool
is_pending_outcome (some KeyOutcome.pending) = true
is_pending_outcome _ = false

-- `claim_expires_at IS NULL OR claim_expires_at <= now()`
abbrev pub is_unleased : Time → Option Time → Bool
is_unleased now none = true
is_unleased now (some t) = leb t now

abbrev pub is_claimable : Time → Slot → IdempotencyKey → Bool
is_claimable now slot k =
    has_slot slot k && is_pending_outcome k.outcome && is_unleased now k.claim_expires_at

abbrev pub lease : Time → Ident → IdempotencyKey → IdempotencyKey
lease now owner k = record k {
  claim_owner = some owner;
  claim_expires_at = some (now + ten_minutes);
}

-- how the first transaction ends: the message that is there, the claim, or 409
pub data Claim : Type 0 where
  checkpointed : Ident → Claim
  claimed in_progress : Claim

abbrev pub claim_pending : Time → Ident → Slot → Database → Database × Claim
claim_pending now owner slot db =
    if rowcount (is_claimable now slot) db.idempotency_keys == 0
    then (db, Claim.in_progress)
    else (update_keys (is_claimable now slot) (lease now owner) db, Claim.claimed)

abbrev pub claim_by_outcome : Time → Ident → Slot → Option Ident → Database → Database × Claim
claim_by_outcome now owner slot (some m) db = (db, Claim.checkpointed m)
claim_by_outcome now owner slot none db = claim_pending now owner slot db

-- the text "done", which no chunk has as its outcome
abbrev pub done_text : Ident
done_text = 1

-- `outcome and outcome != "pending"`, and then its text
abbrev pub settled_message : Option KeyOutcome → Option Ident
settled_message (some (KeyOutcome.message m)) = some m
settled_message (some KeyOutcome.done) = some done_text
settled_message _ = none

-- `SELECT outcome`
abbrev pub get_outcome : Slot → Database → Option KeyOutcome
get_outcome slot db = elim (get_key slot db) [ none ↦ none | some k ↦ k.outcome ]

unfoldable pub claim_chunk : Time → Ident → Slot → Ident → Database → Database × Claim
claim_chunk now owner slot sid db =
    let inserted = insert_key (pending_row slot sid) db in
    claim_by_outcome now owner slot (settled_message (get_outcome slot inserted)) inserted

-- `WHERE envelope_type AND idempotency_key AND claim_owner=:owner`
abbrev pub is_owned : Slot → Ident → IdempotencyKey → Bool
is_owned slot owner k = has_slot slot k && k.claim_owner =? owner

abbrev pub set_message : Ident → IdempotencyKey → IdempotencyKey
set_message m k = record k { outcome = some (KeyOutcome.message m); claim_expires_at = none }

unfoldable pub checkpoint : Ident → Slot → Ident → Database → Database
checkpoint owner slot m db = update_keys (is_owned slot owner) (set_message m) db

abbrev pub end_lease : IdempotencyKey → IdempotencyKey
end_lease k = record k { claim_expires_at = none }

-- `finally`
unfoldable pub release : Ident → Slot → Database → Database
release owner slot db = update_keys (is_owned slot owner) end_lease db
