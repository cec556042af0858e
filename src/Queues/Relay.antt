-- ===== src/Queues/Relay.antt =====
-- src/discode/queues/relay.py: `_drain_batch` and `_record_failure`. Moments are in milliseconds.
use discode.Base.{
  Bool, List, [], false, if◌then◌else◌, is_set, leb, ltb, min, not, select, some, suc, take, true,
  update_where, ℕ, ◌&&◌, ◌*◌, ◌+◌, ◌==◌, ◌^◌, ◌∷◌,
}
use discode.Data.{Database, Ident, Producer, RedisOutbox}

pub record RelaySettings : Type 0 where
  pub outbox_batch_size : ℕ
  pub outbox_max_attempts : ℕ
  pub outbox_base_backoff_ms : ℕ
  pub outbox_max_backoff_ms : ℕ

-- how XADD answers: it added the entry, Redis cannot be reached, or another exception
pub data Xadd : Type 0 where
  added unreachable : Xadd
  refused : Ident → Xadd

-- what a row's `error` says of the last failure
abbrev pub max_attempts_error : Ident
max_attempts_error = 1

abbrev pub is_same_producer : Producer → Producer → Bool
is_same_producer Producer.bot Producer.bot = true
is_same_producer Producer.runner Producer.runner = true
is_same_producer Producer.janitor Producer.janitor = true
is_same_producer _ _ = false

abbrev pub has_outbox_id : ℕ → RedisOutbox → Bool
has_outbox_id i r = r.id == i

-- the WHERE clause of the batch; `locked` says which rows another relay holds (SKIP LOCKED)
abbrev pub is_pending_row : RelaySettings → Producer → ℕ → (ℕ → Bool) → RedisOutbox → Bool
is_pending_row cfg producer now locked r =
    is_same_producer r.producer producer
    && not (is_set r.published_at)
    && leb r.next_attempt_at now
    && ltb r.attempts cfg.outbox_max_attempts
    && not (locked r.id)

-- ORDER BY id: rows are appended with the next id, so the table is in this order
abbrev pub batch : RelaySettings → Producer → ℕ → (ℕ → Bool) → Database → List RedisOutbox
batch cfg producer now locked db =
    take cfg.outbox_batch_size (select (is_pending_row cfg producer now locked) db.redis_outbox)

abbrev pub update_outbox : ℕ → (RedisOutbox → RedisOutbox) → Database → Database
update_outbox i f db = record db { redis_outbox = update_where (has_outbox_id i) f db.redis_outbox }

abbrev pub backoff : RelaySettings → ℕ → ℕ
backoff cfg attempts =
    min (cfg.outbox_base_backoff_ms * 2 ^ min attempts 30) cfg.outbox_max_backoff_ms

-- `_record_failure`, with the row as it was read
abbrev pub fail_row : RelaySettings → ℕ → RedisOutbox → Ident → RedisOutbox → RedisOutbox
fail_row cfg now read message r = record r {
  attempts = read.attempts + 1;
  next_attempt_at = now + backoff cfg (read.attempts + 1);
  error =
      some
        (if leb cfg.outbox_max_attempts (read.attempts + 1) then max_attempts_error else message);
}

abbrev pub publish_row : ℕ → RedisOutbox → RedisOutbox
publish_row now r = record r { published_at = some now }

-- the database, the entries added to the streams in order, the rows drained, and whether Redis was
-- out of reach
pub record Drained : Type 0 where
  pub db : Database
  pub sent : List RedisOutbox
  pub drained : ℕ
  pub redis_unavailable : Bool

-- the loop over the rows of the batch
unfoldable pub drain_rows :
    RelaySettings → ℕ → (RedisOutbox → Xadd) → List RedisOutbox → Database → Drained
drain_rows cfg now xadd [] db = record {
  db = db;
  sent = [];
  drained = 0;
  redis_unavailable = false;
}
drain_rows cfg now xadd (r ∷ rows) db =
    let failed : Ident → Drained =
      λ e. drain_rows cfg now xadd rows (update_outbox r.id (fail_row cfg now r e) db) in
    let next = drain_rows cfg now xadd rows (update_outbox r.id (publish_row now) db) in
    elim (xadd r) [
      | Xadd.unreachable ↦ record { db = db; sent = []; drained = 0; redis_unavailable = true }
      | Xadd.refused e ↦ failed e
      | Xadd.added ↦ record next { sent = r ∷ next.sent; drained = suc next.drained }
    ]

-- One batch, in one transaction, which may fail to commit after its entries were added.
unfoldable pub drain_batch :
    RelaySettings → Producer → ℕ → (ℕ → Bool) → (RedisOutbox → Xadd) → Bool → Database → Drained
unfolding drain_rows
drain_batch cfg producer now locked xadd commits db =
    let done = drain_rows cfg now xadd (batch cfg producer now locked db) db in
    if commits then done else record done { db = db }
