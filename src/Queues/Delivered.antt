-- ===== src/Queues/Delivered.antt =====
-- The rows of the outbox after a batch of the relay.
use discode.Base.{
  Bool, List, Option, Option-cases, [], any, ap, arith, false, find, find-update_where, find_sound,
  inl, inr, is_set, map_option, none, refl, some, suc, true, updated, ℕ, ◌&&◌, ◌==◌, ◌||◌, ◌∷◌, ◌≡◌,
}
use discode.Data.{Database, Envelope, Ident, Producer, RedisOutbox, StreamKey}
use discode.Queues.Relay.{
  Drained, RelaySettings, Xadd, batch, drain_batch, drain_rows, fail_row, has_outbox_id,
  publish_row, update_outbox,
}

abbrev pub get_row : ℕ → Database → Option RedisOutbox
get_row i db = find (has_outbox_id i) db.redis_outbox

abbrev pub is_published : Option RedisOutbox → Bool
is_published none = false
is_published (some r) = is_set r.published_at

abbrev pub payload_of : RedisOutbox → StreamKey × Envelope
payload_of r = (r.stream_key, r.payload)

get_row-update :
    (i j : ℕ) (f : RedisOutbox → RedisOutbox) (db : Database)
    → ((r : RedisOutbox) → (f r).id ≡ r.id)
    → get_row i (update_outbox j f db) ≡ map_option (updated (has_outbox_id j) f) (get_row i db)
get_row-update i j f db keep =
    find-update_where (has_outbox_id i) (has_outbox_id j) f (λ r e. ap (λ n. n == i) (keep r))
      db.redis_outbox

-- what the loop over `rows` is to do to the row `i`
abbrev Faithful : ℕ → Database → Drained → Type 0
Faithful i db done =
    (is_published (get_row i done.db)
      ≡ (is_published (get_row i db) || (is_set (get_row i db) && any (has_outbox_id i) done.sent)))
    × (map_option payload_of (get_row i done.db) ≡ map_option payload_of (get_row i db))

rows-Faithful :
    (cfg : RelaySettings) (now : ℕ) (xadd : RedisOutbox → Xadd) (rows : List RedisOutbox)
    (db : Database) (i : ℕ)
    → Faithful i db (drain_rows cfg now xadd rows db)
unfolding drain_rows
rows-Faithful cfg now xadd [] db i = elim (Option-cases (get_row i db)) [
  | inl e ↦ ground arith
  | inr (x, e) ↦ ground arith
]
rows-Faithful cfg now xadd (r ∷ rows) db i =
    by_answer (xadd r)
      (λ e. rows-Faithful cfg now xadd rows (update_outbox r.id (fail_row cfg now r e) db) i)
      (rows-Faithful cfg now xadd rows (update_outbox r.id (publish_row now) db) i)
  where
    next : Drained
    next = drain_rows cfg now xadd rows (update_outbox r.id (publish_row now) db)

    by_answer :
        (x : Xadd)
        → ((e : Ident)
            → Faithful i
                (update_outbox r.id (fail_row cfg now r e) db)
                (drain_rows cfg now xadd rows (update_outbox r.id (fail_row cfg now r e) db)))
        → Faithful i (update_outbox r.id (publish_row now) db) next
        → Faithful i db (elim x [
          | Xadd.unreachable ↦ record { db = db; sent = []; drained = 0; redis_unavailable = true }
          | Xadd.refused e ↦
              drain_rows cfg now xadd rows (update_outbox r.id (fail_row cfg now r e) db)
          | Xadd.added ↦ record next { sent = r ∷ next.sent; drained = suc next.drained }
        ])
    by_answer Xadd.unreachable failed sent = elim (Option-cases (get_row i db)) [
      | inl e ↦ ground arith
      | inr (y, e) ↦ ground arith
    ]
    by_answer (Xadd.refused m) failed sent = elim (Option-cases (get_row i db)) [
      | inl e ↦
          ground (arith, failed m, get_row-update i r.id (fail_row cfg now r m) db (λ y. refl))
      | inr (y, e) ↦
          ground (arith, failed m, get_row-update i r.id (fail_row cfg now r m) db (λ y. refl))
    ]
    by_answer Xadd.added failed sent = elim (Option-cases (get_row i db)) [
      | inl e ↦ ground (arith, sent, get_row-update i r.id (publish_row now) db (λ y. refl))
      | inr (y, e) ↦ ground (
        arith,
        sent,
        get_row-update i r.id (publish_row now) db (λ y. refl),
        find_sound (has_outbox_id i) db.redis_outbox y e,
      )
    ]

module _ (cfg : RelaySettings) (producer : Producer) (now : ℕ) (locked : ℕ → Bool)
    (xadd : RedisOutbox → Xadd) where
  -- The outbox after a batch: a row is published exactly if it was before, or if the batch added its
  -- entry to its stream and was committed; no row is lost, and none changes its stream or payload.
  -- So an entry may be sent again, when a commit fails, but none is marked that was not sent.
  pub drain_batch_faithful :
      (commits : Bool) (db : Database) (i : ℕ)
      → let done = drain_batch cfg producer now locked xadd commits db in
        (is_published (get_row i done.db) ≡ (
          is_published (get_row i db)
          || (commits && is_set (get_row i db) && any (has_outbox_id i) done.sent)))
        × (map_option payload_of (get_row i done.db) ≡ map_option payload_of (get_row i db))
  unfolding drain_batch
  drain_batch_faithful true db i =
      rows-Faithful cfg now xadd (batch cfg producer now locked db) db i
  drain_batch_faithful false db i = ground arith

  rows_outage :
      (rows : List RedisOutbox) (db : Database)
      → ((r : RedisOutbox) → xadd r ≡ Xadd.unreachable)
      → ((drain_rows cfg now xadd rows db).db ≡ db) × ((drain_rows cfg now xadd rows db).sent ≡ [])
  unfolding drain_rows
  rows_outage [] db down = (refl, refl)
  rows_outage (r ∷ rows) db down = (rw (drain_rows, down r) refl, rw (drain_rows, down r) refl)

  -- While Redis cannot be reached, a batch sends nothing and leaves the database as it is: no row
  -- spends an attempt or is put off.
  pub outage_spends_nothing :
      (commits : Bool) (db : Database)
      → ((r : RedisOutbox) → xadd r ≡ Xadd.unreachable)
      → let done = drain_batch cfg producer now locked xadd commits db in
        (done.db ≡ db) × (done.sent ≡ [])
  unfolding drain_batch
  outage_spends_nothing true db down = rows_outage (batch cfg producer now locked db) db down
  outage_spends_nothing false db down =
      (refl, (rows_outage (batch cfg producer now locked db) db down).1)
