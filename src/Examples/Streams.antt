-- ===== src/Examples/Streams.antt =====
-- The theorems on the relay and the environment, at concrete data.
use discode.Base.{
  [], any, arith, false, if◌then◌else◌, is_set, map_option, refl, some, suc, true, zero, ℕ, ◌&&◌,
  ◌++◌, ◌==◌, ◌||◌, ◌∷◌, ◌≡◌,
}
use discode.Data.{Database, Envelope, Producer, RedisOutbox, StreamKey, Text, outbox_row}
use discode.Text.{codes}
use discode.Janitor.Timeouts.{janitor_job}
use discode.Queues.Relay.{RelaySettings, Xadd, drain_batch, has_outbox_id}
use discode.Queues.Delivered.{drain_batch_faithful, get_row, is_published, payload_of}
use discode.Dispatcher.Message.{build_message}
use discode.Dispatcher.Chunks.{build_message_fits, has_short_chunks}
use discode.Dispatcher.Plain.{build_message_plain, concat, is_plain}
use discode.Examples.Fixtures.{alice, db}

abbrev relay_cfg : RelaySettings
relay_cfg = record {
  outbox_batch_size = 64;
  outbox_max_attempts = 50;
  outbox_base_backoff_ms = 100;
  outbox_max_backoff_ms = 60000;
}

abbrev stop_row_1 : RedisOutbox
stop_row_1 =
    outbox_row 1 5 Producer.bot (StreamKey.runner_jobs (some 6))
      (Envelope.stop_session (janitor_job 70 alice))

abbrev outboxed : Database
outboxed = record db { redis_outbox = stop_row_1 ∷ record stop_row_1 { id = 2 } ∷ [] }

-- the first row is added, and then Redis goes away
abbrev first_only : RedisOutbox → Xadd
first_only r = if r.id == 1 then Xadd.added else Xadd.unreachable

drain_batch_faithful_example :
    let done = drain_batch relay_cfg Producer.bot 9000 (λ i. false) first_only true outboxed in
    (is_published (get_row 2 done.db) ≡ (
      is_published (get_row 2 outboxed)
      || (true && is_set (get_row 2 outboxed) && any (has_outbox_id 2) done.sent)))
    × (map_option payload_of (get_row 2 done.db) ≡ map_option payload_of (get_row 2 outboxed))
drain_batch_faithful_example =
    drain_batch_faithful relay_cfg Producer.bot 9000 (λ i. false) first_only true outboxed 2

unfoldable repeat : ℕ → ℕ → Text
repeat zero c = []
repeat (suc n) c = c ∷ repeat n c

plain_repeat : (n : ℕ) → is_plain (repeat n b'a') ≡ true
unfolding repeat
plain_repeat zero = refl
plain_repeat (suc n) = ground (arith, plain_repeat n)

abbrev long_text : Text
long_text = repeat 2500 b'a'

build_message_fits_example :
    has_short_chunks (build_message (λ c. false) (codes "```py" ++ long_text)) ≡ true
build_message_fits_example = build_message_fits (λ c. false) (codes "```py" ++ long_text)

build_message_plain_example :
    map_option concat (build_message (λ c. false) long_text) ≡ some long_text
build_message_plain_example = build_message_plain (λ c. false) long_text (plain_repeat 2500)
