-- ===== src/Dispatcher/Consumer.antt =====
-- src/discode/dispatcher/main.py: `_process_dispatcher_message`, and the deliveries of one entry of
-- the stream, with DispatcherConsumer of src/discode/dispatcher/consumer.py. `count` is what
-- XPENDING says after a delivery that failed.
-- DISPATCHER_MAX_DELIVERIES
use discode.Base.{List, [], if◌then◌else◌, leb, ℕ, ◌∷◌}
use discode.Data.{Database, Reason, Text}
use discode.Runner.Dispatch.{Handled}
use discode.Dispatcher.Claim.{Outbound}
use discode.Dispatcher.Handlers.{Course, Fields, dispatch_discord_envelope, others}

abbrev pub dispatcher_max_deliveries : ℕ
dispatcher_max_deliveries = 5

-- an entry of the stream, from the consumer group's view; a dead letter keeps its delivery count
pub data Fate : Type 0 where
  waiting acked : Fate
  dead_lettered : ℕ → Fate

abbrev pub retain_exhausted : ℕ → ℕ → Fate
retain_exhausted max_deliveries count =
    if leb max_deliveries count then Fate.dead_lettered count else Fate.waiting

unfoldable pub process_dispatcher_message : Handled → ℕ → ℕ → Fate
process_dispatcher_message Handled.handled max_deliveries count = Fate.acked
process_dispatcher_message Handled.pending max_deliveries count =
    retain_exhausted max_deliveries count
process_dispatcher_message Handled.raised max_deliveries count =
    retain_exhausted max_deliveries count

-- one delivery: what other processes do before it, how its calls go, and the server's count
pub record Redelivery : Type 0 where
  pub before : Database → Database
  pub course : Course
  pub count : ℕ

abbrev pub settle_or : Fate → Outbound → Outbound × Fate → Outbound × Fate
settle_or Fate.waiting after later = later
settle_or Fate.acked after later = (after, Fate.acked)
settle_or (Fate.dead_lettered n) after later = (after, Fate.dead_lettered n)

-- the deliveries of one entry, up to the first that settles it
unfoldable pub consume : (Reason → Text) → ℕ → Fields → List Redelivery → Outbound → Outbound × Fate
unfolding dispatch_discord_envelope process_dispatcher_message
consume reason_text max_deliveries fields [] w = (w, Fate.waiting)
consume reason_text max_deliveries fields (r ∷ rest) w =
    let d = dispatch_discord_envelope reason_text r.course fields (others r.before w) in
    settle_or (process_dispatcher_message d.1 max_deliveries r.count) d.0
      (consume reason_text max_deliveries fields rest d.0)
