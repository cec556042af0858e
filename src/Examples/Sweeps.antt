-- ===== src/Examples/Sweeps.antt =====
-- The theorems on the janitor's sweeps and on paths, at concrete data.
use discode.Base.{List, [], any, arith, is_set, refl, some, ◌||◌, ◌∷◌, ◌≡◌}
use discode.Data.{Database, Envelope, Producer, StreamKey, Text, get_session, outbox_row}
use discode.Text.{codes}
use discode.Paths.{deny_reason, is_within_root}
use discode.Janitor.Timeouts.{
  janitor_job, sweep_archive_timeout, sweep_idle_timeout, sweep_stop_timeout,
}
use discode.Janitor.Hosts.{recent_heartbeat_spares, sweep_runner_heartbeat_orphans}
use discode.Janitor.Spared.{open_turn_spares}
use discode.Examples.Fixtures.{alice, call, db}
use discode.Paths.Segments.{is_prefix, is_within_root_prefix, path_of}
use discode.Paths.Denied.{deny_reason_complete, is_denied_segment, system_directories}

open_turn_spares_example :
    (get_session 1 (sweep_idle_timeout call 0 db).0 ≡ some alice)
    × (get_session 1 (sweep_archive_timeout call 0 db).0 ≡ some alice)
    × (get_session 1 (sweep_stop_timeout call 0 db).0 ≡ some alice)
open_turn_spares_example = open_turn_spares call 0 1 alice db (omega arith) refl refl

recent_heartbeat_spares_example :
    get_session 1 (sweep_runner_heartbeat_orphans call 15 24 db).0 ≡ some alice
recent_heartbeat_spares_example = recent_heartbeat_spares call 15 24 db 1 6 alice refl refl refl

abbrev waiting : Database
waiting = record db {
  redis_outbox =
      outbox_row 1 5 Producer.bot StreamKey.discord_outbound
        (Envelope.stop_session (janitor_job 70 alice))
      ∷ [];
}

abbrev sibling : List Text
sibling = codes "srv" ∷ codes "data-old" ∷ []

abbrev data_root : List Text
data_root = codes "srv" ∷ codes "data" ∷ []

is_within_root_prefix_example :
    is_within_root (path_of sibling) (path_of data_root) ≡ is_prefix data_root sibling
is_within_root_prefix_example = is_within_root_prefix sibling data_root refl refl

abbrev keys : List Text
keys = codes "home" ∷ codes ".ssh" ∷ []

deny_reason_complete_example :
    is_set (deny_reason (path_of keys))
    ≡ (any (λ d. is_prefix d keys) system_directories || any is_denied_segment keys)
deny_reason_complete_example = deny_reason_complete keys refl
