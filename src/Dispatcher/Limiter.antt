-- ===== src/Dispatcher/Limiter.antt =====
-- src/discode/dispatcher/rate_limiter.py: the bucket of one channel, with the refill of one token a
-- second that every limiter of the program is built with. The monotonic clock is in milliseconds, a
-- bucket in thousandths of a token. `asyncio.sleep` sleeps at least as long as it is asked to: how
-- much longer is an argument.
use discode.Base.{
  List, Option, [], if◌then◌else◌, ltb, min, none, some, suc, ℕ, ◌*◌, ◌+◌, ◌-◌, ◌∷◌, ◌≤◌,
}

-- `None` where the dict has no entry for the channel
pub record Bucket : Type 0 where
  pub tokens : Option ℕ
  pub last : Option ℕ
  pub cooloff_until : ℕ

abbrev pub new_bucket : Bucket
new_bucket = record { tokens = none; last = none; cooloff_until = 0 }

-- what one call meets: the clock when it has the lock, and how much its two sleeps overshoot
pub record Arrival : Type 0 where
  pub now : ℕ
  pub cooloff_late : ℕ
  pub wait_late : ℕ

unfoldable pub note_retry_after : ℕ → ℕ → Bucket → Bucket
note_retry_after now milliseconds b = record b { cooloff_until = now + milliseconds }

abbrev pub get_or : Option ℕ → ℕ → ℕ
get_or none d = d
get_or (some x) d = x

-- the clock after the cool-off
abbrev pub after_cooloff : Arrival → Bucket → ℕ
after_cooloff a b = if ltb a.now b.cooloff_until then b.cooloff_until + a.cooloff_late else a.now

abbrev pub refilled : ℕ → ℕ → Bucket → ℕ
refilled capacity now b =
    min (1000 * capacity) (get_or b.tokens (1000 * capacity) + (now - get_or b.last now))

abbrev pub take_token : Arrival → ℕ → ℕ → Bucket → Bucket
take_token a now tokens b =
    if ltb tokens 1000
    then record b { tokens = some 0; last = some (now + (1000 - tokens) + a.wait_late) }
    else record b { tokens = some (tokens - 1000); last = some now }

-- `acquire`; it returns at the time that `last` holds then
unfoldable pub acquire : ℕ → Arrival → Bucket → Bucket
acquire capacity a b = take_token a (after_cooloff a b) (refilled capacity (after_cooloff a b) b) b

-- what happens to a channel: a message that is sent, or a Retry-After of Discord
pub data Use : Type 0 where
  acquires : Arrival → Use
  retries : ℕ → ℕ → Use

unfoldable pub apply_use : ℕ → Use → Bucket → Bucket
unfolding acquire note_retry_after
apply_use capacity (Use.acquires a) b = acquire capacity a b
apply_use capacity (Use.retries now milliseconds) b = note_retry_after now milliseconds b

unfoldable pub apply_uses : ℕ → List Use → Bucket → Bucket
unfolding apply_use
apply_uses capacity [] b = b
apply_uses capacity (u ∷ uses) b = apply_uses capacity uses (apply_use capacity u b)

abbrev pub count_acquires : List Use → ℕ
count_acquires [] = 0
count_acquires (Use.acquires a ∷ uses) = suc (count_acquires uses)
count_acquires (Use.retries now milliseconds ∷ uses) = count_acquires uses

-- when the last message of the channel was let through, `start` before the first
abbrev pub clock : ℕ → Bucket → ℕ
clock start b = get_or b.last start

-- the clock does not run backwards: a call has the lock after the one before has returned
abbrev pub IsClocked : ℕ → ℕ → List Use → Bucket → Type 0
IsClocked capacity start [] b = Unit
IsClocked capacity start (Use.acquires a ∷ uses) b =
    (clock start b ≤ a.now) × IsClocked capacity start uses (apply_use capacity (Use.acquires a) b)
IsClocked capacity start (Use.retries now milliseconds ∷ uses) b =
    IsClocked capacity start uses (apply_use capacity (Use.retries now milliseconds) b)
