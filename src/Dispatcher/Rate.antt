-- ===== src/Dispatcher/Rate.antt =====
-- How fast the bucket of src/discode/dispatcher/rate_limiter.py lets messages through.
use discode.Base.{List, Option-cases, [], arith, inl, inr, ℕ, ◌*◌, ◌+◌, ◌∷◌, ◌≤◌}
use discode.Turn.Queue.{earlier}
use discode.Dispatcher.Limiter.{
  Arrival, Bucket, IsClocked, Use, acquire, apply_use, apply_uses, clock, count_acquires, get_or,
  new_bucket, note_retry_after,
}

abbrev level : ℕ → Bucket → ℕ
level capacity b = get_or b.tokens (1000 * capacity)

-- A message takes a thousand out of what was there and what has come in since.
acquire_spends :
    (capacity start : ℕ) (a : Arrival) (b : Bucket)
    → 1 ≤ capacity
    → clock start b ≤ a.now
    → let b' = acquire capacity a b in
      (1000 + level capacity b' + clock start b ≤ level capacity b + clock start b')
      × (level capacity b' ≤ 1000 * capacity)
unfolding acquire
acquire_spends capacity start a b pos mono = elim (Option-cases b.tokens) [
  | inl e ↦ elim (Option-cases b.last) [ inl f ↦ ground arith | inr (l, f) ↦ ground arith ]
  | inr (t, e) ↦ elim (Option-cases b.last) [ inl f ↦ ground arith | inr (l, f) ↦ ground arith ]
]

level-apply_uses :
    (capacity start : ℕ) (uses : List Use) (b : Bucket)
    → 1 ≤ capacity
    → level capacity b ≤ 1000 * capacity
    → IsClocked capacity start uses b
    → level capacity (apply_uses capacity uses b) ≤ 1000 * capacity
unfolding apply_uses apply_use note_retry_after
level-apply_uses capacity start [] b pos low h = low
level-apply_uses capacity start (Use.acquires a ∷ uses) b pos low (mono, h) =
    level-apply_uses capacity start uses (acquire capacity a b) pos
      (acquire_spends capacity start a b pos mono).1 h
level-apply_uses capacity start (Use.retries now ms ∷ uses) b pos low h =
    level-apply_uses capacity start uses (note_retry_after now ms b) pos low h

apply_uses_spend :
    (capacity start : ℕ) (uses : List Use) (b : Bucket)
    → 1 ≤ capacity
    → IsClocked capacity start uses b
    → let b' = apply_uses capacity uses b in
      1000 * count_acquires uses + level capacity b' + clock start b
      ≤ level capacity b + clock start b'
unfolding apply_uses apply_use note_retry_after
apply_uses_spend capacity start [] b pos h = omega arith
apply_uses_spend capacity start (Use.acquires a ∷ uses) b pos (mono, h) = omega (
  arith,
  (acquire_spends capacity start a b pos mono).0,
  apply_uses_spend capacity start uses (acquire capacity a b) pos h,
)
apply_uses_spend capacity start (Use.retries now ms ∷ uses) b pos h =
    apply_uses_spend capacity start uses (note_retry_after now ms b) pos h

-- In any window of a channel's life, the messages let through are at most the capacity of the
-- bucket and one for each second from the last message before the window to the last one in it,
-- whatever Discord's Retry-After headers say; the clock does not run backwards.
pub acquires_within_rate :
    (capacity start : ℕ) (earlier window : List Use)
    → 1 ≤ capacity
    → IsClocked capacity start earlier new_bucket
    → IsClocked capacity start window (apply_uses capacity earlier new_bucket)
    → let b = apply_uses capacity earlier new_bucket in
      1000 * count_acquires window + clock start b
      ≤ 1000 * capacity + clock start (apply_uses capacity window b)
acquires_within_rate capacity start earlier window pos h k = omega (
  arith,
  level-apply_uses capacity start earlier new_bucket pos (omega arith) h,
  apply_uses_spend capacity start window (apply_uses capacity earlier new_bucket) pos k,
)
