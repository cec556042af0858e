-- ===== src/Runner/Budget.antt =====
-- src/discode/runner/main.py: `_process_runner_message` and `_drop_poison_message`, with
-- RUNNER_JOB_MAX_DELIVERIES of src/discode/queues/consumers/runner_cg.py.
use discode.Base.{
  Bool, List, [], arith, false, if◌then◌else◌, leb, length, max, suc, true, ℕ, ◌+◌, ◌∷◌, ◌≡◌, ◌≤◌,
}
use discode.Runner.Dispatch.{Handled}

abbrev pub runner_job_max_deliveries : ℕ
runner_job_max_deliveries = 5

-- why a message is kept in the dead-letter hash
pub data DropReason : Type 0 where
  handler_exception unhandled_budget_exhausted : DropReason

-- an entry of the stream, from the consumer group's view
pub data Entry : Type 0 where
  left_pending : Entry
  acked : Entry
  dead_lettered : DropReason → ℕ → Entry

abbrev pub drop_reason : Handled → DropReason
drop_reason Handled.raised = DropReason.handler_exception
drop_reason _ = DropReason.unhandled_budget_exhausted

-- One delivery: `local_attempts` already counts it, and `server_count` is what XPENDING says (0 on
-- an error of Redis).
unfoldable pub process_runner_message : Handled → ℕ → ℕ → ℕ → Entry
process_runner_message Handled.handled local_attempts server_count max_deliveries = Entry.acked
process_runner_message h local_attempts server_count max_deliveries =
    let attempts = max local_attempts server_count in
    if leb max_deliveries attempts
    then Entry.dead_lettered (drop_reason h) attempts
    else Entry.left_pending

-- The deliveries of one message to a runner, which counts them, up to the first that settles it.
unfoldable pub deliver : ℕ → ℕ → List (Handled × ℕ) → Entry
unfolding process_runner_message
deliver max_deliveries attempts [] = Entry.left_pending
deliver max_deliveries attempts ((h, server_count) ∷ rest) =
    let later = deliver max_deliveries (suc attempts) rest in
    elim (process_runner_message h (suc attempts) server_count max_deliveries) [
      | Entry.left_pending ↦ later
      | Entry.acked ↦ Entry.acked
      | Entry.dead_lettered reason n ↦ Entry.dead_lettered reason n
    ]

abbrev pub is_pending : Entry → Bool
is_pending Entry.left_pending = true
is_pending _ = false

deliver_within :
    (max_deliveries attempts : ℕ) (rest : List (Handled × ℕ))
    → attempts + length rest ≡ max_deliveries
    → 1 ≤ length rest
    → is_pending (deliver max_deliveries attempts rest) ≡ false
unfolding deliver process_runner_message
deliver_within m n [] h pos = ground arith
deliver_within m n ((Handled.handled, k) ∷ []) h pos = ground arith
deliver_within m n ((Handled.pending, k) ∷ []) h pos = ground arith
deliver_within m n ((Handled.raised, k) ∷ []) h pos = ground arith
deliver_within m n ((Handled.handled, k) ∷ x ∷ rest) h pos = ground arith
deliver_within m n ((Handled.pending, k) ∷ x ∷ rest) h pos =
    ground (arith, deliver_within m (suc n) (x ∷ rest))
deliver_within m n ((Handled.raised, k) ∷ x ∷ rest) h pos =
    ground (arith, deliver_within m (suc n) (x ∷ rest))

-- After the most deliveries that are allowed, a message is settled: acknowledged or kept as a dead
-- letter, even when the server's count always fails.
pub deliver_settles :
    (max_deliveries : ℕ) (deliveries : List (Handled × ℕ))
    → length deliveries ≡ max_deliveries
    → 1 ≤ max_deliveries
    → is_pending (deliver max_deliveries 0 deliveries) ≡ false
deliver_settles m ds h pos = deliver_within m 0 ds (omega (arith, h)) (omega (arith, h, pos))
