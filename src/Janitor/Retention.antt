-- ===== src/Janitor/Retention.antt =====
-- src/discode/janitor/retention.py. A DELETE or UPDATE takes the rows of a subquery with ORDER BY
-- and LIMIT; which rows a batch takes beyond the clause is up to the database: a list of them.
use discode.Base.{
  Bool, List, Option, Option-cases, [], arith, delete_where, false, find-update_where, inl, inr,
  is_set, ltb, none, not, refl, rowcount, select, some, true, ℕ, ◌&&◌, ◌*◌, ◌||◌, ◌∷◌, ◌≡◌,
}
use discode.Data.{
  Database, Event, IdempotencyKey, Ident, InputTurn, RedisOutbox, Time, TurnStatus, get_turn,
  has_key, update_turns,
}
use discode.Turn.System.{KeepsTurns}
use discode.Janitor.Timeouts.{is_older}
use discode.Queues.Relay.{batch}

abbrev pub days : ℕ → ℕ
days n = 86400 * n

abbrev pub is_expired_key : Time → IdempotencyKey → Bool
is_expired_key now k = elim k.expires_at [ none ↦ false | some t ↦ ltb t now ]

-- `sweep_idempotency_keys`
unfoldable pub sweep_idempotency_keys : Time → (IdempotencyKey → Bool) → Database → Database × ℕ
sweep_idempotency_keys now batch db =
    let taken : IdempotencyKey → Bool = λ k. is_expired_key now k && batch k in
    (
      record db { idempotency_keys = delete_where taken db.idempotency_keys },
      rowcount taken db.idempotency_keys,
    )

abbrev pub is_old_event : Time → ℕ → Event → Bool
is_old_event now retention e = is_older now (days retention) e.created_at

-- `batch` says which of the old events the batch takes
unfoldable pub sweep_events : Time → ℕ → (Event → Bool) → Database → Database × ℕ
sweep_events now retention batch db =
    let taken : Event → Bool = λ e. is_old_event now retention e && batch e in
    (record db { events = delete_where taken db.events }, rowcount taken db.events)

abbrev pub is_old_outbox : Time → ℕ → RedisOutbox → Bool
is_old_outbox now retention r = is_set r.published_at && is_older now (days retention) r.created_at

unfoldable pub sweep_outbox : Time → ℕ → (RedisOutbox → Bool) → Database → Database × ℕ
sweep_outbox now retention batch db =
    let taken : RedisOutbox → Bool = λ r. is_old_outbox now retention r && batch r in
    (
      record db { redis_outbox = delete_where taken db.redis_outbox },
      rowcount taken db.redis_outbox,
    )

-- `status IN ('delivered','delivery_failed')`
abbrev pub is_reported : TurnStatus → Bool
is_reported TurnStatus.delivered = true
is_reported TurnStatus.delivery_failed = true
is_reported _ = false

abbrev pub has_result : InputTurn → Bool
has_result t = is_set t.result_text || is_set t.resume_token

abbrev pub is_expired : Time → ℕ → InputTurn → Bool
is_expired now retention t =
    is_reported t.status && has_result t && is_older now (days retention) t.updated_at

abbrev pub clear_result : InputTurn → InputTurn
clear_result t = record t { result_text = none; resume_token = none }

-- INPUT_IDEMPOTENCY_RETENTION: never, or a number of days
unfoldable pub sweep_turn_results : Time → Option ℕ → (InputTurn → Bool) → Database → Database × ℕ
sweep_turn_results now none batch db = (db, 0)
sweep_turn_results now (some retention) batch db =
    let taken : InputTurn → Bool = λ t. is_expired now retention t && batch t in
    (update_turns taken clear_result db, rowcount taken db.input_turns)

pub sweep_turn_results-KeepsTurns :
    (now : Time) (retention : Option ℕ) (batch : InputTurn → Bool) (db : Database)
    → KeepsTurns db (sweep_turn_results now retention batch db).0
unfolding sweep_turn_results
sweep_turn_results-KeepsTurns now none batch db k = elim (Option-cases (get_turn k db)) [
  | inl e ↦ ground arith
  | inr (t, e) ↦ ground arith
]
sweep_turn_results-KeepsTurns now (some retention) batch db k =
    elim (Option-cases (get_turn k db)) [
      | inl e ↦ ground arith
      | inr (t, e) ↦ ground (
        arith,
        find-update_where (has_key k) (λ t. is_expired now retention t && batch t) clear_result
            (λ x m. refl) db.input_turns,
      )
    ]

-- Retention leaves a turn that may still run or be reported (queued, executing, completed,
-- uncertain or aborted) exactly as it is.
sweep_turn_results_retains :
    (now : Time) (retention : Option ℕ) (batch : InputTurn → Bool) (db : Database) (k : Ident)
    (t : InputTurn)
    → get_turn k db ≡ some t
    → is_reported t.status ≡ false
    → get_turn k (sweep_turn_results now retention batch db).0 ≡ some t
unfolding sweep_turn_results
sweep_turn_results_retains now none batch db k t h n = h
sweep_turn_results_retains now (some retention) batch db k t h n = ground (
  arith,
  find-update_where (has_key k) (λ t. is_expired now retention t && batch t) clear_result
      (λ x m. refl) db.input_turns,
)

select-delete_where :
    (p q : RedisOutbox → Bool) (l : List RedisOutbox)
    → ((r : RedisOutbox) → p r ≡ true → q r ≡ false)
    → select q (delete_where p l) ≡ select q l
select-delete_where p q [] apart = refl
select-delete_where p q (r ∷ l) apart = ground (arith, apart r, select-delete_where p q l)

abbrev pub is_unpublished : RedisOutbox → Bool
is_unpublished r = not (is_set r.published_at)

-- The outbox sweep deletes no row that is not published yet, however old: the unpublished rows are
-- the same, in the same order.
sweep_outbox_keeps_unpublished :
    (now : Time) (retention : ℕ) (batch : RedisOutbox → Bool) (db : Database)
    → select is_unpublished (sweep_outbox now retention batch db).0.redis_outbox
      ≡ select is_unpublished db.redis_outbox
unfolding sweep_outbox
sweep_outbox_keeps_unpublished now retention batch db =
    select-delete_where (λ r. is_old_outbox now retention r && batch r) is_unpublished
      db.redis_outbox (λ r e. ground arith)
