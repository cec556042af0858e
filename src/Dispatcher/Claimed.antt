-- ===== src/Dispatcher/Claimed.antt =====
-- What one call of the gate of src/discode/dispatcher/handlers/terminal_notice.py does to the keys
-- and to what has reached Discord.
use discode.Base.{
  Bool-cases, Option-cases, [], any_of_find, any_of_find-none, ap, arith, false, inl, inr, is_set,
  none, rowcount-append, some, true, update_where, ℕ, ◌++◌, ◌+◌, ◌∷◌, ◌≡◌, ◌≤◌,
}
use discode.Data.{
  Database, IdempotencyKey, Ident, Slot, Time, get_key, get_key-append, has_slot, slot_eq_refl,
  update_keys,
}
use discode.Dispatcher.Claim.{
  Action, Attempt, Outbound, act, claim_act_finalize, claim_row, is_no_key, mark_done, seven_days,
}
use discode.Dispatcher.Accounts.{
  Accounted, Accounted-weaken, done_of_key, is_chunk, is_sent_for, lost_one, settled_after,
  settled_keys_closed,
}

-- the transaction of a call that acts, on a key that is absent
act-Accounted :
    (limit now : Time) (slot : Slot) (sid : Ident) (action : Action)
    (finalize : Database → Database) (attempt : Attempt) (lost : ℕ) (w : Outbound)
    → limit ≤ now + seven_days
    → is_chunk slot ≡ false
    → ((d : Database) → (finalize d).idempotency_keys ≡ d.idempotency_keys)
    → get_key slot w.db ≡ none
    → Accounted limit lost w
    → Accounted limit
        (lost + lost_one attempt)
        (act slot action finalize attempt
          (record w.db { idempotency_keys = w.db.idempotency_keys ++ claim_row now slot sid ∷ [] })
          w).0
act-Accounted limit now slot sid action finalize Attempt.raised lost w soon gate keep absent h =
    Accounted-weaken limit lost (lost + 0) w (omega arith) h
act-Accounted limit now slot sid action finalize Attempt.lost lost w soon gate keep absent
      (none_open, bound) =
    (
      none_open,
      λ other g. ground (
        arith,
        bound other g,
        rowcount-append (is_sent_for other) w.discord
            (record { sent_for = some slot; action = action } ∷ []),
      ),
    )
act-Accounted limit now slot sid action finalize Attempt.replied lost w soon gate keep absent
      (none_open, bound) =
    let claimed = record w.db {
      idempotency_keys = w.db.idempotency_keys ++ claim_row now slot sid ∷ [];
    } in
    let same_keys = ap (update_where (has_slot slot) mark_done) (keep claimed) in
    (
      rw same_keys (
          settled_keys_closed slot (claim_row now slot sid) w.db.idempotency_keys
            (slot_eq_refl slot) none_open),
      λ other g. ground (
        arith,
        bound other g,
        rowcount-append (is_sent_for other) w.discord
            (record { sent_for = some slot; action = action } ∷ []),
        settled_after limit now slot other sid w.db
            (update_keys (has_slot slot) mark_done (finalize claimed)) soon absent same_keys,
      ),
    )

-- The key is there and finalized: nothing happens.
pub claim_act_finalize_done :
    (now : Time) (slot : Slot) (sid : Ident) (action : Action) (finalize : Database → Database)
    (attempt : Attempt) (w : Outbound) (k : IdempotencyKey)
    → is_no_key slot.key ≡ false
    → get_key slot w.db ≡ some k
    → is_set k.outcome ≡ true
    → claim_act_finalize now slot sid action finalize attempt w ≡ (w, true)
unfolding claim_act_finalize
claim_act_finalize_done now slot sid action finalize attempt w k keyed found done =
    ground (arith, any_of_find (has_slot slot) w.db.idempotency_keys k found)

pub claim_act_finalize_absent :
    (now : Time) (slot : Slot) (sid : Ident) (action : Action) (finalize : Database → Database)
    (attempt : Attempt) (w : Outbound)
    → is_no_key slot.key ≡ false
    → get_key slot w.db ≡ none
    → claim_act_finalize now slot sid action finalize attempt w
      ≡ act slot action finalize attempt
          (record w.db { idempotency_keys = w.db.idempotency_keys ++ claim_row now slot sid ∷ [] })
          w
unfolding claim_act_finalize
claim_act_finalize_absent now slot sid action finalize attempt w keyed absent = ground (
  arith,
  any_of_find-none (has_slot slot) w.db.idempotency_keys absent,
  get_key-append slot (claim_row now slot sid) w.db,
)

pub claim_act_finalize_unkeyed :
    (now : Time) (slot : Slot) (sid : Ident) (action : Action) (finalize : Database → Database)
    (attempt : Attempt) (w : Outbound)
    → is_no_key slot.key ≡ true
    → claim_act_finalize now slot sid action finalize attempt w ≡ (w, false)
unfolding claim_act_finalize
claim_act_finalize_unkeyed now slot sid action finalize attempt w e = ground arith

pub claim_act_finalize-Accounted :
    (limit now : Time) (slot : Slot) (sid : Ident) (action : Action)
    (finalize : Database → Database) (attempt : Attempt) (lost : ℕ) (w : Outbound)
    → limit ≤ now + seven_days
    → is_chunk slot ≡ false
    → ((d : Database) → (finalize d).idempotency_keys ≡ d.idempotency_keys)
    → Accounted limit lost w
    → Accounted limit
        (lost + lost_one attempt)
        (claim_act_finalize now slot sid action finalize attempt w).0
claim_act_finalize-Accounted limit now slot sid action finalize attempt lost w soon gate keep h =
    elim (Bool-cases (is_no_key slot.key)) [
      | inl e ↦
          rw (claim_act_finalize_unkeyed now slot sid action finalize attempt w e)
            (Accounted-weaken limit lost (lost + lost_one attempt) w (omega arith) h)
      | inr keyed ↦ elim (Option-cases (get_key slot w.db)) [
        | inl absent ↦
            rw (claim_act_finalize_absent now slot sid action finalize attempt w keyed absent) (
              act-Accounted limit now slot sid action finalize attempt lost w soon gate keep absent
                h)
        | inr (k, found) ↦
            rw
              (claim_act_finalize_done now slot sid action finalize attempt w k keyed found
                (done_of_key slot w.db k gate h.0 found))
              (Accounted-weaken limit lost (lost + lost_one attempt) w (omega arith) h)
      ]
    ]
