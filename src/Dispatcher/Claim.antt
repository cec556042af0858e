-- ===== src/Dispatcher/Claim.antt =====
-- src/discode/dispatcher/handlers/terminal_notice.py: `_claim_act_finalize`, the gate of every
-- delivery to Discord. The whole call is one transaction, whose row lock is held over the side
-- effect. How it ends is an argument: it goes through; an error of the database or of Discord comes
-- before anything reached Discord; or Discord has acted and the transaction is lost after that.
use discode.Base.{
  Bool, List, Option, [], false, if◌then◌else◌, is_set, none, some, true, ℕ, ◌++◌, ◌+◌, ◌==◌, ◌∷◌,
}
use discode.Data.{
  Database, IdempotencyKey, Ident, KeyOutcome, KeyText, Slot, Text, Time, get_key, has_slot,
  insert_key, update_keys,
}

pub data Action : Type 0 where
  post : Ident → Text → Option KeyText → Action
  archive : Ident → Action

-- What reached Discord; `sent_for` names the delivery it belongs to, if it was gated.
pub record Effect : Type 0 where
  pub sent_for : Option Slot
  pub action : Action

-- the database, and what has reached Discord so far
pub record Outbound : Type 0 where
  pub db : Database
  pub discord : List Effect

pub data Attempt : Type 0 where
  replied raised lost : Attempt

abbrev pub seven_days : ℕ
seven_days = 604800

abbrev pub claim_row : Time → Slot → Ident → IdempotencyKey
claim_row now slot sid = record {
  slot = slot;
  owning_session = if sid == 0 then none else some sid;
  expires_at = some (now + seven_days);
  outcome = none;
  claim_expires_at = none;
  claim_owner = none;
}

-- `outcome IS NOT NULL` in the row of the key
abbrev pub is_done : Slot → Database → Bool
is_done slot db = elim (get_key slot db) [ none ↦ false | some k ↦ is_set k.outcome ]

abbrev pub mark_done : IdempotencyKey → IdempotencyKey
mark_done k = record k { outcome = some KeyOutcome.done }

abbrev pub is_no_key : KeyText → Bool
is_no_key (KeyText.plain k) = k == 0
is_no_key _ = false

abbrev pub send : Effect → Outbound → Outbound
send e w = record w { discord = w.discord ++ e ∷ [] }

-- The side effect and the finalization, behind the gate; `false` is an exception.
abbrev pub act :
    Slot → Action → (Database → Database) → Attempt → Database → Outbound → Outbound × Bool
act slot action finalize Attempt.raised claimed w = (w, false)
act slot action finalize Attempt.lost claimed w =
    (send (record { sent_for = some slot; action = action }) w, false)
act slot action finalize Attempt.replied claimed w = (
  send (record { sent_for = some slot; action = action })
      (record w { db = update_keys (has_slot slot) mark_done (finalize claimed) }),
  true,
)

unfoldable pub claim_act_finalize :
    Time → Slot → Ident → Action → (Database → Database) → Attempt → Outbound → Outbound × Bool
claim_act_finalize now slot sid action finalize attempt w =
    let claimed = insert_key (claim_row now slot sid) w.db in
    if is_no_key slot.key
    then (w, false)
    else if is_done slot claimed
    then (record w { db = claimed }, true)
    else act slot action finalize attempt claimed w
