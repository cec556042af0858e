-- ===== src/Dispatcher/Posted.antt =====
-- What the gate of src/discode/dispatcher/handlers/terminal_notice.py finalizes has reached Discord.
use mathlib.Core.List.{Mem, mem-append_left, mem-append_right, mem-cons_self}
use discode.Base.{
  Bool-cases, Option-cases, [], arith, false, inl, inr, some, true, ◌++◌, ◌∷◌, ◌≡◌, ◌⊎◌,
}
use discode.Data.{Database, Ident, Slot, Time, get_key}
use discode.Dispatcher.Claim.{
  Action, Attempt, Effect, Outbound, act, claim_act_finalize, claim_row, is_done, is_no_key,
}
use discode.Dispatcher.Handlers.{others}
use discode.Dispatcher.Accounts.{count_open, done_of_key, is_chunk}
use discode.Dispatcher.Claimed.{
  claim_act_finalize_absent, claim_act_finalize_done, claim_act_finalize_unkeyed,
}
use discode.Dispatcher.Gated.{KeepsGates}

-- what a gated call sends
abbrev pub effect_of : Slot → Action → Effect
effect_of slot action = record { sent_for = some slot; action = action }

-- The delivery is not finalized, or its effect has reached Discord.
abbrev pub PostedIfDone : Slot → Action → Outbound → Type 0
PostedIfDone slot action w = (is_done slot w.db ≡ false) ⊎ Mem (effect_of slot action) w.discord

pub posted_of_done :
    (slot : Slot) (action : Action) (w : Outbound)
    → PostedIfDone slot action w
    → is_done slot w.db ≡ true
    → Mem (effect_of slot action) w.discord
posted_of_done slot action w (inl not_yet) done = ground (arith, not_yet, done)
posted_of_done slot action w (inr reached) done = reached

act-PostedIfDone :
    (slot : Slot) (action : Action) (finalize : Database → Database) (attempt : Attempt)
    (claimed : Database) (w : Outbound)
    → PostedIfDone slot action w
    → PostedIfDone slot action (act slot action finalize attempt claimed w).0
act-PostedIfDone slot action finalize Attempt.raised claimed w h = h
act-PostedIfDone slot action finalize Attempt.lost claimed w (inl not_yet) = inl not_yet
act-PostedIfDone slot action finalize Attempt.lost claimed w (inr reached) =
    inr (mem-append_left (effect_of slot action ∷ []) reached)
act-PostedIfDone slot action finalize Attempt.replied claimed w h =
    inr (mem-append_right w.discord mem-cons_self)

-- A gated call finalizes only what it posted, or what was finalized before.
pub claim_act_finalize-PostedIfDone :
    (now : Time) (slot : Slot) (sid : Ident) (action : Action) (finalize : Database → Database)
    (attempt : Attempt) (w : Outbound)
    → is_chunk slot ≡ false
    → count_open w.db ≡ 0
    → PostedIfDone slot action w
    → PostedIfDone slot action (claim_act_finalize now slot sid action finalize attempt w).0
claim_act_finalize-PostedIfDone now slot sid action finalize attempt w gate none_open h =
    elim (Bool-cases (is_no_key slot.key)) [
      | inl e ↦ rw (claim_act_finalize_unkeyed now slot sid action finalize attempt w e) h
      | inr keyed ↦ elim (Option-cases (get_key slot w.db)) [
        | inl absent ↦
            rw (claim_act_finalize_absent now slot sid action finalize attempt w keyed absent) (
              act-PostedIfDone slot action finalize attempt
                (record w.db {
                  idempotency_keys = w.db.idempotency_keys ++ claim_row now slot sid ∷ [];
                })
                w h)
        | inr (k, found) ↦
            rw
              (claim_act_finalize_done now slot sid action finalize attempt w k keyed found
                (done_of_key slot w.db k gate none_open found))
              h
      ]
    ]

pub others-PostedIfDone :
    (slot : Slot) (action : Action) (f : Database → Database) (w : Outbound)
    → is_chunk slot ≡ false
    → KeepsGates f
    → PostedIfDone slot action w
    → PostedIfDone slot action (others f w)
others-PostedIfDone slot action f w gate keep (inl not_yet) =
    inl (ground (arith, not_yet, (keep w.db).1 slot gate))
others-PostedIfDone slot action f w gate keep (inr reached) = inr reached
