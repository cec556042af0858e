-- ===== src/Control/Leases.antt =====
-- Several calls of `_send_checkpointed` (src/discode/runner/control_api.py) at once: the
-- transactions of their claims, checkpoints and releases in any order. A call that its process does
-- not survive keeps its lease until it runs out.
use discode.Base.{Bool, List, any, if◌then◌else◌, not, select, ◌&&◌, ◌+◌, ◌==◌, ◌∷◌}
use discode.Data.{Database, Ident, Slot, Time, slot_eq}
use discode.Control.Chunks.{Claim, checkpoint, claim_chunk, release, ten_minutes}

-- a call between its claim and its end, with the time its lease runs out
pub record Worker : Type 0 where
  pub owner : Ident
  pub slot : Slot
  pub until : Time

pub record Replies : Type 0 where
  pub db : Database
  pub working : List Worker

-- how a call that has the lease goes on: Discord has the message and the checkpoint is committed, the
-- sending raises, or the process dies
pub data Ending : Type 0 where
  delivered : Ident → Ending
  failed died : Ending

pub data Move : Type 0 where
  claims : Time → Ident → Slot → Ident → Move
  ends : Worker → Ending → Move

abbrev pub is_worker : Worker → Worker → Bool
is_worker w v = w.owner == v.owner && slot_eq w.slot v.slot

abbrev pub without : Worker → List Worker → List Worker
without w l = select (λ v. not (is_worker w v)) l

abbrev pub start_worker : Time → Ident → Slot → Claim → List Worker → List Worker
start_worker now owner slot Claim.claimed l =
    record { owner = owner; slot = slot; until = now + ten_minutes } ∷ l
start_worker now owner slot (Claim.checkpointed o) l = l
start_worker now owner slot Claim.in_progress l = l

abbrev pub end_claim : Worker → Ending → Database → Database
end_claim w (Ending.delivered m) db = release w.owner w.slot (checkpoint w.owner w.slot m db)
end_claim w Ending.failed db = release w.owner w.slot db
end_claim w Ending.died db = db

unfoldable pub move : Move → Replies → Replies
unfolding claim_chunk release checkpoint
move (Move.claims now owner slot sid) r =
    let (db, claim) = claim_chunk now owner slot sid r.db in
    record { db = db; working = start_worker now owner slot claim r.working }
move (Move.ends w ending) r =
    if any (is_worker w) r.working
    then record { db = end_claim w ending r.db; working = without w r.working }
    else r
