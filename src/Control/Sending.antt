-- ===== src/Control/Sending.antt =====
-- Histories of calls of `_send_checkpointed` (src/discode/runner/control_api.py).
use discode.Base.{
  ==_iff, All, Bool, Bool-cases, List, Option-cases, [], any, ap, arith, false, inl, inr, ltb, none,
  not, refl, rowcount, rowcount-narrow, rowcount-select, rowcount-update_where, rowcount_of_any,
  some, true, ◌&&◌, ◌+◌, ◌==◌, ◌=?◌, ◌∷◌, ◌≡◌, ◌≤◌,
}
use discode.Data.{
  Database, IdempotencyKey, Ident, IsUnique, Slot, Time, get_key, has_slot, slot_eq, slot_eq_sound,
  update_keys,
}
use discode.Control.Chunks.{
  Claim, checkpoint, claim_chunk, end_lease, is_owned, release, set_message, ten_minutes,
}
use discode.Control.Claims.{IsLeasedTo, claim_chunk-IsUnique, claim_chunk_leases}
use discode.Control.Exclusive.{InOrder, Standing, claims-All, ends-All, is_owner}
use discode.Control.Leases.{Ending, Move, Replies, Worker, end_claim, is_worker, move, start_worker}

unfoldable pub run_moves : List Move → Replies → Replies
unfolding move
run_moves [] r = r
run_moves (m ∷ moves) r = run_moves moves (move m r)

-- The clock does not run backwards, and a claim comes under a uuid4 that no call has.
abbrev pub IsFair : Time → List Move → Replies → Type 0
IsFair now [] r = Unit
IsFair now (Move.claims later owner slot sid ∷ moves) r =
    (now ≤ later)
    × (any (is_owner owner) r.working ≡ false)
    × IsFair later moves (move (Move.claims later owner slot sid) r)
IsFair now (Move.ends w ending ∷ moves) r = IsFair now moves (move (Move.ends w ending) r)

-- the clock after a history
abbrev pub clock_after : Time → List Move → Time
clock_after now [] = now
clock_after now (Move.claims later owner slot sid ∷ moves) = clock_after later moves
clock_after now (Move.ends w ending ∷ moves) = clock_after now moves

-- a call that is sending the chunk under a lease that has not run out
abbrev pub is_sending : Time → Slot → Worker → Bool
is_sending now slot w = slot_eq slot w.slot && ltb now w.until

abbrev HaveOwners : Replies → Type 0
HaveOwners r = (owner : Ident) → rowcount (is_owner owner) r.working ≤ 1

-- a call whose claim got the lease joins the others
start-InOrder :
    (later : Time) (owner : Ident) (slot : Slot) (claim : Claim) (db : Database) (l : List Worker)
    → InOrder later (record { db = db; working = l })
    → HaveOwners (record { db = db; working = l })
    → any (is_owner owner) l ≡ false
    → (claim ≡ Claim.claimed
        → (k : IdempotencyKey) × (get_key slot db ≡ some k)
          × IsLeasedTo owner (later + ten_minutes) k)
    → InOrder later (record { db = db; working = start_worker later owner slot claim l })
      × HaveOwners (record { db = db; working = start_worker later owner slot claim l })
start-InOrder later owner slot Claim.claimed db l (unique, stand) owners fresh leases =
    let (k, found, leased) = leases refl in
    (
      (unique, ((k, found, inl leased), stand)),
      λ o. elim (Bool-cases (owner == o)) [
        | inr e ↦ ground (arith, owners o)
        | inl e ↦ ground (
          arith,
          rowcount_of_any (is_owner owner) l fresh,
          ap (λ p. rowcount (is_owner p) l) ((==_iff owner o).0 e),
        )
      ],
    )
start-InOrder later owner slot Claim.in_progress db l h owners fresh leases = (h, owners)
start-InOrder later owner slot (Claim.checkpointed o) db l h owners fresh leases = (h, owners)

move-InOrder_claims :
    (now later : Time) (owner : Ident) (slot : Slot) (sid : Ident) (r : Replies)
    → now ≤ later
    → any (is_owner owner) r.working ≡ false
    → InOrder now r
    → HaveOwners r
    → InOrder later (move (Move.claims later owner slot sid) r)
      × HaveOwners (move (Move.claims later owner slot sid) r)
unfolding move
move-InOrder_claims now later owner slot sid r le fresh (unique, stand) owners =
    start-InOrder later owner slot (claim_chunk later owner slot sid r.db).1
      (claim_chunk later owner slot sid r.db).0 r.working
      (
        claim_chunk-IsUnique later owner slot sid r.db unique,
        claims-All now later owner slot sid r.db r.working le fresh stand,
      )
      owners fresh (claim_chunk_leases later owner slot sid r.db unique)

pub owned-IsUnique :
    (owner : Ident) (slot : Slot) (f : IdempotencyKey → IdempotencyKey) (db : Database)
    → ((k : IdempotencyKey) → (f k).slot ≡ k.slot)
    → IsUnique db
    → IsUnique (update_keys (is_owned slot owner) f db)
owned-IsUnique owner slot f db keep unique other = omega (
  arith,
  rowcount-update_where (has_slot other) (is_owned slot owner) f
      (λ k e. ap (slot_eq other) (keep k)) db.idempotency_keys,
  unique other,
)

end_claim-IsUnique :
    (w : Worker) (ending : Ending) (db : Database) → IsUnique db → IsUnique (end_claim w ending db)
unfolding release checkpoint
end_claim-IsUnique w Ending.died db unique = unique
end_claim-IsUnique w Ending.failed db unique =
    owned-IsUnique w.owner w.slot end_lease db (λ k. refl) unique
end_claim-IsUnique w (Ending.delivered m) db unique =
    owned-IsUnique w.owner w.slot end_lease (checkpoint w.owner w.slot m db) (λ k. refl)
      (owned-IsUnique w.owner w.slot (set_message m) db (λ k. refl) unique)

move-InOrder_ends :
    (now : Time) (w : Worker) (ending : Ending) (r : Replies)
    → InOrder now r
    → HaveOwners r
    → InOrder now (move (Move.ends w ending) r) × HaveOwners (move (Move.ends w ending) r)
unfolding move
move-InOrder_ends now w ending r (unique, stand) owners =
    elim (Bool-cases (any (is_worker w) r.working)) [
      | inr e ↦ rw e ((unique, stand), owners)
      | inl e ↦ rw e (
        (end_claim-IsUnique w ending r.db unique, ends-All now w ending r.db r.working stand),
        λ o.
            omega
              (arith, owners o, rowcount-select (is_owner o) (λ v. not (is_worker w v)) r.working),
      )
    ]

pub run_moves-InOrder :
    (now : Time) (moves : List Move) (r : Replies)
    → IsFair now moves r
    → InOrder now r
    → HaveOwners r
    → InOrder (clock_after now moves) (run_moves moves r) × HaveOwners (run_moves moves r)
unfolding run_moves
run_moves-InOrder now [] r fair h owners = (h, owners)
run_moves-InOrder now (Move.claims later owner slot sid ∷ moves) r (le, fresh, fair) h owners =
    let (h', owners') = move-InOrder_claims now later owner slot sid r le fresh h owners in
    run_moves-InOrder later moves (move (Move.claims later owner slot sid) r) fair h' owners'
run_moves-InOrder now (Move.ends w ending ∷ moves) r fair h owners =
    let (h', owners') = move-InOrder_ends now w ending r h owners in
    run_moves-InOrder now moves (move (Move.ends w ending) r) fair h' owners'

-- the owner that the row of a key names
abbrev owns : Slot → Database → Worker → Bool
owns slot db w = elim (get_key slot db) [ none ↦ false | some k ↦ k.claim_owner =? w.owner ]

sending_owns :
    (now : Time) (slot : Slot) (db : Database) (w : Worker)
    → Standing now db w
    → is_sending now slot w ≡ true
    → owns slot db w ≡ true
sending_owns now slot db w (k, found, inl (own, until, pending)) busy = ground (
  arith,
  own,
  found,
  slot_eq_sound slot w.slot,
  ap (λ s. get_key s db) (slot_eq_sound slot w.slot (ground (arith, busy))),
)
sending_owns now slot db w (k, found, inr (out, other)) busy = ground (arith, out, busy)

count_sending :
    (now : Time) (slot : Slot) (db : Database) (l : List Worker)
    → All (Standing now db) l
    → rowcount (is_sending now slot) l ≤ rowcount (owns slot db) l
count_sending now slot db [] h = omega arith
count_sending now slot db (w ∷ l) (h, hs) =
    ground (arith, sending_owns now slot db w h, count_sending now slot db l hs)

count_owns : (slot : Slot) (r : Replies) → HaveOwners r → rowcount (owns slot r.db) r.working ≤ 1
count_owns slot r owners = elim (Option-cases (get_key slot r.db)) [
  | inl e ↦ omega (
    arith,
    owners 0,
    rowcount-narrow (is_owner 0) (owns slot r.db) r.working (λ w m. ground (arith, e, m)),
  )
  | inr (k, e) ↦ elim (Option-cases k.claim_owner) [
    | inl f ↦ omega (
      arith,
      owners 0,
      rowcount-narrow (is_owner 0) (owns slot r.db) r.working (λ w m. ground (arith, e, f, m)),
    )
    | inr (o, f) ↦ omega (
      arith,
      owners o,
      rowcount-narrow (is_owner o) (owns slot r.db) r.working (λ w m. ground (arith, e, f, m)),
    )
  ]
]

-- Over any interleaving of the claims, checkpoints, failures and deaths of calls, from none at work,
-- at most one call is sending a chunk under a lease that has not run out; keys are unique, the clock
-- does not run backwards, and claims come under fresh owners.
pub one_sender_at_a_time :
    (now : Time) (moves : List Move) (db : Database) (slot : Slot)
    → IsUnique db
    → IsFair now moves (record { db = db; working = [] })
    → rowcount
        (is_sending (clock_after now moves) slot)
        (run_moves moves (record { db = db; working = [] })).working
      ≤ 1
one_sender_at_a_time now moves db slot unique fair =
    let r = run_moves moves (record { db = db; working = [] }) in
    let (h, owners) =
      run_moves-InOrder now moves (record { db = db; working = [] }) fair (unique, tt)
        (λ o. omega arith) in
    omega (
      arith,
      count_sending (clock_after now moves) slot r.db r.working h.1,
      count_owns slot r owners,
    )
