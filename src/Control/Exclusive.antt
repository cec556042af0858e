-- ===== src/Control/Exclusive.antt =====
-- At most one call of `_send_checkpointed` (src/discode/runner/control_api.py) sends a chunk at a
-- time, and a checkpoint stays.
-- A call holds the lease of its row, or its lease has run out and another call has the row.
use discode.Base.{
  All, Bool, Bool-cases, List, [], any, ap, arith, false, find-update_where, find_sound, inl, inr,
  map_option, refl, some, true, updated, ◌==◌, ◌=?◌, ◌∙◌, ◌∷◌, ◌≡◌, ◌≤◌, ◌⊎◌,
}
use discode.Data.{
  Database, IdempotencyKey, Ident, IsUnique, Slot, Time, get_key, has_slot, slot_eq, slot_eq_refl,
  slot_eq_sound, update_keys,
}
use discode.Control.Chunks.{
  checkpoint, claim_chunk, end_lease, is_claimable, is_owned, lease, release, set_message,
}
use discode.Control.Claims.{IsLeasedTo, claim_chunk_step}
use discode.Control.Leases.{Ending, Replies, Worker, end_claim, is_worker, without}

abbrev pub Standing : Time → Database → Worker → Type 0
Standing now db w =
    (k : IdempotencyKey) × (get_key w.slot db ≡ some k)
    × (IsLeasedTo w.owner w.until k ⊎ ((w.until ≤ now) × ((k.claim_owner =? w.owner) ≡ false)))

-- the state of the calls at a time: one row for a key, and every call stands
abbrev pub InOrder : Time → Replies → Type 0
InOrder now r = IsUnique r.db × All (Standing now r.db) r.working

abbrev pub is_owner : Ident → Worker → Bool
is_owner owner w = w.owner == owner

-- A claim keeps how the calls of other owners stand.
claim-Standing :
    (now later : Time) (owner : Ident) (slot : Slot) (sid : Ident) (db : Database) (w : Worker)
    → now ≤ later
    → (w.owner == owner) ≡ false
    → Standing now db w
    → Standing later (claim_chunk later owner slot sid db).0 w
claim-Standing now later owner slot sid db w le fresh (k, found, stands) =
    (elim (claim_chunk_step later owner slot w.slot sid db k found) [
      | inl same ↦ (k, same, stands_later stands)
      | inr (free, leased) ↦ (lease later owner k, leased, stolen stands free)
    ])
  where
    stands_later :
        IsLeasedTo w.owner w.until k ⊎ ((w.until ≤ now) × ((k.claim_owner =? w.owner) ≡ false))
        → IsLeasedTo w.owner w.until k ⊎ ((w.until ≤ later) × ((k.claim_owner =? w.owner) ≡ false))
    stands_later (inl held) = inl held
    stands_later (inr (out, other)) = inr (omega (arith, le, out), other)

    stolen :
        IsLeasedTo w.owner w.until k ⊎ ((w.until ≤ now) × ((k.claim_owner =? w.owner) ≡ false))
        → is_claimable later slot k ≡ true
        → IsLeasedTo w.owner w.until (lease later owner k)
          ⊎ ((w.until ≤ later) × ((some owner =? w.owner) ≡ false))
    stolen (inl (own, until, pending)) free = inr (ground (arith, own, until, free), ground arith)
    stolen (inr (out, other)) free = inr (omega (arith, le, out), ground arith)

-- An UPDATE of the rows that one call owns keeps how another call stands.
owned-Standing :
    (now : Time) (w v : Worker) (f : IdempotencyKey → IdempotencyKey) (db : Database)
    → ((k : IdempotencyKey) → ((f k).slot ≡ k.slot) × ((f k).claim_owner ≡ k.claim_owner))
    → is_worker w v ≡ false
    → Standing now db v
    → Standing now (update_keys (is_owned w.slot w.owner) f db) v
owned-Standing now w v f db keep apart (k, found, stands) =
    let after : get_key v.slot (update_keys (is_owned w.slot w.owner) f db)
        ≡ some (updated (is_owned w.slot w.owner) f k) =
      find-update_where (has_slot v.slot) (is_owned w.slot w.owner) f
        (λ x e. ap (slot_eq v.slot) (keep x).0) db.idempotency_keys
      ∙ ap (map_option (updated (is_owned w.slot w.owner) f)) found in
    elim (Bool-cases (is_owned w.slot w.owner k)) [
      | inr e ↦ (k, ground (arith, after), stands)
      | inl e ↦ (
        f k,
        ground (arith, after),
        inr (
            foreign stands
              (ground (
                arith,
                slot_eq_sound w.slot k.slot,
                slot_eq_sound v.slot k.slot,
                find_sound (has_slot v.slot) db.idempotency_keys k found,
                slot_eq_refl w.slot,
              ))
              (ground (arith, e))),
      )
    ]
  where
    foreign :
        IsLeasedTo v.owner v.until k ⊎ ((v.until ≤ now) × ((k.claim_owner =? v.owner) ≡ false))
        → (w.owner == v.owner) ≡ false
        → (k.claim_owner =? w.owner) ≡ true
        → (v.until ≤ now) × (((f k).claim_owner =? v.owner) ≡ false)
    foreign (inl (own, until, pending)) differ mine = ground (arith, own)
    foreign (inr (out, other)) differ mine = (out, ground (arith, other, (keep k).1))

-- The end of one call keeps how another stands.
end-Standing :
    (now : Time) (w v : Worker) (ending : Ending) (db : Database)
    → is_worker w v ≡ false
    → Standing now db v
    → Standing now (end_claim w ending db) v
unfolding release checkpoint
end-Standing now w v Ending.died db apart h = h
end-Standing now w v Ending.failed db apart h =
    owned-Standing now w v end_lease db (λ k. (refl, refl)) apart h
end-Standing now w v (Ending.delivered m) db apart h =
    owned-Standing now w v end_lease (checkpoint w.owner w.slot m db) (λ k. (refl, refl)) apart
      (owned-Standing now w v (set_message m) db (λ k. (refl, refl)) apart h)

pub claims-All :
    (now later : Time) (owner : Ident) (slot : Slot) (sid : Ident) (db : Database) (l : List Worker)
    → now ≤ later
    → any (is_owner owner) l ≡ false
    → All (Standing now db) l
    → All (Standing later (claim_chunk later owner slot sid db).0) l
claims-All now later owner slot sid db [] le fresh h = tt
claims-All now later owner slot sid db (w ∷ l) le fresh (h, hs) = (
  claim-Standing now later owner slot sid db w le (ground (arith, fresh)) h,
  claims-All now later owner slot sid db l le (ground (arith, fresh)) hs,
)

pub ends-All :
    (now : Time) (w : Worker) (ending : Ending) (db : Database) (l : List Worker)
    → All (Standing now db) l
    → All (Standing now (end_claim w ending db)) (without w l)
ends-All now w ending db [] h = tt
ends-All now w ending db (v ∷ l) (h, hs) = elim (Bool-cases (is_worker w v)) [
  | inl e ↦ rw e (ends-All now w ending db l hs)
  | inr e ↦ rw e (end-Standing now w v ending db e h, ends-All now w ending db l hs)
]
