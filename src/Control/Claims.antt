-- ===== src/Control/Claims.antt =====
-- What the transactions of `_send_checkpointed` (src/discode/runner/control_api.py) do to the row of
-- a key.
use discode.Base.{
  Bool-cases, Option, Option-cases, arith, find-update_where, inl, inr, none, refl, rowcount,
  rowcount-update_where, rowcount_unmatched, some, true, ◌+◌, ◌==◌, ◌≡◌, ◌≢◌, ◌⊎◌,
}
use discode.Data.{
  Database, IdempotencyKey, Ident, IsUnique, Slot, Time, get_key, get_key-insert_key, has_slot,
  insert_key, insert_key-IsUnique, slot_eq_refl,
}
use discode.Control.Chunks.{
  Claim, claim_by_outcome, claim_chunk, claim_pending, get_outcome, is_claimable,
  is_pending_outcome, lease, pending_row, settled_message, ten_minutes,
}

-- the rows after a claim: a row is as it was, or it was free and is leased
abbrev pub IsClaimStep : Time → Ident → Slot → IdempotencyKey → Option IdempotencyKey → Type 0
IsClaimStep now owner slot k after =
    (after ≡ some k) ⊎ ((is_claimable now slot k ≡ true) × (after ≡ some (lease now owner k)))

claim_pending_step :
    (now : Time) (owner : Ident) (slot other : Slot) (db : Database) (k : IdempotencyKey)
    → get_key other db ≡ some k
    → IsClaimStep now owner slot k (get_key other (claim_pending now owner slot db).0)
claim_pending_step now owner slot other db k e =
    elim (Bool-cases (rowcount (is_claimable now slot) db.idempotency_keys == 0)) [
      | inl z ↦ rw z (inl e)
      | inr z ↦
          rw
            (
              z,
              find-update_where (has_slot other) (is_claimable now slot) (lease now owner)
                  (λ x c. refl) db.idempotency_keys,
              e,
            )
            (elim (Bool-cases (is_claimable now slot k)) [
              | inl c ↦ rw c (inr (refl, refl))
              | inr c ↦ rw c (inl refl)
            ])
    ]

claim_by_outcome_step :
    (now : Time) (owner : Ident) (slot other : Slot) (o : Option Ident) (db : Database)
    (k : IdempotencyKey)
    → get_key other db ≡ some k
    → IsClaimStep now owner slot k (get_key other (claim_by_outcome now owner slot o db).0)
claim_by_outcome_step now owner slot other (some m) db k e = inl e
claim_by_outcome_step now owner slot other none db k e =
    claim_pending_step now owner slot other db k e

pub claim_chunk_step :
    (now : Time) (owner : Ident) (slot other : Slot) (sid : Ident) (db : Database)
    (k : IdempotencyKey)
    → get_key other db ≡ some k
    → IsClaimStep now owner slot k (get_key other (claim_chunk now owner slot sid db).0)
unfolding claim_chunk
claim_chunk_step now owner slot other sid db k e =
    let inserted = insert_key (pending_row slot sid) db in
    claim_by_outcome_step now owner slot other (settled_message (get_outcome slot inserted))
      inserted k (ground (arith, e, get_key-insert_key other (pending_row slot sid) db))

-- the row of a claim that got the lease
abbrev pub IsLeasedTo : Ident → Time → IdempotencyKey → Type 0
IsLeasedTo owner until k =
    (k.claim_owner ≡ some owner)
    × (k.claim_expires_at ≡ some until)
    × (is_pending_outcome k.outcome ≡ true)

abbrev IsLeasing : Time → Ident → Slot → Database × Claim → Type 0
IsLeasing now owner slot (db, claim) =
    claim ≡ Claim.claimed
    → (k : IdempotencyKey) × (get_key slot db ≡ some k) × IsLeasedTo owner (now + ten_minutes) k

claim_pending_leases :
    (now : Time) (owner : Ident) (slot : Slot) (db : Database) (k : IdempotencyKey)
    → IsUnique db
    → get_key slot db ≡ some k
    → IsLeasing now owner slot (claim_pending now owner slot db)
claim_pending_leases now owner slot db k unique e =
    elim (Bool-cases (rowcount (is_claimable now slot) db.idempotency_keys == 0)) [
      | inl z ↦ rw z (λ c. cc)
      | inr z ↦ elim (Bool-cases (is_claimable now slot k)) [
        | inr not_free ↦ cc (
          z,
          rowcount_unmatched (has_slot slot) (is_claimable now slot) db.idempotency_keys k
              (λ x c. ground arith) e not_free (unique slot),
        )
        | inl free ↦ rw z (λ c. (
          lease now owner k,
          ground (
            arith,
            find-update_where (has_slot slot) (is_claimable now slot) (lease now owner)
                (λ x d. refl) db.idempotency_keys,
          ),
          (refl, refl, ground (arith, free)),
        ))
      ]
    ]

claim_by_outcome_leases :
    (now : Time) (owner : Ident) (slot : Slot) (o : Option Ident) (db : Database)
    (k : IdempotencyKey)
    → IsUnique db
    → get_key slot db ≡ some k
    → IsLeasing now owner slot (claim_by_outcome now owner slot o db)
claim_by_outcome_leases now owner slot (some m) db k unique e = λ c. cc
claim_by_outcome_leases now owner slot none db k unique e =
    claim_pending_leases now owner slot db k unique e

inserted_there :
    (slot : Slot) (row : IdempotencyKey) (db : Database)
    → has_slot slot row ≡ true
    → get_key slot (insert_key row db) ≢ none
inserted_there slot row db same e = elim (Option-cases (get_key slot db)) [
  | inl f ↦ ground (arith, get_key-insert_key slot row db)
  | inr (k, f) ↦ ground (arith, get_key-insert_key slot row db)
]

-- A claim that succeeds has the lease of its key.
pub claim_chunk_leases :
    (now : Time) (owner : Ident) (slot : Slot) (sid : Ident) (db : Database)
    → IsUnique db
    → (claim_chunk now owner slot sid db).1 ≡ Claim.claimed
    → (k : IdempotencyKey) × (get_key slot (claim_chunk now owner slot sid db).0 ≡ some k)
      × IsLeasedTo owner (now + ten_minutes) k
unfolding claim_chunk
claim_chunk_leases now owner slot sid db unique =
    let row = pending_row slot sid in
    let inserted = insert_key row db in
    let one = insert_key-IsUnique row db unique in
    elim (Option-cases (get_key slot inserted)) [
      | inr (k, e) ↦
          claim_by_outcome_leases now owner slot (settled_message (get_outcome slot inserted))
            inserted k one e
      | inl e ↦ absurd (inserted_there slot row db (slot_eq_refl slot) e)
    ]

claim_pending-IsUnique :
    (now : Time) (owner : Ident) (slot : Slot) (db : Database)
    → IsUnique db
    → IsUnique (claim_pending now owner slot db).0
claim_pending-IsUnique now owner slot db unique other =
    elim (Bool-cases (rowcount (is_claimable now slot) db.idempotency_keys == 0)) [
      | inl z ↦ rw z (unique other)
      | inr z ↦
          rw
            (
              z,
              rowcount-update_where (has_slot other) (is_claimable now slot) (lease now owner)
                  (λ x d. refl) db.idempotency_keys,
            )
            (unique other)
    ]

claim_by_outcome-IsUnique :
    (now : Time) (owner : Ident) (slot : Slot) (o : Option Ident) (db : Database)
    → IsUnique db
    → IsUnique (claim_by_outcome now owner slot o db).0
claim_by_outcome-IsUnique now owner slot (some m) db unique = unique
claim_by_outcome-IsUnique now owner slot none db unique =
    claim_pending-IsUnique now owner slot db unique

pub claim_chunk-IsUnique :
    (now : Time) (owner : Ident) (slot : Slot) (sid : Ident) (db : Database)
    → IsUnique db
    → IsUnique (claim_chunk now owner slot sid db).0
unfolding claim_chunk
claim_chunk-IsUnique now owner slot sid db unique =
    let row = pending_row slot sid in
    let inserted = insert_key row db in
    claim_by_outcome-IsUnique now owner slot (settled_message (get_outcome slot inserted)) inserted
      (insert_key-IsUnique row db unique)
