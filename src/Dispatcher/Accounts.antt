-- ===== src/Dispatcher/Accounts.antt =====
-- What the gate of src/discode/dispatcher/handlers/terminal_notice.py keeps account of: the keys
-- that are there and finalized, and the side effects that have reached Discord.
use discode.Base.{
  Bool, Bool-cases, List, Option, Option-cases, [], ap, arith, false, find, find-update_where,
  find_sound, if◌then◌else◌, inl, inr, is_set, leb, map_option, none, not, refl, rowcount, some,
  true, unmatched_of_rowcount, update_where, updated, ℕ, ◌&&◌, ◌++◌, ◌+◌, ◌==◌, ◌∙◌, ◌∷◌, ◌≡◌, ◌≤◌,
}
use discode.Data.{
  Database, IdempotencyKey, Ident, Slot, Time, get_key, get_key-append, has_slot, slot_eq,
  slot_eq_refl, slot_eq_sound, type_code,
}
use discode.Dispatcher.Claim.{Attempt, Effect, Outbound, claim_row, is_done, mark_done, seven_days}

abbrev pub is_sent_for : Slot → Effect → Bool
is_sent_for slot e = elim e.sent_for [ none ↦ false | some s ↦ slot_eq slot s ]

-- how many times the side effect of a delivery has reached Discord
abbrev pub sent : Slot → Outbound → ℕ
sent slot w = rowcount (is_sent_for slot) w.discord

abbrev pub lasts : Time → Option Time → Bool
lasts limit none = true
lasts limit (some t) = leb limit t

-- the delivery is finalized, and its key stays at least until `limit`
abbrev pub settled_until : Time → Slot → Database → Bool
settled_until limit slot db = elim (get_key slot db) [
  | none ↦ false
  | some k ↦ is_set k.outcome && lasts limit k.expires_at
]

abbrev pub is_chunk : Slot → Bool
is_chunk slot = type_code slot.envelope_type == 4

-- a claim of the dispatcher that is not finalized
abbrev pub is_open_claim : IdempotencyKey → Bool
is_open_claim k = not (is_set k.outcome) && not (is_chunk k.slot)

abbrev pub count_open : Database → ℕ
count_open db = rowcount is_open_claim db.idempotency_keys

abbrev pub lost_one : Attempt → ℕ
lost_one Attempt.lost = 1
lost_one _ = 0

-- No claim is open, and a side effect reached Discord at most once for each lost attempt, and once
-- more if its delivery is finalized.
abbrev pub Accounted : Time → ℕ → Outbound → Type 0
Accounted limit lost w =
    (count_open w.db ≡ 0)
    × ((slot : Slot)
        → is_chunk slot ≡ false
        → sent slot w ≤ lost + (if settled_until limit slot w.db then 1 else 0))

pub done_of_settled :
    (limit : Time) (slot : Slot) (db : Database)
    → settled_until limit slot db ≡ true
    → is_done slot db ≡ true
done_of_settled limit slot db h = elim (Option-cases (get_key slot db)) [
  | inl e ↦ ground arith
  | inr (k, e) ↦ ground arith
]

-- A key that is there is finalized.
pub done_of_key :
    (slot : Slot) (db : Database) (k : IdempotencyKey)
    → is_chunk slot ≡ false
    → count_open db ≡ 0
    → get_key slot db ≡ some k
    → is_set k.outcome ≡ true
done_of_key slot db k gate none_open e = ground (
  arith,
  unmatched_of_rowcount (has_slot slot) is_open_claim db.idempotency_keys k e none_open,
  slot_eq_sound slot k.slot (find_sound (has_slot slot) db.idempotency_keys k e),
)

-- the keys after a call that goes through
abbrev pub settled_keys : Slot → IdempotencyKey → List IdempotencyKey → List IdempotencyKey
settled_keys slot row keys = update_where (has_slot slot) mark_done (keys ++ row ∷ [])

pub settled_keys_closed :
    (slot : Slot) (row : IdempotencyKey) (keys : List IdempotencyKey)
    → has_slot slot row ≡ true
    → rowcount is_open_claim keys ≡ 0
    → rowcount is_open_claim (settled_keys slot row keys) ≡ 0
settled_keys_closed slot row [] same none_open = ground arith
settled_keys_closed slot row (k ∷ keys) same none_open =
    ground (arith, settled_keys_closed slot row keys)

get_key-settled_keys :
    (slot other : Slot) (row : IdempotencyKey) (db : Database)
    → find (has_slot other) (settled_keys slot row db.idempotency_keys)
      ≡ map_option (updated (has_slot slot) mark_done) (elim (get_key other db) [
        | some k ↦ some k
        | none ↦ if has_slot other row then some row else none
      ])
get_key-settled_keys slot other row db =
    rw
      (
        find-update_where (has_slot other) (has_slot slot) mark_done (λ k e. refl)
            (db.idempotency_keys ++ row ∷ []),
        get_key-append other row db,
      )
      refl

-- A call that goes through settles its delivery, and what was settled stays so.
pub settled_after :
    (limit now : Time) (slot other : Slot) (sid : Ident) (db after : Database)
    → limit ≤ now + seven_days
    → get_key slot db ≡ none
    → after.idempotency_keys ≡ settled_keys slot (claim_row now slot sid) db.idempotency_keys
    → (if slot_eq other slot then 1 else 0) + (if settled_until limit other db then 1 else 0)
      ≤ (if settled_until limit other after then 1 else 0)
settled_after limit now slot other sid db after soon absent e =
    let row = claim_row now slot sid in
    let found : get_key other after
        ≡ map_option (updated (has_slot slot) mark_done) (elim (get_key other db) [
          | some k ↦ some k
          | none ↦ if has_slot other row then some row else none
        ]) =
      ap (find (has_slot other)) e ∙ get_key-settled_keys slot other row db in
    elim (Bool-cases (slot_eq other slot)) [
      | inl same ↦ ground (
        arith,
        absent,
        found,
        slot_eq_sound other slot same,
        slot_eq_refl slot,
        ap (λ s. get_key s db) (slot_eq_sound other slot same),
      )
      | inr apart ↦ elim (Option-cases (get_key other db)) [
        | inl n ↦ ground arith
        | inr (k, f) ↦ ground (arith, found)
      ]
    ]

pub Accounted-weaken :
    (limit : Time) (lost more : ℕ) (w : Outbound)
    → lost ≤ more
    → Accounted limit lost w
    → Accounted limit more w
Accounted-weaken limit lost more w le (none_open, bound) =
    (none_open, λ slot gate. omega (arith, le, bound slot gate))
