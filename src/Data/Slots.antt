-- ===== src/Data/Slots.antt =====
-- The primary key of `idempotency_keys` (src/discode/db/models/idempotency.py): the test of two keys
-- for equality, and the row of a key.
use discode.Base.{
  Bool, Bool-cases, Option, Option-cases, [], any, any_of_find-none, ap, arith, false, find,
  find-append, find-append_none, if◌then◌else◌, inl, inr, none, refl, rowcount, rowcount-append,
  rowcount_of_any, some, sym, true, update_where, ℕ, ◌&&◌, ◌++◌, ◌==◌, ◌∙◌, ◌∷◌, ◌≡◌, ◌≤◌,
}
use discode.Data.Rows.{EnvelopeType, IdempotencyKey, KeyText, Slot}
use discode.Data.Statements.{Database}

abbrev pub type_code : EnvelopeType → ℕ
type_code EnvelopeType.system_notice = 0
type_code EnvelopeType.notice_post = 1
type_code EnvelopeType.notice_archive = 2
type_code EnvelopeType.archive_thread = 3
type_code EnvelopeType.reply_chunk = 4

abbrev pub key_eq : KeyText → KeyText → Bool
key_eq (KeyText.plain k) (KeyText.plain j) = k == j
key_eq (KeyText.post k) (KeyText.post j) = k == j
key_eq (KeyText.archive k) (KeyText.archive j) = k == j
key_eq (KeyText.chunk s k n) (KeyText.chunk r j m) = s == r && k == j && n == m
key_eq _ _ = false

unfoldable pub slot_eq : Slot → Slot → Bool
slot_eq a b = type_code a.envelope_type == type_code b.envelope_type && key_eq a.key b.key

key_eq_refl : (k : KeyText) → key_eq k k ≡ true
key_eq_refl (KeyText.plain k) = ground arith
key_eq_refl (KeyText.post k) = ground arith
key_eq_refl (KeyText.archive k) = ground arith
key_eq_refl (KeyText.chunk s k n) = ground arith

key_eq_sound : (k j : KeyText) → key_eq k j ≡ true → k ≡ j
key_eq_sound (KeyText.plain k) (KeyText.plain j) h = ground arith
key_eq_sound (KeyText.post k) (KeyText.post j) h = ground arith
key_eq_sound (KeyText.archive k) (KeyText.archive j) h = ground arith
key_eq_sound (KeyText.chunk s k n) (KeyText.chunk r j m) h = ground arith
key_eq_sound (KeyText.plain k) (KeyText.post j) h = cc
key_eq_sound (KeyText.plain k) (KeyText.archive j) h = cc
key_eq_sound (KeyText.plain k) (KeyText.chunk r j m) h = cc
key_eq_sound (KeyText.post k) (KeyText.plain j) h = cc
key_eq_sound (KeyText.post k) (KeyText.archive j) h = cc
key_eq_sound (KeyText.post k) (KeyText.chunk r j m) h = cc
key_eq_sound (KeyText.archive k) (KeyText.plain j) h = cc
key_eq_sound (KeyText.archive k) (KeyText.post j) h = cc
key_eq_sound (KeyText.archive k) (KeyText.chunk r j m) h = cc
key_eq_sound (KeyText.chunk s k n) (KeyText.plain j) h = cc
key_eq_sound (KeyText.chunk s k n) (KeyText.post j) h = cc
key_eq_sound (KeyText.chunk s k n) (KeyText.archive j) h = cc

abbrev type_of : ℕ → EnvelopeType
type_of n =
    if n == 0
    then EnvelopeType.system_notice
    else if n == 1
    then EnvelopeType.notice_post
    else if n == 2
    then EnvelopeType.notice_archive
    else if n == 3
    then EnvelopeType.archive_thread
    else EnvelopeType.reply_chunk

type_of-type_code : (a : EnvelopeType) → type_of (type_code a) ≡ a
type_of-type_code EnvelopeType.system_notice = refl
type_of-type_code EnvelopeType.notice_post = refl
type_of-type_code EnvelopeType.notice_archive = refl
type_of-type_code EnvelopeType.archive_thread = refl
type_of-type_code EnvelopeType.reply_chunk = refl

type_code_injective : (a b : EnvelopeType) → type_code a ≡ type_code b → a ≡ b
type_code_injective a b h = sym (type_of-type_code a) ∙ ap type_of h ∙ type_of-type_code b

pub slot_eq_refl : (s : Slot) → slot_eq s s ≡ true
unfolding slot_eq
slot_eq_refl s = ground (arith, key_eq_refl s.key)

slot_path : (s t : Slot) → s.envelope_type ≡ t.envelope_type → s.key ≡ t.key → s ≡ t
slot_path s t h k = cc

pub slot_eq_sound : (s t : Slot) → slot_eq s t ≡ true → s ≡ t
unfolding slot_eq
slot_eq_sound s t h =
    slot_path s t (type_code_injective s.envelope_type t.envelope_type (ground arith))
      (key_eq_sound s.key t.key (ground arith))

abbrev pub has_slot : Slot → IdempotencyKey → Bool
has_slot s k = slot_eq s k.slot

abbrev pub get_key : Slot → Database → Option IdempotencyKey
get_key s db = find (has_slot s) db.idempotency_keys

abbrev pub update_keys :
    (IdempotencyKey → Bool) → (IdempotencyKey → IdempotencyKey) → Database → Database
update_keys p f db = record db { idempotency_keys = update_where p f db.idempotency_keys }

-- `INSERT ... ON CONFLICT DO NOTHING`
abbrev pub insert_key : IdempotencyKey → Database → Database
insert_key k db =
    if any (has_slot k.slot) db.idempotency_keys
    then db
    else record db { idempotency_keys = db.idempotency_keys ++ k ∷ [] }

pub get_key-append :
    (slot : Slot) (row : IdempotencyKey) (db : Database)
    → find (has_slot slot) (db.idempotency_keys ++ row ∷ []) ≡ elim (get_key slot db) [
      | some k ↦ some k
      | none ↦ if has_slot slot row then some row else none
    ]
get_key-append slot row db = elim (Option-cases (get_key slot db)) [
  | inl e ↦ ground (arith, find-append_none (has_slot slot) db.idempotency_keys (row ∷ []) e)
  | inr (k, e) ↦ ground (arith, find-append (has_slot slot) db.idempotency_keys (row ∷ []) k e)
]

-- The row of a key after INSERT ... ON CONFLICT DO NOTHING.
pub get_key-insert_key :
    (slot : Slot) (row : IdempotencyKey) (db : Database)
    → get_key slot (insert_key row db) ≡ elim (get_key slot db) [
      | some k ↦ some k
      | none ↦ if has_slot slot row then some row else none
    ]
get_key-insert_key slot row db = elim (Bool-cases (any (has_slot row.slot) db.idempotency_keys)) [
  | inr e ↦ ground (arith, get_key-append slot row db)
  | inl e ↦ elim (Option-cases (get_key slot db)) [
    | inr (k, f) ↦ ground arith
    | inl f ↦ elim (Bool-cases (has_slot slot row)) [
      | inr apart ↦ ground arith
      | inl same ↦ ground (
        arith,
        any_of_find-none (has_slot slot) db.idempotency_keys f,
        slot_eq_sound slot row.slot same,
        ap (λ s. any (has_slot s) db.idempotency_keys) (slot_eq_sound slot row.slot same),
      )
    ]
  ]
]

-- the primary key
abbrev pub IsUnique : Database → Type 0
IsUnique db = (slot : Slot) → rowcount (has_slot slot) db.idempotency_keys ≤ 1

pub insert_key-IsUnique :
    (row : IdempotencyKey) (db : Database) → IsUnique db → IsUnique (insert_key row db)
insert_key-IsUnique row db unique slot =
    elim (Bool-cases (any (has_slot row.slot) db.idempotency_keys)) [
      | inl e ↦ ground (arith, unique slot)
      | inr e ↦ elim (Bool-cases (slot_eq slot row.slot)) [
        | inr apart ↦
            ground
              (arith, unique slot, rowcount-append (has_slot slot) db.idempotency_keys (row ∷ []))
        | inl same ↦ ground (
          arith,
          rowcount-append (has_slot slot) db.idempotency_keys (row ∷ []),
          rowcount_of_any (has_slot row.slot) db.idempotency_keys e,
          ap (λ s. rowcount (has_slot s) db.idempotency_keys) (slot_eq_sound slot row.slot same),
        )
      ]
    ]
