-- ===== src/Base/Upserts.antt =====
-- INSERT ... ON CONFLICT DO UPDATE and DELETE on a table with a unique key, and what they do to the
-- row of each key.
use mathlib.Core.Path.{◌≡◌, refl}
use mathlib.Core.Logic.{inl, inr}
use mathlib.Core.Bool.{Bool, true, false, not, ◌||◌}
use mathlib.Core.Option.{Option, none, some}
use mathlib.Core.List.{List, [], ◌∷◌, ◌++◌}
use native.Mathlib.Omega.{arith}
use discode.Base.Tests.{Bool-cases, Option-cases, if◌then◌else◌}
use discode.Base.Tables.{
  All, any, any_of_find, any_of_find-none, find, find-append, find-append_none, find-update_where,
  find_sound, select, update_where,
}

module _ {ℓ} {A : Type ℓ} where
  -- `INSERT row ON CONFLICT (key) DO UPDATE SET f`, where `p` says which rows have the key
  abbrev pub upsert : (A → Bool) → A → (A → A) → List A → List A
  upsert p row f l = if any p l then update_where p f l else l ++ row ∷ []

  -- `INSERT row ON CONFLICT DO NOTHING`
  abbrev pub insert_new : (A → Bool) → A → List A → List A
  insert_new p row l = if any p l then l else l ++ row ∷ []

  -- `DELETE WHERE p`
  abbrev pub delete_where : (A → Bool) → List A → List A
  delete_where p l = select (λ x. not (p x)) l

  -- the row that an upsert leaves under its key
  abbrev pub upserted : A → (A → A) → Option A → A
  upserted row f none = row
  upserted row f (some x) = f x

  pub find-upsert :
      (p : A → Bool) (row : A) (f : A → A) (l : List A)
      → p row ≡ true
      → ((x : A) → p x ≡ true → p (f x) ≡ p x)
      → find p (upsert p row f l) ≡ some (upserted row f (find p l))
  find-upsert p row f l own keep = elim (Option-cases (find p l)) [
    | inl e ↦ ground (arith, any_of_find-none p l e, find-append_none p l (row ∷ []) e)
    | inr (x, e) ↦
        ground (arith, any_of_find p l x e, find-update_where p p f keep l, find_sound p l x e)
  ]

  -- An upsert leaves the rows of other keys.
  pub find-upsert_other :
      (p q : A → Bool) (row : A) (f : A → A) (l : List A)
      → q row ≡ false
      → ((x : A) → p x ≡ true → q (f x) ≡ q x)
      → ((x : A) → p x ≡ true → q x ≡ false)
      → find q (upsert p row f l) ≡ find q l
  find-upsert_other p q row f l other keep apart = elim (Option-cases (find q l)) [
    | inl e ↦ ground (arith, find-append_none q l (row ∷ []) e, find-update_where q p f keep l)
    | inr (x, e) ↦ ground (
      arith,
      find-append q l (row ∷ []) x e,
      find-update_where q p f keep l,
      apart x,
      find_sound q l x e,
    )
  ]

  any-append : (p : A → Bool) (l r : List A) → any p (l ++ r) ≡ any p l || any p r
  any-append p [] r = refl
  any-append p (x ∷ l) r = ground (arith, any-append p l r)

  pub any-insert_new :
      (p : A → Bool) (row : A) (l : List A) → p row ≡ true → any p (insert_new p row l) ≡ true
  any-insert_new p row l own = elim (Bool-cases (any p l)) [
    | inl e ↦ ground arith
    | inr e ↦ ground (arith, any-append p l (row ∷ []))
  ]

  pub find-delete_where : (p : A → Bool) (l : List A) → find p (delete_where p l) ≡ none
  find-delete_where p [] = refl
  find-delete_where p (x ∷ l) = ground (arith, find-delete_where p l)

  pub find-delete_where_other :
      (p q : A → Bool) (l : List A)
      → ((x : A) → p x ≡ true → q x ≡ false)
      → find q (delete_where p l) ≡ find q l
  find-delete_where_other p q [] apart = refl
  find-delete_where_other p q (x ∷ l) apart =
      ground (arith, apart x, find-delete_where_other p q l apart)

pub All-append {ℓ κ} :
    {A : Type ℓ} (P : A → Type κ) (l r : List A) → All P l → All P r → All P (l ++ r)
All-append P [] r h k = k
All-append P (x ∷ l) r (h, hs) k = (h, All-append P l r hs k)

All-update_where {ℓ κ} :
    {A : Type ℓ} (P : A → Type κ) (p : A → Bool) (f : A → A) (l : List A)
    → ((x : A) → p x ≡ true → P x → P (f x))
    → All P l
    → All P (update_where p f l)
All-update_where P p f [] keep h = tt
All-update_where P p f (x ∷ l) keep (h, hs) = elim (Bool-cases (p x)) [
  | inl e ↦ rw e (keep x e h, All-update_where P p f l keep hs)
  | inr e ↦ rw e (h, All-update_where P p f l keep hs)
]

pub All-upsert {ℓ κ} :
    {A : Type ℓ} (P : A → Type κ) (p : A → Bool) (row : A) (f : A → A) (l : List A)
    → P row
    → ((x : A) → p x ≡ true → P x → P (f x))
    → All P l
    → All P (upsert p row f l)
All-upsert P p row f l own keep h = elim (Bool-cases (any p l)) [
  | inl e ↦ rw e (All-update_where P p f l keep h)
  | inr e ↦ rw e (All-append P l (row ∷ []) h (own, tt))
]

pub All-delete_where {ℓ κ} :
    {A : Type ℓ} (P : A → Type κ) (p : A → Bool) (l : List A) → All P l → All P (delete_where p l)
All-delete_where P p [] h = tt
All-delete_where P p (x ∷ l) (h, hs) = elim (Bool-cases (p x)) [
  | inl e ↦ rw e (All-delete_where P p l hs)
  | inr e ↦ rw e (h, All-delete_where P p l hs)
]
