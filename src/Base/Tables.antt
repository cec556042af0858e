-- ===== src/Base/Tables.antt =====
-- A database table as a list of rows in primary-key order, with the statements that the program
-- sends: SELECT of the first row, UPDATE, row counts and EXISTS.
use Prim.Native.Nat.{ℕ, ◌+◌, ◌≤◌}
use mathlib.Core.Path.{◌≡◌, refl}
use mathlib.Core.Bool.{Bool, true, false, ◌||◌}
use mathlib.Core.Option.{Option, none, some}
use mathlib.Core.List.{List, [], ◌∷◌, ◌++◌, map}
use native.Mathlib.Omega.{arith}
use discode.Base.Tests.{if◌then◌else◌, ◌==◌}

abbrev pub All {ℓ κ} : {A : Type ℓ} → (A → Type κ) → List A → Type κ
All P [] = Unit
All P (x ∷ xs) = P x × All P xs

module _ {ℓ} {A : Type ℓ} where
  abbrev pub find : (A → Bool) → List A → Option A
  find p [] = none
  find p (x ∷ xs) = if p x then some x else find p xs

  abbrev pub updated : (A → Bool) → (A → A) → A → A
  updated p f x = if p x then f x else x

  -- `UPDATE … SET f WHERE p`
  abbrev pub update_where : (A → Bool) → (A → A) → List A → List A
  update_where p f [] = []
  update_where p f (x ∷ xs) = updated p f x ∷ update_where p f xs

  -- the rows that WHERE selects
  abbrev pub select : (A → Bool) → List A → List A
  select p [] = []
  select p (x ∷ xs) = let rest = select p xs in if p x then x ∷ rest else rest

  -- the number of rows that WHERE selects, `rowcount`
  abbrev pub rowcount : (A → Bool) → List A → ℕ
  rowcount p [] = 0
  rowcount p (x ∷ xs) = (if p x then 1 else 0) + rowcount p xs

  -- EXISTS, and Python's `any`
  abbrev pub any : (A → Bool) → List A → Bool
  any p [] = false
  any p (x ∷ xs) = p x || any p xs

  abbrev pub map_option {κ} : {B : Type κ} → (A → B) → Option A → Option B
  map_option f none = none
  map_option f (some x) = some (f x)

  -- A row found by what the update leaves alone is the updated row.
  pub find-update_where :
      (q p : A → Bool) (f : A → A)
      → ((x : A) → p x ≡ true → q (f x) ≡ q x)
      → (l : List A) → find q (update_where p f l) ≡ map_option (updated p f) (find q l)
  find-update_where q p f keep [] = refl
  find-update_where q p f keep (x ∷ xs) = ground (arith, keep x, find-update_where q p f keep xs)

  pub find-append :
      (q : A → Bool) (l r : List A) (x : A) → find q l ≡ some x → find q (l ++ r) ≡ some x
  find-append q [] r x h = cc
  find-append q (y ∷ l) r x h = ground (arith, find-append q l r x)

  pub find-append_none :
      (q : A → Bool) (l r : List A) → find q l ≡ none → find q (l ++ r) ≡ find q r
  find-append_none q [] r h = refl
  find-append_none q (y ∷ l) r h = ground (arith, find-append_none q l r)

  -- What SELECT returns satisfies its WHERE clause.
  pub find_sound : (q : A → Bool) (l : List A) (x : A) → find q l ≡ some x → q x ≡ true
  find_sound q [] x h = cc
  find_sound q (y ∷ l) x h = ground (arith, find_sound q l x)

  -- A row that SELECT returns makes the same WHERE clause, and any that it implies, match.
  pub rowcount_pos :
      (q p : A → Bool) (l : List A) (x : A)
      → find q l ≡ some x
      → p x ≡ true
      → (rowcount p l == 0) ≡ false
  rowcount_pos q p [] x h e = cc
  rowcount_pos q p (y ∷ l) x h e = ground (arith, rowcount_pos q p l x)

  -- Under a primary key (at most one row for `q`), a row that fails a narrower clause leaves it with
  -- no match.
  pub rowcount_none :
      (q p : A → Bool) (l : List A)
      → ((x : A) → p x ≡ true → q x ≡ true)
      → rowcount q l ≡ 0
      → rowcount p l ≡ 0
  rowcount_none q p [] narrow h = refl
  rowcount_none q p (y ∷ l) narrow h = ground (arith, narrow y, rowcount_none q p l narrow)

  pub rowcount-narrow :
      (q p : A → Bool) (l : List A)
      → ((z : A) → p z ≡ true → q z ≡ true)
      → rowcount p l ≤ rowcount q l
  rowcount-narrow q p [] narrow = ground arith
  rowcount-narrow q p (y ∷ l) narrow = ground (arith, narrow y, rowcount-narrow q p l narrow)

  pub rowcount_unmatched :
      (q p : A → Bool) (l : List A) (x : A)
      → ((z : A) → p z ≡ true → q z ≡ true)
      → find q l ≡ some x
      → p x ≡ false
      → rowcount q l ≤ 1
      → (rowcount p l == 0) ≡ true
  rowcount_unmatched q p [] x narrow h e key = cc
  rowcount_unmatched q p (y ∷ l) x narrow h e key =
      ground (arith, narrow y, rowcount_none q p l narrow, rowcount_unmatched q p l x narrow)

  pub rowcount-update_where :
      (q p : A → Bool) (f : A → A)
      → ((x : A) → p x ≡ true → q (f x) ≡ q x)
      → (l : List A) → rowcount q (update_where p f l) ≡ rowcount q l
  rowcount-update_where q p f keep [] = refl
  rowcount-update_where q p f keep (x ∷ xs) =
      ground (arith, keep x, rowcount-update_where q p f keep xs)

  pub any_of_find : (q : A → Bool) (l : List A) (x : A) → find q l ≡ some x → any q l ≡ true
  any_of_find q [] x h = cc
  any_of_find q (y ∷ l) x h = ground (arith, any_of_find q l x)

  pub rowcount_of_find : (q : A → Bool) (l : List A) (x : A) → find q l ≡ some x → 1 ≤ rowcount q l
  rowcount_of_find q [] x h = cc
  rowcount_of_find q (y ∷ l) x h = ground (arith, rowcount_of_find q l x)

  -- An UPDATE that matches no row.
  pub update_where_none :
      (p : A → Bool) (f : A → A) (l : List A) → (rowcount p l == 0) ≡ true → update_where p f l ≡ l
  update_where_none p f [] h = refl
  update_where_none p f (x ∷ l) h = ground (arith, update_where_none p f l)

  pub rowcount-append :
      (q : A → Bool) (l r : List A) → rowcount q (l ++ r) ≡ rowcount q l + rowcount q r
  rowcount-append q [] r = omega arith
  rowcount-append q (x ∷ l) r = ground (arith, rowcount-append q l r)

  -- A row that SELECT returns fails a clause that no row satisfies.
  pub unmatched_of_rowcount :
      (q p : A → Bool) (l : List A) (x : A) → find q l ≡ some x → rowcount p l ≡ 0 → p x ≡ false
  unmatched_of_rowcount q p [] x h none_left = cc
  unmatched_of_rowcount q p (y ∷ l) x h none_left = ground (arith, unmatched_of_rowcount q p l x)

  pub any_of_find-none : (q : A → Bool) (l : List A) → find q l ≡ none → any q l ≡ false
  any_of_find-none q [] h = refl
  any_of_find-none q (y ∷ l) h = ground (arith, any_of_find-none q l)

  pub rowcount_of_any : (q : A → Bool) (l : List A) → any q l ≡ false → rowcount q l ≡ 0
  rowcount_of_any q [] h = refl
  rowcount_of_any q (y ∷ l) h = ground (arith, rowcount_of_any q l)

  -- rows that an UPDATE may only take out of a clause
  pub rowcount-update_where_le :
      (q p : A → Bool) (f : A → A)
      → ((x : A) → p x ≡ true → q (f x) ≡ true → q x ≡ true)
      → (l : List A) → rowcount q (update_where p f l) ≤ rowcount q l
  rowcount-update_where_le q p f less [] = ground arith
  rowcount-update_where_le q p f less (x ∷ l) =
      ground (arith, less x, rowcount-update_where_le q p f less l)

  pub rowcount-select : (q p : A → Bool) (l : List A) → rowcount q (select p l) ≤ rowcount q l
  rowcount-select q p [] = ground arith
  rowcount-select q p (x ∷ l) = ground (arith, rowcount-select q p l)

  -- a row found that WHERE selects is found among the selected
  pub find-select :
      (q p : A → Bool) (l : List A) (x : A)
      → find q l ≡ some x
      → p x ≡ true
      → find q (select p l) ≡ some x
  find-select q p [] x h k = cc
  find-select q p (y ∷ l) x h k = ground (arith, find-select q p l x)

pub All-imp {ℓ κ μ} :
    {A : Type ℓ} {P : A → Type κ} {Q : A → Type μ} (f : (x : A) → P x → Q x) (l : List A)
    → All P l
    → All Q l
All-imp f [] h = tt
All-imp f (x ∷ xs) (h, hs) = (f x h, All-imp f xs hs)

pub All-map {ℓ κ μ ν} :
    {A : Type ℓ} {B : Type ν} {P : A → Type κ} (Q : B → Type μ) (g : A → B)
    (f : (x : A) → P x → Q (g x)) (l : List A)
    → All P l
    → All Q (map g l)
All-map Q g f [] h = tt
All-map Q g f (x ∷ xs) (h, hs) = (f x h, All-map Q g f xs hs)
