-- ===== src/Dispatcher/Plain.antt =====
-- The messages of a text without code fences, put together again.
use mathlib.Core.List.{append-nil}
use discode.Base.{
  Bool, Bool-cases, List, Option, [], ap, arith, drop, false, if◌then◌else◌, inl, inr, length,
  length-drop, ltb, map_option, none, not, refl, some, suc, take, take-append-drop, true, zero, ℕ,
  ◌&&◌, ◌++◌, ◌<◌, ◌==◌, ◌∙◌, ◌∷◌, ◌≡◌,
}
use discode.Data.{Text}
use discode.Text.{codes, is_empty, starts_with}
use discode.Dispatcher.Message.{
  add_chunk, build, build_message, cut, cut_by, fence_tag, lines, max_discord_message_len,
  open_fence, open_fence_from, plain_cut, push_char, skip_blanks, split_point,
}
use discode.Dispatcher.Chunks.{split_point_lem}

-- no backtick
abbrev pub is_plain : Text → Bool
is_plain [] = true
is_plain (c ∷ s) = not (c == 96) && is_plain s

abbrev are_plain : List Text → Bool
are_plain [] = true
are_plain (l ∷ ls) = is_plain l && are_plain ls

abbrev pub concat : List Text → Text
concat [] = []
concat (chunk ∷ chunks) = chunk ++ concat chunks

take-is_plain : (n : ℕ) (s : Text) → is_plain s ≡ true → is_plain (take n s) ≡ true
take-is_plain zero s h = refl
take-is_plain (suc n) [] h = refl
take-is_plain (suc n) (c ∷ s) h = ground (arith, take-is_plain n s)

drop-is_plain : (n : ℕ) (s : Text) → is_plain s ≡ true → is_plain (drop n s) ≡ true
drop-is_plain zero s h = h
drop-is_plain (suc n) [] h = refl
drop-is_plain (suc n) (c ∷ s) h = ground (arith, drop-is_plain n s)

push_char-are_plain :
    (c : ℕ) (ls : List Text)
    → (c == 96) ≡ false
    → are_plain ls ≡ true
    → are_plain (push_char c ls) ≡ true
push_char-are_plain c [] n h = ground arith
push_char-are_plain c (l ∷ ls) n h = ground arith

lines-are_plain : (s : Text) → is_plain s ≡ true → are_plain (lines s) ≡ true
lines-are_plain [] h = refl
lines-are_plain (c ∷ s) h = ground (arith, lines-are_plain s, push_char-are_plain c (lines s))

skip_blanks-is_plain : (s : Text) → is_plain s ≡ true → is_plain (skip_blanks s) ≡ true
skip_blanks-is_plain [] h = refl
skip_blanks-is_plain (c ∷ s) h = ground (arith, skip_blanks-is_plain s)

no_fence : (s : Text) → is_plain s ≡ true → starts_with s (codes "```") ≡ false
unfolding starts_with
no_fence [] h = refl
no_fence (c ∷ s) h = ground arith

fence_tag_plain :
    (is_word : ℕ → Bool) (line : Text) → is_plain line ≡ true → fence_tag is_word line ≡ none
unfolding fence_tag
fence_tag_plain is_word line h = rw (no_fence (skip_blanks line) (skip_blanks-is_plain line h)) refl

open_fence_plain :
    (is_word : ℕ → Bool) (ls : List Text)
    → are_plain ls ≡ true
    → open_fence_from is_word none ls ≡ none
unfolding open_fence_from
open_fence_plain is_word [] h = refl
open_fence_plain is_word (l ∷ ls) h =
    ground (arith, fence_tag_plain is_word l, open_fence_plain is_word ls)

cut_plain :
    (is_word : ℕ → Bool) (content : Text)
    → is_plain content ≡ true
    → cut is_word content 0 ≡ plain_cut content (split_point content max_discord_message_len 0)
unfolding cut open_fence
cut_plain is_word content h =
    ap (λ f. cut_by is_word f content 0)
      (open_fence_plain is_word
        (lines (take (split_point content max_discord_message_len 0) content))
        (lines-are_plain (take (split_point content max_discord_message_len 0) content)
          (take-is_plain (split_point content max_discord_message_len 0) content h)))

add_chunk-concat :
    (chunk rest : Text) (chunks : Option (List Text))
    → map_option concat chunks ≡ some rest
    → map_option concat (add_chunk chunk chunks) ≡ some (chunk ++ rest)
add_chunk-concat chunk rest none h = cc
add_chunk-concat chunk rest (some chunks) h = ground arith

last_chunk : (s : Text) → some (concat (if is_empty s then [] else s ∷ [])) ≡ some s
last_chunk [] = refl
last_chunk (c ∷ s) = ap some (append-nil (c ∷ s))

build_plain :
    (is_word : ℕ → Bool) (fuel : ℕ) (content : Text)
    → is_plain content ≡ true
    → length content < fuel
    → map_option concat (build is_word fuel content 0) ≡ some content
unfolding build
build_plain is_word zero content h enough = ground arith
build_plain is_word (suc fuel) content h enough =
    elim (Bool-cases (ltb max_discord_message_len (length content))) [
      | inl y ↦
          let at = split_point content max_discord_message_len 0 in
          let long : 2000 < length content = ground arith in
          let (below, past, ends) = split_point_lem content 2000 0 (omega arith) (ground arith) in
          let less : length (drop at content) < fuel =
            omega (arith, length-drop at content, past, enough, below, long) in
          rw (build, y, cut_plain is_word content h)
            (add_chunk-concat (take at content) (drop at content)
                (build is_word fuel (drop at content) 0)
                (build_plain is_word fuel (drop at content) (drop-is_plain at content h) less)
              ∙ ap some (take-append-drop at content))
      | inr n ↦ rw (build, n) (last_chunk content)
    ]

-- The messages of a text without backticks, one after the other, are the text: nothing is lost,
-- added or reordered by the splitting.
pub build_message_plain :
    (is_word : ℕ → Bool) (content : Text)
    → is_plain content ≡ true
    → map_option concat (build_message is_word content) ≡ some content
unfolding build_message
build_message_plain is_word content h =
    build_plain is_word (suc (length content)) content h (omega arith)
