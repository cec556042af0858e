-- ===== src/Dispatcher/Message.antt =====
-- src/discode/dispatcher/message_builder.py: `build_message`. The class `\w` of the regular
-- expression is that of Unicode: which code points it has is a parameter.
use discode.Base.{
  Bool, List, Option, [], drop, false, if◌then◌else◌, length, ltb, none, some, suc, take, zero, ℕ,
  ◌++◌, ◌-◌, ◌==◌, ◌||◌, ◌∷◌,
}
use discode.Data.{Text}
use discode.Text.{codes, is_empty, starts_with}

abbrev pub max_discord_message_len : ℕ
max_discord_message_len = 2000

abbrev pub newline : ℕ
newline = 10

abbrev pub close_fence : Text
close_fence = newline ∷ codes "```"

-- the leading `[ \t]*`
abbrev pub skip_blanks : Text → Text
skip_blanks [] = []
skip_blanks (c ∷ s) = let rest = skip_blanks s in if c == 32 || c == 9 then rest else c ∷ s

-- the longest run of tag characters
abbrev pub tag_run : (ℕ → Bool) → Text → Text
tag_run is_tag [] = []
tag_run is_tag (c ∷ s) = let rest = tag_run is_tag s in if is_tag c then c ∷ rest else []

-- `[\w+#.-]`
abbrev pub is_tag_char : (ℕ → Bool) → ℕ → Bool
is_tag_char is_word c = is_word c || c == b'+' || c == b'#' || c == b'.' || c == b'-'

-- the match of `_FENCE_LINE` on one line: the first 20 characters of its tag
unfoldable pub fence_tag : (ℕ → Bool) → Text → Option Text
unfolding starts_with
fence_tag is_word line =
    let rest = skip_blanks line in
    if starts_with rest (codes "```")
    then some (take 20 (tag_run (is_tag_char is_word) (drop 3 rest)))
    else none

abbrev pub push_char : ℕ → List Text → List Text
push_char c [] = (c ∷ []) ∷ []
push_char c (line ∷ lines) = (c ∷ line) ∷ lines

-- the lines, as MULTILINE sees them
abbrev pub lines : Text → List Text
lines [] = [] ∷ []
lines (c ∷ s) = let rest = lines s in if c == newline then [] ∷ rest else push_char c rest

-- a bare fence closes an open block; anything else opens one
abbrev pub next_opener : Option Text → Option Text → Option Text
next_opener opener none = opener
next_opener none (some tag) = some (codes "```" ++ tag)
next_opener (some fence) (some tag) = none

unfoldable pub open_fence_from : (ℕ → Bool) → Option Text → List Text → Option Text
unfolding fence_tag
open_fence_from is_word opener [] = opener
open_fence_from is_word opener (line ∷ rest) =
    open_fence_from is_word (next_opener opener (fence_tag is_word line)) rest

unfoldable pub open_fence : (ℕ → Bool) → Text → Option Text
unfolding open_fence_from
open_fence is_word text = open_fence_from is_word none (lines text)

-- `content.rfind("\n", 0, limit)`
unfoldable pub rfind_newline : Text → ℕ → Option ℕ
rfind_newline [] limit = none
rfind_newline (c ∷ s) zero = none
rfind_newline (c ∷ s) (suc limit) =
    let rest = rfind_newline s limit in
    elim rest [ some i ↦ some (suc i) | none ↦ if c == newline then some 0 else none ]

abbrev pub split_point : Text → ℕ → ℕ → ℕ
split_point content limit floor = elim (rfind_newline content limit) [
  | none ↦ limit
  | some i ↦ if ltb floor i then i else limit
]

abbrev pub starts_newline : Text → Bool
starts_newline [] = false
starts_newline (c ∷ s) = c == newline

abbrev pub reopen : Text → Text
reopen s = if starts_newline s then s else newline ∷ s

-- one round of the loop: the chunk, the content that is left, and the length of its fence line
abbrev pub plain_cut : Text → ℕ → Text × (Text × ℕ)
plain_cut content at = (take at content, (drop at content, 0))

abbrev pub fenced_cut : Option Text → Text → ℕ → Text × (Text × ℕ)
fenced_cut none content at = plain_cut content at
fenced_cut (some fence) content at =
    (take at content ++ close_fence, (fence ++ reopen (drop at content), length fence))

abbrev pub cut_by : (ℕ → Bool) → Option Text → Text → ℕ → Text × (Text × ℕ)
cut_by is_word none content reopened =
    plain_cut content (split_point content max_discord_message_len reopened)
cut_by is_word (some fence) content reopened =
    let at = split_point content (max_discord_message_len - length close_fence) reopened in
    fenced_cut (open_fence is_word (take at content)) content at

unfoldable pub cut : (ℕ → Bool) → Text → ℕ → Text × (Text × ℕ)
unfolding open_fence rfind_newline
cut is_word content reopened =
    cut_by is_word
      (open_fence is_word (take (split_point content max_discord_message_len reopened) content))
      content reopened

abbrev pub add_chunk : Text → Option (List Text) → Option (List Text)
add_chunk chunk none = none
add_chunk chunk (some chunks) = some (chunk ∷ chunks)

-- the loop, on fuel
unfoldable pub build : (ℕ → Bool) → ℕ → Text → ℕ → Option (List Text)
unfolding cut
build is_word zero content reopened = none
build is_word (suc fuel) content reopened =
    let (chunk, (rest, reopened')) = cut is_word content reopened in
    let chunks = build is_word fuel rest reopened' in
    if ltb max_discord_message_len (length content)
    then add_chunk chunk chunks
    else some (if is_empty content then [] else content ∷ [])

unfoldable pub build_message : (ℕ → Bool) → Text → Option (List Text)
unfolding build
build_message is_word content = build is_word (suc (length content)) content 0
