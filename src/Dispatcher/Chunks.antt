-- ===== src/Dispatcher/Chunks.antt =====
-- The rounds of the loop of `build_message`, and the lengths of its chunks.
use discode.Base.{
  Bool, Bool-cases, List, Option, Option-cases, [], any, arith, drop, false, inl, inr, length,
  length-append, length-drop, length-take, ltb, none, not, some, suc, take, true, zero, ℕ, ◌+◌, ◌-◌,
  ◌<◌, ◌∷◌, ◌≡◌, ◌≤◌, ◌⊎◌,
}
use discode.Data.{Text}
use discode.Paths.{split}
use discode.Dispatcher.Message.{
  add_chunk, build, build_message, close_fence, cut, cut_by, fence_tag, fenced_cut, is_tag_char,
  lines, max_discord_message_len, next_opener, open_fence, open_fence_from, plain_cut, reopen,
  rfind_newline, skip_blanks, split_point, starts_newline, tag_run,
}

rfind_newline_found :
    (s : Text) (limit i : ℕ)
    → rfind_newline s limit ≡ some i
    → (i < limit) × (i < length s) × (starts_newline (drop i s) ≡ true)
unfolding rfind_newline
rfind_newline_found [] limit i h = cc
rfind_newline_found (c ∷ s) zero i h = cc
rfind_newline_found (c ∷ s) (suc limit) zero h = elim (Option-cases (rfind_newline s limit)) [
  | inl n ↦ ground arith
  | inr (j, e) ↦ ground arith
]
rfind_newline_found (c ∷ s) (suc limit) (suc i) h = elim (Option-cases (rfind_newline s limit)) [
  | inl n ↦ ground arith
  | inr (j, e) ↦ ground (arith, rfind_newline_found s limit i)
]

length-tag_run : (q : ℕ → Bool) (n : ℕ) (s : Text) → length (take n (tag_run q s)) ≤ n
length-tag_run q n s = ground (arith, length-take n (tag_run q s))

-- a fence line of at most 23 characters
abbrev fence_length : Option Text → ℕ
fence_length none = 0
fence_length (some f) = length f

fence_tag_bounded : (is_word : ℕ → Bool) (line : Text) → fence_length (fence_tag is_word line) ≤ 20
unfolding fence_tag
fence_tag_bounded is_word line =
    ground (arith, length-tag_run (is_tag_char is_word) 20 (drop 3 (skip_blanks line)))

tag_bounded :
    (opener tag : Option Text)
    → fence_length opener ≤ 23
    → fence_length tag ≤ 20
    → fence_length (next_opener opener tag) ≤ 23
tag_bounded opener none h k = h
tag_bounded none (some tag) h k = ground arith
tag_bounded (some f) (some tag) h k = ground arith

fence_bounded :
    (is_word : ℕ → Bool) (opener : Option Text) (ls : List Text)
    → fence_length opener ≤ 23
    → fence_length (open_fence_from is_word opener ls) ≤ 23
unfolding open_fence_from fence_tag
fence_bounded is_word opener [] h = h
fence_bounded is_word opener (line ∷ ls) h =
    fence_bounded is_word (next_opener opener (fence_tag is_word line)) ls
      (tag_bounded opener (fence_tag is_word line) h (fence_tag_bounded is_word line))

-- what the loop still has to take: the content past the fence line that it added
abbrev left : Text → ℕ → ℕ
left content reopened = length content - reopened

-- one round: the chunk fits, the fence line is short, and there is less to take
abbrev IsProgress : Text → ℕ → Text × (Text × ℕ) → Type 0
IsProgress content reopened (chunk, (rest, reopened')) =
    (length chunk ≤ 2000) × (reopened' ≤ 23) × (left rest reopened' < left content reopened)

pub split_point_lem :
    (content : Text) (limit floor : ℕ)
    → floor + 1 < limit
    → limit ≤ length content
    → let at = split_point content limit floor in
      (at ≤ limit) × (floor < at) × ((floor + 1 < at) ⊎ (starts_newline (drop at content) ≡ true))
split_point_lem content limit floor room long = elim (Option-cases (rfind_newline content limit)) [
  | inl n ↦ ground arith
  | inr (i, e) ↦
      let (below, inside, at_newline) = rfind_newline_found content limit i e in
      elim (Bool-cases (ltb floor i)) [ inl y ↦ ground arith | inr f ↦ ground arith ]
]

plain_cut-IsProgress :
    (content : Text) (at reopened : ℕ)
    → at ≤ 2000
    → reopened < at
    → at ≤ length content
    → IsProgress content reopened (plain_cut content at)
plain_cut-IsProgress content at reopened short past inside =
    ground (arith, length-take at content, length-drop at content)

fenced_cut-IsProgress :
    (fence : Option Text) (content : Text) (at reopened : ℕ)
    → fence_length fence ≤ 23
    → at ≤ 1996
    → reopened < at
    → (reopened + 1 < at) ⊎ (starts_newline (drop at content) ≡ true)
    → at ≤ length content
    → IsProgress content reopened (fenced_cut fence content at)
fenced_cut-IsProgress none content at reopened f short past split inside =
    plain_cut-IsProgress content at reopened (omega (arith, short)) past inside
fenced_cut-IsProgress (some fence) content at reopened f short past (inl far) inside = ground (
  arith,
  length-take at content,
  length-drop at content,
  length-append (take at content) close_fence,
  length-append fence (reopen (drop at content)),
)
fenced_cut-IsProgress (some fence) content at reopened f short past (inr cut_there) inside =
    ground (
      arith,
      length-take at content,
      length-drop at content,
      length-append (take at content) close_fence,
      length-append fence (reopen (drop at content)),
    )

cut-IsProgress :
    (is_word : ℕ → Bool) (content : Text) (reopened : ℕ)
    → reopened ≤ 23
    → 2000 < length content
    → IsProgress content reopened (cut is_word content reopened)
unfolding cut
cut-IsProgress is_word content reopened short long =
    by_fence
      (open_fence is_word (take (split_point content max_discord_message_len reopened) content))
  where
    by_fence : (f : Option Text) → IsProgress content reopened (cut_by is_word f content reopened)
    by_fence none =
        let (below, past, ends) =
          split_point_lem content 2000 reopened (omega (arith, short)) (omega (arith, long)) in
        plain_cut-IsProgress content (split_point content 2000 reopened) reopened below past
          (omega (arith, below, long))
    by_fence (some fence) =
        let at = split_point content 1996 reopened in
        let (below, past, ends) =
          split_point_lem content 1996 reopened (omega (arith, short)) (omega (arith, long)) in
        fenced_cut-IsProgress (open_fence is_word (take at content)) content at reopened
          (unfold open_fence in fence_bounded is_word none (lines (take at content)) (omega arith))
          below past ends (omega (arith, below, long))

-- every chunk fits into a message
abbrev pub has_short_chunks : Option (List Text) → Bool
has_short_chunks none = false
has_short_chunks (some chunks) = not (any (λ c. ltb max_discord_message_len (length c)) chunks)

add_chunk_fits :
    (chunk : Text) (chunks : Option (List Text))
    → length chunk ≤ 2000
    → has_short_chunks chunks ≡ true
    → has_short_chunks (add_chunk chunk chunks) ≡ true
add_chunk_fits chunk none small h = h
add_chunk_fits chunk (some chunks) small h = ground arith

build_fits :
    (is_word : ℕ → Bool) (fuel : ℕ) (content : Text) (reopened : ℕ)
    → reopened ≤ 23
    → left content reopened < fuel
    → has_short_chunks (build is_word fuel content reopened) ≡ true
unfolding build
build_fits is_word zero content reopened short enough = ground arith
build_fits is_word (suc fuel) content reopened short enough =
    elim (Bool-cases (ltb max_discord_message_len (length content))) [
      | inl y ↦
          let next = cut is_word content reopened in
          let (small, short', less) =
            cut-IsProgress is_word content reopened short (ground arith) in
          rw (build, y)
            (add_chunk_fits next.0 (build is_word fuel next.1.0 next.1.1) small
              (build_fits is_word fuel next.1.0 next.1.1 short' (omega (arith, less, enough))))
      | inr n ↦ ground arith
    ]

-- However its code blocks are cut, a text is split into messages of at most 2000 characters: the
-- loop of `build_message` ends on every text.
pub build_message_fits :
    (is_word : ℕ → Bool) (content : Text) → has_short_chunks (build_message is_word content) ≡ true
unfolding build_message
build_message_fits is_word content =
    build_fits is_word (suc (length content)) content 0 (omega arith) (omega arith)
