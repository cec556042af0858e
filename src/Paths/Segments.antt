-- ===== src/Paths/Segments.antt =====
-- src/discode/security/paths.py against paths as lists of segments: what realpath returns is the
-- spelling of one.
use discode.Base.{Bool, List, [], arith, false, not, refl, true, ◌&&◌, ◌++◌, ◌==◌, ◌||◌, ◌∷◌, ◌≡◌}
use discode.Data.{Text}
use discode.Text.{is_empty, starts_with, text_eq}
use discode.Paths.{is_within_root, rstrip_sep, sep}

-- `/a/b` for a and b, and the empty text for no segment
abbrev pub spell : List Text → Text
spell [] = []
spell (s ∷ ss) = sep ∷ s ++ spell ss

-- the canonical path: `/` for no segment
abbrev pub path_of : List Text → Text
path_of [] = sep ∷ []
path_of (s ∷ ss) = spell (s ∷ ss)

abbrev pub has_no_sep : Text → Bool
has_no_sep [] = true
has_no_sep (c ∷ s) = not (c == sep) && has_no_sep s

-- every segment is non-empty and has no separator
abbrev pub are_segments : List Text → Bool
are_segments [] = true
are_segments (s ∷ ss) = not (is_empty s) && has_no_sep s && are_segments ss

-- `rs` is a prefix of `ps`, segment by segment: what lies at or below a directory
abbrev pub is_prefix : List Text → List Text → Bool
is_prefix [] ps = true
is_prefix (r ∷ rs) [] = false
is_prefix (r ∷ rs) (p ∷ ps) = text_eq p r && is_prefix rs ps

-- the test of `is_within_root` on spelled segments
abbrev pub at_or_below : Text → Text → Bool
at_or_below path root = text_eq path root || starts_with path (root ++ sep ∷ [])

-- The first segments agree, or the paths part.
segment_step :
    (p r : Text) (ps rs : List Text) (b : Bool)
    → has_no_sep p ≡ true
    → has_no_sep r ≡ true
    → at_or_below (spell ps) (spell rs) ≡ b
    → at_or_below (p ++ spell ps) (r ++ spell rs) ≡ (text_eq p r && b)
unfolding text_eq starts_with
segment_step [] [] ps rs b hp hr h = h
segment_step [] (d ∷ r) [] rs b hp hr h = ground arith
segment_step [] (d ∷ r) (q ∷ ps) rs b hp hr h = ground arith
segment_step (c ∷ p) [] ps [] b hp hr h = ground arith
segment_step (c ∷ p) [] ps (q ∷ rs) b hp hr h = ground arith
segment_step (c ∷ p) (d ∷ r) ps rs b hp hr h = ground (arith, segment_step p r ps rs b)

pub spelled_prefix :
    (ps rs : List Text)
    → are_segments ps ≡ true
    → are_segments rs ≡ true
    → at_or_below (spell ps) (spell rs) ≡ is_prefix rs ps
unfolding text_eq starts_with
spelled_prefix [] [] hp hr = refl
spelled_prefix (p ∷ ps) [] hp hr = ground arith
spelled_prefix [] (r ∷ rs) hp hr = ground arith
spelled_prefix (p ∷ ps) (r ∷ rs) hp hr =
    ground (arith, spelled_prefix ps rs, segment_step p r ps rs (is_prefix rs ps))

rstrip_segment :
    (s t : Text) → has_no_sep s ≡ true → rstrip_sep t ≡ t → rstrip_sep (s ++ t) ≡ s ++ t
unfolding rstrip_sep
rstrip_segment [] t n h = h
rstrip_segment (c ∷ s) t n h = ground (arith, rstrip_segment s t)

rstrip_spelled : (rs : List Text) → are_segments rs ≡ true → rstrip_sep (spell rs) ≡ spell rs
unfolding rstrip_sep
rstrip_spelled [] h = refl
rstrip_spelled ([] ∷ rs) h = ground arith
rstrip_spelled ((c ∷ r) ∷ rs) h =
    ground (arith, rstrip_spelled rs, rstrip_segment (c ∷ r) (spell rs))

rstrip_path : (rs : List Text) → are_segments rs ≡ true → rstrip_sep (path_of rs) ≡ spell rs
rstrip_path [] h = unfold rstrip_sep in refl
rstrip_path (r ∷ rs) h = rstrip_spelled (r ∷ rs) h

-- For canonical paths, `is_within_root` says whether the root is a prefix of the path segment by
-- segment: a sibling directory whose name only begins like the root's is not within it, and
-- everything is within `/`.
pub is_within_root_prefix :
    (ps rs : List Text)
    → are_segments ps ≡ true
    → are_segments rs ≡ true
    → is_within_root (path_of ps) (path_of rs) ≡ is_prefix rs ps
unfolding is_within_root text_eq starts_with
is_within_root_prefix [] [] hp hr = refl
is_within_root_prefix (p ∷ ps) [] hp hr = rw (rstrip_path [] hr) (ground arith)
is_within_root_prefix [] ([] ∷ rs) hp hr = ground arith
is_within_root_prefix [] ((c ∷ r) ∷ rs) hp hr = rw (rstrip_path ((c ∷ r) ∷ rs) hr) (ground arith)
is_within_root_prefix (p ∷ ps) (r ∷ rs) hp hr =
    rw (rstrip_path (r ∷ rs) hr) (spelled_prefix (p ∷ ps) (r ∷ rs) hp hr)
