-- ===== src/Paths/Denied.antt =====
-- The denylist of src/discode/security/paths.py against the segments of a path.
use mathlib.Core.List.{append-nil}
use discode.Base.{
  Bool, List, Option, [], any, ap, arith, false, find, if◌then◌else◌, is_set, none, not, refl, some,
  true, ◌&&◌, ◌++◌, ◌||◌, ◌∙◌, ◌∷◌, ◌≡◌,
}
use discode.Data.{Text}
use discode.Text.{codes, is_empty, starts_with, text_eq}
use discode.Paths.{
  DenyReason, check_segments, deny_reason, denylist_roots, denylist_segments, is_denied_filename,
  is_under, split,
}
use discode.Paths.Segments.{are_segments, has_no_sep, is_prefix, path_of, spell, spelled_prefix}

split_segment :
    (s t : Text) (piece : Text) (pieces : List Text)
    → has_no_sep s ≡ true
    → split t ≡ piece ∷ pieces
    → split (s ++ t) ≡ (s ++ piece) ∷ pieces
unfolding split
split_segment [] t piece pieces n h = h
split_segment (c ∷ s) t piece pieces n h = ground (arith, split_segment s t piece pieces)

-- Splitting the spelling of segments gives them back, after an empty piece.
split_spelled : (ss : List Text) → are_segments ss ≡ true → split (spell ss) ≡ [] ∷ ss
unfolding split
split_spelled [] h = refl
split_spelled (s ∷ ss) h =
    ground (arith, split_spelled ss, split_segment s (spell ss) [] ss, append-nil s)

-- the directories of the system, as lists of segments
abbrev pub system_directories : List (List Text)
system_directories =
    (codes "proc" ∷ [])
    ∷ (codes "sys" ∷ [])
    ∷ (codes "dev" ∷ [])
    ∷ (codes "etc" ∷ [])
    ∷ (codes "root" ∷ [])
    ∷ (codes "boot" ∷ [])
    ∷ (codes "private" ∷ codes "etc" ∷ [])
    ∷ (codes "private" ∷ codes "var" ∷ codes "root" ∷ [])
    ∷ (codes "var" ∷ codes "root" ∷ [])
    ∷ []

-- the directories of a home directory that hold credentials
abbrev pub credential_directories : List Text
credential_directories =
    codes ".ssh"
    ∷ codes ".aws"
    ∷ codes ".gnupg"
    ∷ codes ".config"
    ∷ codes ".docker"
    ∷ codes ".kube"
    ∷ codes ".local"
    ∷ codes ".gcloud"
    ∷ codes ".azure"
    ∷ codes ".npm"
    ∷ []

-- the files that hold credentials
abbrev pub credential_files : List Text
credential_files =
    codes ".netrc" ∷ codes ".npmrc" ∷ codes ".git-credentials" ∷ codes ".pgpass" ∷ codes ".env" ∷ []

-- `.env.` and anything behind it
abbrev pub is_dotenv_variant : Text → Bool
is_dotenv_variant s = starts_with s (codes ".env.")

-- a segment that no workspace may contain
abbrev pub is_denied_segment : Text → Bool
is_denied_segment s =
    any (text_eq s) credential_directories
    || (any (text_eq s) credential_files || is_dotenv_variant s)

five_of_six :
    (a b c d e f : Bool)
    → (((a || (b || (c || (d || false)))) || e) || f)
      ≡ ((a || (b || (c || (d || (e || false))))) || f)
five_of_six true b c d e f = refl
five_of_six false true c d e f = refl
five_of_six false false true d e f = refl
five_of_six false false false true e f = refl
five_of_six false false false false true f = refl
five_of_six false false false false false f = refl

is_denied_filename_lem :
    (s : Text) → is_denied_filename s ≡ (any (text_eq s) credential_files || is_dotenv_variant s)
unfolding is_denied_filename
is_denied_filename_lem s =
    five_of_six (text_eq s (codes ".netrc")) (text_eq s (codes ".npmrc"))
      (text_eq s (codes ".git-credentials")) (text_eq s (codes ".pgpass"))
      (text_eq s (codes ".env")) (is_dotenv_variant s)

segment_verdict :
    (empty listed file : Bool) (s : Text) (rest : Option DenyReason)
    → empty ≡ false
    → is_set (
        if empty
        then rest
        else if listed
        then some (DenyReason.denied_segment s)
        else if file
        then some (DenyReason.credential_file s)
        else rest)
      ≡ ((listed || file) || is_set rest)
segment_verdict empty listed file s rest e = ground arith

check_segments_denied :
    (ss : List Text)
    → are_segments ss ≡ true
    → is_set (check_segments ss) ≡ any is_denied_segment ss
unfolding check_segments
check_segments_denied [] h = refl
check_segments_denied (s ∷ ss) h =
    segment_verdict (is_empty s) (any (text_eq s) denylist_segments) (is_denied_filename s) s
      (check_segments ss) (first (is_empty s) (has_no_sep s) (are_segments ss) h)
    ∙ ap (λ b. b || is_set (check_segments ss))
        (ap (λ b. any (text_eq s) denylist_segments || b) (is_denied_filename_lem s))
    ∙ ap (λ b. is_denied_segment s || b)
        (check_segments_denied ss (others (is_empty s) (has_no_sep s) (are_segments ss) h))
  where
    first : (a b c : Bool) → (not a && b && c) ≡ true → a ≡ false
    first a b c e = ground arith

    others : (a b c : Bool) → (not a && b && c) ≡ true → c ≡ true
    others a b c e = ground arith

any_is_find : (q : Text → Bool) (l : List Text) → is_set (find q l) ≡ any q l
any_is_find q [] = refl
any_is_find q (x ∷ l) = ground (arith, any_is_find q l)

check_path :
    (ss : List Text)
    → are_segments ss ≡ true
    → is_set (check_segments (split (path_of ss))) ≡ any is_denied_segment ss
unfolding check_segments split
check_path [] h = refl
check_path (s ∷ ss) h =
    ap (λ parts. is_set (check_segments parts)) (split_spelled (s ∷ ss) h)
    ∙ check_segments_denied (s ∷ ss) h

denied_set :
    (root : Option Text) (rest : Option DenyReason)
    → is_set (elim root [ some r ↦ some (DenyReason.system_path r) | none ↦ rest ])
      ≡ (is_set root || is_set rest)
denied_set none rest = refl
denied_set (some r) rest = refl

abbrev is_empty_path : List Text → Bool
is_empty_path [] = true
is_empty_path (r ∷ rs) = false

under_prefix :
    (ss rs : List Text)
    → are_segments ss ≡ true
    → are_segments rs ≡ true
    → is_empty_path rs ≡ false
    → is_under (path_of ss) (spell rs) ≡ is_prefix rs ss
unfolding is_under text_eq starts_with
under_prefix ss [] h k n = cc
under_prefix [] ([] ∷ rs) h k n = ground arith
under_prefix [] ((c ∷ r) ∷ rs) h k n = ground arith
under_prefix (s ∷ ss) (r ∷ rs) h k n = spelled_prefix (s ∷ ss) (r ∷ rs) h k

under_system :
    (ss : List Text)
    → are_segments ss ≡ true
    → any (is_under (path_of ss)) denylist_roots ≡ any (λ d. is_prefix d ss) system_directories
under_system ss h =
    rw
      (
        under_prefix ss (codes "proc" ∷ []) h refl refl,
        under_prefix ss (codes "sys" ∷ []) h refl refl,
        under_prefix ss (codes "dev" ∷ []) h refl refl,
        under_prefix ss (codes "etc" ∷ []) h refl refl,
        under_prefix ss (codes "root" ∷ []) h refl refl,
        under_prefix ss (codes "boot" ∷ []) h refl refl,
        under_prefix ss (codes "private" ∷ codes "etc" ∷ []) h refl refl,
        under_prefix ss (codes "private" ∷ codes "var" ∷ codes "root" ∷ []) h refl refl,
        under_prefix ss (codes "var" ∷ codes "root" ∷ []) h refl refl,
      )
      refl

-- A canonical path is denied exactly when it is a system directory or below one, or when one of its
-- segments, at any depth, is a directory or file of credentials or begins with `.env.`.
pub deny_reason_complete :
    (ss : List Text)
    → are_segments ss ≡ true
    → is_set (deny_reason (path_of ss))
      ≡ (any (λ d. is_prefix d ss) system_directories || any is_denied_segment ss)
unfolding deny_reason
deny_reason_complete ss h =
    denied_set (find (is_under (path_of ss)) denylist_roots) (check_segments (split (path_of ss)))
    ∙ rw (any_is_find (is_under (path_of ss)) denylist_roots, check_path ss h, under_system ss h)
        refl
