-- ===== src/Paths.antt =====
-- src/discode/security/paths.py, and the check of a workspace against the allowed roots of
-- src/discode/runner/saga_create.py. `os.path.realpath` reads the file system: it is a parameter,
-- and `os.sep` is "/".
pub mod Segments
pub mod Denied
use discode.Base.{
  Bool, List, Option, [], any, find, if◌then◌else◌, none, select, some, ℕ, ◌&&◌, ◌++◌, ◌==◌, ◌||◌,
  ◌∷◌,
}
use discode.Data.{AllowedRoot, Database, Ident, Text}
use discode.Text.{codes, is_empty, starts_with, text_eq}

abbrev pub sep : ℕ
sep = b'/'

abbrev pub denylist_segments : List Text
denylist_segments =
    codes ".ssh"
    ∷ codes ".aws"
    ∷ codes ".gnupg"
    ∷ codes ".config"
    ∷ codes ".docker"
    ∷ codes ".kube"
    ∷ codes ".local"
    ∷ codes ".gcloud"
    ∷ codes ".azure"
    ∷ codes ".npm"
    ∷ []

abbrev pub denylist_roots : List Text
denylist_roots =
    codes "/proc"
    ∷ codes "/sys"
    ∷ codes "/dev"
    ∷ codes "/etc"
    ∷ codes "/root"
    ∷ codes "/boot"
    ∷ codes "/private/etc"
    ∷ codes "/private/var/root"
    ∷ codes "/var/root"
    ∷ []

abbrev pub denylist_filenames : List Text
denylist_filenames =
    codes ".netrc" ∷ codes ".npmrc" ∷ codes ".git-credentials" ∷ codes ".pgpass" ∷ []

unfoldable pub is_denied_filename : Text → Bool
unfolding text_eq starts_with
is_denied_filename name =
    any (text_eq name) denylist_filenames
    || text_eq name (codes ".env")
    || starts_with name (codes ".env.")

abbrev pub push : ℕ → List Text → List Text
push c [] = (c ∷ []) ∷ []
push c (piece ∷ pieces) = (c ∷ piece) ∷ pieces

-- `real.split(os.sep)`
unfoldable pub split : Text → List Text
split [] = [] ∷ []
split (c ∷ s) = let rest = split s in if c == sep then [] ∷ rest else push c rest

pub data DenyReason : Type 0 where
  system_path denied_segment credential_file : Text → DenyReason

-- `real == root or real.startswith(root + os.sep)`
unfoldable pub is_under : Text → Text → Bool
unfolding text_eq starts_with
is_under real root = text_eq real root || starts_with real (root ++ sep ∷ [])

-- the loop over the segments
unfoldable pub check_segments : List Text → Option DenyReason
unfolding text_eq is_denied_filename
check_segments [] = none
check_segments (segment ∷ parts) =
    let rest = check_segments parts in
    if is_empty segment
    then rest
    else if any (text_eq segment) denylist_segments
    then some (DenyReason.denied_segment segment)
    else if is_denied_filename segment
    then some (DenyReason.credential_file segment)
    else rest

-- the deny reason of a path that realpath has resolved
unfoldable pub deny_reason : Text → Option DenyReason
unfolding is_under check_segments split
deny_reason real = elim (find (is_under real) denylist_roots) [
  | some root ↦ some (DenyReason.system_path root)
  | none ↦ check_segments (split real)
]

unfoldable pub canonicalize : (Text → Text) → Text → Text × Option DenyReason
unfolding deny_reason
canonicalize realpath path = (realpath path, deny_reason (realpath path))

-- `root.rstrip(os.sep)`
unfoldable pub rstrip_sep : Text → Text
rstrip_sep [] = []
rstrip_sep (c ∷ s) = let rest = rstrip_sep s in if c == sep && is_empty rest then [] else c ∷ rest

unfoldable pub is_within_root : Text → Text → Bool
unfolding text_eq starts_with rstrip_sep
is_within_root path root = text_eq path root || starts_with path (rstrip_sep root ++ sep ∷ [])

-- what `revalidate_cwd` returns: the real path, or why it is refused
pub data Workspace : Type 0 where
  allowed : Text → Workspace
  denied : DenyReason → Workspace
  no_root_match : Workspace

abbrev pub covers : Ident → Text → AllowedRoot → Bool
covers owner path root =
    (root.user_id == 0 || root.user_id == owner) && is_within_root path root.realpath

abbrev pub is_host_root : Ident → Ident → AllowedRoot → Bool
is_host_root guild host root = root.guild_id == guild && root.runner_host_id == host

unfoldable pub revalidate_cwd : (Text → Text) → Text → Ident → Ident → Ident → Database → Workspace
revalidate_cwd realpath cwd guild owner host db =
    let real = (canonicalize realpath cwd).0 in
    elim ((canonicalize realpath cwd).1) [
      | some reason ↦ Workspace.denied reason
      | none ↦
          if any (covers owner real) (select (is_host_root guild host) db.allowed_roots)
          then Workspace.allowed real
          else Workspace.no_root_match
    ]
