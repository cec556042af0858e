-- ===== src/Guild/Aliases.antt =====
-- src/discode/bot/setup_service.py: `add_allowed_root_for_user`, `set_path_alias`,
-- `remove_path_alias` and `resolve_alias_or_path`; and `validate_workspace` of
-- src/discode/bot/start_validation.py, with `canonicalize_path` of
-- src/discode/runner/control_api.py, which it asks. A foreign key or check constraint that fails is
-- an IntegrityError.
use discode.Base.{
  Bool, List, Option, [], any, delete_where, false, find, if◌then◌else◌, insert_new, is_set, leb,
  length, map_option, none, not, rowcount, select, some, true, upsert, ℕ, ◌&&◌, ◌==◌, ◌||◌, ◌∷◌,
}
use discode.Data.{AllowedRoot, Database, HostStatus, Ident, RunnerHost, Text}
use discode.Text.{is_empty, starts_with, text_eq}
use discode.Paths.{DenyReason, canonicalize, is_within_root, sep}

pub record PathAlias : Type 0 where
  pub guild_id : Ident
  pub alias : Text
  pub realpath : Text

-- the database, and the table of aliases
pub record Workspaces : Type 0 where
  pub db : Database
  pub path_aliases : List PathAlias

-- the real path, or the exception
pub data RootAnswer : Type 0 where
  registered : Text → RootAnswer
  denied : DenyReason → RootAnswer
  invalid_alias_format integrity_error : RootAnswer

abbrev pub has_guild : Ident → Database → Bool
has_guild guild db = any (λ g. g == guild) db.guilds

-- the columns of `allowed_roots_uq`
abbrev pub is_root : Ident → Ident → Ident → Text → AllowedRoot → Bool
is_root guild user host real r =
    r.guild_id == guild && r.user_id == user && r.runner_host_id == host && text_eq r.realpath real

-- `INSERT INTO allowed_roots ... ON CONFLICT DO NOTHING`
abbrev pub insert_root : Ident → Ident → Ident → Text → Database → Database
insert_root guild user host real db = record db {
  allowed_roots =
      insert_new (is_root guild user host real)
        (record { guild_id = guild; runner_host_id = host; user_id = user; realpath = real })
        db.allowed_roots;
}

-- the CHECK constraints `realpath LIKE '/%'`, and the foreign key on guilds
abbrev pub is_storable : Ident → Text → Database → Bool
is_storable guild real db = has_guild guild db && starts_with real (sep ∷ [])

unfoldable pub add_allowed_root_for_user :
    (Text → Text) → Ident → Ident → Ident → Text → Workspaces → Workspaces × RootAnswer
add_allowed_root_for_user realpath guild user host path w =
    let real = (canonicalize realpath path).0 in
    elim ((canonicalize realpath path).1) [
      | some reason ↦ (w, RootAnswer.denied reason)
      | none ↦
          if is_storable guild real w.db
          then (record w { db = insert_root guild user host real w.db }, RootAnswer.registered real)
          else (w, RootAnswer.integrity_error)
    ]

abbrev pub is_lower : ℕ → Bool
is_lower c = leb b'a' c && leb c b'z'

abbrev is_alias_char : ℕ → Bool
is_alias_char c = is_lower c || (leb b'0' c && leb c b'9') || c == b'_' || c == b'-'

abbrev all_alias_chars : Text → Bool
all_alias_chars [] = true
all_alias_chars (c ∷ s) = is_alias_char c && all_alias_chars s

-- `^[a-z][a-z0-9_-]{0,63}$` of PostgreSQL, whose `$` is the end of the text
unfoldable pub is_alias : Text → Bool
is_alias [] = false
is_alias (c ∷ s) = is_lower c && all_alias_chars s && leb (length s) 63

-- the text without a newline at its end
abbrev pub chop_newline : Text → Text
chop_newline [] = []
chop_newline (c ∷ s) =
    let rest = chop_newline s in if is_empty s then if c == b'\n' then [] else c ∷ [] else c ∷ rest

-- `_ALIAS_RE.match`: Python's `$` also matches before a newline at the end
unfoldable pub alias_re : Text → Bool
unfolding is_alias
alias_re s = is_alias s || is_alias (chop_newline s)

abbrev pub is_alias_of : Ident → Text → PathAlias → Bool
is_alias_of guild alias a = a.guild_id == guild && text_eq a.alias alias

abbrev pub set_realpath : Text → PathAlias → PathAlias
set_realpath real a = record a { realpath = real }

abbrev pub upsert_alias : Ident → Text → Text → List PathAlias → List PathAlias
upsert_alias guild alias real l =
    upsert (is_alias_of guild alias) (record { guild_id = guild; alias = alias; realpath = real })
      (set_realpath real) l

unfoldable pub set_path_alias :
    (Text → Text) → Ident → Text → Text → Ident → Workspaces → Workspaces × RootAnswer
unfolding alias_re
set_path_alias realpath guild alias path host w =
    let real = (canonicalize realpath path).0 in
    let stored : Workspaces × RootAnswer = elim ((canonicalize realpath path).1) [
      | some reason ↦ (w, RootAnswer.denied reason)
      | none ↦
          if is_storable guild real w.db && is_alias alias
          then (
            record {
              db = insert_root guild 0 host real w.db;
              path_aliases = upsert_alias guild alias real w.path_aliases;
            },
            RootAnswer.registered real,
          )
          else (w, RootAnswer.integrity_error)
    ] in
    if not (alias_re alias) then (w, RootAnswer.invalid_alias_format) else stored

unfoldable pub remove_path_alias : Ident → Text → Workspaces → Workspaces × Bool
remove_path_alias guild alias w = (
  record w { path_aliases = delete_where (is_alias_of guild alias) w.path_aliases },
  not (rowcount (is_alias_of guild alias) w.path_aliases == 0),
)

-- the path, or none for `unknown_alias`
unfoldable pub resolve_alias_or_path : Ident → Text → Workspaces → Option Text
resolve_alias_or_path guild raw w =
    if starts_with raw (sep ∷ [])
    then some raw
    else map_option (λ a. a.realpath) (find (is_alias_of guild raw) w.path_aliases)

-- what the runner says of directories, and whether it can be asked
pub record Runner : Type 0 where
  pub realpath : Text → Text
  pub is_dir : Text → Bool
  pub reachable : Bool

-- the path, or why a thread is not made for it
pub data Validation : Type 0 where
  valid : Text → Validation
  unavailable denied_workspace runner_offline no_allowed_root : Validation

abbrev is_online_host : RunnerHost → Bool
is_online_host h = elim h.status [ HostStatus.online ↦ true | HostStatus.offline ↦ false ]

abbrev pub host_online : Ident → Database → Bool
host_online host db = elim (find (λ h. h.id == host) db.runner_hosts) [
  | none ↦ false
  | some h ↦ is_online_host h
]

-- `user_id IN ('', owner)`
abbrev pub is_root_for : Ident → Ident → Ident → AllowedRoot → Bool
is_root_for guild host owner r =
    r.guild_id == guild && r.runner_host_id == host && (r.user_id == 0 || r.user_id == owner)

unfoldable pub validate_workspace : Runner → Text → Ident → Ident → Ident → Database → Validation
validate_workspace runner cwd guild owner host db =
    let path = (canonicalize runner.realpath cwd).0 in
    if not runner.reachable
    then Validation.unavailable
    else if is_set ((canonicalize runner.realpath cwd).1) || not (runner.is_dir path)
    then Validation.denied_workspace
    else if not (host_online host db)
    then Validation.runner_offline
    else if not (
        any (λ r. is_within_root path r.realpath)
          (select (is_root_for guild host owner) db.allowed_roots))
    then Validation.no_allowed_root
    else Validation.valid path
