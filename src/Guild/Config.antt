-- ===== src/Guild/Config.antt =====
-- src/discode/bot/session_config_service.py: the overrides of a session. The ciphertext that Fernet
-- gives for a value, or none where it raises, and the scheme and host that `urlparse` finds are
-- arguments. Rows have reserved keys only, as nothing else writes them.
use discode.Base.{
  Bool, List, Option, [], delete_where, false, if◌then◌else◌, is_set, leb, length, map, none, not,
  or_text, rowcount, select, some, true, upsert, ℕ, ◌&&◌, ◌++◌, ◌==◌, ◌||◌, ◌∷◌,
}
use discode.Data.{Database, Ident, Session, Text, ToolDefinition, get_session}
use discode.Text.{codes, is_empty, is_space, starts_with, text_eq}
use discode.Create.Saga.{get_tool}
use discode.Guild.Auth.{GuildAdminRolePolicy, Member, is_guild_admin_authorized}

-- the reserved keys, in the order of their texts
pub data Key : Type 0 where
  api_key base_url model : Key

pub record SessionConfig : Type 0 where
  pub session_id : Ident
  pub key : Key
  pub value : Option Text
  pub value_ciphertext : Option Text

-- what the service works on
pub record Configs : Type 0 where
  pub db : Database
  pub policies : List GuildAdminRolePolicy
  pub session_config : List SessionConfig

abbrev pub key_code : Key → ℕ
key_code Key.api_key = 0
key_code Key.base_url = 1
key_code Key.model = 2

-- what the values of the outside libraries are
pub record Libraries : Type 0 where
  pub encrypt : Text → Option Text
  pub urlparse : Text → Text × Text

-- `string.printable` without vertical tab and form feed
abbrev is_printable : ℕ → Bool
is_printable c = (leb 32 c && leb c 126) || c == 9 || c == 10 || c == 13

abbrev pub all_chars : (ℕ → Bool) → Text → Bool
all_chars p [] = true
all_chars p (c ∷ s) = p c && all_chars p s

abbrev pub dash : Text
dash = codes "-"

unfoldable pub validate_model : Text → Bool
unfolding is_space starts_with
validate_model v =
    not (is_empty v)
    && leb (length v) 128
    && all_chars is_printable v
    && not (starts_with v dash)
    && all_chars (λ c. not (is_space c)) v

unfoldable pub validate_base_url : Libraries → Text → Bool
unfolding text_eq
validate_base_url lib v =
    let (scheme, netloc) = lib.urlparse v in
    not (is_empty v)
    && (text_eq scheme (codes "http") || text_eq scheme (codes "https"))
    && not (is_empty netloc)

unfoldable pub validate_api_key : Text → Bool
validate_api_key v = not (is_empty v) && leb (length v) 1024

-- the validator of `_RESERVED_KEYS`, and whether the key is a secret
unfoldable pub is_valid : Libraries → Key → Text → Bool
unfolding validate_model validate_base_url validate_api_key
is_valid lib Key.model v = validate_model v
is_valid lib Key.base_url v = validate_base_url lib v
is_valid lib Key.api_key v = validate_api_key v

abbrev pub is_secret : Key → Bool
is_secret Key.api_key = true
is_secret _ = false

abbrev pub tool_supports_key : ToolDefinition → Key → Bool
tool_supports_key t Key.model = is_set t.model_flag
tool_supports_key t Key.api_key = is_set t.api_key_env
tool_supports_key t Key.base_url = is_set t.base_url_env

pub data ConfigAnswer : Type 0 where
  unknown_session unauthorized unknown_key invalid_value unknown_tool unsupported_key cannot_encrypt
        stored :
      ConfigAnswer

abbrev pub is_config_of : Ident → Key → SessionConfig → Bool
is_config_of sid key r = r.session_id == sid && key_code r.key == key_code key

abbrev pub set_values : Option Text → Option Text → SessionConfig → SessionConfig
set_values value ct r = record r { value = value; value_ciphertext = ct }

abbrev pub config_row : Ident → Key → Option Text → Option Text → SessionConfig
config_row sid key value ct = record {
  session_id = sid;
  key = key;
  value = value;
  value_ciphertext = ct;
}

abbrev pub upsert_config : Ident → Key → Option Text → Option Text → Configs → Configs
upsert_config sid key value ct s = record s {
  session_config =
      upsert (is_config_of sid key) (config_row sid key value ct) (set_values value ct)
        s.session_config;
}

-- the write, of the ciphertext for a secret
abbrev pub store : Libraries → Ident → Key → Text → Configs → Configs × ConfigAnswer
store lib sid key v s =
    if is_secret key
    then elim (lib.encrypt v) [
      | none ↦ (s, ConfigAnswer.cannot_encrypt)
      | some ct ↦ (upsert_config sid key none (some ct) s, ConfigAnswer.stored)
    ]
    else (upsert_config sid key (some v) none s, ConfigAnswer.stored)

-- an authorized call, for a key that may be unknown
abbrev pub set_authorized :
    Libraries → Ident → Session → Option Key → Text → Configs → Configs × ConfigAnswer
set_authorized lib sid sess none v s = (s, ConfigAnswer.unknown_key)
set_authorized lib sid sess (some key) v s =
    if not (is_valid lib key v)
    then (s, ConfigAnswer.invalid_value)
    else elim (get_tool sess.tool s.db) [
      | none ↦ (s, ConfigAnswer.unknown_tool)
      | some t ↦
          if tool_supports_key t key
          then store lib sid key v s
          else (s, ConfigAnswer.unsupported_key)
    ]

unfoldable pub set_session_config :
    Libraries → Ident → Option Key → Text → Member → Configs → Configs × ConfigAnswer
unfolding is_guild_admin_authorized is_valid
set_session_config lib sid key v m s = elim (get_session sid s.db) [
  | none ↦ (s, ConfigAnswer.unknown_session)
  | some sess ↦
      if is_guild_admin_authorized (or_text sess.guild_id 0) m s.policies
      then set_authorized lib sid sess key v s
      else (s, ConfigAnswer.unauthorized)
]

abbrev pub shown_text : SessionConfig → Text
shown_text r = if is_secret r.key then codes "<set>" else elim r.value [
  | some v ↦ if is_empty v then codes "<unreadable>" else v
  | none ↦ codes "<unreadable>"
]

abbrev pub show_row : SessionConfig → Key × Text
show_row r = (r.key, shown_text r)

abbrev pub shown_of : Ident → Key → List SessionConfig → List (Key × Text)
shown_of sid key l = map show_row (select (is_config_of sid key) l)

-- `ORDER BY key`
unfoldable pub get_session_config : Ident → Configs → List (Key × Text)
get_session_config sid s =
    shown_of sid Key.api_key s.session_config
    ++ shown_of sid Key.base_url s.session_config
    ++ shown_of sid Key.model s.session_config

-- the session is there and the member an admin of its guild
abbrev pub may_clear : Ident → Member → Configs → Bool
may_clear sid m s = elim (get_session sid s.db) [
  | none ↦ false
  | some sess ↦ is_guild_admin_authorized (or_text sess.guild_id 0) m s.policies
]

-- with the number of rows that are deleted; none where the call is refused
unfoldable pub clear_session_config_key : Ident → Key → Member → Configs → Configs × Option ℕ
unfolding is_guild_admin_authorized
clear_session_config_key sid key m s =
    if may_clear sid m s
    then (
      record s { session_config = delete_where (is_config_of sid key) s.session_config },
      some (rowcount (is_config_of sid key) s.session_config),
    )
    else (s, none)

unfoldable pub clear_all_session_config : Ident → Member → Configs → Configs × Option ℕ
unfolding is_guild_admin_authorized
clear_all_session_config sid m s =
    if may_clear sid m s
    then (
      record s { session_config = delete_where (λ r. r.session_id == sid) s.session_config },
      some (rowcount (λ r. r.session_id == sid) s.session_config),
    )
    else (s, none)
