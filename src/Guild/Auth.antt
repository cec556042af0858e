-- ===== src/Guild/Auth.antt =====
-- src/discode/bot/policies/admin_auth.py, the rows of `guild_admin_role_policy`, and `setup_init`,
-- `setup_admin_role_set` and `setup_admin_role_list` of src/discode/bot/setup_service.py. Times and
-- authors of the rows are left out, as nothing reads them.
use discode.Base.{
  Bool, List, Option, any, arith, false, find, find-upsert, if◌then◌else◌, insert_new, none, refl,
  some, true, upsert, ◌==◌, ◌||◌, ◌≡◌,
}
use discode.Data.{Ident}

pub record GuildAdminRolePolicy : Type 0 where
  pub guild_id : Ident
  pub role_id : Option Ident
  pub role_name_fallback : Option Ident

pub record GuildToolChannelMap : Type 0 where
  pub guild_id : Ident
  pub tool : Ident
  pub channel_id : Ident

-- the tables that the setup commands change, beside the guilds of the database
pub record Setup : Type 0 where
  pub guilds : List Ident
  pub policies : List GuildAdminRolePolicy
  pub channel_maps : List GuildToolChannelMap

-- who calls a command
pub record Member : Type 0 where
  pub user_id : Ident
  pub roles : List Ident
  pub role_names : List Ident

-- Python's `in`
abbrev pub is_among : Ident → List Ident → Bool
is_among x l = any (λ y. x == y) l

abbrev pub is_policy_of : Ident → GuildAdminRolePolicy → Bool
is_policy_of guild p = p.guild_id == guild

abbrev pub get_policy : Ident → List GuildAdminRolePolicy → Option GuildAdminRolePolicy
get_policy guild l = find (is_policy_of guild) l

abbrev pub admits : GuildAdminRolePolicy → Member → Bool
admits p m = elim p.role_id [
  | some role ↦ is_among role m.roles
  | none ↦ elim p.role_name_fallback [ some name ↦ is_among name m.role_names | none ↦ false ]
]

unfoldable pub is_guild_admin_authorized : Ident → Member → List GuildAdminRolePolicy → Bool
is_guild_admin_authorized guild m policies = elim (get_policy guild policies) [
  | none ↦ false
  | some p ↦ admits p m
]

-- `allowed_guild_ids` and `platform_admin_user_ids` of the settings
unfoldable pub is_guild_allowed : List Ident → Option Ident → Bool
is_guild_allowed allowed none = false
is_guild_allowed allowed (some guild) = is_among guild allowed

unfoldable pub can_operate_sessions : List Ident → Ident → Member → List GuildAdminRolePolicy → Bool
unfolding is_guild_admin_authorized
can_operate_sessions admins guild m policies =
    is_among m.user_id admins || is_guild_admin_authorized guild m policies

abbrev pub bootstrap_policy : Ident → GuildAdminRolePolicy
bootstrap_policy guild = record { guild_id = guild; role_id = none; role_name_fallback = none }

unfoldable pub setup_init : Ident → Setup → Setup
setup_init guild s = record s {
  guilds = insert_new (λ g. g == guild) guild s.guilds;
  policies = insert_new (is_policy_of guild) (bootstrap_policy guild) s.policies;
}

abbrev pub set_role : Option Ident → Option Ident → GuildAdminRolePolicy → GuildAdminRolePolicy
set_role role name p = record p { role_id = role; role_name_fallback = name }

abbrev pub upsert_policy : Ident → Option Ident → Option Ident → Setup → Setup
upsert_policy guild role name s = record s {
  policies =
      upsert (is_policy_of guild)
        (record { guild_id = guild; role_id = role; role_name_fallback = name })
        (set_role role name) s.policies;
}

-- `already_authorized` is the caller's check of Discord's manage_guild permission
unfoldable pub setup_admin_role_set :
    Bool → Ident → Member → Option Ident → Option Ident → Setup → Setup × Bool
unfolding is_guild_admin_authorized
setup_admin_role_set already_authorized guild m role name s =
    if already_authorized || is_guild_admin_authorized guild m s.policies
    then (upsert_policy guild role name s, true)
    else (s, false)

unfoldable pub setup_admin_role_list : Ident → Setup → Option Ident × Option Ident
setup_admin_role_list guild s = elim (get_policy guild s.policies) [
  | none ↦ (none, none)
  | some p ↦ (p.role_id, p.role_name_fallback)
]

-- The role that is set is the one that is listed, and exactly its members are admins from then on.
pub setup_admin_role_set_admits :
    (guild : Ident) (m other : Member) (role : Ident) (name : Option Ident) (s : Setup)
    → let after = (setup_admin_role_set true guild m (some role) name s).0 in
      (setup_admin_role_list guild after ≡ (some role, name))
      × (is_guild_admin_authorized guild other after.policies ≡ is_among role other.roles)
unfolding setup_admin_role_set setup_admin_role_list is_guild_admin_authorized
setup_admin_role_set_admits guild m other role name s = ground (
  arith,
  find-upsert (is_policy_of guild)
      (record { guild_id = guild; role_id = some role; role_name_fallback = name })
      (set_role (some role) name) s.policies (ground arith) (λ p e. refl),
)
