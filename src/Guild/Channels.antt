-- ===== src/Guild/Channels.antt =====
-- The setup commands of src/discode/bot/setup_service.py in any order, against what they mean: which
-- channel each tool of each guild has, and which roles are its admins.
use discode.Base.{
  Bool, List, Option, [], false, if◌then◌else◌, is_set, map_option, none, some, true, ◌&&◌, ◌==◌,
  ◌||◌, ◌∷◌, ◌≡◌,
}
use discode.Data.{Ident}
use discode.Guild.Auth.{
  GuildAdminRolePolicy, Member, Setup, get_policy, is_among, setup_admin_role_set, setup_init,
}
use discode.Guild.Maps.{resolve_tool_channel, setup_map_remove, setup_map_set}

pub data Command : Type 0 where
  init : Ident → Command
  admin_role_set : Bool → Ident → Member → Option Ident → Option Ident → Command
  map_set : Ident → Ident → Ident → Member → Command
  map_remove : Ident → Ident → Member → Command

-- a command, with what it answers: whether it did what it says
unfoldable pub execute : Command → Setup → Setup × Bool
unfolding setup_init setup_admin_role_set setup_map_set setup_map_remove
execute (Command.init guild) s = (setup_init guild s, true)
execute (Command.admin_role_set already guild m role name) s =
    setup_admin_role_set already guild m role name s
execute (Command.map_set guild tool channel m) s = setup_map_set guild tool channel m s
execute (Command.map_remove guild tool m) s = setup_map_remove guild tool m s

unfoldable pub execute_all : List Command → Setup → Setup × List Bool
unfolding execute
execute_all [] s = (s, [])
execute_all (c ∷ cs) s =
    let done = execute c s in let rest = execute_all cs done.0 in (rest.0, done.1 ∷ rest.1)

-- the meaning: the admins of each guild, if it has a policy, and the channel of each of its tools
pub record Meaning : Type 0 where
  pub admins : Ident → Option (Option Ident × Option Ident)
  pub channel : Ident → Ident → Option Ident

abbrev pub role_admits : Option Ident × Option Ident → Member → Bool
role_admits (some role, name) m = is_among role m.roles
role_admits (none, some name) m = is_among name m.role_names
role_admits (none, none) m = false

abbrev pub is_admin : Ident → Member → Meaning → Bool
is_admin guild m a = elim (a.admins guild) [ none ↦ false | some r ↦ role_admits r m ]

abbrev pub at_key {ℓ} : {A : Type ℓ} → Bool → A → A → A
at_key true new old = new
at_key false new old = old

abbrev pub set_admins : Ident → Option Ident × Option Ident → Meaning → Meaning
set_admins guild r a = record a { admins = λ g. at_key (guild == g) (some r) (a.admins g) }

abbrev pub put_channel : Ident → Ident → Option Ident → Meaning → Meaning
put_channel guild tool c a = record a {
  channel = λ g t. at_key (guild == g && tool == t) c (a.channel g t);
}

-- what a command means
unfoldable pub mean : Command → Meaning → Meaning × Bool
mean (Command.init guild) a =
    (if is_set (a.admins guild) then a else set_admins guild (none, none) a, true)
mean (Command.admin_role_set already guild m role name) a =
    if already || is_admin guild m a then (set_admins guild (role, name) a, true) else (a, false)
mean (Command.map_set guild tool channel m) a =
    if is_admin guild m a then (put_channel guild tool (some channel) a, true) else (a, false)
mean (Command.map_remove guild tool m) a =
    if is_admin guild m a
    then (put_channel guild tool none a, is_set (a.channel guild tool))
    else (a, false)

unfoldable pub mean_all : List Command → Meaning → Meaning × List Bool
unfolding mean
mean_all [] a = (a, [])
mean_all (c ∷ cs) a =
    let done = mean c a in let rest = mean_all cs done.0 in (rest.0, done.1 ∷ rest.1)

abbrev pub role_of : GuildAdminRolePolicy → Option Ident × Option Ident
role_of p = (p.role_id, p.role_name_fallback)

-- the tables stand for the meaning
abbrev pub Refines : Setup → Meaning → Type 0
Refines s a =
    ((g : Ident) → map_option role_of (get_policy g s.policies) ≡ a.admins g)
    × ((g t : Ident) → resolve_tool_channel g t s.channel_maps ≡ a.channel g t)
